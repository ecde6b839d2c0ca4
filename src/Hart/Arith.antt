-- ===== src/Hart/Arith.antt =====
-- The values that the arithmetic cases of `hart_step` compute (src/hart.c).
pub mod Exact
use rve.Base.{ℕ, ◌+◌, ◌-◌, ◌*◌, ◌/◌, ◌%◌, ◌^◌, ◌&&◌, ◌==◌, if◌then◌else◌, bit_and}
use rve.Word.{shl32, shr32, sar32, signed, to_u32, to_u64}
use rve.Word.Int.{◌*ℤ◌, tdiv, tmod}

-- `wide = (dword)a + b; (word)wide`
unfoldable pub add_word : ℕ → ℕ → ℕ
add_word a b = (a + b) % 2 ^ 64 % 2 ^ 32

-- `wide = (dword)a - b; (word)wide`
unfoldable pub sub_word : ℕ → ℕ → ℕ
sub_word a b = (a + 2 ^ 64 - b) % 2 ^ 64 % 2 ^ 32

unfoldable pub mul : ℕ → ℕ → ℕ
mul a b = to_u64 (signed a *ℤ signed b) % 2 ^ 32

unfoldable pub mulh : ℕ → ℕ → ℕ
mulh a b = to_u64 (signed a *ℤ signed b) / 2 ^ 32 % 2 ^ 32

-- The signed factor is converted to `u64` first.
unfoldable pub mulhsu : ℕ → ℕ → ℕ
mulhsu a b = (to_u64 (signed a) * b) % 2 ^ 64 / 2 ^ 32 % 2 ^ 32

unfoldable pub mulhu : ℕ → ℕ → ℕ
mulhu a b = (a * b) % 2 ^ 64 / 2 ^ 32 % 2 ^ 32

unfoldable pub div : ℕ → ℕ → ℕ
div a b =
    if b == 0
    then 0xFFFF_FFFF
    else if a == 0x8000_0000 && b == 0xFFFF_FFFF
    then 0x8000_0000
    else to_u32 (tdiv (signed a) (signed b))

unfoldable pub divu : ℕ → ℕ → ℕ
divu a b = if b == 0 then 0xFFFF_FFFF else a / b

unfoldable pub rem : ℕ → ℕ → ℕ
rem a b =
    if b == 0
    then a
    else if a == 0x8000_0000 && b == 0xFFFF_FFFF
    then 0
    else to_u32 (tmod (signed a) (signed b))

unfoldable pub remu : ℕ → ℕ → ℕ
remu a b = if b == 0 then a else a % b

-- Shifts by the five lowest bits of the second operand.
unfoldable pub sll : ℕ → ℕ → ℕ
sll a b = shl32 a (bit_and b 0x1F)

unfoldable pub srl : ℕ → ℕ → ℕ
srl a b = shr32 a (bit_and b 0x1F)

unfoldable pub sra : ℕ → ℕ → ℕ
sra a b = sar32 a (bit_and b 0x1F)
