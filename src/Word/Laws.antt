-- ===== src/Word/Laws.antt =====
-- What `sext` and the casts compute.
use rve.Base.{ℕ, ◌+◌, ◌-◌, ◌*◌, ◌%◌, ◌^◌, ◌≡◌, arith, ltb, if◌then◌else◌}
use rve.Word.{IsWord, signed, to_u32, sext}

pub to_u32-signed : (x : ℕ) → IsWord x → to_u32 (signed x) ≡ x
to_u32-signed x h = ground arith

-- A field of `2 * half` values, sign extended to a word.
abbrev pub extend : ℕ → ℕ → ℕ
extend half x = if ltb x half then x else x + 2 ^ 32 - 2 * half

pub sext_8 : (x : ℕ) → sext x 8 ≡ extend 0x80 (x % 0x100)
unfolding sext
sext_8 x = ground arith

pub sext_12 : (x : ℕ) → sext x 12 ≡ extend 0x800 (x % 0x1000)
unfolding sext
sext_12 x = ground arith

pub sext_13 : (x : ℕ) → sext x 13 ≡ extend 0x1000 (x % 0x2000)
unfolding sext
sext_13 x = ground arith

pub sext_16 : (x : ℕ) → sext x 16 ≡ extend 0x8000 (x % 0x1_0000)
unfolding sext
sext_16 x = ground arith

pub sext_21 : (x : ℕ) → sext x 21 ≡ extend 0x10_0000 (x % 0x20_0000)
unfolding sext
sext_21 x = ground arith
