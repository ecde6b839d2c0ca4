-- ===== src/Hart/Words.antt =====
-- The results of the arithmetic of src/hart.c are words.
use rve.Base.{ℕ, ◌^◌, arith, bit_and}
use native.Mathlib.Nat.{div-le_self, mod-le}
use rve.Word.{IsWord, to_u32, signed}
use rve.Word.Int.{ℤ, pos, negsuc, tdiv, tmod}
use rve.Decoder.Words.{sar32-IsWord}
use rve.Hart.Arith.{
  add_word, sub_word, mul, mulh, mulhsu, mulhu, div, divu, rem, remu, sll, srl, sra,
}

pub mul-IsWord : (a b : ℕ) → IsWord (mul a b)
unfolding mul
mul-IsWord a b = ground arith

pub to_u32-IsWord : (z : ℤ) → IsWord (to_u32 z)
to_u32-IsWord (pos n) = ground arith
to_u32-IsWord (negsuc n) = ground arith

pub div-IsWord : (a b : ℕ) → IsWord (div a b)
unfolding div
div-IsWord a b = ground (arith, to_u32-IsWord (tdiv (signed a) (signed b)))

pub rem-IsWord : (a b : ℕ) → IsWord a → IsWord (rem a b)
unfolding rem
rem-IsWord a b h = ground (arith, to_u32-IsWord (tmod (signed a) (signed b)))

pub divu-IsWord : (a b : ℕ) → IsWord a → IsWord (divu a b)
unfolding divu
divu-IsWord a b h = ground (arith, div-le_self a b)

pub remu-IsWord : (a b : ℕ) → IsWord a → IsWord (remu a b)
unfolding remu
remu-IsWord a b h = ground (arith, mod-le a b)

pub high-IsWord : (a b : ℕ) → IsWord (mulh a b) × IsWord (mulhsu a b) × IsWord (mulhu a b)
unfolding mulh mulhsu mulhu
high-IsWord a b = (ground arith, ground arith, ground arith)

pub shifts-IsWord : (a b : ℕ) → IsWord a → IsWord (sll a b) × IsWord (srl a b) × IsWord (sra a b)
unfolding sll srl sra
shifts-IsWord a b h = (
  ground arith,
  ground (arith, div-le_self a (2 ^ bit_and b 0x1F)),
  sar32-IsWord a (bit_and b 0x1F) h,
)

pub sums-IsWord : (a b : ℕ) → IsWord (add_word a b) × IsWord (sub_word a b)
unfolding add_word sub_word
sums-IsWord a b = (ground arith, ground arith)
