-- ===== src/Hart/Manual.antt =====
-- The results of the arithmetic instructions as the manual describes them, on the integers that the
-- registers stand for, against the C expressions of src/hart.c.
use rve.Base.{
  ℕ, ◌+◌, ◌-◌, ◌*◌, ◌/◌, ◌%◌, ◌^◌, ◌≡◌, ap, ◌∙◌, arith, ◌==◌, ltb, if◌then◌else◌, to_word, bit_and,
  bit_or, bit_xor, bit_and_mask, bit_and-lt, bit_or-lt, bit_xor-lt,
}
use native.Mathlib.Nat.{div-le_self, mod-le}
use rve.Word.{IsWord, signed, to_u32, to_u64, sar32, add32, signed_ltb}
use rve.Word.Int.{ℤ, pos, negsuc, ◌+ℤ◌, ◌*ℤ◌, sub_ℕ, pos_part, neg_part, ltb_ℤ, tdiv, tmod}
use rve.Decoder.Types.{Op}
use rve.Hart.Arith.{
  add_word, sub_word, mul, mulh, mulhsu, mulhu, div, divu, rem, remu, sll, srl, sra,
}
use rve.Hart.Arith.Exact.{minus_mul}

abbrev pub minus : ℤ → ℤ → ℤ
minus a b = sub_ℕ (pos_part a + neg_part b) (neg_part a + pos_part b)

-- The quotient by a power of two, rounded down.
abbrev pub floor_shift : ℤ → ℕ → ℤ
floor_shift (pos n) k = pos (n / 2 ^ k)
floor_shift (negsuc n) k = negsuc (n / 2 ^ k)

-- The result of an operation on two registers.
unfoldable pub manual : Op → ℕ → ℕ → ℤ
manual Op.add a b = signed a +ℤ signed b
manual Op.sub a b = minus (signed a) (signed b)
manual Op.sll a b = pos (a * 2 ^ (b % 32))
manual Op.slt a b = pos (to_word (ltb_ℤ (signed a) (signed b)))
manual Op.sltu a b = pos (to_word (ltb a b))
manual Op.xor a b = pos (bit_xor a b)
manual Op.srl a b = pos (a / 2 ^ (b % 32))
manual Op.sra a b = floor_shift (signed a) (b % 32)
manual Op.or a b = pos (bit_or a b)
manual Op.and a b = pos (bit_and a b)
manual Op.mul a b = signed a *ℤ signed b
manual Op.mulh a b = floor_shift (signed a *ℤ signed b) 32
manual Op.mulhsu a b = floor_shift (signed a *ℤ pos b) 32
manual Op.mulhu a b = pos (a * b / 2 ^ 32)
manual Op.div a b = if b == 0 then negsuc 0 else tdiv (signed a) (signed b)
manual Op.divu a b = if b == 0 then pos (2 ^ 32 - 1) else pos (a / b)
manual Op.rem a b = if b == 0 then signed a else tmod (signed a) (signed b)
manual Op.remu a b = if b == 0 then pos a else pos (a % b)
manual _ a b = pos 0

sar32_floor : (a k : ℕ) → IsWord a → sar32 a k ≡ to_u32 (floor_shift (signed a) k)
sar32_floor a k h = ground (arith, div-le_self a (2 ^ k), div-le_self (0xFFFF_FFFF - a) (2 ^ k))

-- The two words of a 64-bit pattern.
to_u64_low : (z : ℤ) → to_u64 z % 2 ^ 32 ≡ to_u32 z
to_u64_low (pos n) = omega arith
to_u64_low (negsuc n) = omega arith

to_u64_high : (z : ℤ) → to_u64 z / 2 ^ 32 % 2 ^ 32 ≡ to_u32 (floor_shift z 32)
to_u64_high (pos n) = omega arith
to_u64_high (negsuc n) = omega arith

-- The product in `u64` of a converted signed factor and an unsigned one.
to_u64_product :
    (a b : ℕ) → IsWord a → IsWord b → to_u64 (signed a) * b % 2 ^ 64 ≡ to_u64 (signed a *ℤ pos b)
unfolding ◌*ℤ◌
to_u64_product a b h g = ground (arith, minus_mul (2 ^ 64) (2 ^ 32 - a) b (omega arith))

module _ (a b : ℕ) (h : IsWord a) (g : IsWord b) where
  pub add-manual : add_word a b ≡ to_u32 (manual Op.add a b)
  unfolding add_word manual ◌+ℤ◌
  add-manual = ground arith

  pub addi-manual : add32 a b ≡ to_u32 (manual Op.add a b)
  unfolding manual ◌+ℤ◌
  addi-manual = ground arith

  pub sub-manual : sub_word a b ≡ to_u32 (manual Op.sub a b)
  unfolding sub_word manual
  sub-manual = ground arith

  pub sll-manual : sll a b ≡ to_u32 (manual Op.sll a b)
  unfolding sll manual
  sll-manual = ap (λ k. (a * 2 ^ k) % 2 ^ 32) (bit_and_mask 5 b)

  pub srl-manual : srl a b ≡ to_u32 (manual Op.srl a b)
  unfolding srl manual
  srl-manual = ap (λ k. a / 2 ^ k) (bit_and_mask 5 b) ∙ omega (arith, div-le_self a (2 ^ (b % 32)))

  pub sra-manual : sra a b ≡ to_u32 (manual Op.sra a b)
  unfolding sra manual
  sra-manual = ap (sar32 a) (bit_and_mask 5 b) ∙ sar32_floor a (b % 32) h

  pub mul-manual : mul a b ≡ to_u32 (manual Op.mul a b)
  unfolding mul manual
  mul-manual = to_u64_low (signed a *ℤ signed b)

  pub mulh-manual : mulh a b ≡ to_u32 (manual Op.mulh a b)
  unfolding mulh manual
  mulh-manual = to_u64_high (signed a *ℤ signed b)

  pub mulhsu-manual : mulhsu a b ≡ to_u32 (manual Op.mulhsu a b)
  unfolding mulhsu manual
  mulhsu-manual =
      ap (λ n. n / 2 ^ 32 % 2 ^ 32) (to_u64_product a b h g) ∙ to_u64_high (signed a *ℤ pos b)

  pub mulhu-manual : mulhu a b ≡ to_u32 (manual Op.mulhu a b)
  unfolding mulhu manual
  mulhu-manual = omega arith

  pub div-manual : div a b ≡ to_u32 (manual Op.div a b)
  unfolding div manual tdiv
  div-manual = ground arith

  pub divu-manual : divu a b ≡ to_u32 (manual Op.divu a b)
  unfolding divu manual
  divu-manual = ground (arith, div-le_self a b)

  pub rem-manual : rem a b ≡ to_u32 (manual Op.rem a b)
  unfolding rem manual tmod
  rem-manual = ground arith

  pub remu-manual : remu a b ≡ to_u32 (manual Op.remu a b)
  unfolding remu manual
  remu-manual = ground (arith, mod-le a b)

  pub slt-manual : to_word (signed_ltb a b) ≡ to_u32 (manual Op.slt a b)
  unfolding manual
  slt-manual = ground arith

  pub sltu-manual : to_word (ltb a b) ≡ to_u32 (manual Op.sltu a b)
  unfolding manual
  sltu-manual = ground arith

  pub xor-manual : bit_xor a b ≡ to_u32 (manual Op.xor a b)
  unfolding manual
  xor-manual = omega (arith, bit_xor-lt 32 a b h g)

  pub or-manual : bit_or a b ≡ to_u32 (manual Op.or a b)
  unfolding manual
  or-manual = omega (arith, bit_or-lt 32 a b h g)

  pub and-manual : bit_and a b ≡ to_u32 (manual Op.and a b)
  unfolding manual
  and-manual = omega (arith, bit_and-lt 32 a b h)
