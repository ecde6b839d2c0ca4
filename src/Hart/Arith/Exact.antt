-- ===== src/Hart/Arith/Exact.antt =====
-- The arithmetic cases of `hart_step` against the integers that the words stand for (src/hart.c).
use rve.Base.{
  ℕ, suc, ◌+◌, ◌-◌, ◌*◌, ◌/◌, ◌%◌, ◌^◌, ◌<◌, ◌≤◌, ◌≡◌, ap, ◌∙◌, sym, arith, ◌==◌, ◌&&◌, Bool-cases,
  inl, inr,
}
use native.Mathlib.Nat.{add-mul, mul-add, div-add-mod', mod-lt, div-le_self, mul-le-mul}
use rve.Word.{IsWord, signed, to_u32, to_u64}
use rve.Word.Laws.{to_u32-signed}
use rve.Word.Int.{ℤ, pos, negsuc, ◌*ℤ◌, ◌+ℤ◌, sub_ℕ, pos_part, neg_part, tdiv, tmod, nat_abs}
use rve.Hart.Arith.{mul, mulh, mulhu, div, divu, rem, remu}

pub minus_mul : (c x y : ℕ) → x ≤ c → (c - x) * y + x * y ≡ c * y
minus_mul c x y h = sym (add-mul (c - x) x y) ∙ ap (λ (t : ℕ). t * y) (omega arith)

mul_minus : (c x y : ℕ) → x ≤ c → y * (c - x) + y * x ≡ y * c
mul_minus c x y h = sym (mul-add y (c - x) x) ∙ ap (λ (t : ℕ). y * t) (omega arith)

-- The conversion of a difference.
to_u64-sub_ℕ : (p q : ℕ) → (to_u64 (sub_ℕ p q) + q) % 2 ^ 64 ≡ p % 2 ^ 64
to_u64-sub_ℕ p q = ground arith

pub mul_lem : (a b : ℕ) → IsWord a → IsWord b → mul a b ≡ a * b % 2 ^ 32
unfolding mul ◌*ℤ◌
mul_lem a b h g = ground (
  arith,
  minus_mul (2 ^ 32) a b (omega arith),
  mul_minus (2 ^ 32) b a (omega arith),
  minus_mul (2 ^ 32) a (2 ^ 32 - b) (omega arith),
)

product_bound : (a b c d : ℕ) → a ≤ c → b ≤ d → a * b ≤ c * d
product_bound a b c d h g = mul-le-mul h g

-- For all words, the result of MULHU times 2^32 plus the result of MUL is the product of the
-- operands, without wrap-around.
pub mul-mulhu : (a b : ℕ) → IsWord a → IsWord b → mulhu a b * 2 ^ 32 + mul a b ≡ a * b
unfolding mulhu
mul-mulhu a b h g =
    omega (
      arith,
      mul_lem a b h g,
      product_bound a b 0xFFFF_FFFF 0xFFFF_FFFF (omega arith) (omega arith),
    )

-- A 64-bit pattern as two words, the higher one signed.
halves :
    (z : ℤ)
    → pos_part z < 2 ^ 63
    → neg_part z ≤ 2 ^ 63
    → signed (to_u64 z / 2 ^ 32 % 2 ^ 32) *ℤ pos (2 ^ 32) +ℤ pos (to_u64 z % 2 ^ 32) ≡ z
unfolding ◌*ℤ◌ ◌+ℤ◌
halves (pos n) h g = ground arith
halves (negsuc n) h g = ground arith

signed-bound :
    (a b : ℕ)
    → IsWord a
    → IsWord b
    → (pos_part (signed a *ℤ signed b) < 2 ^ 63) × (neg_part (signed a *ℤ signed b) ≤ 2 ^ 63)
unfolding ◌*ℤ◌
signed-bound a b h g =
    let f =
      product_bound (nat_abs (signed a)) (nat_abs (signed b)) (2 ^ 31) (2 ^ 31) (ground arith)
        (ground arith) in
    (ground arith, ground arith)

-- For all words, the result of MULH, read as signed, times 2^32 plus the result of MUL is the
-- product of the operands read as signed integers, without wrap-around.
pub mul-mulh :
    (a b : ℕ)
    → IsWord a
    → IsWord b
    → signed (mulh a b) *ℤ pos (2 ^ 32) +ℤ pos (mul a b) ≡ signed a *ℤ signed b
unfolding mulh mul
mul-mulh a b h g = let x = signed-bound a b h g in halves (signed a *ℤ signed b) x.0 x.1

-- The quotient and the remainder give the dividend back, on the words for all of them.
div-mod_ints :
    (x y : ℤ)
    → 0 < nat_abs y
    → nat_abs x ≤ 2 ^ 31
    → nat_abs y ≤ 2 ^ 31
    → (to_u32 (tdiv x y) * to_u32 y + to_u32 (tmod x y)) % 2 ^ 32 ≡ to_u32 x
unfolding tdiv tmod
div-mod_ints (pos a) (pos b) p h g = ground (arith, div-add-mod' a b, div-le_self a b, mod-lt a p)
div-mod_ints (pos a) (negsuc b) p h g =
    let q = a / suc b in
    ground (
      arith,
      div-add-mod' a (suc b),
      div-le_self a (suc b),
      mod-lt a p,
      minus_mul (2 ^ 32) q (2 ^ 32 - 1 - b) (omega (arith, div-le_self a (suc b))),
      mul_minus (2 ^ 32) (suc b) q (omega arith),
    )
div-mod_ints (negsuc a) (pos b) p h g =
    let q = suc a / b in
    ground (
      arith,
      div-add-mod' (suc a) b,
      div-le_self (suc a) b,
      mod-lt (suc a) p,
      minus_mul (2 ^ 32) q b (omega (arith, div-le_self (suc a) b)),
    )
div-mod_ints (negsuc a) (negsuc b) p h g =
    let q = suc a / suc b in
    ground (
      arith,
      div-add-mod' (suc a) (suc b),
      div-le_self (suc a) (suc b),
      mod-lt (suc a) p,
      mul_minus (2 ^ 32) (suc b) q (omega arith),
    )

-- For all words, the signed quotient times the divisor plus the signed remainder is the dividend
-- modulo 2^32, with division by zero and overflow included.
pub div-rem : (a b : ℕ) → IsWord a → IsWord b → (div a b * b + rem a b) % 2 ^ 32 ≡ a
unfolding div rem
div-rem a b h g = elim (Bool-cases (b == 0)) [
  | inl e ↦ rw e (ground arith)
  | inr e ↦ elim (Bool-cases (a == 0x8000_0000 && b == 0xFFFF_FFFF)) [
    | inl f ↦ rw e (rw f (ground arith))
    | inr f ↦
        let d = div-mod_ints (signed a) (signed b) (ground arith) (ground arith) (ground arith) in
        rw e (rw f (rw (to_u32-signed a h, to_u32-signed b g) at d))
  ]
]

-- For all words, the unsigned quotient times the divisor plus the unsigned remainder is the
-- dividend modulo 2^32, with division by zero included.
pub divu-remu : (a b : ℕ) → IsWord a → IsWord b → (divu a b * b + remu a b) % 2 ^ 32 ≡ a
unfolding divu remu
divu-remu a b h g = ground (arith, div-add-mod' a b)

signed-to_u32 : (z : ℤ) → nat_abs z < 2 ^ 31 → signed (to_u32 z) ≡ z
signed-to_u32 (pos n) h = ground arith
signed-to_u32 (negsuc n) h = ground arith

tmod-bound : (x y : ℤ) → 0 < nat_abs y → nat_abs (tmod x y) < nat_abs y
unfolding tmod
tmod-bound (pos a) y p = omega (arith, mod-lt a p)
tmod-bound (negsuc a) y p = ground (arith, mod-lt (suc a) p)

-- For words and a divisor that is not zero, the magnitude of the signed remainder is below that
-- of the divisor, in the overflow case too.
pub rem-bound :
    (a b : ℕ) → IsWord a → IsWord b → 0 < b → nat_abs (signed (rem a b)) < nat_abs (signed b)
unfolding rem
rem-bound a b h g e = elim (Bool-cases (a == 0x8000_0000 && b == 0xFFFF_FFFF)) [
  | inl f ↦ ground arith
  | inr f ↦
      let m = tmod-bound (signed a) (signed b) (ground arith) in
      let r = signed-to_u32 (tmod (signed a) (signed b)) (ground arith) in rw f (ground arith)
]
