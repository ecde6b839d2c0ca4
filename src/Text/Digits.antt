-- ===== src/Text/Digits.antt =====
-- Printed numbers: how long they are, and what `strtoul` reads from them.
use rve.Base.{
  ℕ, zero, suc, ◌+◌, ◌-◌, ◌/◌, ◌%◌, ◌^◌, ◌≡◌, ◌≤◌, arith, true, [], ◌∷◌, length, ltb, ◌==◌, if-elim,
  inl, inr, Bool-cases,
}
use rve.Word.{IsWord}
use rve.Text.{Bytes, emit, decimal, hex_lower, hex_upper, signed_decimal, digit_char}

-- At most `k + 1` digits: `k` divisions leave less than the base.
abbrev pub Fits : ℕ → ℕ → ℕ → Type 0
Fits base zero n = n / base ≡ 0
Fits base (suc k) n = Fits base k (n / base)

emit-length :
    (k fuel base letter n : ℕ) (out : Bytes)
    → Fits base k n
    → length (emit fuel base letter n out) ≤ suc k + length out
unfolding emit
emit-length k zero base letter n out h = omega arith
emit-length zero (suc fuel) base letter n out h = rw (length, small) (omega arith)
  where
    small : (n / base == 0) ≡ true
    small = ground arith
emit-length (suc k) (suc fuel) base letter n out h = elim (Bool-cases (n / base == 0)) [
  | inl e ↦ rw (length, e) (omega arith)
  | inr e ↦
      rw (length, e)
        (omega
          (arith, emit-length k fuel base letter (n / base) (digit_char letter (n % base) ∷ out) h))
]

pub decimal-length : (n : ℕ) → IsWord n → length (decimal n) ≤ 10
decimal-length n h = emit-length 9 n 10 b'a' n [] (omega arith)

pub hex_lower-length : (n : ℕ) → IsWord n → length (hex_lower n) ≤ 8
hex_lower-length n h = emit-length 7 n 16 b'a' n [] (omega arith)

pub hex_upper-length : (n : ℕ) → IsWord n → length (hex_upper n) ≤ 8
hex_upper-length n h = emit-length 7 n 16 b'A' n [] (omega arith)

pub signed_decimal-length : (w : ℕ) → IsWord w → length (signed_decimal w) ≤ 11
signed_decimal-length w h =
    if-elim (λ s. length s ≤ 11) (ltb w (2 ^ 31)) (λ _. omega (arith, decimal-length w h))
      (λ e. omega (arith, decimal-length (2 ^ 32 - w) (ground arith)))
