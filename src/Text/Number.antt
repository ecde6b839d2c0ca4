-- ===== src/Text/Number.antt =====
-- `strtoul` and `strtoull` of the C library, for the bases 16 and 10.
use rve.Base.{
  ℕ, zero, suc, ◌+◌, ◌-◌, ◌*◌, ◌/◌, ◌%◌, ◌^◌, ◌≡◌, ◌≤◌, ◌<◌, ap, ◌∙◌, refl, sym, length, replicate,
  ◌++◌, arith, inl, inr, Bool, false, ◌&&◌, ◌||◌, Option, none, some, [], ◌∷◌, min, ltb, leb, ◌==◌,
  if◌then◌else◌, Bool-cases, if-false,
}
use native.Mathlib.Nat.{div-le_self}
use rve.Text.{Bytes, codes, emit, digit_char, decimal, hex_upper, pad_left}

abbrev between : ℕ → ℕ → ℕ → Bool
between lo hi c = leb lo c && leb c hi

-- The value of a digit below `base`.
unfoldable pub digit_value : ℕ → ℕ → Option ℕ
digit_value base c =
    let v =
      if between b'0' b'9' c
      then c - b'0'
      else if between b'a' b'z' c
      then c - b'a' + 10
      else if between b'A' b'Z' c
      then c - b'A' + 10
      else base in
    if ltb v base then some v else none

-- The digits at the front, read behind `n`; the rest of the text is not looked at.
unfoldable pub read_digits : ℕ → Bytes → ℕ → ℕ
read_digits base [] n = n
read_digits base (c ∷ s) n = elim (digit_value base c) [
  | none ↦ n
  | some d ↦ read_digits base s (n * base + d)
]

abbrev is_space : ℕ → Bool
is_space c = c == b' ' || between 9 13 c

unfoldable pub skip_spaces : Bytes → Bytes
skip_spaces [] = []
skip_spaces (c ∷ s) = if is_space c then skip_spaces s else c ∷ s

-- `0x` at the front of a hexadecimal number.
abbrev skip_prefix : ℕ → Bytes → Bytes
skip_prefix base (c ∷ x ∷ s) =
    if base == 16 && (c == b'0' && (x == b'x' || x == b'X')) then s else c ∷ x ∷ s
skip_prefix base s = s

abbrev max_ulong : ℕ
max_ulong = 2 ^ 64 - 1

-- A number too large gives the largest one.
abbrev magnitude : ℕ → Bytes → ℕ
magnitude base s = min max_ulong (read_digits base (skip_prefix base s) 0)

-- The number behind a minus is negated, unless it was too large.
abbrev negated : ℕ → ℕ
negated v = if v == max_ulong then max_ulong else (2 ^ 64 - v) % 2 ^ 64

abbrev with_sign : ℕ → Bytes → ℕ
with_sign base [] = 0
with_sign base (c ∷ s) =
    if c == b'-'
    then negated (magnitude base s)
    else if c == b'+'
    then magnitude base s
    else magnitude base (c ∷ s)

unfoldable pub strtoul : ℕ → Bytes → ℕ
unfolding skip_spaces read_digits digit_value
strtoul base s = with_sign base (skip_spaces s)

-- Printed numbers are read back. A base of the printer comes with what its digits stand for.
module _ (base letter : ℕ)
    (digit : (d : ℕ) → d < base → digit_value base (digit_char letter d) ≡ some d)
    (last : (n : ℕ) → n % base < base) (fewer : (n : ℕ) → (n / base == 0) ≡ false → n / base < n)
    (joined : (n : ℕ) → n / base * base + n % base ≡ n) where
  read_digits-cons :
      (n : ℕ) (out : Bytes)
      → read_digits base (digit_char letter (n % base) ∷ out) (n / base) ≡ read_digits base out n
  unfolding read_digits
  read_digits-cons n out =
      rw (read_digits, digit (n % base) (last n)) (ap (read_digits base out) (joined n))

  read_digits-first :
      (n : ℕ) (out : Bytes)
      → n / base ≡ 0
      → read_digits base (digit_char letter (n % base) ∷ out) 0 ≡ read_digits base out n
  read_digits-first n out e =
      ap (read_digits base (digit_char letter (n % base) ∷ out)) (sym e) ∙ read_digits-cons n out

  pub read_digits-emit :
      (fuel n : ℕ) (out : Bytes)
      → n ≤ fuel
      → read_digits base (emit fuel base letter n out) 0 ≡ read_digits base out n
  unfolding emit
  read_digits-emit zero n out h = read_digits-first n out (omega (arith, div-le_self n base))
  read_digits-emit (suc fuel) n out h = elim (Bool-cases (n / base == 0)) [
    | inl e ↦ rw (emit, e) (read_digits-first n out (ground arith))
    | inr e ↦
        rw (emit, e)
          (read_digits-emit fuel (n / base) (digit_char letter (n % base) ∷ out)
              (omega (arith, fewer n e))
            ∙ read_digits-cons n out)
  ]

  -- The first byte is a digit, so that no sign and no space is seen.
  pub emit-head :
      (fuel n : ℕ) (out : Bytes)
      → (d : ℕ) × (s : Bytes) × (d < base) × (emit fuel base letter n out ≡ digit_char letter d ∷ s)
  unfolding emit
  emit-head zero n out = (n % base, out, last n, refl)
  emit-head (suc fuel) n out = elim (Bool-cases (n / base == 0)) [
    | inl e ↦ (n % base, out, last n, rw (emit, e) refl)
    | inr e ↦
        let (d, s, l, h) = emit-head fuel (n / base) (digit_char letter (n % base) ∷ out) in
        (d, s, l, rw (emit, e) h)
  ]

digit_10 : (d : ℕ) → d < 10 → digit_value 10 (digit_char b'a' d) ≡ some d
unfolding digit_value
digit_10 d h = ground arith

digit_16 : (d : ℕ) → d < 16 → digit_value 16 (digit_char b'A' d) ≡ some d
unfolding digit_value
digit_16 d h = ground arith

read_decimal : (n : ℕ) → read_digits 10 (decimal n) 0 ≡ n
unfolding read_digits
read_decimal n =
    read_digits-emit 10 b'a' digit_10 (λ m. omega arith) (λ m e. ground arith) (λ m. omega arith) n
      n [] (omega arith)

read_hex_upper : (n : ℕ) → read_digits 16 (hex_upper n) 0 ≡ n
unfolding read_digits
read_hex_upper n =
    read_digits-emit 16 b'A' digit_16 (λ m. omega arith) (λ m e. ground arith) (λ m. omega arith) n
      n [] (omega arith)

read_zeros : (k : ℕ) (s : Bytes) → read_digits 16 (replicate k b'0' ++ s) 0 ≡ read_digits 16 s 0
unfolding read_digits digit_value
read_zeros zero s = refl
read_zeros (suc k) s = read_zeros k s

-- A word printed with `0x%08X` is read back by `strtoul` with base 16.
pub strtoul-hex :
    (w : ℕ) → w < 2 ^ 64 → strtoul 16 (codes "0x" ++ pad_left b'0' 8 (hex_upper w)) ≡ w
unfolding strtoul skip_spaces
strtoul-hex w h =
    ap (min max_ulong) (read_zeros (8 - length (hex_upper w)) (hex_upper w) ∙ read_hex_upper w)
    ∙ omega arith

skip_prefix-decimal : (c : ℕ) (s : Bytes) → skip_prefix 10 (c ∷ s) ≡ c ∷ s
skip_prefix-decimal c [] = refl
skip_prefix-decimal c (x ∷ s) = refl

skip_spaces-none : (c : ℕ) (s : Bytes) → is_space c ≡ false → skip_spaces (c ∷ s) ≡ c ∷ s
unfolding skip_spaces
skip_spaces-none c s h = if-false (skip_spaces s) h

with_sign-none :
    (c : ℕ) (s : Bytes)
    → (c == b'-') ≡ false
    → (c == b'+') ≡ false
    → with_sign 10 (c ∷ s) ≡ magnitude 10 (c ∷ s)
with_sign-none c s h g = if-false (negated (magnitude 10 s)) h ∙ if-false (magnitude 10 s) g

strtoul-digit :
    (d : ℕ) (s : Bytes)
    → d < 10
    → let t = digit_char b'a' d ∷ s in strtoul 10 t ≡ min max_ulong (read_digits 10 t 0)
unfolding strtoul
strtoul-digit d s h =
    let c = digit_char b'a' d in
    ap (with_sign 10) (skip_spaces-none c s (ground arith))
    ∙ (with_sign-none c s (ground arith) (ground arith)
        ∙ ap (λ t. min max_ulong (read_digits 10 t 0)) (skip_prefix-decimal c s))

-- A number printed with `%u` is read back by `strtoull` with base 10.
pub strtoul-decimal : (n : ℕ) → n < 2 ^ 64 → strtoul 10 (decimal n) ≡ n
strtoul-decimal n h =
    let (d, s, l, e) =
      emit-head 10 b'a' digit_10 (λ m. omega arith) (λ m e. ground arith) (λ m. omega arith) n n
        [] in
    ap (strtoul 10) e
    ∙ (strtoul-digit d s l
        ∙ (ap (λ t. min max_ulong (read_digits 10 t 0)) (sym e)
            ∙ (ap (min max_ulong) (read_decimal n) ∙ omega arith)))
