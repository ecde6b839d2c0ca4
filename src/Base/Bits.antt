-- ===== src/Base/Bits.antt =====
-- The bitwise operations of C on native numbers: their lowest digit, masks of low bits, and
-- disjoint fields.
use Prim.Native.Nat.{ℕ, zero, suc, ◌+◌, ◌-◌, ◌*◌, ◌/◌, ◌%◌, ◌^◌, ◌≤◌, ◌<◌, min, max}
use Prim.Native.Nat.{digits, bitwise, bit_and, bit_or, bit_xor, differ}
use Prim.Native.Nat.{bit_and-bitwise, bit_or-bitwise, bit_xor-bitwise}
use mathlib.Core.Path.{◌≡◌, refl, ap, ◌∙◌}
use native.Mathlib.Nat.{
  pow-suc, one-le-pow, mul-one, div-one, div-div-eq-div-mul, mod-lt, mod-eq_of_lt, div-add-mod,
  add-mul-mod_self_left,
}
use native.Mathlib.Omega.{arith}

-- To prove a statement of all numbers, prove it of each from its half.
by_halving {ℓ} :
    (P : ℕ → Type ℓ) → P 0 → ((x : ℕ) → 0 < x → P (x / 2) → P x) → (bound x : ℕ) → x ≤ bound → P x
by_halving P base half bound zero h = base
by_halving P base half zero (suc x) h = absurd (omega arith)
by_halving P base half (suc bound) (suc x) h =
    half (suc x) (omega arith) (by_halving P base half bound (suc x / 2) (omega arith))

-- The fuel of `digits` is immaterial once it covers the first number.
module _ (rest : ℕ → ℕ) (op : ℕ → ℕ → ℕ) where
  digits_any_fuel : (x y f g : ℕ) → x ≤ f → x ≤ g → digits rest op f x y ≡ digits rest op g x y
  digits_any_fuel zero y zero zero p q = refl
  digits_any_fuel zero y zero (suc g) p q = refl
  digits_any_fuel zero y (suc f) zero p q = refl
  digits_any_fuel zero y (suc f) (suc g) p q = refl
  digits_any_fuel (suc x) y zero g p q = absurd (omega arith)
  digits_any_fuel (suc x) y (suc f) zero p q = absurd (omega arith)
  digits_any_fuel (suc x) y (suc f) (suc g) p q =
      rw (digits_any_fuel (suc x / 2) (y / 2) f g (omega arith) (omega arith))

  digits_halves :
      (x y : ℕ)
      → 0 < x
      → bitwise rest op x y ≡ 2 * bitwise rest op (x / 2) (y / 2) + op (x % 2) (y % 2)
  digits_halves zero y p = absurd (omega arith)
  digits_halves (suc x) y p =
      omega (arith, digits_any_fuel (suc x / 2) (y / 2) x (suc x / 2) (omega arith) (omega arith))

pub bit_and_halves : (x y : ℕ) → bit_and x y ≡ 2 * bit_and (x / 2) (y / 2) + min (x % 2) (y % 2)
bit_and_halves zero y = omega (arith, bit_and-bitwise 0 y, bit_and-bitwise 0 (y / 2))
bit_and_halves (suc x) y = omega (
  arith,
  digits_halves (λ v. 0) min (suc x) y (omega arith),
  bit_and-bitwise (suc x) y,
  bit_and-bitwise (suc x / 2) (y / 2),
)

pub bit_or_halves : (x y : ℕ) → bit_or x y ≡ 2 * bit_or (x / 2) (y / 2) + max (x % 2) (y % 2)
bit_or_halves zero y = omega (arith, bit_or-bitwise 0 y, bit_or-bitwise 0 (y / 2))
bit_or_halves (suc x) y = omega (
  arith,
  digits_halves (λ v. v) max (suc x) y (omega arith),
  bit_or-bitwise (suc x) y,
  bit_or-bitwise (suc x / 2) (y / 2),
)

differ_digits : (x y : ℕ) → x < 2 → y < 2 → differ x y ≡ (x + y) % 2
differ_digits zero zero p q = refl
differ_digits zero (suc zero) p q = refl
differ_digits (suc zero) zero p q = refl
differ_digits (suc zero) (suc zero) p q = refl
differ_digits (suc (suc x)) y p q = absurd (omega arith)
differ_digits x (suc (suc y)) p q = absurd (omega arith)

pub bit_xor_halves : (x y : ℕ) → bit_xor x y ≡ 2 * bit_xor (x / 2) (y / 2) + (x % 2 + y % 2) % 2
bit_xor_halves zero y = omega (arith, bit_xor-bitwise 0 y, bit_xor-bitwise 0 (y / 2))
bit_xor_halves (suc x) y = omega (
  arith,
  digits_halves (λ v. v) differ (suc x) y (omega arith),
  bit_xor-bitwise (suc x) y,
  bit_xor-bitwise (suc x / 2) (y / 2),
  differ_digits (suc x % 2) (y % 2) (omega arith) (omega arith),
)

-- Zero as one of the operands.
pub bit_and-zero : (a : ℕ) → bit_and a 0 ≡ 0
bit_and-zero a =
    by_halving (λ x. bit_and x 0 ≡ 0) refl (λ x p h. omega (arith, bit_and_halves x 0)) a a
      (omega arith)

pub bit_or-zero : (a : ℕ) → bit_or a 0 ≡ a
bit_or-zero a =
    by_halving (λ x. bit_or x 0 ≡ x) refl (λ x p h. omega (arith, bit_or_halves x 0)) a a
      (omega arith)

-- A modulus with a factor keeps the digit of that radix aside.
pub mod_radix : (a b m : ℕ) → 0 < b → 0 < m → a % (m * b) ≡ a / b % m * b + a % b
mod_radix a b m hb hm =
    ap (λ (t : ℕ). t % (m * b)) split
    ∙ add-mul-mod_self_left low (m * b) (a / b / m)
    ∙ mod-eq_of_lt fits
  where
    low : ℕ
    low = a / b % m * b + a % b

    split : a ≡ low + m * b * (a / b / m)
    split = omega (arith, div-add-mod a b, ap (λ (t : ℕ). t * b) (div-add-mod (a / b) m))

    fits : low < m * b
    fits = grind (arith, mod-lt (a / b) hm, mod-lt a hb)

-- A mask of `k` low bits is the remainder by `2 ^ k`.
pub bit_and_mask : (k a : ℕ) → bit_and a (2 ^ k - 1) ≡ a % 2 ^ k
bit_and_mask zero a = rw (bit_and-zero a) (omega arith)
bit_and_mask (suc k) a = rw (pow-suc 2 k) (
    ground (
      arith,
      bit_and_halves a (2 ^ k * 2 - 1),
      one-le-pow k 2,
      mod_radix a 2 (2 ^ k),
      bit_and_mask k (a / 2),
      ap (bit_and (a / 2)) half,
    ))
  where
    half : (2 ^ k * 2 - 1) / 2 ≡ 2 ^ k - 1
    half = omega (arith, one-le-pow k 2)

-- A field above a field that fits `k` bits: `|` is the sum.
pub bit_or_field : (k q r : ℕ) → r < 2 ^ k → bit_or (q * 2 ^ k) r ≡ q * 2 ^ k + r
bit_or_field zero q r h = ground (arith, bit_or-zero q)
bit_or_field (suc k) q r h = ground (
  arith,
  bit_or_halves (q * 2 ^ suc k) r,
  pow-suc 2 k,
  ap (λ (t : ℕ). q * t) (pow-suc 2 k),
  bit_or_field k q (r / 2) (omega (arith, pow-suc 2 k)),
)

zero-bit_and : (b : ℕ) → bit_and 0 b ≡ 0
zero-bit_and b = bit_and-bitwise 0 b

-- The results of the operations stay within the width of the operands.
pub bit_and-lt : (k a b : ℕ) → a < 2 ^ k → bit_and a b < 2 ^ k
bit_and-lt zero zero b h = omega (arith, zero-bit_and b)
bit_and-lt zero (suc a) b h = absurd (omega arith)
bit_and-lt (suc k) a b h = omega (
  arith,
  pow-suc 2 k,
  bit_and_halves a b,
  bit_and-lt k (a / 2) (b / 2) (omega (arith, pow-suc 2 k)),
)

pub bit_or-lt : (k a b : ℕ) → a < 2 ^ k → b < 2 ^ k → bit_or a b < 2 ^ k
bit_or-lt zero zero zero h g = omega arith
bit_or-lt zero zero (suc b) h g = absurd (omega arith)
bit_or-lt zero (suc a) b h g = absurd (omega arith)
bit_or-lt (suc k) a b h g =
    let p = pow-suc 2 k in
    omega (arith, bit_or_halves a b, bit_or-lt k (a / 2) (b / 2) (omega arith) (omega arith))

pub bit_xor-lt : (k a b : ℕ) → a < 2 ^ k → b < 2 ^ k → bit_xor a b < 2 ^ k
bit_xor-lt zero zero zero h g = omega arith
bit_xor-lt zero zero (suc b) h g = absurd (omega arith)
bit_xor-lt zero (suc a) b h g = absurd (omega arith)
bit_xor-lt (suc k) a b h g =
    let p = pow-suc 2 k in
    omega (arith, bit_xor_halves a b, bit_xor-lt k (a / 2) (b / 2) (omega arith) (omega arith))

-- The binary digit at position `k`.
abbrev pub bit_at : ℕ → ℕ → ℕ
bit_at x zero = x % 2
bit_at x (suc k) = bit_at (x / 2) k

pub bit_at-and : (k a b : ℕ) → bit_at (bit_and a b) k ≡ min (bit_at a k) (bit_at b k)
bit_at-and zero a b = omega (arith, bit_and_halves a b)
bit_at-and (suc k) a b = ap (λ x. bit_at x k) half ∙ bit_at-and k (a / 2) (b / 2)
  where
    half : bit_and a b / 2 ≡ bit_and (a / 2) (b / 2)
    half = omega (arith, bit_and_halves a b)

pub bit_at-or : (k a b : ℕ) → bit_at (bit_or a b) k ≡ max (bit_at a k) (bit_at b k)
bit_at-or zero a b = omega (arith, bit_or_halves a b)
bit_at-or (suc k) a b = ap (λ x. bit_at x k) half ∙ bit_at-or k (a / 2) (b / 2)
  where
    half : bit_or a b / 2 ≡ bit_or (a / 2) (b / 2)
    half = omega (arith, bit_or_halves a b)

-- A mask whose `k` lowest digits are clear.
bit_and_shifted : (k a x : ℕ) → bit_and a (x * 2 ^ k) ≡ bit_and (a / 2 ^ k) x * 2 ^ k
bit_and_shifted zero a x = simp (mul-one, div-one)
bit_and_shifted (suc k) a x = ground (
  arith,
  pow-suc 2 k,
  ap (λ (t : ℕ). x * t) (pow-suc 2 k),
  bit_and_halves a (x * 2 ^ suc k),
  bit_and_shifted k (a / 2) x,
  div-div-eq-div-mul a 2 (2 ^ k),
  ap (λ (t : ℕ). bit_and (a / 2 ^ suc k) x * t) (pow-suc 2 k),
)

-- The mask of `m` digits above `k` clear ones keeps that field in place.
pub bit_and_field : (k m a : ℕ) → bit_and a ((2 ^ m - 1) * 2 ^ k) ≡ a / 2 ^ k % 2 ^ m * 2 ^ k
bit_and_field k m a =
    bit_and_shifted k a (2 ^ m - 1) ∙ ap (λ (t : ℕ). t * 2 ^ k) (bit_and_mask m (a / 2 ^ k))
