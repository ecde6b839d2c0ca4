-- ===== src/Text/Buffer.antt =====
-- `snprintf` on a buffer: a function from the offsets behind a pointer to bytes.
use rve.Base.{
  ℕ, zero, suc, ◌+◌, ◌-◌, ◌≡◌, ◌≤◌, ◌<◌, refl, sym, ap, ◌∙◌, arith, some, [], ◌∷◌, ◌++◌, length,
  length-append, length-take, take, get_elem?, min, ◌==◌, if◌then◌else◌,
}
use native.Mathlib.Nat.{zero-add}
use rve.Text.{Bytes}

-- The bytes of a text from `at` on.
unfoldable pub store : Bytes → ℕ → (ℕ → ℕ) → ℕ → ℕ
store [] at buffer = buffer
store (c ∷ s) at buffer = let rest = store s (suc at) buffer in λ j. if j == at then c else rest j

-- `snprintf(buffer, size, …)` where the conversions make the text `s`: at most `size - 1` bytes and
-- a NUL are stored, and the result is the length of the whole text.
unfoldable pub snprintf : ℕ → Bytes → (ℕ → ℕ) → ℕ × (ℕ → ℕ)
unfolding store
snprintf zero s buffer = (length s, buffer)
snprintf (suc n) s buffer = (length s, store (take n s ++ 0 ∷ []) 0 buffer)

-- The text in a buffer up to its first NUL, and no more than `size` bytes.
unfoldable pub c_string : ℕ → ℕ → (ℕ → ℕ) → Bytes
c_string zero at buffer = []
c_string (suc n) at buffer =
    let rest = c_string n (suc at) buffer in if buffer at == 0 then [] else buffer at ∷ rest

-- What a buffer of `size` bytes holds after a text was printed into it: the bytes that fit, a NUL
-- behind them, and what it held before.
pub record Stored (text : Bytes) (size : ℕ) (buffer buffer' : ℕ → ℕ) : Type 0 where
  pub bytes : (k : ℕ) → k < size - 1 → k < length text → get_elem? text k ≡ some (buffer' k)
  pub ends : buffer' (min (size - 1) (length text)) ≡ 0
  pub rest : (k : ℕ) → min (size - 1) (length text) < k → buffer' k ≡ buffer k

store-before :
    (s : Bytes) (at : ℕ) (buffer : ℕ → ℕ) (j : ℕ) → j < at → store s at buffer j ≡ buffer j
unfolding store
store-before [] at buffer j h = refl
store-before (c ∷ s) at buffer j h = ground (arith, store-before s (suc at) buffer j)

store-behind :
    (s : Bytes) (at : ℕ) (buffer : ℕ → ℕ) (j : ℕ)
    → at + length s ≤ j
    → store s at buffer j ≡ buffer j
unfolding store
store-behind [] at buffer j h = refl
store-behind (c ∷ s) at buffer j h = ground (arith, store-behind s (suc at) buffer j)

store-inside :
    (s : Bytes) (at : ℕ) (buffer : ℕ → ℕ) (k : ℕ)
    → k < length s
    → get_elem? s k ≡ some (store s at buffer (at + k))
unfolding store
store-inside [] at buffer k h = absurd (omega arith)
store-inside (c ∷ s) at buffer zero h = ground arith
store-inside (c ∷ s) at buffer (suc k) h = ground (arith, store-inside s (suc at) buffer k)

get_elem?-take_append :
    (n : ℕ) (s t : Bytes) (k : ℕ)
    → k < n
    → k < length s
    → get_elem? (take n s ++ t) k ≡ get_elem? s k
get_elem?-take_append zero s t k h g = absurd (omega arith)
get_elem?-take_append (suc n) [] t k h g = absurd (omega arith)
get_elem?-take_append (suc n) (c ∷ s) t zero h g = refl
get_elem?-take_append (suc n) (c ∷ s) t (suc k) h g =
    get_elem?-take_append n s t k (omega arith) (omega arith)

get_elem?-take_end :
    (n : ℕ) (s : Bytes) → get_elem? (take n s ++ 0 ∷ []) (min n (length s)) ≡ some 0
get_elem?-take_end zero s = ground arith
get_elem?-take_end (suc n) [] = ground arith
get_elem?-take_end (suc n) (c ∷ s) = ground (arith, get_elem?-take_end n s)

stored-length : (n : ℕ) (s : Bytes) → length (take n s ++ 0 ∷ []) ≡ suc (min n (length s))
stored-length n s = omega (arith, length-append (take n s) (0 ∷ []), length-take n s)

ends_of :
    (n : ℕ) (s : Bytes) (b : ℕ → ℕ)
    → get_elem? (take n s ++ 0 ∷ []) (min n (length s)) ≡ some (b (0 + min n (length s)))
    → b (min (suc n - 1) (length s)) ≡ 0
ends_of n s b h = rw (less) (cc (h, get_elem?-take_end n s, zero-add (min n (length s))))
  where
    less : suc n - 1 ≡ n
    less = omega arith

-- A `snprintf` into a buffer of at least one byte.
pub snprintf-Stored :
    (size : ℕ) (s : Bytes) (buffer : ℕ → ℕ)
    → 0 < size
    → Stored s size buffer (snprintf size s buffer).1
unfolding snprintf
snprintf-Stored zero s buffer h = absurd (omega arith)
snprintf-Stored (suc n) s buffer h =
    let t = take n s ++ 0 ∷ [] in
    let m = min n (length s) in
    let inside = store-inside t 0 buffer m (omega (arith, stored-length n s)) in
    record {
      bytes = λ k h g.
          sym (get_elem?-take_append n s (0 ∷ []) k (omega arith) g)
          ∙ (store-inside t 0 buffer k (omega (arith, stored-length n s))
              ∙ ap (λ i. some (store t 0 buffer i)) (zero-add k));
      ends = ends_of n s (store t 0 buffer) inside;
      rest = λ k h. store-behind t 0 buffer k (omega (arith, stored-length n s));
    }

pub snprintf-count : (size : ℕ) (s : Bytes) (buffer : ℕ → ℕ) → (snprintf size s buffer).0 ≡ length s
unfolding snprintf
snprintf-count zero s buffer = refl
snprintf-count (suc n) s buffer = refl
