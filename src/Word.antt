-- ===== src/Word.antt =====
-- The machine words of include/rve/types.h and the C operations on them. A `word` is a native
-- number below 2 ^ 32; an `s_word` is the same pattern, read as a two's complement integer.
pub mod Int
pub mod Laws
use rve.Base.{ℕ, ◌+◌, ◌-◌, ◌*◌, ◌/◌, ◌%◌, ◌^◌, ◌<◌, Bool, ltb, if◌then◌else◌}
use rve.Word.Int.{ℤ, pos, negsuc, ltb_ℤ}

abbrev pub IsWord : ℕ → Type 0
IsWord x = x < 2 ^ 32

-- Unsigned arithmetic wraps; `-` on ℕ stops at 0, hence the modulus.
abbrev pub add32 : ℕ → ℕ → ℕ
add32 a b = (a + b) % 2 ^ 32

abbrev pub shl32 : ℕ → ℕ → ℕ
shl32 x k = (x * 2 ^ k) % 2 ^ 32

abbrev pub shr32 : ℕ → ℕ → ℕ
shr32 x k = x / 2 ^ k

-- `~x` on a word.
abbrev pub not32 : ℕ → ℕ
not32 x = 0xFFFF_FFFF - x

-- `>>` on an `s_word` shifts copies of the sign in (what gcc and clang define).
abbrev pub sar32 : ℕ → ℕ → ℕ
sar32 x k = if ltb x (2 ^ 31) then x / 2 ^ k else 0xFFFF_FFFF - (0xFFFF_FFFF - x) / 2 ^ k

-- The integer that an `s_word` stands for.
abbrev pub signed : ℕ → ℤ
signed x = if ltb x (2 ^ 31) then pos x else negsuc (2 ^ 32 - 1 - x)

-- `(s_word)a < (s_word)b`
abbrev pub signed_ltb : ℕ → ℕ → Bool
signed_ltb a b = ltb_ℤ (signed a) (signed b)

-- The casts of an integer to `uint32_t` and `uint64_t`.
abbrev pub to_u32 : ℤ → ℕ
to_u32 (pos n) = n % 2 ^ 32
to_u32 (negsuc n) = 2 ^ 32 - 1 - n % 2 ^ 32

abbrev pub to_u64 : ℤ → ℕ
to_u64 (pos n) = n % 2 ^ 64
to_u64 (negsuc n) = 2 ^ 64 - 1 - n % 2 ^ 64

-- `sext` of hart.c: the value is moved to the top of the word and back.
unfoldable pub sext : ℕ → ℕ → ℕ
sext value bits = sar32 (shl32 value (32 - bits)) (32 - bits)
