-- ===== src/Text.antt =====
-- Texts as byte sequences, and the parts of the C library that the printers and the command line
-- use: `snprintf` and `printf` with the conversions %s, %-ns, %nd, %-nd, %u, %x, %0nx and %0nX,
-- `strcmp` as a test for equality, and `strtoul` with base 16 and `strtoull` with base 10 where
-- `unsigned long` has 64 bits.
pub mod Digits
pub mod Number
pub mod Width
pub mod Buffer
use Prim.Native.Char.{code}
use Prim.Native.String.{String}
use rve.Base.{
  ℕ, zero, suc, ◌+◌, ◌-◌, ◌*◌, ◌/◌, ◌%◌, ◌^◌, Bool, true, false, ◌&&◌, Option, none, some, List, [],
  ◌∷◌, ◌++◌, length, replicate, ltb, ◌==◌, if◌then◌else◌,
}

abbrev pub Bytes : Type 0
Bytes = List ℕ

-- The bytes of an ASCII text.
abbrev pub codes : String → Bytes
codes String.[] = []
codes (String.◌∷◌ c s) = code c ∷ codes s

-- `strcmp(a, b) == 0`
unfoldable pub same_text : Bytes → Bytes → Bool
same_text [] [] = true
same_text [] (d ∷ t) = false
same_text (c ∷ s) [] = false
same_text (c ∷ s) (d ∷ t) = c == d && same_text s t

-- A digit below 16, with the letters from `letter` on.
abbrev pub digit_char : ℕ → ℕ → ℕ
digit_char letter d = if ltb d 10 then b'0' + d else letter + (d - 10)

-- The digits of `n` in front of `out`; `n` rounds are enough, since each divides by `base`.
unfoldable pub emit : ℕ → ℕ → ℕ → ℕ → Bytes → Bytes
emit zero base letter n out = digit_char letter (n % base) ∷ out
emit (suc fuel) base letter n out = elim (n / base == 0) [
  | true ↦ digit_char letter (n % base) ∷ out
  | false ↦ emit fuel base letter (n / base) (digit_char letter (n % base) ∷ out)
]

abbrev pub decimal : ℕ → Bytes
decimal n = emit n 10 b'a' n []

abbrev pub hex_lower : ℕ → Bytes
hex_lower n = emit n 16 b'a' n []

abbrev pub hex_upper : ℕ → Bytes
hex_upper n = emit n 16 b'A' n []

-- The decimal text of a word that stands for a signed integer.
abbrev pub signed_decimal : ℕ → Bytes
signed_decimal w = if ltb w (2 ^ 31) then decimal w else b'-' ∷ decimal (2 ^ 32 - w)

abbrev pub pad_left : ℕ → ℕ → Bytes → Bytes
pad_left fill width s = replicate (width - length s) fill ++ s

abbrev pub pad_right : ℕ → Bytes → Bytes
pad_right width s = s ++ replicate (width - length s) b' '

-- A stretch of a format string, or a conversion with its argument.
pub data Piece : Type 0 where
  lit : String → Piece
  str : Bytes → Piece
  str_left : ℕ → Bytes → Piece
  dec : ℕ → Piece
  dec_right dec_left : ℕ → ℕ → Piece
  udec : ℕ → Piece
  udec_right : ℕ → ℕ → Piece
  hex hex_caps : ℕ → ℕ → Piece

-- The text of a piece; the first argument of `hex` and `hex_caps` is the width, filled with zeros.
unfoldable pub show : Piece → Bytes
show (lit s) = codes s
show (str s) = s
show (str_left width s) = pad_right width s
show (dec w) = signed_decimal w
show (dec_right width w) = pad_left b' ' width (signed_decimal w)
show (dec_left width w) = pad_right width (signed_decimal w)
show (udec n) = decimal n
show (udec_right width n) = pad_left b' ' width (decimal n)
show (hex width n) = pad_left b'0' width (hex_lower n)
show (hex_caps width n) = pad_left b'0' width (hex_upper n)

-- The text that a call of `printf` makes.
unfoldable pub printf : List Piece → Bytes
unfolding show
printf [] = []
printf (p ∷ ps) = show p ++ printf ps
