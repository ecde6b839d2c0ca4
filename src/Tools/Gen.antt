-- ===== src/Tools/Gen.antt =====
-- `write_word` and `main` of tools/gen.c, and the program that they write.
use rve.Base.{ℕ, Bool, Option, none, some, List, [], ◌∷◌, ◌++◌, length, if◌then◌else◌, bit_and}
use rve.Word.{shr32}
use rve.Text.{Bytes, lit, str, udec, codes, printf}

-- The bytes that a word adds to a file, the lowest first.
unfoldable pub write_word : List ℕ → ℕ → List ℕ
write_word f w =
    f
    ++ bit_and (shr32 w 0) 0xFF
      ∷ bit_and (shr32 w 8) 0xFF
      ∷ bit_and (shr32 w 16) 0xFF
      ∷ bit_and (shr32 w 24) 0xFF
      ∷ []

abbrev pub program : List ℕ
program =
    0x4000_0113 ∷ 0x0000_0793 ∷ 0x0050_0713 ∷ 0x0017_8793 ∷ 0xFEE7_C8E3 ∷ 0x0000_0513 ∷ 0x05D0_0893
    ∷ 0x0000_0073 ∷ []

-- The loop of `main`.
unfoldable pub write_words : List ℕ → List ℕ → List ℕ
unfolding write_word
write_words f [] = f
write_words f (w ∷ ws) = write_words (write_word f w) ws

-- The status, the file that was written with its name, and the text on stdout.
pub record Generated : Type 0 where
  pub status : ℕ
  pub file : Option (Bytes × List ℕ)
  pub printed : Bytes

-- `(argc >= 2) ? argv[1] : "test.bin"`
abbrev out_file : List Bytes → Bytes
out_file (name ∷ file ∷ rest) = file
out_file _ = codes "test.bin"

-- The first argument says which files can be opened to be written.
unfoldable pub main : (Bytes → Bool) → List Bytes → Generated
unfolding write_words
main can_open argv =
    let outfile = out_file argv in
    if can_open outfile
    then record {
      status = 0;
      file = some (outfile, write_words [] program);
      printed = printf (
          lit "Wrote "
          ∷ udec (length program)
          ∷ lit " instructions to "
          ∷ str outfile
          ∷ lit "\n"
          ∷ []);
    }
    else record { status = 1; file = none; printed = [] }
