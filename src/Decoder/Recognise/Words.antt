-- ===== src/Decoder/Recognise/Words.antt =====
-- A word is assembled again from the fields that src/decoder.c takes from it.
use rve.Base.{
  ℕ, ◌+◌, ◌*◌, ◌/◌, ◌%◌, ◌^◌, ◌<◌, ◌≡◌, refl, arith, ◌⊎◌, inl, inr, ◌∙◌, Option, none, some,
}
use rve.Word.{IsWord}
use rve.Decoder.Types.{Op}
use rve.Decoder.Fields.Laws.{get_funct3_lem, get_funct7_lem, fields_b, fields_j}
use rve.Decoder.Fields.{get_funct3, get_funct7}
use rve.Decoder.Encoding.{Encoding, encoding, Operands, assemble}

-- An immediate of a shift is its five bits; the other encodings take their bits from any number.
abbrev pub Short : Encoding → ℕ → Type 0
Short (Encoding.left_enc _ _) imm = imm < 32
Short (Encoding.right_enc _ _) imm = imm < 32
Short Encoding.no_enc imm = ⊥
Short _ imm = Unit

-- The word encodes an operation of the manual with these operands.
pub record Encodes (op : Op) (w : ℕ) : Type 0 where
  pub operands : Operands
  pub word : assemble (encoding op) operands ≡ w
  pub rd : operands.rd < 32
  pub rs1 : operands.rs1 < 32
  pub rs2 : operands.rs2 < 32
  pub imm : Short (encoding op) operands.imm

-- The operands of a word, with a given immediate.
abbrev pub fields : ℕ → ℕ → Operands
fields w imm = record {
  rd = w / 2 ^ 7 % 32;
  rs1 = w / 2 ^ 15 % 32;
  rs2 = w / 2 ^ 20 % 32;
  imm = imm;
}

pub encodes :
    (op : Op) (w imm : ℕ) (e : Encoding)
    → encoding op ≡ e
    → Short e imm
    → assemble e (fields w imm) ≡ w
    → Encodes op w
encodes op w imm e h t a = record {
  operands = fields w imm;
  word = rw h a;
  rd = omega arith;
  rs1 = omega arith;
  rs2 = omega arith;
  imm = rw h t;
}

-- An operation that the decoder leaves unknown, or one that the word encodes.
abbrev pub Sound : ℕ → Op → Type 0
Sound w op = (op ≡ Op.unknown) ⊎ Encodes op w

-- What a switch with this result leaves of an operation.
abbrev pub chosen : Op → Option Op → Op
chosen o none = o
chosen o (some op) = op

pub chosen-Sound :
    (w : ℕ) (o o' : Op) (x : Option Op)
    → o ≡ Op.unknown
    → o' ≡ chosen o x
    → ((op : Op) → x ≡ some op → Encodes op w)
    → Sound w o'
chosen-Sound w o o' none u e f = inl (e ∙ u)
chosen-Sound w o o' (some op) u e f = rw e (inr (f op refl))

module _ (w : ℕ) (h : IsWord w) where
  pub assemble-r :
      w % 128 ≡ 0b0110011
      → assemble (Encoding.r_enc 0b0110011 (get_funct3 w) (get_funct7 w)) (fields w 0) ≡ w
  unfolding assemble
  assemble-r o = omega (arith, get_funct3_lem w, get_funct7_lem w)

  pub assemble-i :
      (opcode : ℕ)
      → w % 128 ≡ opcode
      → assemble (Encoding.i_enc opcode (get_funct3 w)) (fields w (w / 2 ^ 20)) ≡ w
  unfolding assemble
  assemble-i opcode o = omega (arith, get_funct3_lem w)

  pub assemble-right :
      w % 128 ≡ 0b0010011
      → get_funct3 w ≡ 5
      → assemble (Encoding.right_enc 5 (get_funct7 w)) (fields w (w / 2 ^ 20 % 32)) ≡ w
  unfolding assemble
  assemble-right o f = omega (arith, get_funct3_lem w, get_funct7_lem w)

  pub assemble-slli :
      w % 128 ≡ 0b0010011
      → get_funct3 w ≡ 1
      → assemble (Encoding.left_enc 1 (get_funct7 w)) (fields w (w / 2 ^ 20 % 32)) ≡ w
  unfolding assemble
  assemble-slli o f = omega (arith, get_funct3_lem w, get_funct7_lem w)

  pub assemble-fence :
      w % 128 ≡ 0b0001111 → assemble (Encoding.fence_enc (get_funct3 w)) (fields w (w / 2 ^ 20)) ≡ w
  unfolding assemble
  assemble-fence o = omega (arith, get_funct3_lem w)

  pub assemble-csr :
      w % 128 ≡ 0b1110011 → assemble (Encoding.csr_enc (get_funct3 w)) (fields w (w / 2 ^ 20)) ≡ w
  unfolding assemble
  assemble-csr o = omega (arith, get_funct3_lem w)

  pub assemble-s :
      w % 128 ≡ 0b0100011
      → assemble (Encoding.s_enc (get_funct3 w)) (fields w (w / 2 ^ 25 % 128 * 32 + w / 2 ^ 7 % 32))
        ≡ w
  unfolding assemble
  assemble-s o = omega (arith, get_funct3_lem w)

  pub assemble-b :
      w % 128 ≡ 0b1100011 → assemble (Encoding.b_enc (get_funct3 w)) (fields w (fields_b w)) ≡ w
  unfolding assemble
  assemble-b o = omega (arith, get_funct3_lem w)

  pub assemble-u :
      (opcode : ℕ)
      → w % 128 ≡ opcode
      → assemble (Encoding.u_enc opcode) (fields w (w / 2 ^ 12 * 2 ^ 12)) ≡ w
  unfolding assemble
  assemble-u opcode o = omega arith

  pub assemble-j : w % 128 ≡ 0b1101111 → assemble Encoding.j_enc (fields w (fields_j w)) ≡ w
  unfolding assemble
  assemble-j o = omega arith
