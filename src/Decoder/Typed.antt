-- ===== src/Decoder/Typed.antt =====
-- The ranges of the fields that src/decoder.c fills in, and the format and the validity of an
-- instruction whose operation is known.
use rve.Base.{ℕ, ◌≡◌, ap, ◌∙◌, ◌<◌, arith, true, if-elim, ◌⊎◌, inl, inr, ◌==◌, ◌||◌}
use rve.Word.{IsWord}
use rve.Riscv.Opcode
use rve.Decoder.Types.{Op, Format, DecodedInstruction, zeroed}
use rve.Decoder.Fields.{get_opcode, get_rd, get_funct3, get_rs1, get_rs2, get_funct7}
use rve.Decoder.Fields.Laws.{get_rd_lem, get_funct3_lem, get_rs1_lem, get_rs2_lem, get_funct7_lem}
use rve.Decoder.Formats.{
  decode_instruction_u, decode_instruction_j, decode_instruction_b, decode_instruction_s,
}
use rve.Decoder.IType.{decode_instruction_i}
use rve.Decoder.RType.{decode_instruction_r}
use rve.Decoder.Decode.{rve_decode_instruction}
use rve.Decoder.Encoding.{Encoding, Operands, encoding, IsOperands, decoded}
use rve.Decoder.Recognise.Exact.{decode-Sound, Encodes-decoded}
use rve.Decoder.Words.{decode-WordFields}

-- The fields that index registers and select operations.
pub record InRange (di : DecodedInstruction) : Type 0 where
  pub rd : di.rd < 32
  pub rs1 : di.rs1 < 32
  pub rs2 : di.rs2 < 32
  pub funct3 : di.funct3 < 8
  pub funct7 : di.funct7 < 128

record WordInRange (w : ℕ) : Type 0 where
  pub rd : get_rd w < 32
  pub rs1 : get_rs1 w < 32
  pub rs2 : get_rs2 w < 32
  pub funct3 : get_funct3 w < 8
  pub funct7 : get_funct7 w < 128

word-InRange : (w : ℕ) → WordInRange w
word-InRange w = record {
  rd = omega (arith, get_rd_lem w);
  rs1 = omega (arith, get_rs1_lem w);
  rs2 = omega (arith, get_rs2_lem w);
  funct3 = omega (arith, get_funct3_lem w);
  funct7 = omega (arith, get_funct7_lem w);
}

-- Each format fills its fields from the word, or leaves them.
module _ (di : DecodedInstruction) (w opcode : ℕ) (x : InRange di) (y : WordInRange w) where
  u-InRange : InRange (decode_instruction_u di w opcode)
  unfolding decode_instruction_u
  u-InRange = record {
    rd = ground (arith, x.rd, y.rd);
    rs1 = ground (arith, x.rs1, y.rs1);
    rs2 = ground (arith, x.rs2, y.rs2);
    funct3 = ground (arith, x.funct3, y.funct3);
    funct7 = ground (arith, x.funct7, y.funct7);
  }

  j-InRange : InRange (decode_instruction_j di w opcode)
  unfolding decode_instruction_j
  j-InRange = record {
    rd = ground (arith, x.rd, y.rd);
    rs1 = ground (arith, x.rs1, y.rs1);
    rs2 = ground (arith, x.rs2, y.rs2);
    funct3 = ground (arith, x.funct3, y.funct3);
    funct7 = ground (arith, x.funct7, y.funct7);
  }

  b-InRange : InRange (decode_instruction_b di w opcode)
  unfolding decode_instruction_b
  b-InRange = record {
    rd = ground (arith, x.rd, y.rd);
    rs1 = ground (arith, x.rs1, y.rs1);
    rs2 = ground (arith, x.rs2, y.rs2);
    funct3 = ground (arith, x.funct3, y.funct3);
    funct7 = ground (arith, x.funct7, y.funct7);
  }

  s-InRange : InRange (decode_instruction_s di w opcode)
  unfolding decode_instruction_s
  s-InRange = record {
    rd = ground (arith, x.rd, y.rd);
    rs1 = ground (arith, x.rs1, y.rs1);
    rs2 = ground (arith, x.rs2, y.rs2);
    funct3 = ground (arith, x.funct3, y.funct3);
    funct7 = ground (arith, x.funct7, y.funct7);
  }

  r-InRange : InRange (decode_instruction_r di w opcode)
  unfolding decode_instruction_r
  r-InRange = record {
    rd = ground (arith, x.rd, y.rd);
    rs1 = ground (arith, x.rs1, y.rs1);
    rs2 = ground (arith, x.rs2, y.rs2);
    funct3 = ground (arith, x.funct3, y.funct3);
    funct7 = ground (arith, x.funct7, y.funct7);
  }

  i-InRange : InRange (decode_instruction_i di w opcode)
  unfolding decode_instruction_i
  i-InRange = record {
    rd = ground (arith, x.rd, y.rd);
    rs1 = ground (arith, x.rs1, y.rs1);
    rs2 = ground (arith, x.rs2, y.rs2);
    funct3 = ground (arith, x.funct3, y.funct3);
    funct7 = ground (arith, x.funct7, y.funct7);
  }

decode-InRange : (w : ℕ) → InRange (rve_decode_instruction w)
unfolding rve_decode_instruction
decode-InRange w =
    let di = record zeroed { original_instruction = w } in
    let o = get_opcode w in
    let x : InRange di = record {
      rd = omega arith;
      rs1 = omega arith;
      rs2 = omega arith;
      funct3 = omega arith;
      funct7 = omega arith;
    } in
    let y = word-InRange w in
    if-elim InRange (o == Opcode.lui || o == Opcode.auipc) (λ _. u-InRange di w o x y)
      (λ _.
        if-elim InRange (o == Opcode.jal) (λ _. j-InRange di w o x y)
          (λ _.
            if-elim InRange
              (o == Opcode.jalr
                || (o == Opcode.load
                    || (o == Opcode.op_imm || (o == Opcode.misc_mem || o == Opcode.system))))
              (λ _. i-InRange di w o x y)
              (λ _.
                if-elim InRange (o == Opcode.branch) (λ _. b-InRange di w o x y)
                  (λ _.
                    if-elim InRange (o == Opcode.store) (λ _. s-InRange di w o x y)
                      (λ _.
                        if-elim InRange (o == Opcode.op) (λ _. r-InRange di w o x y) (λ _. x))))))

-- The format of an encoding.
abbrev pub format_of : Encoding → Format
format_of (Encoding.r_enc _ _ _) = Format.r_type
format_of (Encoding.s_enc _) = Format.s_type
format_of (Encoding.b_enc _) = Format.b_type
format_of (Encoding.u_enc _) = Format.u_type
format_of Encoding.j_enc = Format.j_type
format_of Encoding.no_enc = Format.unknown
format_of _ = Format.i_type

decoded-format :
    (op : Op) (e : Encoding) (o : Operands) (w : ℕ) → (decoded op e o w).format ≡ format_of e
decoded-format op e o w = ground arith

decoded-valid : (op : Op) (e : Encoding) (o : Operands) (w : ℕ) → (decoded op e o w).valid ≡ true
decoded-valid op e o w = ground arith

-- What the type of a decoded instruction does not say.
pub record IsTyped (w : ℕ) (di : DecodedInstruction) : Type 0 where
  pub fields : InRange di
  pub imm : IsWord di.imm
  pub known :
      (di.op ≡ Op.unknown)
      ⊎ ((di.valid ≡ true)
          × (di.format ≡ format_of (encoding di.op))
          × ((o : Operands) × IsOperands (encoding di.op) o
              × (di ≡ decoded di.op (encoding di.op) o w)))

-- A word below 2^32 decodes to register indices below 32, a funct3 below 8, a funct7 below 128
-- and an immediate below 2^32. Its operation is unknown, or it is marked valid, has the format
-- that the manual's tables give the operation, and is as the decoder has to return it for the
-- operation and operands in the range of its encoding.
pub rve_decode_instruction-IsTyped : (w : ℕ) → IsWord w → IsTyped w (rve_decode_instruction w)
rve_decode_instruction-IsTyped w h = record {
  fields = decode-InRange w;
  imm = (decode-WordFields w h).imm;
  known = elim (decode-Sound w h) [
    | inl u ↦ inl u
    | inr x ↦
        let op = (rve_decode_instruction w).op in
        let e = encoding op in
        let (o, held, same) = Encodes-decoded w op h x in
        inr (
          ap (λ (di : DecodedInstruction). di.valid) same ∙ decoded-valid op e o w,
          ap (λ (di : DecodedInstruction). di.format) same ∙ decoded-format op e o w,
          (o, held, same),
        )
  ];
}
