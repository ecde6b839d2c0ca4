-- ===== src/Decoder/Encoding.antt =====
-- The instruction encodings of RV32IM with Zicsr, written from the manual's tables and apart from
-- the decoder: what src/decoder.c has to invert.
use rve.Base.{ℕ, ◌+◌, ◌*◌, ◌/◌, ◌%◌, ◌^◌, ◌<◌, ◌≡◌, true}
use rve.Word.Laws.{extend}
use rve.Decoder.Types.{Op, Format, DecodedInstruction}

-- How an operation is encoded: the constant fields. `word` is an instruction without operands, of
-- which the decoder keeps the given `imm`.
pub data Encoding : Type 0 where
  r_enc : (opcode funct3 funct7 : ℕ) → Encoding
  i_enc : (opcode funct3 : ℕ) → Encoding
  left_enc right_enc : (funct3 funct7 : ℕ) → Encoding
  s_enc b_enc fence_enc csr_enc : (funct3 : ℕ) → Encoding
  u_enc : (opcode : ℕ) → Encoding
  j_enc : Encoding
  word_enc : (word imm : ℕ) → Encoding
  no_enc : Encoding

abbrev pub encoding : Op → Encoding
encoding Op.lui = Encoding.u_enc 0b0110111
encoding Op.auipc = Encoding.u_enc 0b0010111
encoding Op.jal = Encoding.j_enc
encoding Op.jalr = Encoding.i_enc 0b1100111 0
encoding Op.beq = Encoding.b_enc 0
encoding Op.bne = Encoding.b_enc 1
encoding Op.blt = Encoding.b_enc 4
encoding Op.bge = Encoding.b_enc 5
encoding Op.bltu = Encoding.b_enc 6
encoding Op.bgeu = Encoding.b_enc 7
encoding Op.lb = Encoding.i_enc 0b0000011 0
encoding Op.lh = Encoding.i_enc 0b0000011 1
encoding Op.lw = Encoding.i_enc 0b0000011 2
encoding Op.lbu = Encoding.i_enc 0b0000011 4
encoding Op.lhu = Encoding.i_enc 0b0000011 5
encoding Op.sb = Encoding.s_enc 0
encoding Op.sh = Encoding.s_enc 1
encoding Op.sw = Encoding.s_enc 2
encoding Op.addi = Encoding.i_enc 0b0010011 0
encoding Op.slti = Encoding.i_enc 0b0010011 2
encoding Op.sltiu = Encoding.i_enc 0b0010011 3
encoding Op.xori = Encoding.i_enc 0b0010011 4
encoding Op.ori = Encoding.i_enc 0b0010011 6
encoding Op.andi = Encoding.i_enc 0b0010011 7
encoding Op.slli = Encoding.left_enc 1 0
encoding Op.srli = Encoding.right_enc 5 0
encoding Op.srai = Encoding.right_enc 5 0b0100000
encoding Op.add = Encoding.r_enc 0b0110011 0 0
encoding Op.sub = Encoding.r_enc 0b0110011 0 0b0100000
encoding Op.sll = Encoding.r_enc 0b0110011 1 0
encoding Op.slt = Encoding.r_enc 0b0110011 2 0
encoding Op.sltu = Encoding.r_enc 0b0110011 3 0
encoding Op.xor = Encoding.r_enc 0b0110011 4 0
encoding Op.srl = Encoding.r_enc 0b0110011 5 0
encoding Op.sra = Encoding.r_enc 0b0110011 5 0b0100000
encoding Op.or = Encoding.r_enc 0b0110011 6 0
encoding Op.and = Encoding.r_enc 0b0110011 7 0
encoding Op.fence = Encoding.fence_enc 0
encoding Op.fence_i = Encoding.fence_enc 1
encoding Op.ecall = Encoding.word_enc 0x0000_0073 0
encoding Op.ebreak = Encoding.word_enc 0x0010_0073 1
encoding Op.mret = Encoding.word_enc 0x3020_0073 0x302
encoding Op.mul = Encoding.r_enc 0b0110011 0 1
encoding Op.mulh = Encoding.r_enc 0b0110011 1 1
encoding Op.mulhsu = Encoding.r_enc 0b0110011 2 1
encoding Op.mulhu = Encoding.r_enc 0b0110011 3 1
encoding Op.div = Encoding.r_enc 0b0110011 4 1
encoding Op.divu = Encoding.r_enc 0b0110011 5 1
encoding Op.rem = Encoding.r_enc 0b0110011 6 1
encoding Op.remu = Encoding.r_enc 0b0110011 7 1
encoding Op.csrrw = Encoding.csr_enc 1
encoding Op.csrrs = Encoding.csr_enc 2
encoding Op.csrrc = Encoding.csr_enc 3
encoding Op.csrrwi = Encoding.csr_enc 5
encoding Op.csrrsi = Encoding.csr_enc 6
encoding Op.csrrci = Encoding.csr_enc 7
encoding Op.unknown = Encoding.no_enc
encoding Op.num = Encoding.no_enc

-- The operands. An immediate is the word that the operation uses, sign extended where it is signed.
pub record Operands : Type 0 where
  pub rd : ℕ
  pub rs1 : ℕ
  pub rs2 : ℕ
  pub imm : ℕ

-- The fields of a word, from the highest: funct7, rs2, rs1, funct3, rd, opcode.
abbrev pub pack : ℕ → ℕ → ℕ → ℕ → ℕ → ℕ → ℕ
pack f7 rs2 rs1 f3 rd opcode =
    f7 * 2 ^ 25 + rs2 * 2 ^ 20 + rs1 * 2 ^ 15 + f3 * 2 ^ 12 + rd * 2 ^ 7 + opcode

-- The fields of a word with twelve bits on top.
abbrev pub pack_i : ℕ → ℕ → ℕ → ℕ → ℕ → ℕ
pack_i top rs1 f3 rd opcode =
    top % 2 ^ 12 * 2 ^ 20 + rs1 * 2 ^ 15 + f3 * 2 ^ 12 + rd * 2 ^ 7 + opcode

unfoldable pub assemble : Encoding → Operands → ℕ
assemble (Encoding.r_enc opcode f3 f7) o = pack f7 o.rs2 o.rs1 f3 o.rd opcode
assemble (Encoding.i_enc opcode f3) o = pack_i o.imm o.rs1 f3 o.rd opcode
assemble (Encoding.left_enc f3 f7) o = pack f7 o.imm o.rs1 f3 o.rd 0b0010011
assemble (Encoding.right_enc f3 f7) o = pack f7 o.imm o.rs1 f3 o.rd 0b0010011
assemble (Encoding.s_enc f3) o =
    pack (o.imm / 2 ^ 5 % 2 ^ 7) o.rs2 o.rs1 f3 (o.imm % 2 ^ 5) 0b0100011
assemble (Encoding.b_enc f3) o =
    pack (o.imm / 2 ^ 12 % 2 * 2 ^ 6 + o.imm / 2 ^ 5 % 2 ^ 6) o.rs2 o.rs1 f3
      (o.imm / 2 % 2 ^ 4 * 2 + o.imm / 2 ^ 11 % 2) 0b1100011
assemble (Encoding.fence_enc f3) o = pack_i o.imm o.rs1 f3 o.rd 0b0001111
assemble (Encoding.csr_enc f3) o = pack_i o.imm o.rs1 f3 o.rd 0b1110011
assemble (Encoding.u_enc opcode) o = o.imm / 2 ^ 12 * 2 ^ 12 + o.rd * 2 ^ 7 + opcode
assemble Encoding.j_enc o =
    o.imm / 2 ^ 20 % 2 * 2 ^ 31
    + o.imm / 2 % 2 ^ 10 * 2 ^ 21
    + o.imm / 2 ^ 11 % 2 * 2 ^ 20
    + o.imm / 2 ^ 12 % 2 ^ 8 * 2 ^ 12
    + o.rd * 2 ^ 7
    + 0b1101111
assemble (Encoding.word_enc word imm) o = word
assemble Encoding.no_enc o = 0

-- A word that is the sign extension of its `2 * half` lowest values.
abbrev pub IsSigned : ℕ → ℕ → Type 0
IsSigned half imm = imm ≡ extend half (imm % (2 * half))

-- The immediates that an encoding can hold. The decoder drops that of a fence.
abbrev pub Holds : Encoding → ℕ → Type 0
Holds (Encoding.r_enc _ _ _) imm = imm ≡ 0
Holds (Encoding.i_enc _ _) imm = IsSigned 0x800 imm
Holds (Encoding.left_enc _ _) imm = imm < 32
Holds (Encoding.right_enc _ _) imm = imm < 32
Holds (Encoding.s_enc _) imm = IsSigned 0x800 imm
Holds (Encoding.b_enc _) imm = IsSigned 0x1000 imm × (imm % 2 ≡ 0)
Holds (Encoding.fence_enc _) imm = IsSigned 0x800 imm
Holds (Encoding.csr_enc _) imm = IsSigned 0x800 imm
Holds (Encoding.u_enc _) imm = (imm < 2 ^ 32) × (imm % 2 ^ 12 ≡ 0)
Holds Encoding.j_enc imm = IsSigned 0x10_0000 imm × (imm % 2 ≡ 0)
Holds (Encoding.word_enc _ _) imm = imm ≡ 0
Holds Encoding.no_enc imm = ⊥

abbrev pub IsOperands : Encoding → Operands → Type 0
IsOperands e o = (o.rd < 32) × (o.rs1 < 32) × (o.rs2 < 32) × Holds e o.imm

-- What the decoder has to return for an operation and its operands.
abbrev pub decoded : Op → Encoding → Operands → ℕ → DecodedInstruction
decoded op (Encoding.r_enc _ f3 f7) o w = record {
  original_instruction = w;
  op = op;
  format = Format.r_type;
  imm = 0;
  rs1 = o.rs1;
  rs2 = o.rs2;
  rd = o.rd;
  funct3 = f3;
  funct7 = f7;
  valid = true;
}
decoded op (Encoding.i_enc _ f3) o w = record {
  original_instruction = w;
  op = op;
  format = Format.i_type;
  imm = o.imm;
  rs1 = o.rs1;
  rs2 = 0;
  rd = o.rd;
  funct3 = f3;
  funct7 = 0;
  valid = true;
}
decoded op (Encoding.left_enc f3 f7) o w = record {
  original_instruction = w;
  op = op;
  format = Format.i_type;
  imm = o.imm;
  rs1 = o.rs1;
  rs2 = 0;
  rd = o.rd;
  funct3 = f3;
  funct7 = f7;
  valid = true;
}
decoded op (Encoding.right_enc f3 f7) o w = record {
  original_instruction = w;
  op = op;
  format = Format.i_type;
  imm = o.imm;
  rs1 = o.rs1;
  rs2 = 0;
  rd = o.rd;
  funct3 = f3;
  funct7 = f7;
  valid = true;
}
decoded op (Encoding.s_enc f3) o w = record {
  original_instruction = w;
  op = op;
  format = Format.s_type;
  imm = o.imm;
  rs1 = o.rs1;
  rs2 = o.rs2;
  rd = o.imm % 32;
  funct3 = f3;
  funct7 = 0;
  valid = true;
}
decoded op (Encoding.b_enc f3) o w = record {
  original_instruction = w;
  op = op;
  format = Format.b_type;
  imm = o.imm;
  rs1 = o.rs1;
  rs2 = o.rs2;
  rd = 0;
  funct3 = f3;
  funct7 = 0;
  valid = true;
}
decoded op (Encoding.fence_enc f3) o w = record {
  original_instruction = w;
  op = op;
  format = Format.i_type;
  imm = 0;
  rs1 = o.rs1;
  rs2 = 0;
  rd = o.rd;
  funct3 = f3;
  funct7 = 0;
  valid = true;
}
decoded op (Encoding.csr_enc f3) o w = record {
  original_instruction = w;
  op = op;
  format = Format.i_type;
  imm = o.imm;
  rs1 = o.rs1;
  rs2 = 0;
  rd = o.rd;
  funct3 = f3;
  funct7 = 0;
  valid = true;
}
decoded op (Encoding.u_enc _) o w = record {
  original_instruction = w;
  op = op;
  format = Format.u_type;
  imm = o.imm;
  rs1 = 0;
  rs2 = 0;
  rd = o.rd;
  funct3 = 0;
  funct7 = 0;
  valid = true;
}
decoded op Encoding.j_enc o w = record {
  original_instruction = w;
  op = op;
  format = Format.j_type;
  imm = o.imm;
  rs1 = 0;
  rs2 = 0;
  rd = o.rd;
  funct3 = 0;
  funct7 = 0;
  valid = true;
}
decoded op (Encoding.word_enc _ imm) o w = record {
  original_instruction = w;
  op = op;
  format = Format.i_type;
  imm = imm;
  rs1 = 0;
  rs2 = 0;
  rd = 0;
  funct3 = 0;
  funct7 = 0;
  valid = true;
}
decoded op Encoding.no_enc o w = record {
  original_instruction = w;
  op = op;
  format = Format.unknown;
  imm = 0;
  rs1 = 0;
  rs2 = 0;
  rd = 0;
  funct3 = 0;
  funct7 = 0;
  valid = true;
}
