-- ===== src/Decoder/Types.antt =====
-- The enumerations and the decoded instruction of include/rve/decoder.h.
use rve.Base.{ℕ, Bool, false}

-- `instruction_format_t`
pub data Format : Type 0 where
  unknown r_type i_type s_type b_type u_type j_type num : Format

-- `instruction_op_t`
pub data Op : Type 0 where
  unknown : Op
  lui auipc jal jalr : Op
  beq bne blt bge bltu bgeu : Op
  lb lh lw lbu lhu sb sh sw : Op
  addi slti sltiu xori ori andi slli srli srai : Op
  add sub sll slt sltu xor srl sra or and : Op
  fence fence_i ecall ebreak mret : Op
  mul mulh mulhsu mulhu div divu rem remu : Op
  csrrw csrrs csrrc csrrwi csrrsi csrrci : Op
  num : Op

-- `decoded_instruction_t`
pub record DecodedInstruction : Type 0 where
  pub original_instruction : ℕ
  pub op : Op
  pub format : Format
  pub imm : ℕ
  pub rs1 : ℕ
  pub rs2 : ℕ
  pub rd : ℕ
  pub funct3 : ℕ
  pub funct7 : ℕ
  pub valid : Bool

-- `{0}`
abbrev pub zeroed : DecodedInstruction
zeroed = record {
  original_instruction = 0;
  op = Op.unknown;
  format = Format.unknown;
  imm = 0;
  rs1 = 0;
  rs2 = 0;
  rd = 0;
  funct3 = 0;
  funct7 = 0;
  valid = false;
}
