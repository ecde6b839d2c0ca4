-- ===== src/Decoder/RType.antt =====
-- `decode_instruction_r` of src/decoder.c.
use rve.Base.{ℕ, Option, none, some, ◌==◌, if◌then◌else◌}
use rve.Decoder.Types.{Op, Format, DecodedInstruction}
use rve.Decoder.Fields.{get_rd, get_funct3, get_rs1, get_rs2, get_funct7}
use rve.Decoder.Formats.{finish_op}
use rve.Riscv.Funct3
use rve.Riscv.Funct7

-- The inner switches, by the value of funct7.
unfoldable pub add_op : ℕ → Option Op
add_op funct3 =
    if funct3 == Funct3.add_sub
    then some Op.add
    else if funct3 == Funct3.sll
    then some Op.sll
    else if funct3 == Funct3.slt
    then some Op.slt
    else if funct3 == Funct3.sltu
    then some Op.sltu
    else if funct3 == Funct3.xor
    then some Op.xor
    else if funct3 == Funct3.srl_sra
    then some Op.srl
    else if funct3 == Funct3.or
    then some Op.or
    else if funct3 == Funct3.and
    then some Op.and
    else none

unfoldable pub sub_op : ℕ → Option Op
sub_op funct3 =
    if funct3 == Funct3.add_sub
    then some Op.sub
    else if funct3 == Funct3.srl_sra
    then some Op.sra
    else none

unfoldable pub muldiv_op : ℕ → Option Op
muldiv_op funct3 =
    if funct3 == Funct3.mul
    then some Op.mul
    else if funct3 == Funct3.mulh
    then some Op.mulh
    else if funct3 == Funct3.mulhsu
    then some Op.mulhsu
    else if funct3 == Funct3.mulhu
    then some Op.mulhu
    else if funct3 == Funct3.div
    then some Op.div
    else if funct3 == Funct3.divu
    then some Op.divu
    else if funct3 == Funct3.rem
    then some Op.rem
    else if funct3 == Funct3.remu
    then some Op.remu
    else none

unfoldable pub r_op : ℕ → ℕ → Option Op
unfolding add_op sub_op muldiv_op
r_op funct7 funct3 =
    if funct7 == Funct7.add
    then add_op funct3
    else if funct7 == Funct7.sub
    then sub_op funct3
    else if funct7 == Funct7.muldiv
    then muldiv_op funct3
    else none

unfoldable pub decode_instruction_r : DecodedInstruction → ℕ → ℕ → DecodedInstruction
unfolding r_op
decode_instruction_r di instruction opcode =
    let di = record di {
      format = Format.r_type;
      imm = 0;
      funct7 = get_funct7 instruction;
      rs2 = get_rs2 instruction;
      rs1 = get_rs1 instruction;
      funct3 = get_funct3 instruction;
      rd = get_rd instruction;
    } in
    finish_op di (r_op di.funct7 di.funct3)
