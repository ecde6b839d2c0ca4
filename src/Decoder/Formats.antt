-- ===== src/Decoder/Formats.antt =====
-- The `decode_instruction_*` functions of the U, J, B and S formats of src/decoder.c. Each takes the instruction as filled so
-- far and returns it. A function `*_op` is the choice of `di->op` by a switch, `none` its default.
use rve.Base.{ℕ, true, false, Option, none, some, ◌==◌, if◌then◌else◌}
use rve.Decoder.Types.{Op, Format, DecodedInstruction}
use rve.Decoder.Fields.{
  get_rd, get_funct3, get_rs1, get_rs2, get_imm_s, get_imm_u, get_imm_j, get_imm_b,
}
use rve.Riscv.Opcode
use rve.Riscv.Funct3

-- `di->op = op`, or `di->valid = false` in the default case.
abbrev pub set_op : DecodedInstruction → Option Op → DecodedInstruction
set_op di none = record di { valid = false }
set_op di (some op) = record di { op = op }

-- The same where the default case returns at once, and the end sets `valid`.
abbrev pub finish_op : DecodedInstruction → Option Op → DecodedInstruction
finish_op di none = record di { valid = false }
finish_op di (some op) = record di { op = op; valid = true }

unfoldable pub u_op : ℕ → Option Op
u_op opcode =
    if opcode == Opcode.lui
    then some Op.lui
    else if opcode == Opcode.auipc
    then some Op.auipc
    else none

unfoldable pub decode_instruction_u : DecodedInstruction → ℕ → ℕ → DecodedInstruction
unfolding u_op
decode_instruction_u di instruction opcode =
    let di = record di { format = Format.u_type } in
    elim (u_op opcode) [
      | none ↦ record di { valid = false }
      | some op ↦ record di {
        op = op;
        imm = get_imm_u instruction;
        rd = get_rd instruction;
        valid = true;
      }
    ]

unfoldable pub decode_instruction_j : DecodedInstruction → ℕ → ℕ → DecodedInstruction
decode_instruction_j di instruction opcode =
    let di = record di { format = Format.j_type } in
    if opcode == Opcode.jal
    then record di {
      op = Op.jal;
      imm = get_imm_j instruction;
      rd = get_rd instruction;
      valid = true;
    }
    else di

unfoldable pub b_op : ℕ → Option Op
b_op funct3 =
    if funct3 == Funct3.beq
    then some Op.beq
    else if funct3 == Funct3.bne
    then some Op.bne
    else if funct3 == Funct3.blt
    then some Op.blt
    else if funct3 == Funct3.bge
    then some Op.bge
    else if funct3 == Funct3.bltu
    then some Op.bltu
    else if funct3 == Funct3.bgeu
    then some Op.bgeu
    else none

-- The default case sets `valid` to false and breaks; the last line sets it to true.
unfoldable pub decode_instruction_b : DecodedInstruction → ℕ → ℕ → DecodedInstruction
unfolding b_op
decode_instruction_b di instruction opcode =
    let di = record di {
      format = Format.b_type;
      imm = get_imm_b instruction;
      rs1 = get_rs1 instruction;
      rs2 = get_rs2 instruction;
      funct3 = get_funct3 instruction;
    } in
    let di' = set_op di (b_op di.funct3) in record di' { valid = true }

unfoldable pub s_op : ℕ → Option Op
s_op funct3 =
    if funct3 == Funct3.sb
    then some Op.sb
    else if funct3 == Funct3.sh
    then some Op.sh
    else if funct3 == Funct3.sw
    then some Op.sw
    else none

-- As for branches, `valid` ends up true in the default case too.
unfoldable pub decode_instruction_s : DecodedInstruction → ℕ → ℕ → DecodedInstruction
unfolding s_op
decode_instruction_s di instruction opcode =
    let di = record di {
      format = Format.s_type;
      imm = get_imm_s instruction;
      rs2 = get_rs2 instruction;
      rs1 = get_rs1 instruction;
      funct3 = get_funct3 instruction;
      rd = get_rd instruction;
    } in
    let di' = set_op di (s_op di.funct3) in record di' { valid = true }
