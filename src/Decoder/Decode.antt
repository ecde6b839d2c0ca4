-- ===== src/Decoder/Decode.antt =====
-- `rve_decode_instruction` of src/decoder.c.
use rve.Base.{ℕ, ◌==◌, ◌||◌, if◌then◌else◌}
use rve.Decoder.Types.{DecodedInstruction, zeroed}
use rve.Decoder.Fields.{get_opcode}
use rve.Decoder.Formats.{
  decode_instruction_u, decode_instruction_j, decode_instruction_b, decode_instruction_s,
}
use rve.Decoder.IType.{decode_instruction_i}
use rve.Decoder.RType.{decode_instruction_r}
use rve.Riscv.Opcode

-- The outer switch, on an instruction whose word alone is filled in.
unfoldable pub decode_by_opcode : DecodedInstruction → ℕ → ℕ → DecodedInstruction
decode_by_opcode di instruction opcode =
    if opcode == Opcode.lui || opcode == Opcode.auipc
    then decode_instruction_u di instruction opcode
    else if opcode == Opcode.jal
    then decode_instruction_j di instruction opcode
    else if opcode == Opcode.jalr
        || (opcode == Opcode.load
            || (opcode == Opcode.op_imm || (opcode == Opcode.misc_mem || opcode == Opcode.system)))
    then decode_instruction_i di instruction opcode
    else if opcode == Opcode.branch
    then decode_instruction_b di instruction opcode
    else if opcode == Opcode.store
    then decode_instruction_s di instruction opcode
    else if opcode == Opcode.op
    then decode_instruction_r di instruction opcode
    else di

unfoldable pub rve_decode_instruction : ℕ → DecodedInstruction
unfolding decode_by_opcode
rve_decode_instruction instruction =
    decode_by_opcode (record zeroed { original_instruction = instruction }) instruction
      (get_opcode instruction)
