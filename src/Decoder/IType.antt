-- ===== src/Decoder/IType.antt =====
-- `decode_instruction_i` of src/decoder.c, one function for each opcode of its outer switch.
use rve.Base.{ℕ, true, false, ◌&&◌, Option, none, some, ◌==◌, if◌then◌else◌, bit_and}
use rve.Decoder.Types.{Op, Format, DecodedInstruction}
use rve.Decoder.Fields.{get_rd, get_funct3, get_rs1, get_rs2, get_shamt, get_funct7, get_imm_i}
use rve.Decoder.Formats.{finish_op}
use rve.Riscv.Opcode
use rve.Riscv.Funct3
use rve.Riscv.Funct7
use rve.Riscv.Funct12

unfoldable pub jalr_op : ℕ → Option Op
jalr_op funct3 = if funct3 == Funct3.jalr then some Op.jalr else none

unfoldable pub load_op : ℕ → Option Op
load_op funct3 =
    if funct3 == Funct3.lb
    then some Op.lb
    else if funct3 == Funct3.lh
    then some Op.lh
    else if funct3 == Funct3.lw
    then some Op.lw
    else if funct3 == Funct3.lbu
    then some Op.lbu
    else if funct3 == Funct3.lhu
    then some Op.lhu
    else none

-- `case RISCV_FUNCT3_SLLI`
unfoldable pub decode_slli : DecodedInstruction → ℕ → DecodedInstruction
decode_slli di instruction =
    let di = record di { funct7 = get_funct7 instruction } in
    finish_op di (if di.funct7 == Funct7.slli then some Op.slli else none)

-- The tests on funct7 of `case RISCV_FUNCT3_SRLI_SRAI`.
unfoldable pub right_op : ℕ → Option Op
right_op funct7 =
    if funct7 == Funct7.srli
    then some Op.srli
    else if funct7 == Funct7.srai
    then some Op.srai
    else none

unfoldable pub decode_srli_srai : DecodedInstruction → ℕ → DecodedInstruction
decode_srli_srai di instruction =
    let di = record di { funct7 = get_funct7 instruction } in
    elim (right_op di.funct7) [
      | none ↦ record di { valid = false }
      | some op ↦ record di { op = op; imm = get_shamt instruction; valid = true }
    ]

-- The cases of OP_IMM that look at no other field.
unfoldable pub op_imm_op : ℕ → Option Op
op_imm_op funct3 =
    if funct3 == Funct3.addi
    then some Op.addi
    else if funct3 == Funct3.slti
    then some Op.slti
    else if funct3 == Funct3.sltiu
    then some Op.sltiu
    else if funct3 == Funct3.xori
    then some Op.xori
    else if funct3 == Funct3.ori
    then some Op.ori
    else if funct3 == Funct3.andi
    then some Op.andi
    else none

-- The switch has no default: a `funct3` of three bits meets one of the cases.
unfoldable pub decode_op_imm : DecodedInstruction → ℕ → DecodedInstruction
unfolding decode_slli decode_srli_srai
decode_op_imm di instruction = elim (op_imm_op di.funct3) [
  | some op ↦ finish_op di (some op)
  | none ↦
      if di.funct3 == Funct3.slli
      then decode_slli di instruction
      else if di.funct3 == Funct3.srli_srai
      then decode_srli_srai di instruction
      else record di { valid = true }
]

unfoldable pub misc_mem_op : ℕ → Option Op
misc_mem_op funct3 =
    if funct3 == Funct3.fence
    then some Op.fence
    else if funct3 == Funct3.fence_i
    then some Op.fence_i
    else none

unfoldable pub decode_misc_mem : DecodedInstruction → ℕ → DecodedInstruction
unfolding misc_mem_op
decode_misc_mem di instruction =
    let di = record di {
      imm = 0;
      rs1 = get_rs1 instruction;
      rd = get_rd instruction;
      funct3 = get_funct3 instruction;
    } in
    finish_op di (misc_mem_op di.funct3)

-- `case RISCV_FUNCT3_PRIV`. An unsupported instruction keeps the operation `unknown`.
unfoldable pub decode_priv : DecodedInstruction → ℕ → DecodedInstruction
decode_priv di instruction =
    let rs2_val = get_rs2 instruction in
    let funct12 = bit_and di.imm 0xFFF in
    if funct12 == Funct12.ecall && (di.rs1 == 0 && (di.rd == 0 && rs2_val == 0))
    then record di { op = Op.ecall; imm = 0; rd = 0; rs1 = 0 }
    else if funct12 == Funct12.ebreak && (di.rs1 == 0 && (di.rd == 0 && rs2_val == 1))
    then record di { op = Op.ebreak; imm = 1; rd = 0; rs1 = 0 }
    else if funct12 == Funct12.mret && (di.rs1 == 0 && (di.rd == 0 && rs2_val == 2))
    then record di { op = Op.mret }
    else di

unfoldable pub csr_op : ℕ → Option Op
csr_op funct3 =
    if funct3 == Funct3.csrrw
    then some Op.csrrw
    else if funct3 == Funct3.csrrs
    then some Op.csrrs
    else if funct3 == Funct3.csrrc
    then some Op.csrrc
    else if funct3 == Funct3.csrrwi
    then some Op.csrrwi
    else if funct3 == Funct3.csrrsi
    then some Op.csrrsi
    else if funct3 == Funct3.csrrci
    then some Op.csrrci
    else none

-- Every case breaks, so that `valid` ends up true, also in the default case.
unfoldable pub decode_system : DecodedInstruction → ℕ → DecodedInstruction
unfolding decode_priv csr_op
decode_system di instruction =
    let di = record di { imm = get_imm_i instruction; funct3 = get_funct3 instruction } in
    let di' =
      if di.funct3 == Funct3.priv then decode_priv di instruction else elim (csr_op di.funct3) [
        | none ↦ record di { valid = false }
        | some op ↦ record di { op = op }
      ] in
    record di' { valid = true }

unfoldable pub decode_instruction_i : DecodedInstruction → ℕ → ℕ → DecodedInstruction
unfolding jalr_op decode_op_imm decode_misc_mem decode_system
decode_instruction_i di instruction opcode =
    let di = record di {
      format = Format.i_type;
      funct3 = get_funct3 instruction;
      rs1 = get_rs1 instruction;
      imm = get_imm_i instruction;
      rd = get_rd instruction;
    } in
    if opcode == Opcode.jalr
    then finish_op di (jalr_op di.funct3)
    else if opcode == Opcode.load
    then finish_op di (load_op di.funct3)
    else if opcode == Opcode.op_imm
    then decode_op_imm di instruction
    else if opcode == Opcode.misc_mem
    then decode_misc_mem di instruction
    else if opcode == Opcode.system
    then decode_system di instruction
    else record di { valid = false }
