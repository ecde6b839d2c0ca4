-- ===== src/Decoder/Names.antt =====
-- The names of formats, operations, opcodes and registers (src/decoder.c from line 473).
pub mod Abi
use Prim.Native.String.{String}
use rve.Base.{ℕ, ◌%◌, List, [], ◌∷◌, some, none, get_elem?, ltb, ◌==◌, if◌then◌else◌, bit_and}
use rve.Riscv.Opcode
use rve.Decoder.Types.{Format, Op}

-- The number of an operation in its enumeration (include/rve/decoder.h).
unfoldable pub op_number : Op → ℕ
op_number Op.unknown = 0
op_number Op.lui = 1
op_number Op.auipc = 2
op_number Op.jal = 3
op_number Op.jalr = 4
op_number Op.beq = 5
op_number Op.bne = 6
op_number Op.blt = 7
op_number Op.bge = 8
op_number Op.bltu = 9
op_number Op.bgeu = 10
op_number Op.lb = 11
op_number Op.lh = 12
op_number Op.lw = 13
op_number Op.lbu = 14
op_number Op.lhu = 15
op_number Op.sb = 16
op_number Op.sh = 17
op_number Op.sw = 18
op_number Op.addi = 19
op_number Op.slti = 20
op_number Op.sltiu = 21
op_number Op.xori = 22
op_number Op.ori = 23
op_number Op.andi = 24
op_number Op.slli = 25
op_number Op.srli = 26
op_number Op.srai = 27
op_number Op.add = 28
op_number Op.sub = 29
op_number Op.sll = 30
op_number Op.slt = 31
op_number Op.sltu = 32
op_number Op.xor = 33
op_number Op.srl = 34
op_number Op.sra = 35
op_number Op.or = 36
op_number Op.and = 37
op_number Op.fence = 38
op_number Op.fence_i = 39
op_number Op.ecall = 40
op_number Op.ebreak = 41
op_number Op.mret = 42
op_number Op.mul = 43
op_number Op.mulh = 44
op_number Op.mulhsu = 45
op_number Op.mulhu = 46
op_number Op.div = 47
op_number Op.divu = 48
op_number Op.rem = 49
op_number Op.remu = 50
op_number Op.csrrw = 51
op_number Op.csrrs = 52
op_number Op.csrrc = 53
op_number Op.csrrwi = 54
op_number Op.csrrsi = 55
op_number Op.csrrci = 56
op_number Op.num = 57

unfoldable pub rve_instruction_format_to_cstr : Format → String
rve_instruction_format_to_cstr Format.unknown = "UNKNOWN"
rve_instruction_format_to_cstr Format.r_type = "R"
rve_instruction_format_to_cstr Format.i_type = "I"
rve_instruction_format_to_cstr Format.s_type = "S"
rve_instruction_format_to_cstr Format.b_type = "B"
rve_instruction_format_to_cstr Format.u_type = "U"
rve_instruction_format_to_cstr Format.j_type = "J"
rve_instruction_format_to_cstr Format.num = "UNKNOWN_OTHER"

-- The operations of the M extension have no case.
unfoldable pub rve_instruction_op_to_cstr : Op → String
rve_instruction_op_to_cstr Op.unknown = "INSTRUCTION_OP_UNKNOWN"
rve_instruction_op_to_cstr Op.lui = "INSTRUCTION_OP_LUI"
rve_instruction_op_to_cstr Op.auipc = "INSTRUCTION_OP_AUIPC"
rve_instruction_op_to_cstr Op.jal = "INSTRUCTION_OP_JAL"
rve_instruction_op_to_cstr Op.jalr = "INSTRUCTION_OP_JALR"
rve_instruction_op_to_cstr Op.beq = "INSTRUCTION_OP_BEQ"
rve_instruction_op_to_cstr Op.bne = "INSTRUCTION_OP_BNE"
rve_instruction_op_to_cstr Op.blt = "INSTRUCTION_OP_BLT"
rve_instruction_op_to_cstr Op.bge = "INSTRUCTION_OP_BGE"
rve_instruction_op_to_cstr Op.bltu = "INSTRUCTION_OP_BLTU"
rve_instruction_op_to_cstr Op.bgeu = "INSTRUCTION_OP_BGEU"
rve_instruction_op_to_cstr Op.lb = "INSTRUCTION_OP_LB"
rve_instruction_op_to_cstr Op.lh = "INSTRUCTION_OP_LH"
rve_instruction_op_to_cstr Op.lw = "INSTRUCTION_OP_LW"
rve_instruction_op_to_cstr Op.lbu = "INSTRUCTION_OP_LBU"
rve_instruction_op_to_cstr Op.lhu = "INSTRUCTION_OP_LHU"
rve_instruction_op_to_cstr Op.sb = "INSTRUCTION_OP_SB"
rve_instruction_op_to_cstr Op.sh = "INSTRUCTION_OP_SH"
rve_instruction_op_to_cstr Op.sw = "INSTRUCTION_OP_SW"
rve_instruction_op_to_cstr Op.addi = "INSTRUCTION_OP_ADDI"
rve_instruction_op_to_cstr Op.slti = "INSTRUCTION_OP_SLTI"
rve_instruction_op_to_cstr Op.sltiu = "INSTRUCTION_OP_SLTIU"
rve_instruction_op_to_cstr Op.xori = "INSTRUCTION_OP_XORI"
rve_instruction_op_to_cstr Op.ori = "INSTRUCTION_OP_ORI"
rve_instruction_op_to_cstr Op.andi = "INSTRUCTION_OP_ANDI"
rve_instruction_op_to_cstr Op.slli = "INSTRUCTION_OP_SLLI"
rve_instruction_op_to_cstr Op.srli = "INSTRUCTION_OP_SRLI"
rve_instruction_op_to_cstr Op.srai = "INSTRUCTION_OP_SRAI"
rve_instruction_op_to_cstr Op.add = "INSTRUCTION_OP_ADD"
rve_instruction_op_to_cstr Op.sub = "INSTRUCTION_OP_SUB"
rve_instruction_op_to_cstr Op.sll = "INSTRUCTION_OP_SLL"
rve_instruction_op_to_cstr Op.slt = "INSTRUCTION_OP_SLT"
rve_instruction_op_to_cstr Op.sltu = "INSTRUCTION_OP_SLTU"
rve_instruction_op_to_cstr Op.xor = "INSTRUCTION_OP_XOR"
rve_instruction_op_to_cstr Op.srl = "INSTRUCTION_OP_SRL"
rve_instruction_op_to_cstr Op.sra = "INSTRUCTION_OP_SRA"
rve_instruction_op_to_cstr Op.or = "INSTRUCTION_OP_OR"
rve_instruction_op_to_cstr Op.and = "INSTRUCTION_OP_AND"
rve_instruction_op_to_cstr Op.fence = "INSTRUCTION_OP_FENCE"
rve_instruction_op_to_cstr Op.fence_i = "INSTRUCTION_OP_FENCE_I"
rve_instruction_op_to_cstr Op.ecall = "INSTRUCTION_OP_ECALL"
rve_instruction_op_to_cstr Op.ebreak = "INSTRUCTION_OP_EBREAK"
rve_instruction_op_to_cstr Op.mret = "INSTRUCTION_OP_MRET"
rve_instruction_op_to_cstr Op.csrrw = "INSTRUCTION_OP_CSRRW"
rve_instruction_op_to_cstr Op.csrrs = "INSTRUCTION_OP_CSRRS"
rve_instruction_op_to_cstr Op.csrrc = "INSTRUCTION_OP_CSRRC"
rve_instruction_op_to_cstr Op.csrrwi = "INSTRUCTION_OP_CSRRWI"
rve_instruction_op_to_cstr Op.csrrsi = "INSTRUCTION_OP_CSRRSI"
rve_instruction_op_to_cstr Op.csrrci = "INSTRUCTION_OP_CSRRCI"
rve_instruction_op_to_cstr _ = "INSTRUCTION_OP_UNKNOWN_OTHER"

unfoldable pub rve_opcode_to_str : ℕ → String
rve_opcode_to_str word =
    let opcode = bit_and word 0x7F in
    if opcode == Opcode.lui
    then "RISCV_OPCODE_LUI"
    else if opcode == Opcode.auipc
    then "RISCV_OPCODE_AUIPC"
    else if opcode == Opcode.jal
    then "RISCV_OPCODE_JAL"
    else if opcode == Opcode.jalr
    then "RISCV_OPCODE_JALR"
    else if opcode == Opcode.branch
    then "RISCV_OPCODE_BRANCH"
    else if opcode == Opcode.load
    then "RISCV_OPCODE_LOAD"
    else if opcode == Opcode.store
    then "RISCV_OPCODE_STORE"
    else if opcode == Opcode.op_imm
    then "RISCV_OPCODE_OP_IMM"
    else if opcode == Opcode.op
    then "RISCV_OPCODE_OP"
    else if opcode == Opcode.misc_mem
    then "RISCV_OPCODE_MISC_MEM"
    else if opcode == Opcode.system
    then "RISCV_OPCODE_SYSTEM"
    else "RISCV_OPCODE_UNKNOWN"

abbrev pub abi_names : List String
abi_names =
    "zero" ∷ "ra" ∷ "sp" ∷ "gp" ∷ "tp" ∷ "t0" ∷ "t1" ∷ "t2" ∷ "s0" ∷ "s1" ∷ "a0" ∷ "a1" ∷ "a2"
    ∷ "a3" ∷ "a4" ∷ "a5" ∷ "a6" ∷ "a7" ∷ "s2" ∷ "s3" ∷ "s4" ∷ "s5" ∷ "s6" ∷ "s7" ∷ "s8" ∷ "s9"
    ∷ "s10" ∷ "s11" ∷ "t3" ∷ "t4" ∷ "t5" ∷ "t6" ∷ []

-- `XLEN`
abbrev pub xlen : ℕ
xlen = 32

unfoldable pub get_abi_name : ℕ → String
get_abi_name reg_index =
    if ltb reg_index xlen
    then (elim (get_elem? abi_names reg_index) [ none ↦ "" | some name ↦ name ])
    else "x??"
