-- ===== src/Riscv/Opcode.antt =====
-- The major opcodes, bits 6:0 of an instruction (include/rve/riscv.h, RISCV_OPCODE_*).
use rve.Base.{ℕ}

abbrev pub lui : ℕ
lui = 0x37

abbrev pub auipc : ℕ
auipc = 0x17

abbrev pub jal : ℕ
jal = 0x6F

abbrev pub jalr : ℕ
jalr = 0x67

abbrev pub load : ℕ
load = 0x03

abbrev pub op_imm : ℕ
op_imm = 0x13

abbrev pub misc_mem : ℕ
misc_mem = 0x0F

abbrev pub system : ℕ
system = 0x73

abbrev pub branch : ℕ
branch = 0x63

abbrev pub store : ℕ
store = 0x23

abbrev pub op : ℕ
op = 0x33
