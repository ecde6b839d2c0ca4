-- ===== src/Riscv/Funct12.antt =====
-- The values of bits 31:20 of the privileged instructions (include/rve/riscv.h, RISCV_FUNCT12_*).
use rve.Base.{ℕ}

abbrev pub ecall : ℕ
ecall = 0x000

abbrev pub ebreak : ℕ
ebreak = 0x001

abbrev pub mret : ℕ
mret = 0x302
