-- ===== src/Riscv/Funct7.antt =====
-- The values of funct7, bits 31:25 (include/rve/riscv.h, RISCV_FUNCT7_*).
use rve.Base.{ℕ}

abbrev pub slli : ℕ
slli = 0x00

abbrev pub srli : ℕ
srli = 0x00

abbrev pub srai : ℕ
srai = 0x20

abbrev pub add : ℕ
add = 0x00

abbrev pub sub : ℕ
sub = 0x20

abbrev pub sll : ℕ
sll = 0x00

abbrev pub slt : ℕ
slt = 0x00

abbrev pub sltu : ℕ
sltu = 0x00

abbrev pub xor : ℕ
xor = 0x00

abbrev pub srl : ℕ
srl = 0x00

abbrev pub sra : ℕ
sra = 0x20

abbrev pub or : ℕ
or = 0x00

abbrev pub and : ℕ
and = 0x00

abbrev pub muldiv : ℕ
muldiv = 0x01
