-- ===== src/Riscv/Funct3.antt =====
-- The values of funct3, bits 14:12 (include/rve/riscv.h, RISCV_FUNCT3_*).
use rve.Base.{ℕ}

abbrev pub lb : ℕ
lb = 0x0

abbrev pub lh : ℕ
lh = 0x1

abbrev pub lw : ℕ
lw = 0x2

abbrev pub lbu : ℕ
lbu = 0x4

abbrev pub lhu : ℕ
lhu = 0x5

abbrev pub fence : ℕ
fence = 0x0

abbrev pub fence_i : ℕ
fence_i = 0x1

abbrev pub addi : ℕ
addi = 0x0

abbrev pub slti : ℕ
slti = 0x2

abbrev pub sltiu : ℕ
sltiu = 0x3

abbrev pub xori : ℕ
xori = 0x4

abbrev pub ori : ℕ
ori = 0x6

abbrev pub andi : ℕ
andi = 0x7

abbrev pub slli : ℕ
slli = 0x1

abbrev pub srli_srai : ℕ
srli_srai = 0x5

abbrev pub sb : ℕ
sb = 0x0

abbrev pub sh : ℕ
sh = 0x1

abbrev pub sw : ℕ
sw = 0x2

abbrev pub add_sub : ℕ
add_sub = 0x0

abbrev pub sll : ℕ
sll = 0x1

abbrev pub slt : ℕ
slt = 0x2

abbrev pub sltu : ℕ
sltu = 0x3

abbrev pub xor : ℕ
xor = 0x4

abbrev pub srl_sra : ℕ
srl_sra = 0x5

abbrev pub or : ℕ
or = 0x6

abbrev pub and : ℕ
and = 0x7

abbrev pub mul : ℕ
mul = 0x0

abbrev pub mulh : ℕ
mulh = 0x1

abbrev pub mulhsu : ℕ
mulhsu = 0x2

abbrev pub mulhu : ℕ
mulhu = 0x3

abbrev pub div : ℕ
div = 0x4

abbrev pub divu : ℕ
divu = 0x5

abbrev pub rem : ℕ
rem = 0x6

abbrev pub remu : ℕ
remu = 0x7

abbrev pub beq : ℕ
beq = 0x0

abbrev pub bne : ℕ
bne = 0x1

abbrev pub blt : ℕ
blt = 0x4

abbrev pub bge : ℕ
bge = 0x5

abbrev pub bltu : ℕ
bltu = 0x6

abbrev pub bgeu : ℕ
bgeu = 0x7

abbrev pub jalr : ℕ
jalr = 0x0

abbrev pub priv : ℕ
priv = 0x0

abbrev pub csrrw : ℕ
csrrw = 0x1

abbrev pub csrrs : ℕ
csrrs = 0x2

abbrev pub csrrc : ℕ
csrrc = 0x3

abbrev pub csrrwi : ℕ
csrrwi = 0x5

abbrev pub csrrsi : ℕ
csrrsi = 0x6

abbrev pub csrrci : ℕ
csrrci = 0x7
