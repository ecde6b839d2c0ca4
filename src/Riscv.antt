-- ===== src/Riscv.antt =====
-- The encoding constants of include/rve/riscv.h.
pub mod Opcode
pub mod Funct3
pub mod Funct7
pub mod Funct12
