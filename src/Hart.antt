-- ===== src/Hart.antt =====
-- The hart (src/hart.c, include/rve/hart.h).
pub mod Types
pub mod Trap
pub mod Csr
pub mod Alu
pub mod AluStep
pub mod Flow
pub mod FlowStep
pub mod Arith
pub mod Access
pub mod Execute
pub mod Step
pub mod Frame
pub mod Untouched
pub mod Refused
pub mod Retire
pub mod Status
pub mod Vector
pub mod Precise
pub mod Words
pub mod ValidAccess
pub mod ValidCsr
pub mod Valid
pub mod Machine
pub mod Print
pub mod Touches
pub mod Manual
