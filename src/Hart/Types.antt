-- ===== src/Hart/Types.antt =====
-- The types of include/rve/hart.h. A `trap_t` is its number, and TRAP_NONE is `none`. The bus that
-- a hart points to is not part of it: the functions take it and return it beside the hart.
use rve.Base.{ℕ, Bool, false, ◌||◌, Option, ◌==◌, if◌then◌else◌}
use rve.Decoder.Types.{DecodedInstruction, zeroed}

-- `csr_file_t`
pub record CsrFile : Type 0 where
  pub mstatus : ℕ
  pub mtvec : ℕ
  pub mepc : ℕ
  pub mcause : ℕ
  pub mtval : ℕ
  pub mscratch : ℕ

-- `hart_t`; the array `gpr` is a function from register indices, which are below 32.
pub record Hart : Type 0 where
  pub gpr : ℕ → ℕ
  pub csr : CsrFile
  pub pc : ℕ

-- `hart_retire_t`
pub record Retire : Type 0 where
  pub pc : ℕ
  pub next_pc : ℕ
  pub instruction : ℕ
  pub di : DecodedInstruction
  pub rd_written : Bool
  pub rd : ℕ
  pub rd_value : ℕ
  pub mem_read : Bool
  pub mem_read_addr : ℕ
  pub mem_read_value : ℕ
  pub mem_read_size : ℕ
  pub mem_write : Bool
  pub mem_write_addr : ℕ
  pub mem_write_value : ℕ
  pub mem_write_size : ℕ
  pub trap : Option ℕ

-- A retirement record of zero bytes, but for its trap.
abbrev pub zero_retire : Option ℕ → Retire
zero_retire trap = record {
  pc = 0;
  next_pc = 0;
  instruction = 0;
  di = zeroed;
  rd_written = false;
  rd = 0;
  rd_value = 0;
  mem_read = false;
  mem_read_addr = 0;
  mem_read_value = 0;
  mem_read_size = 0;
  mem_write = false;
  mem_write_addr = 0;
  mem_write_value = 0;
  mem_write_size = 0;
  trap = trap;
}

-- `trap_t`; two causes can share a number, as in the source.
abbrev pub instr_misaligned : ℕ
instr_misaligned = 0

abbrev pub instr_access_fault : ℕ
instr_access_fault = 1

abbrev pub illegal_instr : ℕ
illegal_instr = 2

abbrev pub load_misaligned : ℕ
load_misaligned = 4

abbrev pub load_access_fault : ℕ
load_access_fault = 5

abbrev pub store_misaligned : ℕ
store_misaligned = 6

abbrev pub store_access_fault : ℕ
store_access_fault = 7

abbrev pub ecall_u : ℕ
ecall_u = 8

abbrev pub ecall_m : ℕ
ecall_m = 11

abbrev pub int_sw : ℕ
int_sw = 3

abbrev pub int_timer : ℕ
int_timer = 7

abbrev pub int_external : ℕ
int_external = 11

-- `TRAP_IS_INTERRUPT`
abbrev pub trap_is_interrupt : ℕ → Bool
trap_is_interrupt c = c == int_sw || (c == int_timer || c == int_external)

-- `gpr[i] = v`
abbrev pub set_gpr : Hart → ℕ → ℕ → Hart
set_gpr hart i v = record hart { gpr = λ j. if i == j then v else hart.gpr j }
