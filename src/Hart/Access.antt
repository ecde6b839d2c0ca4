-- ===== src/Hart/Access.antt =====
-- `exec_branch`, `exec_load` and `exec_store` of src/hart.c, over the local variables of `hart_step`
-- that they reach by pointers.
use rve.Base.{ℕ, Bool, true, ◌&&◌, not, Option, none, some, ◌==◌, if◌then◌else◌, bit_and}
use rve.Word.{add32, sext}
use rve.Bus.{Bus, bus_read, bus_write}
use rve.Decoder.Types.{DecodedInstruction}
use rve.Hart.Types.{Hart, Retire, instr_misaligned, load_access_fault, store_access_fault, set_gpr}

-- The hart, its bus, and the local variables of `hart_step`; `none` is TRAP_NONE.
pub record Locals : Type 0 where
  pub hart : Hart
  pub bus : Bus
  pub r : Retire
  pub pending_trap : Option ℕ
  pub next_pc : ℕ
  pub mem_addr : ℕ
  pub bad_pc : ℕ

-- `target & 0x3u`, as a test.
abbrev pub misaligned : ℕ → Bool
misaligned target = not (bit_and target 0x3 == 0)

unfoldable pub exec_branch : Locals → DecodedInstruction → Bool → Locals
exec_branch s di taken =
    let target = add32 s.hart.pc (sext di.imm 13) in
    if taken && misaligned target
    then record s { bad_pc = target; pending_trap = some instr_misaligned }
    else record s { next_pc = if taken then target else add32 s.hart.pc 4; pending_trap = none }

unfoldable pub exec_load : Locals → DecodedInstruction → ℕ → Bool → Locals
exec_load s di size_bits sign_extend =
    let addr = add32 (s.hart.gpr di.rs1) (sext di.imm 12) in
    let (read, bus') = bus_read s.bus addr size_bits in
    elim read [
      | none ↦ record s { bus = bus'; pending_trap = some load_access_fault }
      | some val ↦
          let loaded = if sign_extend then sext val size_bits else val in
          let r = s.r in
          record s {
            hart = set_gpr s.hart di.rd loaded;
            bus = bus';
            r = record r {
              mem_read = true;
              mem_read_addr = addr;
              mem_read_value = loaded;
              mem_read_size = size_bits;
            };
            pending_trap = none;
            mem_addr = addr;
          }
    ]

unfoldable pub exec_store : Locals → DecodedInstruction → ℕ → ℕ → Locals
exec_store s di size_bits mask =
    let addr = add32 (s.hart.gpr di.rs1) (sext di.imm 12) in
    let val = bit_and (s.hart.gpr di.rs2) mask in
    let (written, bus') = bus_write s.bus addr val size_bits in
    let r = s.r in
    if written
    then record s {
      bus = bus';
      r = record r {
        mem_write = true;
        mem_write_addr = addr;
        mem_write_value = val;
        mem_write_size = size_bits;
      };
      pending_trap = none;
      mem_addr = addr;
    }
    else record s { bus = bus'; pending_trap = some store_access_fault }
