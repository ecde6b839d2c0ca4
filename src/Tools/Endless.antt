-- ===== src/Tools/Endless.antt =====
-- The program that tools/gen.c writes, run on the machine of src/emulator.c.
use rve.Base.{ℕ, zero, suc, ◌≡◌, refl, true, Option, none, some, List, []}
use rve.Bus.{
  Bus, bus_read, bus_get_peripheral, find_best, covers, improves, range_size, lookup_slot,
  bus_add_peripheral, bus_find_slot, find_slot, bus_init, deactivate,
}
use rve.Decoder.Decode.{rve_decode_instruction}
use rve.Decoder.Fields.{get_opcode, get_funct3, get_imm_i, get_imm_b, get_rs1, get_rs2, get_rd}
use rve.Decoder.IType.{decode_instruction_i, op_imm_op}
use rve.Decoder.Formats.{decode_instruction_b}
use rve.Peripherals.Memory.{
  memory_read, read_memory, read_bytes, memory_load_file, copy_bytes, memory_create_ctx,
  memory_init,
}
use rve.Word.{sext}
use rve.Hart.Types.{CsrFile}
use rve.Hart.Trap.{zero_csr, hart_init}
use rve.Hart.Step.{hart_step}
use rve.Hart.Execute.{execute}
use rve.Soc.{soc_step, soc_load_binary, soc_init, soc_add_peripheral, soc_add_memory}
use rve.Emulator.{
  Emulator, SyscallHandler, TraceFn, emulator_init, emulator_load_binary, default_syscall_handler,
  emulator_run, emulator_step, step_running, default_soc,
}
use rve.Tools.Gen.{program, write_words}

abbrev image : List ℕ
image = write_words [] program

-- The bus of the default machine with the program at address 0.
abbrev loaded_bus : Bus
loaded_bus = elim (soc_load_binary (default_soc true true true 0) image 0) [
  | none ↦ (default_soc true true true 0).bus
  | some soc ↦ soc.bus
]

module _ {S D : Type 0} (handler : Option (SyscallHandler S)) (userdata : S)
    (fn : Option (TraceFn D)) where
  -- An emulator that stands at the start of the program.
  abbrev pub at_start : (ℕ → ℕ) → CsrFile → D → ℕ → Emulator S D
  at_start gpr csr trace_userdata cycle_count = record {
    soc = record { hart = record { gpr = gpr; csr = csr; pc = 0 }; bus = loaded_bus };
    syscall_handler = handler;
    syscall_userdata = userdata;
    trace_fn = fn;
    trace_userdata = trace_userdata;
    cycle_count = cycle_count;
  }

  pub emulator_run-endless :
      (fuel : ℕ) (gpr : ℕ → ℕ) (csr : CsrFile) (trace_userdata : D) (cycle_count : ℕ)
      → emulator_run fuel (at_start gpr csr trace_userdata cycle_count) 0 ≡ none
  unfolding emulator_run emulator_step step_running soc_step hart_step bus_read bus_get_peripheral
      find_best covers improves range_size memory_read read_memory rve_decode_instruction get_opcode
      read_bytes decode_instruction_i decode_instruction_b execute get_funct3 get_imm_i get_imm_b
      get_rs1 get_rs2 get_rd write_words default_soc soc_load_binary memory_load_file copy_bytes
      soc_init soc_add_peripheral soc_add_memory bus_add_peripheral bus_find_slot find_slot bus_init
      deactivate memory_create_ctx memory_init op_imm_op sext
  emulator_run-endless zero gpr csr t c = refl
  emulator_run-endless (suc zero) gpr csr t c = refl
  emulator_run-endless (suc (suc zero)) gpr csr t c = refl
  emulator_run-endless (suc (suc (suc zero))) gpr csr t c = refl
  emulator_run-endless (suc (suc (suc (suc zero)))) gpr csr t c = refl
  emulator_run-endless (suc (suc (suc (suc (suc fuel))))) gpr csr t c =
      emulator_run-endless fuel _ _ _ _

module _ {S D : Type 0} (no_data : S) (no_trace : D) where
  abbrev fresh : Emulator S D
  fresh = emulator_init true true true 0 no_data no_trace

  -- The file that the generator writes is loaded at address 0 into the default machine, and the
  -- run from reset PC 0 without a step limit gives no result on any amount of fuel: the program
  -- never halts.
  pub generated-endless :
      (fuel : ℕ)
      → (e : Emulator S D) × (emulator_load_binary (some (write_words [] program)) fresh 0 ≡ some e)
        × (emulator_run fuel e 0 ≡ none)
  unfolding emulator_init emulator_load_binary write_words default_soc soc_load_binary
      bus_get_peripheral find_best covers improves range_size memory_load_file copy_bytes soc_init
      soc_add_peripheral soc_add_memory bus_add_peripheral bus_find_slot find_slot bus_init
      deactivate memory_create_ctx memory_init hart_init lookup_slot
  generated-endless fuel = (
    at_start (some default_syscall_handler) no_data none (λ j. 0) zero_csr no_trace 0,
    refl,
    emulator_run-endless (some default_syscall_handler) no_data none fuel (λ j. 0) zero_csr no_trace
        0,
  )
