-- ===== src/Tests/Running.antt =====
-- Steps and runs of a small machine (src/hart.c, src/emulator.c).
use rve.Base.{
  ℕ, ◌≡◌, ◌-◌, zero, suc, ◌==◌, true, List, [], ◌∷◌, get_elem?, replicate, if◌then◌else◌, refl,
  arith, some, none,
}
use rve.Bus.{bus_read, bus_get_peripheral, find_best, covers, improves}
use rve.Decoder.Decode.{rve_decode_instruction}
use rve.Decoder.Fields.{get_opcode, get_funct3, get_imm_i, get_rs1, get_rs2, get_rd}
use rve.Decoder.IType.{decode_instruction_i}
use rve.Hart.Execute.{execute}
use rve.Peripherals.Memory.{memory_read, read_memory, read_bytes}
use rve.Hart.Step.{hart_step}
use rve.Hart.Retire.{Explains, hart_step-Explains}
use rve.Hart.Precise.{TakesTrap, hart_step-TakesTrap}
use mathlib.Core.List.{◌++◌}
use rve.Peripherals.Types.{Memory, Stream, zero_slot}
use rve.Bus.{Bus}
use rve.Hart.Types.{Hart, set_gpr, ecall_m}
use rve.Soc.{soc_step}
use rve.Emulator.{Emulator, emulator_step, emulator_run, default_syscall_handler, halted, exit_code}
use rve.Emulator.Run.{Ends, emulator_run-Ends}
use rve.Emulator.Syscall.{
  after, entries, with_output, Readable, emulator_step-write, emulator_step-exit,
}
use rve.Tests.Fixtures.{hart_at, small_bus, memory_slot, quiet_host, byte_or_zero}

hart_step-Explains_example :
    let (r, hart', bus') = hart_step (hart_at 0x1000) small_bus in Explains (hart_at 0x1000) r hart'
hart_step-Explains_example = hart_step-Explains (hart_at 0x1000) small_bus refl

traps : (hart_step (hart_at 0x1004) small_bus).0.trap ≡ some 2
unfolding hart_step bus_read bus_get_peripheral find_best covers improves memory_read read_memory
    rve_decode_instruction get_opcode read_bytes
traps = refl

hart_step-TakesTrap_example :
    let (r, hart', bus') = hart_step (hart_at 0x1004) small_bus in
    TakesTrap (hart_at 0x1004) 2 r hart'
hart_step-TakesTrap_example =
    hart_step-TakesTrap (hart_at 0x1004) small_bus 2 refl traps (omega arith)

-- `ecall`, then the bytes "hi".
abbrev ecall_program : List ℕ
ecall_program = 0x73 ∷ 0x00 ∷ 0x00 ∷ 0x00 ∷ b'h' ∷ b'i' ∷ []

abbrev ecall_memory : Memory
ecall_memory = record {
  raw_memory = some (λ j. byte_or_zero (get_elem? ecall_program j));
  size = 64;
  base_addr = 0x1000;
}

abbrev ecall_bus : Bus
ecall_bus = record {
  peripherals = memory_slot ecall_memory ∷ replicate 9 zero_slot;
  count = 1;
  host = quiet_host;
}

-- The registers of a call: its number in a7, two arguments beside a0 = 1.
abbrev call_registers : ℕ → ℕ → ℕ
call_registers number j =
    if j == 17
    then number
    else if j == 10
    then 1
    else if j == 11
    then 0x1004
    else if j == 12
    then 2
    else 0

abbrev caller_hart : ℕ → Hart
caller_hart number = let hart = hart_at 0x1000 in record hart { gpr = call_registers number }

abbrev caller : ℕ → Emulator ℕ ℕ
caller number = record {
  soc = record { hart = caller_hart number; bus = ecall_bus };
  syscall_handler = some default_syscall_handler;
  syscall_userdata = 0;
  trace_fn = none;
  trace_userdata = 0;
  cycle_count = 0;
}

calls : (number : ℕ) → (soc_step (caller number).soc).0.trap ≡ some ecall_m
unfolding soc_step hart_step bus_read bus_get_peripheral find_best covers improves memory_read
    read_memory rve_decode_instruction get_opcode read_bytes decode_instruction_i execute get_funct3
    get_imm_i get_rs1 get_rs2 get_rd
calls number = refl

-- What the step leaves for the handler.
arguments :
    (number : ℕ)
    → let hart = (after (caller number)).hart in
      (hart.gpr 17 ≡ number) × (hart.gpr 10 ≡ 1) × (hart.gpr 11 ≡ 0x1004) × (hart.gpr 12 ≡ 2)
unfolding soc_step hart_step bus_read bus_get_peripheral find_best covers improves memory_read
    read_memory rve_decode_instruction get_opcode read_bytes decode_instruction_i execute get_funct3
    get_imm_i get_rs1 get_rs2 get_rd
arguments number = (refl, refl, refl, refl)

same_bus : (number : ℕ) → (after (caller number)).bus ≡ ecall_bus
unfolding soc_step hart_step bus_read bus_get_peripheral find_best covers improves memory_read
    read_memory rve_decode_instruction get_opcode read_bytes decode_instruction_i execute get_funct3
    get_imm_i get_rs1 get_rs2 get_rd
same_bus number = refl

-- The two bytes of the message.
readable : Readable ecall_bus 2 (λ a. byte_or_zero (get_elem? ecall_program (a - 0x1000))) 0x1004
unfolding bus_read bus_get_peripheral find_best covers improves memory_read read_memory read_bytes
readable zero out h = refl
readable (suc zero) out h = refl
readable (suc (suc k)) out h = absurd (omega arith)

emulator_step-write_example :
    let (r, e') = emulator_step (caller 64) in
    let n = (after (caller 64)).hart.gpr 12 in
    (r.trap ≡ none)
    × (e'.soc.hart ≡ set_gpr (after (caller 64)).hart 10 n)
    × (e'.soc.bus
        ≡ with_output (after (caller 64)).bus (
            entries n Stream.stdout
              (λ a. byte_or_zero (get_elem? ecall_program (a - 0x1000)))
              ((after (caller 64)).hart.gpr 11)
            ++ (after (caller 64)).bus.host.output))
emulator_step-write_example =
    emulator_step-write (caller 64) Stream.stdout
      (λ a. byte_or_zero (get_elem? ecall_program (a - 0x1000))) refl refl (calls 64)
      (arguments 64).0 (rw (arguments 64).1 refl) (omega (arith, (arguments 64).2))
      (omega (arith, (arguments 64).3))
      (rw (same_bus 64, (arguments 64).2, (arguments 64).3) readable)

emulator_step-exit_example :
    let e' = (emulator_step (caller 93)).1 in
    (halted e' ≡ true)
    × (exit_code e' ≡ (after (caller 93)).hart.gpr 10)
    × (e'.soc.hart.pc ≡ (after (caller 93)).hart.pc)
    × ((emulator_step (caller 93)).0.trap ≡ some ecall_m)
    × ((j : ℕ) → e'.soc.hart.gpr j ≡ (after (caller 93)).hart.gpr j)
emulator_step-exit_example =
    emulator_step-exit (caller 93) refl refl (calls 93) (rw (arguments 93).0 refl)

emulator_run-Ends_example :
    (code : ℕ) × (e' : Emulator ℕ ℕ) × (emulator_run 10 (caller 64) 10 ≡ some (code, e'))
    × Ends (caller 64) 10 code e'
emulator_run-Ends_example =
    emulator_run-Ends 10 (caller 64) 10 (omega arith) (omega arith) (omega arith)
