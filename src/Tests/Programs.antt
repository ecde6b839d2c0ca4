-- ===== src/Tests/Programs.antt =====
-- Whole programs at fixed inputs (src/main.c, src/emulator.c, tools/gen.c).
use rve.Base.{
  ℕ, ◌^◌, ◌≡◌, ◌≤◌, ◌<◌, ◌↔◌, refl, ap, sym, ◌∙◌, arith, true, false, none, some, List, [], ◌∷◌,
  get_elem?, replicate, inl,
}
use rve.Text.{Bytes, codes, same_text}
use rve.Word.{sext}
use rve.Bus.{Bus, bus_read, bus_write, bus_get_peripheral, lookup_slot, find_best, covers, improves}
use rve.Decoder.Decode.{rve_decode_instruction}
use rve.Decoder.Fields.{get_opcode, get_funct3, get_rs1, get_rs2, get_rd, get_funct7, get_imm_s}
use rve.Decoder.Formats.{decode_instruction_s}
use rve.Peripherals.Memory.{memory_read, read_memory, read_bytes}
use rve.Peripherals.Tohost.{tohost_write}
use rve.Hart.Access.{exec_store}
use rve.Hart.Execute.{execute}
use rve.Peripherals.Types.{Memory, zero_slot}
use rve.Hart.Types.{set_gpr}
use rve.Hart.Step.{hart_step}
use rve.Hart.Touches.{Touches, fetched_bus, hart_step-Touches}
use rve.Soc.{soc_step}
use rve.Emulator.{Emulator, emulator_step, emulator_run, emulator_init, emulator_load_binary}
use rve.Emulator.Halting.{tohost_slot, verdict}
use rve.Emulator.StoreHalts.{IsTohost, emulator_run-tohost}
use rve.Emulator.Ending.{Ending, emulator_run-Ending_iff}
use rve.Main.{Outcome, main}
use rve.Main.CommandLine.{Args, Parsed, refused, accepted, parse_args}
use rve.Main.Status.{Reported, main-Reported}
use rve.Tools.Gen.{program, write_words}
use rve.Tools.Endless.{generated-endless}
use rve.Tests.Fixtures.{hart_at, small_bus, memory_slot, quiet_host, byte_or_zero}

hart_step-Touches_example :
    let (r, hart', bus') = hart_step (hart_at 0x1000) small_bus in
    Touches (fetched_bus (hart_at 0x1000) small_bus) r r.trap bus'
hart_step-Touches_example = hart_step-Touches (hart_at 0x1000) small_bus

-- `sw x1, 0(x2)`, with the TOHOST window in x2 and the verdict for case 3 in x1.
abbrev store_memory : Memory
store_memory = record {
  raw_memory = some (λ j. byte_or_zero (get_elem? (0x23 ∷ 0x20 ∷ 0x11 ∷ 0x00 ∷ []) j));
  size = 64;
  base_addr = 0x1000;
}

abbrev store_bus : Bus
store_bus = record {
  peripherals = tohost_slot ∷ memory_slot store_memory ∷ replicate 8 zero_slot;
  count = 2;
  host = quiet_host;
}

abbrev storing : Emulator ℕ ℕ
storing = record {
  soc = record { hart = set_gpr (set_gpr (hart_at 0x1000) 2 0x8000_1000) 1 7; bus = store_bus };
  syscall_handler = none;
  syscall_userdata = 0;
  trace_fn = none;
  trace_userdata = 0;
  cycle_count = 0;
}

stores :
    let r = (soc_step storing.soc).0 in
    (r.mem_write ≡ true) × (r.mem_write_value ≡ verdict 3) × (r.mem_write_addr ≡ 0x8000_1000)
unfolding soc_step hart_step bus_read bus_write bus_get_peripheral find_best covers improves
    memory_read read_memory read_bytes rve_decode_instruction get_opcode decode_instruction_s
    execute get_funct3 exec_store get_rs1 get_rs2 get_imm_s get_rd get_funct7 sext tohost_write
stores = (refl, refl, refl)

answered :
    IsTohost (fetched_bus storing.soc.hart storing.soc.bus) (soc_step storing.soc).0.mem_write_addr
unfolding soc_step lookup_slot bus_get_peripheral find_best bus_read covers improves
answered =
    rw stores.2 (record { slot = 0; device = tohost_slot; found = refl; ops = refl; ctx = refl })

emulator_run-tohost_example : emulator_run 2 storing 0 ≡ some (3, (emulator_step storing).1)
emulator_run-tohost_example = emulator_run-tohost 0 storing 0 3 refl refl stores.0 stores.1 answered

emulator_run-Ending_iff_example :
    let e' = (emulator_step storing).1 in
    ((fuel : ℕ) × (emulator_run fuel storing 0 ≡ some (3, e'))) ↔ Ending 0 storing 3 e'
emulator_run-Ending_iff_example =
    emulator_run-Ending_iff 0 storing (emulator_step storing).1 3 (inl refl)

generated-endless_example :
    (e : Emulator ℕ ℕ) × (emulator_load_binary
        (some (write_words [] program))
        (emulator_init true true true 0 0 0)
        0
      ≡ some e)
    × (emulator_run 1000 e 0 ≡ none)
generated-endless_example = generated-endless 0 0 1000

-- `rve --max 3 a.bin`
abbrev argv : List Bytes
argv = codes "rve" ∷ codes "--max" ∷ codes "3" ∷ codes "a.bin" ∷ []

abbrev given : Args
given = record {
  binary = some (codes "a.bin");
  reset_pc = 0;
  load_addr = 0;
  max_steps = 3;
  trace = false;
  dump_regs = false;
}

parsed : parse_args argv ≡ accepted given
unfolding parse_args same_text
parsed = refl

abbrev limit_of : Parsed → ℕ
limit_of (refused message) = 0
limit_of (accepted args) = args.max_steps

limits :
    (args : Args)
    → parse_args argv ≡ accepted args
    → (0 < args.max_steps) × (args.max_steps < 2 ^ 64) × (args.max_steps ≤ 3)
limits args p = let e = ap limit_of (sym parsed ∙ p) in omega (arith, e)

main-Reported_example :
    (o : Outcome) × (main true true true (λ name. some (write_words [] program)) 3 argv ≡ some o)
    × Reported true true true (λ name. some (write_words [] program)) argv o
main-Reported_example =
    main-Reported true true true (λ name. some (write_words [] program)) 3 argv limits
