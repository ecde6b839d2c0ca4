-- ===== src/Tests/Machines.antt =====
-- The invariant of a small machine, and the steps that need it (src/hart.c, src/emulator.c).
use rve.Base.{
  ℕ, ◌≡◌, ◌<◌, ◌∷◌, get_elem?, replicate, refl, arith, true, some, none, drop, inl, false, List, [],
}
use rve.Bus.{
  Bus, bus_read, bus_get_peripheral, find_best, covers, improves, range_size, lookup_slot,
  bus_add_peripheral, bus_find_slot, find_slot, bus_init, deactivate,
}
use rve.Word.{to_u32}
use rve.Decoder.Types.{Op}
use rve.Decoder.Decode.{rve_decode_instruction}
use rve.Decoder.Fields.{get_opcode, get_funct3, get_imm_i, get_imm_b, get_rs1, get_rs2, get_rd}
use rve.Decoder.IType.{decode_instruction_i, op_imm_op}
use rve.Peripherals.Types.{zero_slot}
use rve.Peripherals.Memory.{
  memory_read, read_memory, read_bytes, memory_load_file, copy_bytes, memory_create_ctx,
  memory_init,
}
use rve.Bus.WiredDevice.{AllWired, ram, serial}
use rve.Bus.Wired.{cons-Wired, replicate-Wired}
use rve.Hart.Step.{hart_step}
use rve.Hart.Machine.{Machine, hart_step-Machine}
use rve.Hart.Manual.{manual}
use rve.Hart.Alu.{Operand, operand, addi_form}
use rve.Decoder.Formats.{decode_instruction_b}
use rve.Hart.Flow.{Arrives, beq_form, condition, target, link}
use rve.Hart.FlowStep.{hart_step-Arrives}
use rve.Hart.AluStep.{Advances, hart_step-Manual}
use rve.Emulator.{Emulator, default_soc, emulator_init, emulator_load_binary}
use rve.Emulator.Fetch.{emulator_load_binary-bus_read}
use rve.Soc.{soc_load_binary, soc_init, soc_add_peripheral, soc_add_memory}
use rve.Peripherals.Memory.Image.{little_endian}
use rve.Emulator.Boot.{soc_steps, default_soc-Machine}
use rve.Tests.Fixtures.{
  program, code_memory, uart_slot, idle_uart, hart_at, small_bus, memory_slot, quiet_host,
  byte_or_zero,
}

-- The small machine meets the invariant.
code-Byte : (j : ℕ) → byte_or_zero (get_elem? program j) < 256
code-Byte j = ground arith

small_bus-AllWired : AllWired small_bus
small_bus-AllWired =
    let idle_slots = replicate 8 zero_slot in
    record {
      wired =
          cons-Wired (memory_slot code_memory) (uart_slot ∷ idle_slots)
            (ram code_memory refl refl (record { bytes = code-Byte }))
            (cons-Wired uart_slot idle_slots
              (serial idle_uart refl refl (record {
                ier = omega arith;
                lcr = omega arith;
                mcr = omega arith;
                scr = omega arith;
                dll = omega arith;
                dlh = omega arith;
                rx_byte = omega arith;
              }))
              (replicate-Wired 8 zero_slot refl));
    }

small-Machine : Machine (hart_at 0x1000) small_bus
small-Machine = record {
  words = record {
    gpr = λ j. omega arith;
    csr = record {
      mstatus = omega arith;
      mtvec = omega arith;
      mepc = omega arith;
      mcause = omega arith;
      mtval = omega arith;
      mscratch = omega arith;
    };
    pc = omega arith;
  };
  x0 = refl;
  wired = small_bus-AllWired;
}

hart_step-Machine_example :
    let (r, hart', bus') = hart_step (hart_at 0x1000) small_bus in Machine hart' bus'
hart_step-Machine_example = hart_step-Machine (hart_at 0x1000) small_bus small-Machine

default_soc-Machine_example :
    let soc = soc_steps 3 (default_soc true true true 0x8000_0000) in Machine soc.hart soc.bus
default_soc-Machine_example = default_soc-Machine 3 0x8000_0000 (omega arith)

-- `addi x1, x0, 5`, fetched from the memory.
fetched : (bus_read small_bus 0x1000 32).0 ≡ some 0x0050_0093
unfolding bus_read bus_get_peripheral find_best covers improves memory_read read_memory read_bytes
fetched = refl

hart_step-Manual_example :
    let di = rve_decode_instruction 0x0050_0093 in
    Advances
      (hart_at 0x1000)
      (bus_read small_bus 0x1000 32).1
      di.rd
      (to_u32 (
        manual Op.add
          ((hart_at 0x1000).gpr di.rs1)
          (operand Operand.immediate di (hart_at 0x1000).gpr)))
      (hart_step (hart_at 0x1000) small_bus)
unfolding rve_decode_instruction get_opcode get_funct3 get_imm_i get_rs1 get_rs2 get_rd
    decode_instruction_i op_imm_op
hart_step-Manual_example =
    hart_step-Manual (hart_at 0x1000) small_bus 0x0050_0093 Op.add Operand.immediate small-Machine
      refl fetched refl addi_form

-- The default machine with the program at the start of the high memory.
abbrev fresh_machine : Emulator ℕ ℕ
fresh_machine = emulator_init true true true 0x8000_0000 0 0

abbrev loaded_machine : Emulator ℕ ℕ
loaded_machine = elim (emulator_load_binary (some program) fresh_machine 0x8000_0000) [
  | none ↦ fresh_machine
  | some e ↦ e
]

loads : emulator_load_binary (some program) fresh_machine 0x8000_0000 ≡ some loaded_machine
unfolding emulator_init emulator_load_binary default_soc soc_load_binary bus_get_peripheral
    find_best covers improves range_size memory_load_file copy_bytes soc_init soc_add_peripheral
    soc_add_memory bus_add_peripheral bus_find_slot find_slot bus_init deactivate memory_create_ctx
    memory_init lookup_slot
loads = refl

emulator_load_binary-bus_read_example :
    (bus_read loaded_machine.soc.bus 0x8000_0000 32).0 ≡ some (little_endian (drop 0 program) 4)
emulator_load_binary-bus_read_example =
    emulator_load_binary-bus_read 0x8000_0000 0x8000_0000 0 32 program 0 0 loaded_machine
      (omega arith) (omega arith) loads (omega arith) (omega arith) (omega arith)
      (inl (omega arith))

-- `beq x0, x0, 8`, in a memory of its own.
abbrev branch_program : List ℕ
branch_program = 0x63 ∷ 0x04 ∷ 0x00 ∷ 0x00 ∷ []

abbrev branch_bus : Bus
branch_bus = record {
  peripherals =
      memory_slot
        (record code_memory { raw_memory = some (λ j. byte_or_zero (get_elem? branch_program j)) })
      ∷ replicate 9 zero_slot;
  count = 1;
  host = quiet_host;
}

fetched_branch : (bus_read branch_bus 0x1000 32).0 ≡ some 0x0000_0463
unfolding bus_read bus_get_peripheral find_best covers improves memory_read read_memory read_bytes
fetched_branch = refl

hart_step-Arrives_example :
    Arrives
      (hart_at 0x1000)
      (hart_at 0x1000)
      false
      0x1008
      0x1008
      (bus_read branch_bus 0x1000 32).1
      (hart_step (hart_at 0x1000) branch_bus)
unfolding rve_decode_instruction get_opcode get_funct3 get_imm_b get_rs1 get_rs2
    decode_instruction_b condition target link
hart_step-Arrives_example =
    hart_step-Arrives (hart_at 0x1000) branch_bus 0x0000_0463 refl refl fetched_branch refl beq_form
