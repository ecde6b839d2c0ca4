-- ===== src/Emulator/Boot.antt =====
-- The machine that `emulator_init` of src/emulator.c builds, and the steps of src/soc.c from it.
use rve.Base.{
  ℕ, zero, suc, ◌+◌, ◌*◌, ◌%◌, ◌^◌, ◌≡◌, refl, arith, true, false, none, some, ◌∷◌, replicate,
}
use rve.Word.{IsWord}
use rve.Bus.{bus_init, deactivate, bus_add_peripheral, bus_find_slot, find_slot}
use rve.Bus.WiredDevice.{AllWired, ByteMemory, ByteUart, ram, serial, halting}
use rve.Bus.Wired.{cons-Wired, replicate-Wired}
use rve.Peripherals.Types.{Memory, Uart, Context, Stream, Peripheral, zero_slot}
use rve.Peripherals.Memory.{memory_ops, memory_create_ctx, memory_init}
use rve.Peripherals.Uart.{uart_ns16550a_ops, uart_ns16550a_create, uart_init, fetch_byte}
use rve.Hart.Machine.{Machine, hart_step-Machine}
use rve.Hart.ValidAccess.{IsWords}
use rve.Hart.Trap.{hart_init}
use rve.Soc.{Soc, soc_init, soc_add_peripheral, soc_add_memory, soc_step, ram_name}
use rve.Emulator.{default_soc, uart_name}
use rve.Emulator.Halting.{tohost_slot}

-- A SoC after `n` steps.
abbrev pub soc_steps : ℕ → Soc → Soc
soc_steps zero soc = soc
soc_steps (suc n) soc = soc_steps n (soc_step soc).1

soc_step-Machine :
    (soc : Soc) → Machine soc.hart soc.bus → Machine (soc_step soc).1.hart (soc_step soc).1.bus
unfolding soc_step
soc_step-Machine soc m = hart_step-Machine soc.hart soc.bus m

soc_steps-Machine :
    (n : ℕ) (soc : Soc)
    → Machine soc.hart soc.bus
    → Machine (soc_steps n soc).hart (soc_steps n soc).bus
soc_steps-Machine zero soc m = m
soc_steps-Machine (suc n) soc m = soc_steps-Machine n (soc_step soc).1 (soc_step-Machine soc m)

-- The slots of the map.
abbrev pub zero_memory : ℕ → ℕ → Memory
zero_memory base size = record { raw_memory = some (λ j. 0); size = size; base_addr = base }

abbrev pub ram_slot : ℕ → ℕ → Peripheral
ram_slot base size = record {
  active = true;
  name = ram_name;
  addr_start = base;
  addr_end = (base + size) % 2 ^ 32;
  ctx = Context.memory (zero_memory base size);
  ops = memory_ops;
}

empty_memory : (base size : ℕ) → ByteMemory (zero_memory base size)
empty_memory base size = record { bytes = λ j. omega arith }

-- The UART of the map, which has no input.
abbrev pub boot_uart : Uart
boot_uart = record {
  tx_file = some Stream.stdout;
  rx_file = none;
  ier = 0;
  lcr = 0;
  mcr = 0;
  scr = 0;
  dll = 1;
  dlh = 0;
  rx_ready = false;
  rx_byte = 0;
}

abbrev pub serial_slot : Peripheral
serial_slot = record {
  active = true;
  name = uart_name;
  addr_start = 0x1000_0000;
  addr_end = 0x1000_0008;
  ctx = Context.uart boot_uart;
  ops = uart_ns16550a_ops;
}

boot_uart-Byte : ByteUart boot_uart
boot_uart-Byte = record {
  ier = omega arith;
  lcr = omega arith;
  mcr = omega arith;
  scr = omega arith;
  dll = omega arith;
  dlh = omega arith;
  rx_byte = omega arith;
}

default_soc-AllWired : (reset_pc : ℕ) → AllWired (default_soc true true true reset_pc).bus
unfolding default_soc soc_init soc_add_peripheral soc_add_memory bus_add_peripheral bus_find_slot
    find_slot bus_init deactivate memory_create_ctx memory_init uart_ns16550a_create uart_init
    fetch_byte
default_soc-AllWired reset_pc =
    let idle_slots = replicate 6 zero_slot in
    let from_uart = serial_slot ∷ idle_slots in
    let low = ram_slot 0 (4 * 1024 * 1024) in
    let high = ram_slot 0x8000_0000 (16 * 1024 * 1024) in
    record {
      wired = cons-Wired tohost_slot (low ∷ high ∷ from_uart) (halting refl refl) (
          cons-Wired low (high ∷ from_uart)
            (ram (zero_memory 0 (4 * 1024 * 1024)) refl refl (empty_memory 0 (4 * 1024 * 1024)))
            (cons-Wired high from_uart
              (ram (zero_memory 0x8000_0000 (16 * 1024 * 1024)) refl refl
                (empty_memory 0x8000_0000 (16 * 1024 * 1024)))
              (cons-Wired serial_slot idle_slots (serial boot_uart refl refl boot_uart-Byte)
                (replicate-Wired 6 zero_slot refl))));
    }

default_soc-IsWords :
    (reset_pc : ℕ) → IsWord reset_pc → IsWords (default_soc true true true reset_pc).hart
unfolding default_soc soc_init soc_add_peripheral soc_add_memory memory_create_ctx memory_init
    hart_init bus_add_peripheral bus_init
default_soc-IsWords reset_pc w = record {
  gpr = λ j. omega arith;
  csr = record {
    mstatus = omega arith;
    mtvec = omega arith;
    mepc = omega arith;
    mcause = omega arith;
    mtval = omega arith;
    mscratch = omega arith;
  };
  pc = w;
}

default_soc-x0 : (reset_pc : ℕ) → (default_soc true true true reset_pc).hart.gpr 0 ≡ 0
unfolding default_soc soc_init soc_add_peripheral soc_add_memory memory_create_ctx memory_init
    hart_init bus_add_peripheral bus_init
default_soc-x0 reset_pc = refl

-- Every state that steps of the SoC reach from the machine that `emulator_init` builds, with room
-- for each allocation and a word as its reset PC, meets the invariant of the machine: words
-- everywhere, zero in x0, and devices with contexts of their kind.
pub default_soc-Machine :
    (n reset_pc : ℕ)
    → IsWord reset_pc
    → let soc = soc_steps n (default_soc true true true reset_pc) in Machine soc.hart soc.bus
default_soc-Machine n reset_pc w =
    soc_steps-Machine n (default_soc true true true reset_pc) (record {
      words = default_soc-IsWords reset_pc w;
      x0 = default_soc-x0 reset_pc;
      wired = default_soc-AllWired reset_pc;
    })
