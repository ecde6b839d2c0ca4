-- ===== src/Tests/Fixtures.antt =====
-- The data of the tests: a small memory, a bus and a hart (src/memory.c, src/bus.c, src/hart.c).
use rve.Base.{ℕ, true, false, Option, none, some, List, [], ◌∷◌, get_elem?, replicate}
use rve.Peripherals.Types.{Host, Memory, Uart, Context, Peripheral, zero_slot}
use rve.Peripherals.Memory.{memory_ops}
use rve.Peripherals.Uart.{uart_ns16550a_ops}
use rve.Bus.{Bus}
use rve.Hart.Types.{Hart}

abbrev pub quiet_host : Host
quiet_host = record { halted = false; exit_code = 0; output = [] }

-- `addi x1, x0, 5`, then a word that is no instruction.
abbrev pub program : List ℕ
program = 0x93 ∷ 0x00 ∷ 0x50 ∷ 0x00 ∷ 0x00 ∷ 0x00 ∷ 0x00 ∷ 0x00 ∷ []

abbrev pub byte_or_zero : Option ℕ → ℕ
byte_or_zero none = 0
byte_or_zero (some b) = b

abbrev pub code_memory : Memory
code_memory = record {
  raw_memory = some (λ j. byte_or_zero (get_elem? program j));
  size = 64;
  base_addr = 0x1000;
}

abbrev pub memory_slot : Memory → Peripheral
memory_slot m = record {
  active = true;
  name = [];
  addr_start = m.base_addr;
  addr_end = 0x1040;
  ctx = Context.memory m;
  ops = memory_ops;
}

abbrev pub idle_uart : Uart
idle_uart = record {
  tx_file = none;
  rx_file = some (b'h' ∷ b'i' ∷ []);
  ier = 0;
  lcr = 0;
  mcr = 0;
  scr = 0;
  dll = 1;
  dlh = 0;
  rx_ready = false;
  rx_byte = 0;
}

-- A UART of eight addresses inside of the memory's range.
abbrev pub uart_slot : Peripheral
uart_slot = record {
  active = true;
  name = [];
  addr_start = 0x1020;
  addr_end = 0x1028;
  ctx = Context.uart idle_uart;
  ops = uart_ns16550a_ops;
}

abbrev pub small_bus : Bus
small_bus = record {
  peripherals = memory_slot code_memory ∷ uart_slot ∷ replicate 8 zero_slot;
  count = 2;
  host = quiet_host;
}

-- A hart at `pc`, with zero in its registers and a vectored trap handler at 0x100.
abbrev pub hart_at : ℕ → Hart
hart_at pc = record {
  gpr = λ j. 0;
  csr = record { mstatus = 8; mtvec = 0x101; mepc = 0; mcause = 0; mtval = 0; mscratch = 0 };
  pc = pc;
}
