-- ===== src/Tests/Devices.antt =====
-- The bus and the devices at fixed inputs (src/bus.c, src/memory.c, src/uart.c, src/emulator.c).
use rve.Base.{
  ◌≡◌, ◌≢◌, ◌↔◌, ◌<◌, refl, arith, inl, true, Option, none, some, [], ◌∷◌, if◌then◌else◌, ◌+◌,
  get_elem?,
}
use rve.Emulator.Halting.{verdict, default_soc-bus_write}
use rve.Bus.{bus_write, max_peripherals, bus_get_peripheral, bus_add_peripheral}
use rve.Bus.Lookup.{BestMatch, bus_get_peripheral-BestMatch}
use rve.Bus.Slots.{IsValid, bus_add_peripheral-IsValid}
use rve.Peripherals.Types.{Context, Memory, Uart, Stream}
use rve.Peripherals.Memory.{
  read_memory, write_memory, read_bytes, memory_ops, access_offset, memory_load_file,
}
use rve.Peripherals.Memory.Laws.{
  InRange, written, read_memory_iff, read_memory-write_memory, read_memory-write_memory_apart,
}
use rve.Peripherals.Memory.Loading.{
  Fits, loaded, memory_load_file_iff, memory_load_file-read_memory,
  memory_load_file-read_memory_apart,
}
use rve.Peripherals.Uart.{
  read_register, write_register, uart_ns16550a_create, uart_init, fetch_byte,
}
use rve.Peripherals.Uart.Registers.{
  receive, read_register-write_register, uart_ns16550a_create-receive,
}
use rve.Emulator.{default_soc}
use rve.Emulator.MemoryMap.{default_soc-mapped_slot}
use rve.Tests.Fixtures.{code_memory, small_bus, idle_uart, quiet_host, byte_or_zero, program}

bus_get_peripheral-BestMatch_example :
    BestMatch small_bus.peripherals 0x1024 (bus_get_peripheral small_bus 0x1024)
bus_get_peripheral-BestMatch_example = bus_get_peripheral-BestMatch small_bus 0x1024

bus_add_peripheral-IsValid_example :
    let (done, bus') = bus_add_peripheral small_bus 0x2000 0x2008 Context.tohost memory_ops [] in
    IsValid bus' × ((done ≡ true) ↔ (2 < max_peripherals)) × (bus'.count ≡ (if done then 3 else 2))
bus_add_peripheral-IsValid_example =
    bus_add_peripheral-IsValid small_bus 0x2000 0x2008 Context.tohost memory_ops []
      (record { slots = refl; counted = refl })

default_soc-mapped_slot_example :
    bus_get_peripheral (default_soc true true true 0x8000_0000).bus 0x8000_1004 ≡ some 0
default_soc-mapped_slot_example = default_soc-mapped_slot 0x8000_0000 0x8000_1004

read_memory_iff_example :
    ((read_memory code_memory 0x1002 16
        ≡ some (read_bytes (λ j. byte_or_zero (get_elem? program j)) 2 2))
      ↔ InRange code_memory 0x1002 16)
    × ((read_memory code_memory 0x1002 16 ≢ none) ↔ InRange code_memory 0x1002 16)
read_memory_iff_example =
    read_memory_iff code_memory (λ j. byte_or_zero (get_elem? program j)) 0x1002 16 (omega arith)
      refl

-- The memory after `0x12345` is written in 16 bits at `0x1010`.
abbrev stored : Option Memory
stored = some (written code_memory (λ j. byte_or_zero (get_elem? program j)) 0x1010 0x1_2345 16)

stores : write_memory code_memory 0x1010 0x1_2345 16 ≡ stored
unfolding write_memory access_offset
stores = refl

read_memory-write_memory_example :
    read_memory
      (written code_memory (λ j. byte_or_zero (get_elem? program j)) 0x1010 0x1_2345 16)
      0x1010
      16
    ≡ some 0x2345
read_memory-write_memory_example =
    read_memory-write_memory code_memory 0x1010 0x1_2345 16 (omega arith) stores

read_memory-write_memory_apart_example :
    read_memory
      (written code_memory (λ j. byte_or_zero (get_elem? program j)) 0x1010 0x1_2345 16)
      0x1000
      32
    ≡ read_memory code_memory 0x1000 32
read_memory-write_memory_apart_example =
    read_memory-write_memory_apart code_memory 0x1010 0x1_2345 16 0x1000 32 (omega arith)
      (omega arith) stores (inl (omega arith))

memory_load_file_iff_example :
    ((memory_load_file code_memory 0x1010 program
        ≡ some (loaded code_memory (λ j. byte_or_zero (get_elem? program j)) 0x1010 program))
      ↔ Fits code_memory 0x1010 program)
    × ((memory_load_file code_memory 0x1010 program ≢ none) ↔ Fits code_memory 0x1010 program)
memory_load_file_iff_example =
    memory_load_file_iff code_memory (λ j. byte_or_zero (get_elem? program j)) 0x1010 program refl
      (omega arith) (omega arith)

loads :
    memory_load_file code_memory 0x1010 program
    ≡ some (loaded code_memory (λ j. byte_or_zero (get_elem? program j)) 0x1010 program)
unfolding memory_load_file
loads = refl

memory_load_file-read_memory_example :
    read_memory
      (loaded code_memory (λ j. byte_or_zero (get_elem? program j)) 0x1010 program)
      (0x1010 + 2)
      8
    ≡ some 0x50
memory_load_file-read_memory_example =
    memory_load_file-read_memory code_memory
      (loaded code_memory (λ j. byte_or_zero (get_elem? program j)) 0x1010 program) 0x1010 2 0x50
      program (omega arith) (omega arith) loads refl

memory_load_file-read_memory_apart_example :
    read_memory
      (loaded code_memory (λ j. byte_or_zero (get_elem? program j)) 0x1010 program)
      0x1000
      32
    ≡ read_memory code_memory 0x1000 32
memory_load_file-read_memory_apart_example =
    memory_load_file-read_memory_apart code_memory
      (loaded code_memory (λ j. byte_or_zero (get_elem? program j)) 0x1010 program) 0x1010 0x1000 32
      program (omega arith) (omega arith) (omega arith) loads (inl (omega arith))

read_register-write_register_example :
    let (u', host') = write_register idle_uart 7 0x5A quiet_host in
    ((read_register u' 7).0 ≡ 0x5A) × ((read_register u' 7).1 ≡ u') × (host' ≡ quiet_host)
read_register-write_register_example = read_register-write_register idle_uart 7 0x5A quiet_host refl

abbrev started_uart : Uart
started_uart = record {
  tx_file = some Stream.stdout;
  rx_file = some (b'i' ∷ []);
  ier = 0;
  lcr = 0;
  mcr = 0;
  scr = 0;
  dll = 1;
  dlh = 0;
  rx_ready = true;
  rx_byte = b'h';
}

starts : uart_ns16550a_create true none (some (b'h' ∷ b'i' ∷ [])) ≡ some started_uart
unfolding uart_ns16550a_create uart_init fetch_byte
starts = refl

uart_ns16550a_create-receive_example : (receive 3 started_uart).0 ≡ b'h' ∷ b'i' ∷ 0 ∷ []
uart_ns16550a_create-receive_example =
    uart_ns16550a_create-receive none (b'h' ∷ b'i' ∷ []) started_uart 3 starts

-- Case 5 of a test has failed.
default_soc-bus_write_example :
    let (done, bus') =
      bus_write (default_soc true true true 0x8000_0000).bus 0x8000_1000 (verdict 5) 32 in
    (done ≡ true) × (bus'.host.halted ≡ true) × (bus'.host.exit_code ≡ 5)
default_soc-bus_write_example =
    default_soc-bus_write 0x8000_0000 0x8000_1000 5 32 (omega arith) (omega arith)
