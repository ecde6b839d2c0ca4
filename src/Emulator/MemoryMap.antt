-- ===== src/Emulator/MemoryMap.antt =====
-- The memory map of `emulator_init` (src/emulator.c), with room for every allocation.
use rve.Base.{ℕ, ◌≡◌, arith, true, ◌&&◌, Option, none, some, leb, ltb, if◌then◌else◌}
use rve.Bus.{
  bus_get_peripheral, find_best, covers, range_size, improves, bus_add_peripheral, bus_find_slot,
  find_slot, bus_init, deactivate,
}
use rve.Peripherals.Memory.{memory_create_ctx, memory_init}
use rve.Soc.{soc_init, soc_add_peripheral, soc_add_memory}
use rve.Emulator.{default_soc}

-- The slot that serves an address: TOHOST, low RAM, high RAM, UART.
abbrev pub mapped_slot : ℕ → Option ℕ
mapped_slot addr =
    if leb 0x8000_1000 addr && ltb addr 0x8000_1008
    then some 0
    else if ltb addr 0x40_0000
    then some 1
    else if leb 0x8000_0000 addr && ltb addr 0x8100_0000
    then some 2
    else if leb 0x1000_0000 addr && ltb addr 0x1000_0008
    then some 3
    else none

-- In the machine that `emulator_init` builds, with room for each allocation, an address in the
-- TOHOST window is served by slot 0 though it lies in high memory too, one below 4 MiB by slot 1,
-- one in the other 16 MiB from 0x80000000 by slot 2, one in the UART window by slot 3, and any
-- other by none.
pub default_soc-mapped_slot :
    (reset_pc addr : ℕ)
    → bus_get_peripheral (default_soc true true true reset_pc).bus addr ≡ mapped_slot addr
unfolding default_soc soc_init soc_add_peripheral soc_add_memory bus_get_peripheral find_best covers
    range_size improves bus_add_peripheral bus_find_slot find_slot bus_init deactivate
    memory_create_ctx memory_init
default_soc-mapped_slot reset_pc addr = ground arith
