-- ===== src/Lib.antt =====
-- rve: an RV32IM system emulator.
--
-- The program has a decoder (src/decoder.c), a hart that fetches, decodes, executes and commits one
-- instruction per step (src/hart.c), a bus of at most ten peripherals (src/bus.c), a RAM, a UART and
-- a TOHOST device (src/memory.c, src/uart.c, src/tohost.c), a SoC of a hart and a bus (src/soc.c),
-- and an emulator that runs a SoC with a memory map, system calls and a step limit
-- (src/emulator.c). The emulator steps the SoC, the SoC its hart; the hart reaches memory by
-- `bus_read` and `bus_write` alone, and the bus calls the device whose range is the smallest one
-- that covers the address. `main` (src/main.c) reads the command line, loads a file, runs the
-- emulator with or without a tracer, and returns its exit code.
--
-- Where to find what:
--   Base         Boolean tests, lists as C arrays, and the binary digits of native numbers
--   Riscv        the encoding constants (include/rve/riscv.h)
--   Word         machine words (include/rve/types.h), `sext` of src/hart.c, signed integers
--   Text         byte sequences, and what is used of `printf`, `snprintf`, `strtoul` and `strcmp`
--   Decoder      src/decoder.c; Encoding is the manual's side of it, Recognise the words that get an
--                operation, Words and Typed the ranges of the fields, Names and Print the texts
--   Peripherals  the devices: `memory_*`, `uart_*`, `tohost_write`, one file for each C file
--   Bus          src/bus.c; Lookup, Slots and Update are about the search for a device and for a slot,
--                Wired* about what the slots hold
--   Hart         src/hart.c: Types, Trap, Csr, Arith and Access are its helpers, Execute is the
--                switch over the operation, Step is `hart_step`, Print the texts. Frame,
--                Untouched, Retire, Touches, Refused, Precise, Words, Valid*, Machine, Status,
--                Vector, Csr/Access and Arith/Exact are about them; Manual, Alu and AluStep hold the
--                arithmetic instructions to the integers of the manual,
--                Flow and FlowStep are about jumps and branches
--   Soc          src/soc.c; Interrupt is about interrupts, Loading about a loaded binary
--   Emulator     src/emulator.c; MemoryMap, Boot, Fetch, Run, Ending, Halting, StoreHalts and
--                Syscall are about it
--   Main         src/main.c: CommandLine, Trace, and `main` itself; RoundTrip and Status are about it
--   Tools        tools/gen.c and src/tests/decoder.c; Endless is about the generated program
--   Utils        src/utils.c
--   Tests        the fixed inputs on which the theorems are used
--
-- How state is modelled. A C function that changes what a pointer leads to takes the value and
-- returns it. A `word` is a native number below 2 ^ 32, with each wrap-around written out; an
-- `s_word` is the same pattern, and `signed` is the integer it stands for. A `trap_t` is its number,
-- so that two causes share a number where they do in C, and TRAP_NONE is `none`. The register file
-- is a function from indices, the ten slots of the bus are a list, a `peripheral_t *` is the index
-- of its slot, a `void *` context is a value of the data type `Context`, and a raw buffer is a
-- function from offsets to bytes. What devices share by pointers (the halt flag, the exit code, the
-- bytes written to files) is the record `Host` that travels with the bus. The local variables of
-- `hart_step` that its helpers reach by pointers are the record `Locals`. The pointer from a hart to
-- its bus is left out: the functions take the bus beside the hart. What `malloc`, `calloc` and the
-- file functions return is an argument of the functions that call them.
--
-- Bounds and fuel. `emulator_run` is on fuel, one unit for each turn of its loop; with a step limit
-- the number of cycles that are left is enough. The other loops are structural recursions: over the
-- slots of the bus, over texts and arguments, and over the byte counts of `write` and of memory
-- accesses. A memory access of more than four bytes copies past a C object; the properties are about
-- at most four.
--
-- Not modelled: the diagnostics on stderr of the devices, of src/bus.c, src/hart.c, src/decoder.c,
-- src/soc.c and src/emulator.c, and the messages of the decoder's tests; the order of
-- the tracer's lines among the other output; src/main2.c, which is compiled out; src/tests/gen.c, which
-- is a copy of tools/gen.c; and the co-simulation interface (include/rve/cosim.h), which has no
-- implementation. Following a NULL pointer or a context of another device's type, which C leaves
-- undefined, is a failed access here; the invariant of Bus/Wired excludes the latter.
pub mod Base
pub mod Riscv
pub mod Word
pub mod Text
pub mod Decoder
pub mod Peripherals
pub mod Bus
pub mod Hart
pub mod Soc
pub mod Emulator
pub mod Main
pub mod Tools
pub mod Utils
mod Tests
