-- ===== src/Emulator.antt =====
-- src/emulator.c. `halted` and `exit_code` of an emulator are the cells that its TOHOST device
-- points to, so that they are those of the bus's host; `soc` is the rest of its machine. The
-- callbacks take their `userdata` and return it; `S` and `D` are its types.
pub mod MemoryMap
pub mod Run
pub mod Boot
pub mod Halting
pub mod Syscall
pub mod StoreHalts
pub mod Ending
pub mod Fetch
use rve.Base.{
  ℕ, zero, suc, ◌+◌, ◌*◌, ◌%◌, ◌^◌, Bool, true, false, ◌&&◌, not, Option, none, some, List, [], ◌∷◌,
  leb, ◌==◌, if◌then◌else◌, bit_and,
}
use rve.Word.{add32}
use rve.Bus.{Bus, bus_read}
use rve.Peripherals.Types.{Stream, Host, Context}
use rve.Peripherals.Uart.{uart_ns16550a_create, uart_ns16550a_ops}
use rve.Peripherals.Tohost.{peripheral_tohost_ops}
use rve.Hart.Types.{Hart, Retire, zero_retire, illegal_instr, ecall_m, set_gpr}
use rve.Soc.{Soc, soc_init, soc_add_peripheral, soc_add_memory, soc_load_binary, soc_step}

-- `syscall_handler_t`: the result, and what the pointers lead to after the call.
abbrev pub SyscallHandler : Type 0 → Type 0
SyscallHandler S = Soc → Retire → S → Bool × Soc × Retire × S

-- `trace_fn_t`: the record is constant.
abbrev pub TraceFn : Type 0 → Type 0
TraceFn D = Retire → D → D

-- `emulator_t`
pub record Emulator (S D : Type 0) : Type 0 where
  pub soc : Soc
  pub syscall_handler : Option (SyscallHandler S)
  pub syscall_userdata : S
  pub trace_fn : Option (TraceFn D)
  pub trace_userdata : D
  pub cycle_count : ℕ

-- `soc->hart.gpr[10] = v`
abbrev pub set_a0 : Soc → ℕ → Soc
set_a0 soc v = record soc { hart = set_gpr soc.hart 10 v }

-- `fputc(byte, f)`
abbrev pub put_char : Bus → Stream → ℕ → Bus
put_char bus f byte =
    let host = bus.host in record bus { host = record host { output = (f, byte) ∷ host.output } }

-- The loop of the `write` call: the rounds left, the address, the bytes written so far.
unfoldable pub write_loop : ℕ → Stream → ℕ → ℕ → Bus → ℕ × Bus
write_loop zero f addr written bus = (written, bus)
write_loop (suc left) f addr written bus =
    let (read, bus') = bus_read bus addr 8 in
    elim read [
      | none ↦ (written, bus')
      | some byte_val ↦
          write_loop left f (add32 addr 1) (add32 written 1)
            (put_char bus' f (bit_and byte_val 0xFF))
    ]

-- `(a0 == 1) ? stdout : (a0 == 2) ? stderr : NULL`
abbrev pub output_stream : ℕ → Option Stream
output_stream a0 =
    if a0 == 1 then some Stream.stdout else if a0 == 2 then some Stream.stderr else none

-- `case 64`
unfoldable pub write_syscall : Soc → ℕ → ℕ → ℕ → Soc
unfolding write_loop
write_syscall soc a0 a1 a2 = elim (output_stream a0) [
  | none ↦ set_a0 soc 0xFFFF_FFFF
  | some f ↦
      let (written, bus') = write_loop a2 f a1 0 soc.bus in
      set_a0 (record soc { bus = bus' }) written
]

unfoldable pub default_syscall_handler : {S : Type 0} → SyscallHandler S
unfolding write_syscall
default_syscall_handler soc retire userdata =
    let a7 = soc.hart.gpr 17 in
    let a0 = soc.hart.gpr 10 in
    let a1 = soc.hart.gpr 11 in
    let a2 = soc.hart.gpr 12 in
    if a7 == 93
    then (false, set_a0 soc a0, retire, userdata)
    else if a7 == 64
    then (true, write_syscall soc a0 a1 a2, retire, userdata)
    else (false, soc, retire, userdata)

-- The cells of a fresh emulator.
abbrev pub zero_host : Host
zero_host = record { halted = false; exit_code = 0; output = [] }

abbrev pub tohost_name : List ℕ
tohost_name = b'T' ∷ b'O' ∷ b'H' ∷ b'O' ∷ b'S' ∷ b'T' ∷ []

abbrev pub uart_name : List ℕ
uart_name = b'U' ∷ b'A' ∷ b'R' ∷ b'T' ∷ b'0' ∷ []

-- The context of the UART; NULL where it could not be allocated.
abbrev pub uart_ctx : Bool → Context
uart_ctx uart_ok = elim (uart_ns16550a_create uart_ok (some Stream.stdout) none) [
  | none ↦ Context.null
  | some u ↦ Context.uart u
]

-- The memory map of `emulator_init`. The tests say whether there is room for the two memories and
-- the UART; the TOHOST context is used unchecked, and is taken to be there.
unfoldable pub default_soc : Bool → Bool → Bool → ℕ → Soc
default_soc low_ok high_ok uart_ok reset_pc =
    let soc0 = soc_init zero_host reset_pc in
    let soc1 =
      (soc_add_peripheral soc0 0x8000_1000 0x8000_1008 Context.tohost peripheral_tohost_ops
        tohost_name).1 in
    let soc2 = (soc_add_memory low_ok low_ok soc1 0x0000_0000 (4 * 1024 * 1024)).1 in
    let soc3 = (soc_add_memory high_ok high_ok soc2 0x8000_0000 (16 * 1024 * 1024)).1 in
    (soc_add_peripheral soc3 0x1000_0000 0x1000_0008 (uart_ctx uart_ok) uart_ns16550a_ops
      uart_name).1

module _ {S D : Type 0} where
  -- The last two arguments stand for the NULL that both `userdata` fields start with.
  unfoldable pub emulator_init : Bool → Bool → Bool → ℕ → S → D → Emulator S D
  emulator_init low_ok high_ok uart_ok reset_pc no_data no_trace = record {
    soc = default_soc low_ok high_ok uart_ok reset_pc;
    syscall_handler = some default_syscall_handler;
    syscall_userdata = no_data;
    trace_fn = none;
    trace_userdata = no_trace;
    cycle_count = 0;
  }

  -- `none` is the result -1. The first argument is what the file holds, `none` where it cannot be
  -- opened or read, or where there is no room for the buffer.
  unfoldable pub emulator_load_binary : Option (List ℕ) → Emulator S D → ℕ → Option (Emulator S D)
  emulator_load_binary none e load_addr = none
  emulator_load_binary (some []) e load_addr = none
  emulator_load_binary (some (b ∷ bs)) e load_addr =
      elim (soc_load_binary e.soc (b ∷ bs) load_addr) [
        | none ↦ none
        | some soc' ↦ some (record e { soc = soc' })
      ]

  unfoldable pub emulator_set_syscall_handler :
      Emulator S D → Option (SyscallHandler S) → S → Emulator S D
  emulator_set_syscall_handler e fn userdata = record e {
    syscall_handler = fn;
    syscall_userdata = userdata;
  }

  unfoldable pub emulator_set_trace : Emulator S D → Option (TraceFn D) → D → Emulator S D
  emulator_set_trace e fn userdata = record e { trace_fn = fn; trace_userdata = userdata }

  abbrev pub halted : Emulator S D → Bool
  halted e = e.soc.bus.host.halted

  abbrev pub exit_code : Emulator S D → ℕ
  exit_code e = e.soc.bus.host.exit_code

  -- `e->halted = true; e->exit_code = code`
  abbrev pub halt : Emulator S D → ℕ → Emulator S D
  halt e code =
      let soc = e.soc in
      let bus = soc.bus in
      let host = bus.host in
      record e {
        soc = record soc {
          bus = record bus { host = record host { halted = true; exit_code = code } };
        };
      }

  -- `if (e->trace_fn) e->trace_fn(&r, e->trace_userdata)`
  abbrev pub traced : Emulator S D → Retire → D
  traced e r = elim e.trace_fn [ none ↦ e.trace_userdata | some fn ↦ fn r e.trace_userdata ]

  -- `e->syscall_handler && e->syscall_handler(…)`
  abbrev pub call_handler : Emulator S D → Retire → Bool × Soc × Retire × S
  call_handler e r = elim e.syscall_handler [
    | none ↦ (false, e.soc, r, e.syscall_userdata)
    | some fn ↦ fn e.soc r e.syscall_userdata
  ]

  -- The branch of an ECALL.
  unfoldable pub handle_ecall : Emulator S D → Retire → Retire × Emulator S D
  handle_ecall e r =
      let (handled, soc', r', userdata) = call_handler e r in
      let e' : Emulator S D = record e { soc = soc'; syscall_userdata = userdata } in
      if handled then (record r' { trap = none }, e') else (r', halt e' (soc'.hart.gpr 10))

  -- One step that is not skipped.
  unfoldable pub step_running : Emulator S D → Retire × Emulator S D
  unfolding handle_ecall
  step_running e =
      let (r, soc') = soc_step e.soc in
      let e' : Emulator S D = record e {
        soc = soc';
        cycle_count = (e.cycle_count + 1) % 2 ^ 64;
        trace_userdata = traced e r;
      } in
      elim r.trap [
        | none ↦ (r, e')
        | some trap ↦ if trap == ecall_m then handle_ecall e' r else (r, e')
      ]

  unfoldable pub emulator_step : Emulator S D → Retire × Emulator S D
  emulator_step e = if halted e then (zero_retire (some illegal_instr), e) else step_running e

  -- `max_steps && e->cycle_count >= max_steps`
  abbrev pub limit_reached : Emulator S D → ℕ → Bool
  limit_reached e max_steps = not (max_steps == 0) && leb max_steps e.cycle_count

  -- The loop on fuel; `none` means that the fuel ran out.
  unfoldable pub emulator_run : ℕ → Emulator S D → ℕ → Option (ℕ × Emulator S D)
  emulator_run zero e max_steps = none
  emulator_run (suc fuel) e max_steps =
      let e' = (emulator_step e).1 in
      let rest = emulator_run fuel e' max_steps in
      if halted e
      then some (exit_code e, e)
      else if limit_reached e' max_steps
      then some (1, halt e' 1)
      else rest
