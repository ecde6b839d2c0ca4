-- ===== src/Emulator/Syscall.antt =====
-- The `write` and `exit` calls of the default handler (src/emulator.c).
use rve.Base.{
  ℕ, zero, suc, ◌+◌, ◌%◌, ◌^◌, ◌≡◌, ◌<◌, refl, ap, ◌∙◌, arith, true, false, none, some, List, [],
  ◌∷◌, ◌==◌, if◌then◌else◌, if-false, bit_and, bit_and_mask,
}
use mathlib.Core.List.{◌++◌}
use native.Mathlib.Nat.{zero-add}
use rve.Word.{add32, IsWord}
use rve.Bus.{Bus, bus_read}
use rve.Peripherals.Types.{Stream}
use rve.Hart.Types.{Retire, ecall_m, set_gpr}
use rve.Soc.{Soc, soc_step}
use rve.Emulator.{
  Emulator, emulator_step, step_running, handle_ecall, halted, exit_code, halt, traced, write_loop,
  write_syscall, default_syscall_handler, set_a0, put_char, output_stream,
}

-- The bus with other bytes written.
abbrev pub with_output : Bus → List (Stream × ℕ) → Bus
with_output bus out = let host = bus.host in record bus { host = record host { output = out } }

-- The bytes at `addr`, `addr + 1`, …, as they stand in the output, latest first.
abbrev pub entries : ℕ → Stream → (ℕ → ℕ) → ℕ → List (Stream × ℕ)
entries zero f val addr = []
entries (suc n) f val addr = (f, val (add32 addr n) % 256) ∷ entries n f val addr

-- Reading a byte from these addresses succeeds and has no effect.
abbrev pub Readable : Bus → ℕ → (ℕ → ℕ) → ℕ → Type 0
Readable bus n val addr =
    (k : ℕ) (out : List (Stream × ℕ))
    → k < n
    → bus_read (with_output bus out) (add32 addr k) 8
      ≡ (some (val (add32 addr k)), with_output bus out)

add32_assoc : (a k : ℕ) → add32 (add32 a 1) k ≡ add32 a (suc k)
add32_assoc a k = omega arith

entries_first :
    (n : ℕ) (f : Stream) (val : ℕ → ℕ) (addr : ℕ) (out : List (Stream × ℕ))
    → IsWord addr
    → entries n f val (add32 addr 1) ++ (f, val addr % 256) ∷ out
      ≡ entries (suc n) f val addr ++ out
entries_first zero f val addr out w = ap (λ a. (f, val a % 256) ∷ out) (omega arith)
entries_first (suc n) f val addr out w =
    rw (add32_assoc addr n)
      (ap (λ l. (f, val (add32 addr (suc n)) % 256) ∷ l) (entries_first n f val addr out w))

Readable-suc :
    (bus : Bus) (n : ℕ) (val : ℕ → ℕ) (addr : ℕ) (out : List (Stream × ℕ))
    → Readable bus (suc n) val addr
    → Readable (with_output bus out) n val (add32 addr 1)
Readable-suc bus n val addr out r k out' h = rw (add32_assoc addr k) (r (suc k) out' (omega arith))

Readable-first :
    (n addr : ℕ) (val : ℕ → ℕ) (bus : Bus)
    → IsWord addr
    → Readable bus (suc n) val addr
    → bus_read bus addr 8 ≡ (some (val addr), bus)
Readable-first n addr val bus w r = rw (first) at (r 0 bus.host.output (omega arith))
  where
    first : add32 addr 0 ≡ addr
    first = omega arith

write_loop-suc :
    (n : ℕ) (f : Stream) (addr written v : ℕ) (bus : Bus)
    → bus_read bus addr 8 ≡ (some v, bus)
    → write_loop (suc n) f addr written bus
      ≡ write_loop n f
          (add32 addr 1)
          (add32 written 1)
          (with_output bus ((f, v % 256) ∷ bus.host.output))
unfolding write_loop
write_loop-suc n f addr written v bus h =
    let next : Bus → ℕ → ℕ × Bus =
      λ b byte. write_loop n f (add32 addr 1) (add32 written 1) (put_char b f byte) in
    rw (write_loop, ap (λ x. x.0) h)
      (ap (λ x. next x.1 (bit_and v 0xFF)) h ∙ ap (next bus) (bit_and_mask 8 v))

pub write_loop_lem :
    (n : ℕ) (f : Stream) (addr written : ℕ) (bus : Bus) (val : ℕ → ℕ)
    → IsWord addr
    → written + n < 2 ^ 32
    → Readable bus n val addr
    → write_loop n f addr written bus
      ≡ (written + n, with_output bus (entries n f val addr ++ bus.host.output))
unfolding write_loop
write_loop_lem zero f addr written bus val w b r = ground arith
write_loop_lem (suc n) f addr written bus val w b r =
    let out = (f, val addr % 256) ∷ bus.host.output in
    write_loop-suc n f addr written (val addr) bus (Readable-first n addr val bus w r)
    ∙ write_loop_lem n f (add32 addr 1) (add32 written 1) (with_output bus out) val (omega arith)
        (omega arith) (Readable-suc bus n val addr out r)
    ∙ ap (λ (k : ℕ). (k, with_output bus (entries n f val (add32 addr 1) ++ out))) count
    ∙ ap (λ l. (written + suc n, with_output bus l)) (entries_first n f val addr bus.host.output w)
  where
    count : add32 written 1 + n ≡ written + suc n
    count = omega arith

pub write_syscall_lem :
    (soc : Soc) (a0 a1 a2 : ℕ) (f : Stream) (val : ℕ → ℕ)
    → output_stream a0 ≡ some f
    → IsWord a1
    → IsWord a2
    → Readable soc.bus a2 val a1
    → write_syscall soc a0 a1 a2 ≡ record {
      hart = set_gpr soc.hart 10 a2;
      bus = with_output soc.bus (entries a2 f val a1 ++ soc.bus.host.output);
    }
unfolding write_syscall
write_syscall_lem soc a0 a1 a2 f val o w v r =
    rw (write_syscall, o)
      (ap (λ x. set_a0 (record soc { bus = x.1 }) x.0)
        (write_loop_lem a2 f a1 0 soc.bus val w (omega arith) r
          ∙ ap (λ n. (n, with_output soc.bus (entries a2 f val a1 ++ soc.bus.host.output)))
              (zero-add a2)))

module _ {S D : Type 0} where
  -- The machine after the instruction of a step.
  abbrev pub after : Emulator S D → Soc
  after e = (soc_step e.soc).1

  -- The emulator between the instruction of a step and the handling of its ECALL.
  abbrev ticked : Emulator S D → Emulator S D
  ticked e = record e {
    soc = after e;
    cycle_count = (e.cycle_count + 1) % 2 ^ 64;
    trace_userdata = traced e (soc_step e.soc).0;
  }

  emulator_step-ecall :
      (e : Emulator S D)
      → halted e ≡ false
      → (soc_step e.soc).0.trap ≡ some ecall_m
      → emulator_step e ≡ handle_ecall (ticked e) (soc_step e.soc).0
  unfolding emulator_step step_running
  emulator_step-ecall e h t = if-false _ h ∙ rw (step_running, t) refl

  handle_ecall-default :
      (e : Emulator S D) (r : Retire)
      → e.syscall_handler ≡ some default_syscall_handler
      → handle_ecall e r ≡ (
          let (handled, soc', r', userdata) = default_syscall_handler e.soc r e.syscall_userdata in
          let e' : Emulator S D = record e { soc = soc'; syscall_userdata = userdata } in
          if handled then (record r' { trap = none }, e') else (r', halt e' (soc'.hart.gpr 10)))
  unfolding handle_ecall
  handle_ecall-default e r d = rw d refl

  -- If a running emulator with the default handler executes an ECALL whose number in a7 is not
  -- that of `write`, be it `exit` or a call that the handler does not know, it is halted with a0
  -- as its exit code, so that an unknown call with 0 in a0 ends with code 0 too. The registers
  -- and the PC are as the instruction left them, and the step reports the ECALL.
  pub emulator_step-exit :
      (e : Emulator S D)
      → halted e ≡ false
      → e.syscall_handler ≡ some default_syscall_handler
      → (soc_step e.soc).0.trap ≡ some ecall_m
      → ((after e).hart.gpr 17 == 64) ≡ false
      → let e' = (emulator_step e).1 in
        (halted e' ≡ true)
        × (exit_code e' ≡ (after e).hart.gpr 10)
        × (e'.soc.hart.pc ≡ (after e).hart.pc)
        × ((emulator_step e).0.trap ≡ some ecall_m)
        × ((j : ℕ) → e'.soc.hart.gpr j ≡ (after e).hart.gpr j)
  unfolding emulator_step step_running handle_ecall default_syscall_handler
  emulator_step-exit e h d t n =
      rw (emulator_step-ecall e h t ∙ handle_ecall-default (ticked e) (soc_step e.soc).0 d)
        (ground arith, ground arith, ground arith, ground arith, λ j. ground arith)

  -- If a running emulator with the default handler executes an ECALL for `write` to stdout or
  -- stderr, with address and length words, and every byte of the buffer can be read from the bus
  -- without effect, the step clears the trap, puts the length in a0, changes no other register,
  -- and adds the bytes of the buffer in order to the output stream, and does nothing else to the
  -- bus.
  pub emulator_step-write :
      (e : Emulator S D) (f : Stream) (val : ℕ → ℕ)
      → halted e ≡ false
      → e.syscall_handler ≡ some default_syscall_handler
      → (soc_step e.soc).0.trap ≡ some ecall_m
      → (after e).hart.gpr 17 ≡ 64
      → output_stream ((after e).hart.gpr 10) ≡ some f
      → IsWord ((after e).hart.gpr 11)
      → IsWord ((after e).hart.gpr 12)
      → Readable (after e).bus ((after e).hart.gpr 12) val ((after e).hart.gpr 11)
      → let (r, e') = emulator_step e in
        let n = (after e).hart.gpr 12 in
        (r.trap ≡ none)
        × (e'.soc.hart ≡ set_gpr (after e).hart 10 n)
        × (e'.soc.bus
            ≡ with_output
                (after e).bus
                (entries n f val ((after e).hart.gpr 11) ++ (after e).bus.host.output))
  unfolding emulator_step step_running handle_ecall default_syscall_handler
  emulator_step-write e f val h d t c o w v r =
      let x =
        write_syscall_lem (after e) ((after e).hart.gpr 10) ((after e).hart.gpr 11)
          ((after e).hart.gpr 12) f val o w v r in
      rw (emulator_step-ecall e h t ∙ handle_ecall-default (ticked e) (soc_step e.soc).0 d)
        (rw c (refl, ap (λ s. s.hart) x, ap (λ s. s.bus) x))
