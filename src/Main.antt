-- ===== src/Main.antt =====
-- The program of src/main.c. What the tracer prints is kept apart from what the machine and `main`
-- print, so that their order on stdout is not modelled.
pub mod CommandLine
pub mod Trace
pub mod RoundTrip
pub mod Status
use rve.Base.{
  ℕ, zero, suc, ◌+◌, Bool, true, Option, none, some, List, [], ◌∷◌, ◌++◌, ◌==◌, if◌then◌else◌,
}
use rve.Text.{Bytes, lit, str, dec, udec, hex_caps, codes, printf}
use rve.Peripherals.Types.{Stream}
use rve.Hart.Print.{hart_print}
use rve.Emulator.{Emulator, emulator_init, emulator_set_trace, emulator_load_binary, emulator_run}
use rve.Main.CommandLine.{Args, refused, accepted, parse_args, print_usage}
use rve.Main.Trace.{Tracer, trace_callback}

-- The machine that `main` runs; nobody sets a userdata for its system calls.
abbrev pub Rve : Type 0
Rve = Emulator Unit Tracer

-- What is seen of a run: the status, the bytes written, latest first, and the tracer's text.
pub record Outcome : Type 0 where
  pub status : ℕ
  pub output : List (Stream × ℕ)
  pub traced : Bytes

unfoldable pub put_text : Stream → Bytes → List (Stream × ℕ) → List (Stream × ℕ)
put_text f [] output = output
put_text f (c ∷ s) output = put_text f s ((f, c) ∷ output)

-- `argv[0]`, and what glibc prints for NULL.
abbrev program_name : List Bytes → Bytes
program_name [] = codes "(null)"
program_name (name ∷ args) = name

abbrev pub no_lines : Tracer
no_lines = record { cycle = 0; lines = [] }

-- The return after `print_usage`, and the one after `emulator_load_binary` has failed.
abbrev pub refusal : List Bytes → Bytes → Outcome
refusal argv message = record {
  status = 1;
  output = put_text Stream.stderr (message ++ print_usage (program_name argv)) [];
  traced = [];
}

abbrev pub not_loaded : Outcome
not_loaded = record { status = 1; output = []; traced = [] }

-- The name that `fprintf` prints.
abbrev binary_name : Args → Bytes
binary_name args = elim args.binary [ none ↦ codes "(null)" | some name ↦ name ]

-- The messages behind a run, its status, and the register file if it was asked for.
unfoldable pub finish_run : Args → ℕ → Rve → Outcome
unfolding put_text
finish_run args code emu =
    let host_output = emu.soc.bus.host.output in
    let message = printf (
      lit "rve: halted after "
      ∷ udec emu.cycle_count
      ∷ lit " instructions, exit code "
      ∷ dec code
      ∷ lit "\n"
      ∷ []) in
    let output = put_text Stream.stderr message host_output in
    let registers = hart_print emu.soc.hart (some (codes "Final register state")) in
    record {
      status = if code == 0 then 0 else code;
      output = if args.dump_regs then put_text Stream.stdout registers output else output;
      traced = emu.trace_userdata.lines;
    }

-- The message before the run.
unfoldable pub announce : Args → Rve → Rve
unfolding put_text
announce args emu =
    let soc = emu.soc in
    let bus = soc.bus in
    let host = bus.host in
    let message = printf (
      lit "rve: loaded '"
      ∷ str (binary_name args)
      ∷ lit "' at 0x"
      ∷ hex_caps 8 args.load_addr
      ∷ lit ", reset PC=0x"
      ∷ hex_caps 8 args.reset_pc
      ∷ lit "\n"
      ∷ []) in
    record emu {
      soc = record soc {
        bus = record bus {
          host = record host { output = put_text Stream.stderr message host.output };
        };
      };
    }

-- The machine before the run, and none where the file cannot be loaded. The tests are those of
-- `emulator_init`, and `content` gives what the file of a name holds.
module _ (low_ok high_ok uart_ok : Bool) (content : Bytes → Option (List ℕ)) where
  unfoldable pub set_up : Args → Option Rve
  set_up args =
      let emu : Rve = emulator_init low_ok high_ok uart_ok args.reset_pc tt no_lines in
      let emu' =
        if args.trace then emulator_set_trace emu (some trace_callback) no_lines else emu in
      emulator_load_binary (elim args.binary [ none ↦ none | some name ↦ content name ]) emu'
        args.load_addr

  -- The program, with fuel for `emulator_run`; `none` means that it ran out.
  unfoldable pub main : ℕ → List Bytes → Option Outcome
  main fuel argv = elim (parse_args argv) [
    | refused message ↦ some (refusal argv message)
    | accepted args ↦ elim (set_up args) [
      | none ↦ some not_loaded
      | some emu ↦ elim (emulator_run fuel (announce args emu) args.max_steps) [
        | none ↦ none
        | some (exit_code, emu') ↦ some (finish_run args exit_code emu')
      ]
    ]
  ]
