-- ===== src/Main/Status.antt =====
-- The exit status of `main` (src/main.c).
use rve.Base.{
  ℕ, ◌^◌, ◌≡◌, ◌≤◌, ◌<◌, refl, arith, Bool, Option, none, some, List, [], ◌∷◌, ◌==◌, if◌then◌else◌,
  ◌⊎◌, inl, inr, Option-cases, ◌∙◌, if-elim,
}
use rve.Text.{Bytes}
use rve.Emulator.{emulator_load_binary, emulator_init, emulator_set_trace}
use rve.Emulator.Run.{Ends, emulator_run-Ends}
use rve.Main.{Rve, Outcome, set_up, announce, finish_run, refusal, not_loaded, main}
use rve.Main.CommandLine.{Args, Parsed, refused, accepted, parse_args}

module _ (low_ok high_ok uart_ok : Bool) (content : Bytes → Option (List ℕ)) where
  -- A limited run of the loaded machine that ends with the status, or a command line or a file that
  -- was refused, with status 1.
  pub data Reported (argv : List Bytes) (o : Outcome) : Type 0 where
    bad_arguments :
        (message : Bytes) → parse_args argv ≡ refused message → o.status ≡ 1 → Reported argv o
    bad_file :
        (args : Args)
        → parse_args argv ≡ accepted args
        → set_up low_ok high_ok uart_ok content args ≡ none
        → o.status ≡ 1
        → o.traced ≡ []
        → Reported argv o
    ran :
        (args : Args) (emu emu' : Rve)
        → parse_args argv ≡ accepted args
        → set_up low_ok high_ok uart_ok content args ≡ some emu
        → Ends (announce args emu) args.max_steps o.status emu'
        → o.traced ≡ emu'.trace_userdata.lines
        → Reported argv o

emulator_load_binary-cycle_count :
    (file : Option (List ℕ)) (e e' : Rve) (addr : ℕ)
    → emulator_load_binary file e addr ≡ some e'
    → e'.cycle_count ≡ e.cycle_count
unfolding emulator_load_binary
emulator_load_binary-cycle_count none e e' addr h = cc
emulator_load_binary-cycle_count (some []) e e' addr h = cc
emulator_load_binary-cycle_count (some (b ∷ bs)) e e' addr h = ground arith

Parsed-cases : (p : Parsed) → ((m : Bytes) × (p ≡ refused m)) ⊎ ((a : Args) × (p ≡ accepted a))
Parsed-cases (refused m) = inl (m, refl)
Parsed-cases (accepted a) = inr (a, refl)

same_status : (code : ℕ) → (if code == 0 then 0 else code) ≡ code
same_status code = ground arith

module _ (low_ok high_ok uart_ok : Bool) (content : Bytes → Option (List ℕ)) where
  set_up-cycle_count :
      (args : Args) (emu : Rve)
      → set_up low_ok high_ok uart_ok content args ≡ some emu
      → emu.cycle_count ≡ 0
  unfolding set_up emulator_init emulator_set_trace
  set_up-cycle_count args emu h =
      emulator_load_binary-cycle_count _ _ emu args.load_addr h
      ∙ if-elim (λ (e : Rve). e.cycle_count ≡ 0) args.trace (λ _. refl) (λ _. refl)

  run-Reported :
      (fuel : ℕ) (argv : List Bytes) (args : Args) (emu : Rve)
      → parse_args argv ≡ accepted args
      → set_up low_ok high_ok uart_ok content args ≡ some emu
      → 0 < args.max_steps
      → args.max_steps < 2 ^ 64
      → args.max_steps ≤ fuel
      → (o : Outcome) × (main low_ok high_ok uart_ok content fuel argv ≡ some o)
        × Reported low_ok high_ok uart_ok content argv o
  unfolding main finish_run announce
  run-Reported fuel argv args emu p s z w f =
      let z0 = set_up-cycle_count args emu s in
      let (code, emu', r, x) =
        emulator_run-Ends fuel (announce args emu) args.max_steps (omega arith) w (omega arith) in
      (
        finish_run args code emu',
        rw (main, p) (rw s (rw r refl)),
        Reported.ran args emu emu' p s (rw same_status x) refl,
      )

  -- If the command line, where it is accepted, sets a limit below 2^64 other than 0 and not above
  -- the fuel, `main` ends: with status 1 where the command line is refused, with status 1 and an
  -- empty trace where the file cannot be loaded, and otherwise with the exit code of the limited
  -- run of the loaded machine as its status.
  pub main-Reported :
      (fuel : ℕ) (argv : List Bytes)
      → ((args : Args)
          → parse_args argv ≡ accepted args
          → (0 < args.max_steps) × (args.max_steps < 2 ^ 64) × (args.max_steps ≤ fuel))
      → (o : Outcome) × (main low_ok high_ok uart_ok content fuel argv ≡ some o)
        × Reported low_ok high_ok uart_ok content argv o
  unfolding main
  main-Reported fuel argv h = elim (Parsed-cases (parse_args argv)) [
    | inl (message, p) ↦
        (refusal argv message, rw (main, p) refl, Reported.bad_arguments message p refl)
    | inr (args, p) ↦ elim (Option-cases (set_up low_ok high_ok uart_ok content args)) [
      | inl s ↦ (not_loaded, rw (main, p) (rw s refl), Reported.bad_file args p s refl refl)
      | inr (emu, s) ↦ run-Reported fuel argv args emu p s (h args p).0 (h args p).1 (h args p).2
    ]
  ]
