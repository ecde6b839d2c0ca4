-- ===== src/Emulator/Run.antt =====
-- `emulator_run` against the steps that it makes (src/emulator.c).
use rve.Base.{
  ℕ, zero, suc, ◌+◌, ◌^◌, ◌≡◌, ◌≤◌, ◌<◌, refl, ◌∙◌, arith, true, false, ◌⊎◌, inl, inr, some,
  Bool-cases, if-true, if-false,
}
use rve.Emulator.{
  Emulator, emulator_step, emulator_run, step_running, handle_ecall, halted, exit_code, halt,
  limit_reached,
}

module _ {S D : Type 0} where
  -- The emulator after `n` steps.
  abbrev pub stepped : ℕ → Emulator S D → Emulator S D
  stepped zero e = e
  stepped (suc n) e = stepped n (emulator_step e).1

  -- A step of a running emulator counts one cycle.
  pub emulator_step-cycle_count :
      (e : Emulator S D)
      → halted e ≡ false
      → e.cycle_count + 1 < 2 ^ 64
      → (emulator_step e).1.cycle_count ≡ e.cycle_count + 1
  unfolding emulator_step step_running handle_ecall
  emulator_step-cycle_count e h c = ground arith

  -- How a run ends after `n` steps: the program has halted, or the limit has stopped it with code 1.
  pub record Ends (e : Emulator S D) (max_steps : ℕ) (code : ℕ) (e' : Emulator S D) : Type 0 where
    pub n : ℕ
    pub cycles : e'.cycle_count ≡ e.cycle_count + n
    pub bound : e'.cycle_count ≤ max_steps
    pub halts : halted e' ≡ true
    pub code_of : exit_code e' ≡ code
    pub last : (e' ≡ stepped n e) ⊎ ((e' ≡ halt (stepped n e) 1) × (e'.cycle_count ≡ max_steps))

  Ends-suc :
      (e e' : Emulator S D) (max_steps code : ℕ)
      → (emulator_step e).1.cycle_count ≡ e.cycle_count + 1
      → Ends (emulator_step e).1 max_steps code e'
      → Ends e max_steps code e'
  Ends-suc e e' max_steps code c x = record {
    n = suc x.n;
    cycles = omega (arith, x.cycles);
    bound = x.bound;
    halts = x.halts;
    code_of = x.code_of;
    last = x.last;
  }

  -- A run with a limit below 2^64 that starts below the limit ends with a result, given as much
  -- fuel as cycles are left. The emulator is then halted with the returned code, its cycle
  -- counter has grown by the number of steps and is within the limit, and it is the emulator
  -- after those steps, or at the limit the same halted with code 1.
  pub emulator_run-Ends :
      (fuel : ℕ) (e : Emulator S D) (max_steps : ℕ)
      → e.cycle_count < max_steps
      → max_steps < 2 ^ 64
      → max_steps ≤ e.cycle_count + fuel
      → (code : ℕ) × (e' : Emulator S D) × (emulator_run fuel e max_steps ≡ some (code, e'))
        × Ends e max_steps code e'
  unfolding emulator_run
  emulator_run-Ends zero e max_steps h w f = absurd (omega arith)
  emulator_run-Ends (suc fuel) e max_steps h w f = elim (Bool-cases (halted e)) [
    | inl b ↦ (
      exit_code e,
      e,
      if-true _ b,
      record {
        n = 0;
        cycles = omega arith;
        bound = omega arith;
        halts = b;
        code_of = refl;
        last = inl refl;
      },
    )
    | inr b ↦
        let e' = (emulator_step e).1 in
        let c = emulator_step-cycle_count e b (omega arith) in
        elim (Bool-cases (limit_reached e' max_steps)) [
          | inl l ↦ (
            1,
            halt e' 1,
            if-false _ b ∙ if-true _ l,
            record {
              n = 1;
              cycles = c;
              bound = omega arith;
              halts = refl;
              code_of = refl;
              last = inr (refl, ground arith);
            },
          )
          | inr l ↦
              let (code, e'', r, x) =
                emulator_run-Ends fuel e' max_steps (ground arith) w (omega arith) in
              (code, e'', if-false _ b ∙ (if-false _ l ∙ r), Ends-suc e e'' max_steps code c x)
        ]
  ]
