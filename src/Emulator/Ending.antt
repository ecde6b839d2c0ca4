-- ===== src/Emulator/Ending.antt =====
-- What `emulator_run` of src/emulator.c returns, by the first step that ends the run.
use rve.Base.{
  ℕ, zero, suc, ◌+◌, ◌^◌, ◌≡◌, ◌<◌, refl, ◌∙◌, sym, ap, arith, true, false, ◌⊎◌, inl, inr, Option,
  none, some, ◌↔◌, if-true, if-false, if-elim,
}
use rve.Emulator.{Emulator, emulator_step, emulator_run, halted, exit_code, halt, limit_reached}
use rve.Emulator.Run.{stepped, emulator_step-cycle_count}

module _ {S D : Type 0} (max_steps : ℕ) where
  -- The emulator is running before each of the next `n` steps.
  abbrev pub Running : Emulator S D → ℕ → Type 0
  Running e n = (k : ℕ) → k < n → halted (stepped k e) ≡ false

  -- There is no limit, or the counter is below it after `n` steps.
  abbrev pub Below : Emulator S D → ℕ → Type 0
  Below e n = (max_steps ≡ 0) ⊎ (e.cycle_count + n < max_steps)

  -- How a run from `e` ends. The program has halted after `n` steps, all of them below the limit if
  -- there is one; or the step that reaches the limit is made, and the emulator is halted with code 1.
  pub data Ending (e : Emulator S D) (code : ℕ) (e' : Emulator S D) : Type 0 where
    by_program :
        (n : ℕ)
        → Running e n
        → halted (stepped n e) ≡ true
        → Below e n
        → code ≡ exit_code (stepped n e)
        → e' ≡ stepped n e
        → Ending e code e'
    by_limit :
        (n : ℕ)
        → Running e n
        → 0 < n
        → e.cycle_count + n ≡ max_steps
        → code ≡ 1
        → e' ≡ halt (stepped n e) 1
        → Ending e code e'

  -- A run without a limit, or with one below 2^64 that is not reached yet.
  abbrev pub Starts : Emulator S D → Type 0
  Starts e = (max_steps ≡ 0) ⊎ ((e.cycle_count < max_steps) × (max_steps < 2 ^ 64))

  Running-suc :
      (e : Emulator S D) (n : ℕ)
      → halted e ≡ false
      → Running (emulator_step e).1 n
      → Running e (suc n)
  Running-suc e n h r zero b = h
  Running-suc e n h r (suc k) b = r k (omega arith)

  Running-step : (e : Emulator S D) (n : ℕ) → Running e (suc n) → Running (emulator_step e).1 n
  Running-step e n r k b = r (suc k) (omega arith)

  -- Below the limit, a step that leaves the counter below it is followed by the rest of the run.
  goes_on :
      (e : Emulator S D)
      → halted e ≡ false
      → Starts e
      → Below e 1
      → (limit_reached (emulator_step e).1 max_steps ≡ false) × Starts (emulator_step e).1
  goes_on e h s (inl z) = (ground arith, inl z)
  goes_on e h (inl z) (inr b) = absurd (omega arith)
  goes_on e h (inr (b, w)) (inr b') =
      let c = emulator_step-cycle_count e h (omega arith) in
      (ground (arith, c), inr (omega (arith, c), w))

  Below-step :
      (e : Emulator S D) (n : ℕ)
      → halted e ≡ false
      → Starts e
      → Below e (suc n)
      → Below (emulator_step e).1 n
  Below-step e n h s (inl z) = inl z
  Below-step e n h (inl z) (inr b) = inl z
  Below-step e n h (inr (b, w)) (inr b') =
      inr (omega (arith, emulator_step-cycle_count e h (omega arith)))

  Below-one : (e : Emulator S D) (n : ℕ) → Below e (suc n) → Below e 1
  Below-one e n (inl z) = inl z
  Below-one e n (inr b) = inr (omega arith)

  program_run :
      (n : ℕ) (e : Emulator S D)
      → Starts e
      → Running e n
      → halted (stepped n e) ≡ true
      → Below e n
      → emulator_run (suc n) e max_steps ≡ some (exit_code (stepped n e), stepped n e)
  unfolding emulator_run
  program_run zero e s r d b = if-true _ d
  program_run (suc n) e s r d b =
      let h = r 0 (omega arith) in
      let (l, s') = goes_on e h s (Below-one e n b) in
      if-false _ h
      ∙ (if-false _ l
          ∙ program_run n (emulator_step e).1 s' (Running-step e n r) d (Below-step e n h s b))

  limit_run :
      (n : ℕ) (e : Emulator S D)
      → e.cycle_count < max_steps
      → max_steps < 2 ^ 64
      → Running e (suc n)
      → e.cycle_count + suc n ≡ max_steps
      → emulator_run (suc n) e max_steps ≡ some (1, halt (stepped (suc n) e) 1)
  unfolding emulator_run
  limit_run zero e b w r c =
      let h = r 0 (omega arith) in
      let count = emulator_step-cycle_count e h (omega arith) in
      if-false _ h
      ∙ if-true {b = limit_reached (emulator_step e).1 max_steps} _ (ground (arith, count))
  limit_run (suc n) e b w r c =
      let h = r 0 (omega arith) in
      let count = emulator_step-cycle_count e h (omega arith) in
      let (l, s') = goes_on e h (inr (b, w)) (inr (omega arith)) in
      if-false _ h
      ∙ (if-false _ l
          ∙ limit_run n (emulator_step e).1 (omega arith) w (Running-step e (suc n) r)
              (omega arith))

  Below-suc :
      (e : Emulator S D) (n : ℕ)
      → halted e ≡ false
      → Starts e
      → Below (emulator_step e).1 n
      → Below e (suc n)
  Below-suc e n h s (inl z) = inl z
  Below-suc e n h (inl z) (inr b) = inl z
  Below-suc e n h (inr (b, w)) (inr b') =
      inr (omega (arith, emulator_step-cycle_count e h (omega arith)))

  both :
      {code code' : ℕ} {e e' : Emulator S D}
      → code ≡ code'
      → e ≡ e'
      → ◌≡◌ {A = ℕ × Emulator S D} (code, e) (code', e')
  both c q = cc

  -- The outcome of a step and of the rest of the run.
  Ending-suc :
      (e e' : Emulator S D) (code : ℕ)
      → halted e ≡ false
      → Starts e
      → Ending (emulator_step e).1 code e'
      → Ending e code e'
  Ending-suc e e' code h s (by_program n r d b c q) =
      by_program (suc n) (Running-suc e n h r) d (Below-suc e n h s b) c q
  Ending-suc e e' code h (inl z) (by_limit n r p t c q) = absurd (omega arith)
  Ending-suc e e' code h (inr (b, w)) (by_limit n r p t c q) =
      let count = emulator_step-cycle_count e h (omega arith) in
      by_limit (suc n) (Running-suc e n h r) (omega arith) (omega arith) c q

  -- The step that reaches the limit.
  Ending-limit :
      (e : Emulator S D)
      → halted e ≡ false
      → Starts e
      → limit_reached (emulator_step e).1 max_steps ≡ true
      → Ending e 1 (halt (emulator_step e).1 1)
  Ending-limit e h (inl z) l = absurd (ground arith)
  Ending-limit e h (inr (b, w)) l =
      let count = emulator_step-cycle_count e h (omega arith) in
      by_limit 1 (λ k j. rw (first k j) h) (omega arith) (ground (arith, count)) refl refl
    where
      first : (k : ℕ) → k < 1 → k ≡ 0
      first k j = omega arith

  limit_false :
      (e : Emulator S D)
      → limit_reached (emulator_step e).1 max_steps ≡ false
      → halted e ≡ false
      → Starts e
      → Below e 1
  limit_false e l h (inl z) = inl z
  limit_false e l h (inr (b, w)) =
      let count = emulator_step-cycle_count e h (omega arith) in inr (ground (arith, count))

  -- A result is an outcome; running out of fuel says nothing.
  abbrev Sound : Emulator S D → Option (ℕ × Emulator S D) → Type 0
  Sound e none = Unit
  Sound e (some (code, e')) = Ending e code e'

  Sound-suc :
      (e : Emulator S D) (o : Option (ℕ × Emulator S D))
      → halted e ≡ false
      → Starts e
      → Sound (emulator_step e).1 o
      → Sound e o
  Sound-suc e none h s d = tt
  Sound-suc e (some (code, e')) h s d = Ending-suc e e' code h s d

  Below-zero : (e : Emulator S D) → Starts e → Below e 0
  Below-zero e (inl z) = inl z
  Below-zero e (inr (b, w)) = inr (omega arith)

  emulator_run-Sound :
      (fuel : ℕ) (e : Emulator S D) → Starts e → Sound e (emulator_run fuel e max_steps)
  unfolding emulator_run
  emulator_run-Sound zero e s = tt
  emulator_run-Sound (suc fuel) e s =
      let e' = (emulator_step e).1 in
      if-elim (Sound e) (halted e)
        (λ h. by_program 0 (λ k b. absurd (omega arith)) h (Below-zero e s) refl refl)
        (λ h. if-elim (Sound e) (limit_reached e' max_steps) (Ending-limit e h s) (λ l.
          let (l', s') = goes_on e h s (limit_false e l h s) in
          Sound-suc e (emulator_run fuel e' max_steps) h s (emulator_run-Sound fuel e' s')))

  Ending-emulator_run :
      (e e' : Emulator S D) (code : ℕ)
      → Starts e
      → Ending e code e'
      → (fuel : ℕ) × (emulator_run fuel e max_steps ≡ some (code, e'))
  Ending-emulator_run e e' code s (by_program n r d b c q) =
      (suc n, program_run n e s r d b ∙ ap some (sym (both c q)))
  Ending-emulator_run e e' code s (by_limit zero r p t c q) = absurd (omega arith)
  Ending-emulator_run e e' code (inl z) (by_limit (suc n) r p t c q) = absurd (omega arith)
  Ending-emulator_run e e' code (inr (b, w)) (by_limit (suc n) r p t c q) =
      (suc n, limit_run n e b w r t ∙ ap some (sym (both c q)))

  -- From an emulator without a step limit, or with one below 2^64 that its cycle counter is
  -- below, a run gives a result on some amount of fuel exactly if it is the outcome that the
  -- steps determine: the program halts for the first time after n steps, the counter being below
  -- the limit then, and the result is that emulator with its exit code; or none of the steps up
  -- to the one that makes the counter the limit starts halted, and the result is code 1 and the
  -- emulator after that step, halted with code 1.
  pub emulator_run-Ending_iff :
      (e e' : Emulator S D) (code : ℕ)
      → Starts e
      → ((fuel : ℕ) × (emulator_run fuel e max_steps ≡ some (code, e'))) ↔ Ending e code e'
  emulator_run-Ending_iff e e' code s =
      (λ (fuel, r). rw r at (emulator_run-Sound fuel e s), Ending-emulator_run e e' code s)
