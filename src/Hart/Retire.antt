-- ===== src/Hart/Retire.antt =====
-- The retirement record of `hart_step` against the register file and the PC (src/hart.c).
use rve.Base.{
  ℕ, ◌≡◌, refl, ap, ◌∙◌, false, not, ◌&&◌, none, some, ◌==◌, if◌then◌else◌, arith, Bool-cases,
  Option-cases, if-elim, inl, inr,
}
use rve.Bus.{Bus, bus_read}
use rve.Decoder.Types.{DecodedInstruction, zeroed}
use rve.Decoder.Decode.{rve_decode_instruction}
use rve.Hart.Types.{Hart, Retire, ecall_m, illegal_instr}
use rve.Hart.Access.{Locals, misaligned}
use rve.Hart.Execute.{execute}
use rve.Hart.Step.{
  locals, has_rd, commit, commit_fault, commit_clean, run_word, fetch_fault, hart_step,
}
use rve.Hart.Trap.{commit_trap}
use rve.Hart.Frame.{execute_frame, execute_keeps, execute_trapped}
use rve.Hart.Untouched.{decode_no_rd, execute-Untouched}

-- What a step tells by its record.
pub record Explains (hart : Hart) (r : Retire) (hart' : Hart) : Type 0 where
  pub pc : r.pc ≡ hart.pc
  pub next_pc : r.next_pc ≡ hart'.pc
  pub x0 : hart'.gpr 0 ≡ 0
  pub registers :
      (j : ℕ) → hart'.gpr j ≡ (if r.rd_written && r.rd == j then r.rd_value else hart.gpr j)

-- The registers that an execution before the commit can have changed.
Kept : Hart → Locals → DecodedInstruction → Type 0
Kept hart s di =
    (j : ℕ)
    → (0 == j) ≡ false
    → (not (di.rd == 0) && has_rd di.format && di.rd == j) ≡ false
    → s.hart.gpr j ≡ hart.gpr j

commit_clean-Explains :
    (hart : Hart) (s : Locals) (di : DecodedInstruction)
    → hart.gpr 0 ≡ 0
    → s.r.pc ≡ hart.pc
    → s.r.rd_written ≡ false
    → Kept hart s di
    → let (r, hart', bus') = commit_clean s di in Explains hart r hart'
unfolding commit_clean Kept
commit_clean-Explains hart s di z p w k = record {
  pc = ground arith;
  next_pc = refl;
  x0 = refl;
  registers = λ j. let kj = k j in ground arith;
}

commit_fault-Explains :
    (hart : Hart) (s : Locals) (c : ℕ)
    → hart.gpr 0 ≡ 0
    → s.r.pc ≡ hart.pc
    → s.r.rd_written ≡ false
    → ((j : ℕ) → s.hart.gpr j ≡ hart.gpr j)
    → let (r, hart', bus') = commit_fault s c in Explains hart r hart'
unfolding commit_fault commit_trap
commit_fault-Explains hart s c z p w k = record {
  pc = p;
  next_pc = refl;
  x0 = refl;
  registers = λ j. let kj = k j in ground arith;
}

-- What the commit needs of the state that an instruction leaves.
record Executed (hart : Hart) (s : Locals) (di : DecodedInstruction) : Type 0 where
  pub pc : s.r.pc ≡ hart.pc
  pub rd_written : s.r.rd_written ≡ false
  pub ecall_next : s.pending_trap ≡ some ecall_m → s.r.next_pc ≡ s.hart.pc
  pub trapped : (c : ℕ) → s.pending_trap ≡ some c → (j : ℕ) → s.hart.gpr j ≡ hart.gpr j
  pub kept : Kept hart s di

commit-Explains :
    (hart : Hart) (s : Locals) (di : DecodedInstruction)
    → hart.gpr 0 ≡ 0
    → Executed hart s di
    → let (r, hart', bus') = commit s di in Explains hart r hart'
unfolding commit
commit-Explains hart s di z x = elim (Option-cases s.pending_trap) [
  | inl e ↦ rw e (commit_clean-Explains hart s di z x.pc x.rd_written x.kept)
  | inr (c, e) ↦ elim (Bool-cases (c == ecall_m)) [
    | inl b ↦ rw e (
        rw b (record {
          pc = x.pc;
          next_pc = x.ecall_next (ground arith);
          x0 = x.trapped c e 0 ∙ z;
          registers = λ j. let tj = x.trapped c e j in let w = x.rd_written in ground arith;
        }))
    | inr b ↦ rw e (rw b (commit_fault-Explains hart s c z x.pc x.rd_written (x.trapped c e)))
  ]
]

execute-Executed :
    (hart : Hart) (s : Locals) (w : ℕ)
    → hart.gpr 0 ≡ 0
    → s.hart ≡ hart
    → s.r.pc ≡ hart.pc
    → s.r.rd_written ≡ false
    → s.pending_trap ≡ none
    → Executed hart
        (execute (rve_decode_instruction w).op (rve_decode_instruction w) s)
        (rve_decode_instruction w)
unfolding Kept
execute-Executed hart s w z h p v n =
    let di = rve_decode_instruction w in
    let u = execute-Untouched di.op di s n in
    record {
      pc = u.pc ∙ p;
      rd_written = u.rd_written ∙ v;
      ecall_next = u.ecall_next;
      trapped = λ c t j.
          execute_trapped di.op di s c j (ap (λ x. x.gpr 0) h ∙ z) n t ∙ ap (λ x. x.gpr j) h;
      kept = λ j z' b. elim (Bool-cases (di.rd == j)) [
        | inl e ↦ execute_keeps di.op di s j (decode_no_rd w (ground arith)) ∙ ap (λ x. x.gpr j) h
        | inr e ↦ execute_frame di.op di s j (ap (λ x. x.gpr 0) h ∙ z) e ∙ ap (λ x. x.gpr j) h
      ];
    }

-- A trap before the execution.
idle-Executed :
    (s : Locals) (di : DecodedInstruction) (c : ℕ)
    → s.pending_trap ≡ some c
    → (c == ecall_m) ≡ false
    → s.r.pc ≡ s.hart.pc
    → s.r.rd_written ≡ false
    → Executed s.hart s di
unfolding Kept
idle-Executed s di c t e p v = record {
  pc = p;
  rd_written = v;
  ecall_next = λ t'. ground arith;
  trapped = λ c' t' j. refl;
  kept = λ j z b. refl;
}

run_word-Explains :
    (s : Locals) (w : ℕ)
    → s.hart.gpr 0 ≡ 0
    → s.r.pc ≡ s.hart.pc
    → s.r.rd_written ≡ false
    → s.pending_trap ≡ none
    → let (r, hart', bus') = run_word s w in Explains s.hart r hart'
unfolding run_word
run_word-Explains s w z p v n =
    let di = rve_decode_instruction w in
    let r = s.r in
    let s' : Locals = record s { r = record r { instruction = w; di = di } } in
    let s'' : Locals = record s' { pending_trap = some illegal_instr } in
    if-elim (λ (x : Retire × Hart × Bus). Explains s.hart x.0 x.1) di.valid
      (λ e. commit-Explains s.hart _ di z (execute-Executed s.hart s' w z refl p v n))
      (λ e. commit-Explains s.hart s'' di z (idle-Executed s'' di illegal_instr refl refl p v))

fetch_fault-Explains :
    (s : Locals) (c : ℕ)
    → (c == ecall_m) ≡ false
    → s.hart.gpr 0 ≡ 0
    → s.r.pc ≡ s.hart.pc
    → s.r.rd_written ≡ false
    → let (r, hart', bus') = fetch_fault s c in Explains s.hart r hart'
unfolding fetch_fault
fetch_fault-Explains s c e z p v =
    let s' : Locals = record s { bad_pc = s.hart.pc; pending_trap = some c } in
    commit-Explains s.hart s' zeroed z (idle-Executed s' zeroed c refl e p v)

-- If x0 is zero before a step, the retirement record explains the step on every path, traps and
-- ECALL included: its PC and next PC are the hart's before and after, x0 is zero again, and each
-- register holds the recorded value if the record names it as written, else what it held before.
pub hart_step-Explains :
    (hart : Hart) (bus : Bus)
    → hart.gpr 0 ≡ 0
    → let (r, hart', bus') = hart_step hart bus in Explains hart r hart'
unfolding hart_step
hart_step-Explains hart bus z = elim (Bool-cases (misaligned hart.pc)) [
  | inl e ↦ rw e (fetch_fault-Explains (locals hart bus) 0 refl z refl refl)
  | inr e ↦ elim (Option-cases (bus_read bus hart.pc 32).0) [
    | inl f ↦
        rw e
          (rw f (fetch_fault-Explains (locals hart (bus_read bus hart.pc 32).1) 1 refl z refl refl))
    | inr (w, f) ↦
        rw e (rw f (run_word-Explains (locals hart (bus_read bus hart.pc 32).1) w z refl refl refl))
  ]
]
