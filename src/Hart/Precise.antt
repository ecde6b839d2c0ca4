-- ===== src/Hart/Precise.antt =====
-- A step that traps, against `hart_take_trap` (src/hart.c).
use rve.Base.{
  ℕ, ◌≡◌, ◌≢◌, refl, ap, ◌∙◌, fun_ext, true, false, none, some, ◌==◌, if◌then◌else◌, arith,
  Bool-cases, Option-cases, if-elim, inl, inr,
}
use rve.Bus.{Bus, bus_read}
use rve.Decoder.Types.{Op, DecodedInstruction, zeroed}
use rve.Decoder.Decode.{rve_decode_instruction}
use rve.Hart.Types.{
  Hart, Retire, ecall_m, illegal_instr, instr_misaligned, instr_access_fault, load_access_fault,
  store_access_fault,
}
use rve.Hart.Access.{Locals, misaligned}
use rve.Hart.Execute.{execute}
use rve.Hart.Step.{locals, commit, commit_fault, commit_clean, run_word, fetch_fault, hart_step}
use rve.Hart.Trap.{commit_trap, hart_take_trap, trap_tval}
use rve.Hart.Frame.{execute_precise}
use rve.Hart.Refused.{early_trap, execute-Refused, execute-trap}

-- What the commit of a trap needs.
record Faulted (hart : Hart) (s : Locals) (c : ℕ) : Type 0 where
  pub same : s.hart ≡ hart
  pub mem_addr : s.mem_addr ≡ 0
  pub fetch : c ≡ instr_access_fault → s.bad_pc ≡ hart.pc
  pub bad_pc : c ≡ instr_misaligned → misaligned s.bad_pc ≡ true

-- A retirement that traps for `c` has entered the handler from the state before the step.
pub record TakesTrap (hart : Hart) (c : ℕ) (r : Retire) (hart' : Hart) : Type 0 where
  pub precise : hart' ≡ hart_take_trap hart c hart'.csr.mtval
  pub fetch : c ≡ instr_access_fault → hart'.csr.mtval ≡ hart.pc
  pub illegal : c ≡ illegal_instr → hart'.csr.mtval ≡ r.instruction
  pub target : c ≡ instr_misaligned → misaligned hart'.csr.mtval ≡ true
  pub load : c ≡ load_access_fault → hart'.csr.mtval ≡ 0
  pub store : c ≡ store_access_fault → hart'.csr.mtval ≡ 0

-- Storing zero in x0 does nothing when it holds zero.
set_zero : (g : ℕ → ℕ) → g 0 ≡ 0 → (λ (j : ℕ). if 0 == j then 0 else g j) ≡ g
set_zero g z = fun_ext (λ j. ground arith)

pub take_trap :
    (hart : Hart) (c tval : ℕ)
    → hart.gpr 0 ≡ 0
    → (let (hart', next) = commit_trap hart c tval in
        record hart' { gpr = λ (j : ℕ). if 0 == j then 0 else hart'.gpr j; pc = next })
      ≡ hart_take_trap hart c tval
unfolding commit_trap hart_take_trap
take_trap hart c tval z =
    ap (λ g. hart_take_trap (record hart { gpr = g }) c tval) (set_zero hart.gpr z)

commit_fault-TakesTrap :
    (hart : Hart) (s : Locals) (c : ℕ)
    → hart.gpr 0 ≡ 0
    → Faulted hart s c
    → let (r, hart', bus') = commit_fault s c in TakesTrap hart c r hart'
unfolding commit_fault trap_tval commit_trap
commit_fault-TakesTrap hart s c z x =
    let h = x.same in
    let a = x.mem_addr in
    record {
      precise =
          take_trap s.hart c _ (ap (λ x'. x'.gpr 0) h ∙ z)
          ∙ ap (λ x'. hart_take_trap x' c (commit_fault s c).1.csr.mtval) h;
      fetch = λ e. ground (arith, x.fetch);
      illegal = λ e. ground arith;
      target = λ e. ground (arith, x.bad_pc);
      load = λ e. ground arith;
      store = λ e. ground arith;
    }

commit-TakesTrap :
    (hart : Hart) (s : Locals) (di : DecodedInstruction) (c : ℕ)
    → hart.gpr 0 ≡ 0
    → s.pending_trap ≡ some c
    → (c == ecall_m) ≡ false
    → Faulted hart s c
    → let (r, hart', bus') = commit s di in TakesTrap hart c r hart'
unfolding commit
commit-TakesTrap hart s di c z p e x = rw p (rw e (commit_fault-TakesTrap hart s c z x))

-- The trap that a step reports, but for ECALL, was pending at the commit.
commit-trap :
    (s : Locals) (di : DecodedInstruction) (c : ℕ)
    → (commit s di).0.trap ≡ some c
    → s.r.trap ≡ early_trap s.pending_trap
    → c ≢ ecall_m
    → s.pending_trap ≡ some c
unfolding commit commit_clean commit_fault
commit-trap s di c t n e = ground arith

-- A commit that reports a trap other than ECALL, from a state where that trap was refused.
commit_refused-TakesTrap :
    (hart : Hart) (s : Locals) (di : DecodedInstruction) (c : ℕ)
    → hart.gpr 0 ≡ 0
    → s.r.trap ≡ early_trap s.pending_trap
    → ((d : ℕ) → s.pending_trap ≡ some d → d ≢ ecall_m → Faulted hart s d)
    → c ≢ ecall_m
    → (commit s di).0.trap ≡ some c
    → TakesTrap hart c (commit s di).0 (commit s di).1
commit_refused-TakesTrap hart s di c z n f e t =
    let p = commit-trap s di c t n e in commit-TakesTrap hart s di c z p (ground arith) (f c p e)

execute-Faulted :
    (op : Op) (di : DecodedInstruction) (s : Locals) (c : ℕ)
    → s.pending_trap ≡ none
    → s.mem_addr ≡ 0
    → (execute op di s).pending_trap ≡ some c
    → c ≢ ecall_m
    → Faulted s.hart (execute op di s) c
execute-Faulted op di s c p m t e =
    let x = execute-Refused op di s c p t in
    record {
      same = execute_precise op di s c p t e;
      mem_addr = x.mem_addr ∙ m;
      fetch = λ f. absurd (x.cause f);
      bad_pc = x.bad_pc;
    }

run_word-TakesTrap :
    (s : Locals) (w c : ℕ)
    → s.hart.gpr 0 ≡ 0
    → s.pending_trap ≡ none
    → s.mem_addr ≡ 0
    → s.r.trap ≡ none
    → c ≢ ecall_m
    → (run_word s w).0.trap ≡ some c
    → TakesTrap s.hart c (run_word s w).0 (run_word s w).1
unfolding run_word
run_word-TakesTrap s w c z p m n e =
    let di = rve_decode_instruction w in
    let r = s.r in
    let s' : Locals = record s { r = record r { instruction = w; di = di } } in
    let s'' : Locals = record s' { pending_trap = some illegal_instr } in
    if-elim (λ (x : Retire × Hart × Bus). x.0.trap ≡ some c → TakesTrap s.hart c x.0 x.1) di.valid
      (λ v.
        commit_refused-TakesTrap s.hart (execute di.op di s') di c z (execute-trap di.op di s' p n)
          (λ d q. execute-Faulted di.op di s' d p m q) e)
      (λ v.
        commit_refused-TakesTrap s.hart s'' di c z n
          (λ d q u. record {
            same = refl;
            mem_addr = m;
            fetch = λ f. ground arith;
            bad_pc = λ f. ground arith;
          })
          e)

fetch_fault-TakesTrap :
    (s : Locals) (d c : ℕ)
    → s.hart.gpr 0 ≡ 0
    → s.mem_addr ≡ 0
    → s.r.trap ≡ none
    → (d == ecall_m) ≡ false
    → (d ≡ instr_misaligned → misaligned s.hart.pc ≡ true)
    → c ≢ ecall_m
    → (fetch_fault s d).0.trap ≡ some c
    → TakesTrap s.hart c (fetch_fault s d).0 (fetch_fault s d).1
unfolding fetch_fault
fetch_fault-TakesTrap s d c z m n b k e =
    let s' : Locals = record s { bad_pc = s.hart.pc; pending_trap = some d } in
    commit_refused-TakesTrap s.hart s' zeroed c z (ground arith)
      (λ d' q u. record {
        same = refl;
        mem_addr = m;
        fetch = λ f. refl;
        bad_pc = λ f. ground (arith, k);
      })
      e

-- If x0 is zero and a step reports a trap other than ECALL, the hart after it is the hart before
-- it with `hart_take_trap` applied for that cause: nothing else of the instruction remains. The
-- trap value is the PC for a fetch fault, the word for an illegal instruction, a misaligned
-- address for a misaligned target, and 0 for a load or store fault.
pub hart_step-TakesTrap :
    (hart : Hart) (bus : Bus) (c : ℕ)
    → hart.gpr 0 ≡ 0
    → (hart_step hart bus).0.trap ≡ some c
    → c ≢ ecall_m
    → let (r, hart', bus') = hart_step hart bus in TakesTrap hart c r hart'
unfolding hart_step
hart_step-TakesTrap hart bus c z t e = elim (Bool-cases (misaligned hart.pc)) [
  | inl g ↦
      rw g (fetch_fault-TakesTrap (locals hart bus) 0 c z refl refl refl (λ k. g) e (rw g at t))
  | inr g ↦
      let bus' = (bus_read bus hart.pc 32).1 in
      elim (Option-cases (bus_read bus hart.pc 32).0) [
        | inl f ↦ rw g (
            rw f (
              fetch_fault-TakesTrap (locals hart bus') 1 c z refl refl refl (λ k. ground arith) e
                (rw (g, f) at t)))
        | inr (w, f) ↦
            rw g
              (rw f (run_word-TakesTrap (locals hart bus') w c z refl refl refl e (rw (g, f) at t)))
      ]
]
