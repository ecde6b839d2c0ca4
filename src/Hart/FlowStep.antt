-- ===== src/Hart/FlowStep.antt =====
-- A step of src/hart.c over a jump or a branch, from the fetch to the commit.
use rve.Base.{ℕ, ◌≡◌, refl, true, false, some, arith, ◌&&◌, if◌then◌else◌, if-elim}
use rve.Word.{add32}
use rve.Bus.{Bus, bus_read}
use rve.Decoder.Decode.{rve_decode_instruction}
use rve.Hart.Types.{Hart}
use rve.Hart.Access.{Locals, misaligned}
use rve.Hart.Step.{locals, run_word, hart_step}
use rve.Hart.Flow.{Flow, condition, target, link, Arrives, execute-Arrives}

run_word-Arrives :
    (hart : Hart) (bus : Bus) (w : ℕ)
    → hart.gpr 0 ≡ 0
    → (rve_decode_instruction w).valid ≡ true
    → Flow (rve_decode_instruction w).op
    → let di = rve_decode_instruction w in
      let taken = condition di.op (hart.gpr di.rs1) (hart.gpr di.rs2) in
      let to = target di.op di hart in
      Arrives hart
        (link di.op di hart)
        (taken && misaligned to)
        to
        (if taken then to else add32 hart.pc 4)
        bus
        (run_word (locals hart bus) w)
unfolding run_word
run_word-Arrives hart bus w z v f =
    let di = rve_decode_instruction w in
    let r = (locals hart bus).r in
    let s = locals hart bus in
    let s' : Locals = record s { r = record r { instruction = w; di = di } } in
    let taken = condition di.op (hart.gpr di.rs1) (hart.gpr di.rs2) in
    let to = target di.op di hart in
    if-elim
      (Arrives hart (link di.op di hart) (taken && misaligned to) to
        (if taken then to else add32 hart.pc 4) bus)
      di.valid (λ b. execute-Arrives di s' z refl refl di.op f) (λ b. absurd (ground arith))

-- Where x0 is zero and a step fetches a word, its PC aligned, that decodes to a valid jump or
-- branch, the PC becomes the target if the jump or the integers in the two registers take it, and
-- else the next instruction; a jump links, and x0 is zero. If the target is taken and misaligned,
-- the step enters the handler from the state before it instead, with the target as its trap
-- value. The bus is as the fetch left it.
pub hart_step-Arrives :
    (hart : Hart) (bus : Bus) (w : ℕ)
    → hart.gpr 0 ≡ 0
    → misaligned hart.pc ≡ false
    → (bus_read bus hart.pc 32).0 ≡ some w
    → (rve_decode_instruction w).valid ≡ true
    → Flow (rve_decode_instruction w).op
    → let di = rve_decode_instruction w in
      let taken = condition di.op (hart.gpr di.rs1) (hart.gpr di.rs2) in
      let to = target di.op di hart in
      Arrives hart
        (link di.op di hart)
        (taken && misaligned to)
        to
        (if taken then to else add32 hart.pc 4)
        (bus_read bus hart.pc 32).1
        (hart_step hart bus)
unfolding hart_step
hart_step-Arrives hart bus w z a e v f =
    rw a (rw e (run_word-Arrives hart (bus_read bus hart.pc 32).1 w z v f))
