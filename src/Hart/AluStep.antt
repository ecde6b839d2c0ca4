-- ===== src/Hart/AluStep.antt =====
-- A step of src/hart.c over an arithmetic instruction, from the fetch to the commit.
use rve.Base.{ℕ, ◌≡◌, refl, true, false, none, some, arith, if-elim}
use rve.Word.{IsWord, add32, to_u32}
use rve.Bus.{Bus, bus_read}
use rve.Bus.Wired.{bus_read-ReadOk}
use rve.Decoder.Types.{Op}
use rve.Decoder.Decode.{rve_decode_instruction}
use rve.Hart.Types.{Hart, Retire, set_gpr}
use rve.Hart.Access.{Locals, misaligned}
use rve.Hart.Execute.{write_rd}
use rve.Hart.Step.{locals, commit, commit_clean, run_word, hart_step}
use rve.Decoder.Words.{decode-WordFields}
use rve.Hart.Machine.{Machine}
use rve.Hart.Manual.{manual}
use rve.Hart.Alu.{Operand, operand, Alu, execute-Manual}

-- The hart with a value in a register, zero in x0, and the next PC.
abbrev pub advance : Hart → ℕ → ℕ → Hart
advance hart rd value =
    let hart' = set_gpr (set_gpr hart rd value) 0 0 in record hart' { pc = add32 hart.pc 4 }

-- A step that does this to the hart, reports no trap and leaves the given bus.
pub record Advances (hart : Hart) (bus : Bus) (rd value : ℕ) (x : Retire × Hart × Bus)
    : Type 0 where
  pub result : x.1 ≡ advance hart rd value
  pub kept : x.2 ≡ bus
  pub trap : x.0.trap ≡ none

operand-IsWord :
    (hart : Hart) (w : ℕ) (k : Operand)
    → ((j : ℕ) → IsWord (hart.gpr j))
    → IsWord w
    → IsWord (operand k (rve_decode_instruction w) hart.gpr)
unfolding operand
operand-IsWord hart w Operand.register g h = g _
operand-IsWord hart w Operand.immediate g h = ground arith
operand-IsWord hart w Operand.shift_amount g h = (decode-WordFields w h).imm

run_word-Manual :
    (hart : Hart) (bus : Bus) (w : ℕ) (code : Op) (k : Operand)
    → ((j : ℕ) → IsWord (hart.gpr j))
    → IsWord w
    → (rve_decode_instruction w).valid ≡ true
    → Alu (rve_decode_instruction w).op code k
    → let di = rve_decode_instruction w in
      Advances hart bus di.rd
        (to_u32 (manual code (hart.gpr di.rs1) (operand k di hart.gpr)))
        (run_word (locals hart bus) w)
unfolding run_word commit commit_clean
run_word-Manual hart bus w code k g h v f =
    let di = rve_decode_instruction w in
    let r = (locals hart bus).r in
    let s = locals hart bus in
    let s' : Locals = record s { r = record r { instruction = w; di = di } } in
    let v' = to_u32 (manual code (hart.gpr di.rs1) (operand k di hart.gpr)) in
    let x : Advances hart bus di.rd v' (commit (write_rd s' di v') di) = record {
      result = refl;
      kept = refl;
      trap = ground arith;
    } in
    if-elim (Advances hart bus di.rd v') di.valid
      (λ b. rw (execute-Manual di s' (g _) di.op code k f (operand-IsWord hart w k g h)) x)
      (λ b. absurd (ground arith))

-- Where a step of a machine that meets the invariant fetches a word, its PC aligned, that decodes
-- to a valid arithmetic instruction, it leaves no trap and the bus as the fetch left it, the
-- 32-bit pattern of the result that the manual defines on integers in the destination register,
-- zero in x0, the PC four on, and nothing else of the hart changed.
pub hart_step-Manual :
    (hart : Hart) (bus : Bus) (w : ℕ) (code : Op) (k : Operand)
    → Machine hart bus
    → misaligned hart.pc ≡ false
    → (bus_read bus hart.pc 32).0 ≡ some w
    → (rve_decode_instruction w).valid ≡ true
    → Alu (rve_decode_instruction w).op code k
    → let di = rve_decode_instruction w in
      Advances hart
        (bus_read bus hart.pc 32).1
        di.rd
        (to_u32 (manual code (hart.gpr di.rs1) (operand k di hart.gpr)))
        (hart_step hart bus)
unfolding hart_step
hart_step-Manual hart bus w code k m a e v f =
    let word = (bus_read-ReadOk bus hart.pc 32 m.wired (omega arith)).word w e in
    rw a (rw e (run_word-Manual hart (bus_read bus hart.pc 32).1 w code k m.words.gpr word v f))
