-- ===== src/Hart/Flow.antt =====
-- The jumps and branches of src/hart.c, from the switch to the commit.
use rve.Base.{
  ℕ, ◌+◌, ◌*◌, ◌/◌, ◌%◌, ◌^◌, ◌≡◌, refl, ap, ◌∙◌, true, false, none, some, arith, Bool, Bool-cases,
  inl, inr, not, ltb, leb, ◌&&◌, if◌then◌else◌, ◌==◌, bit_and, bit_and_field,
}
use rve.Word.{add32, signed, not32, sext}
use rve.Word.Int.{ltb_ℤ}
use rve.Word.Laws.{extend, sext_12, sext_13, sext_21}
use rve.Bus.{Bus}
use rve.Decoder.Types.{Op, DecodedInstruction}
use rve.Hart.Types.{Hart, Retire, set_gpr, instr_misaligned}
use rve.Hart.Trap.{hart_take_trap, trap_tval}
use rve.Hart.Access.{Locals, misaligned, exec_branch}
use rve.Hart.Execute.{execute, exec_jump}
use rve.Hart.Step.{commit, commit_clean, commit_fault}
use rve.Hart.Precise.{take_trap}

-- The instructions that choose the next PC.
pub data Flow : Op → Type 0 where
  jal_form : Flow Op.jal
  jalr_form : Flow Op.jalr
  beq_form : Flow Op.beq
  bne_form : Flow Op.bne
  blt_form : Flow Op.blt
  bge_form : Flow Op.bge
  bltu_form : Flow Op.bltu
  bgeu_form : Flow Op.bgeu

-- Whether the target is taken, by the two registers; a jump takes it.
unfoldable pub condition : Op → ℕ → ℕ → Bool
condition Op.beq a b = a == b
condition Op.bne a b = not (a == b)
condition Op.blt a b = ltb_ℤ (signed a) (signed b)
condition Op.bge a b = not (ltb_ℤ (signed a) (signed b))
condition Op.bltu a b = ltb a b
condition Op.bgeu a b = not (ltb a b)
condition _ a b = true

unfoldable pub target : Op → DecodedInstruction → Hart → ℕ
target Op.jal di hart = (hart.pc + extend 0x10_0000 (di.imm % 0x20_0000)) % 2 ^ 32
target Op.jalr di hart = (hart.gpr di.rs1 + extend 0x800 (di.imm % 0x1000)) % 2 ^ 32 / 2 * 2
target _ di hart = (hart.pc + extend 0x1000 (di.imm % 0x2000)) % 2 ^ 32

-- A jump puts the PC of the next instruction in its destination register.
unfoldable pub link : Op → DecodedInstruction → Hart → Hart
link Op.jal di hart = set_gpr hart di.rd ((hart.pc + 4) % 2 ^ 32)
link Op.jalr di hart = set_gpr hart di.rd ((hart.pc + 4) % 2 ^ 32)
link _ di hart = hart

-- What is left: the entry to the handler of a misaligned target, or the next PC.
abbrev pub arrive : Hart → Hart → Bool → ℕ → ℕ → Hart
arrive hart linked bad target next =
    if bad
    then hart_take_trap hart instr_misaligned target
    else let hart' = set_gpr linked 0 0 in record hart' { pc = next }

pub record Arrives (hart linked : Hart) (bad : Bool) (target next : ℕ) (bus : Bus)
    (x : Retire × Hart × Bus) : Type 0 where
  pub trap : x.0.trap ≡ (if bad then some instr_misaligned else none)
  pub result : x.1 ≡ arrive hart linked bad target next
  pub kept : x.2 ≡ bus

-- The commit of a misaligned target, and of a clean retirement.
commit_fault-Arrives :
    (s : Locals) (linked : Hart) (next : ℕ)
    → s.hart.gpr 0 ≡ 0
    → Arrives s.hart linked true s.bad_pc next s.bus (commit_fault s instr_misaligned)
unfolding commit_fault trap_tval
commit_fault-Arrives s linked next z = record {
  trap = refl;
  result = take_trap s.hart instr_misaligned s.bad_pc z;
  kept = refl;
}

commit_clean-Arrives :
    (s : Locals) (di : DecodedInstruction) (hart : Hart) (target : ℕ)
    → s.r.trap ≡ none
    → Arrives hart s.hart false target s.next_pc s.bus (commit_clean s di)
unfolding commit_clean
commit_clean-Arrives s di hart target n = record { trap = ground arith; result = refl; kept = refl }

even_target :
    (a imm : ℕ)
    → bit_and (add32 a (sext imm 12)) (not32 1) ≡ (a + extend 0x800 (imm % 0x1000)) % 2 ^ 32 / 2 * 2
even_target a imm =
    let t = add32 a (extend 0x800 (imm % 0x1000)) in
    ap (λ (x : ℕ). bit_and (add32 a x) (not32 1)) (sext_12 imm)
    ∙ omega (arith, bit_and_field 1 31 t)

leb-not : (a b : ℕ) → leb b a ≡ not (ltb a b)
leb-not a b = ground arith

-- The ends of `exec_branch` and of the jumps.
module _ (s : Locals) (di : DecodedInstruction) (z : s.hart.gpr 0 ≡ 0) (n : s.r.trap ≡ none) where
  branch-Arrives :
      (taken : Bool) (target : ℕ)
      → add32 s.hart.pc (sext di.imm 13) ≡ target
      → Arrives s.hart s.hart
          (taken && misaligned target)
          target
          (if taken then target else add32 s.hart.pc 4)
          s.bus
          (commit (exec_branch s di taken) di)
  unfolding commit exec_branch
  branch-Arrives taken target t = elim (Bool-cases (taken && misaligned target)) [
    | inl e ↦ rw t (
        rw e (
          commit_fault-Arrives (record s { bad_pc = target; pending_trap = some instr_misaligned })
            s.hart _ z))
    | inr e ↦ rw t (
        rw e (
          commit_clean-Arrives
            (record s {
              next_pc = if taken then target else add32 s.hart.pc 4;
              pending_trap = none;
            })
            di s.hart target n))
  ]

  jump-Arrives :
      (target : ℕ)
      → s.pending_trap ≡ none
      → let linked = set_gpr s.hart di.rd (add32 s.hart.pc 4) in
        Arrives s.hart linked
          (misaligned target)
          target
          target
          s.bus
          (commit (exec_jump s di target) di)
  unfolding commit exec_jump
  jump-Arrives target p = elim (Bool-cases (misaligned target)) [
    | inl e ↦ rw e (
        commit_fault-Arrives (record s { bad_pc = target; pending_trap = some instr_misaligned }) _
          _ z)
    | inr e ↦ rw e (
        rw p (
          commit_clean-Arrives
            (record s { hart = set_gpr s.hart di.rd (add32 s.hart.pc 4); next_pc = target }) di
            s.hart target n))
  ]

-- Every instruction that chooses the next PC, with the commit after it.
module _ (di : DecodedInstruction) (s : Locals) (z : s.hart.gpr 0 ≡ 0) (n : s.r.trap ≡ none)
    (p : s.pending_trap ≡ none) where
  pub execute-Arrives :
      (op : Op)
      → Flow op
      → let taken = condition op (s.hart.gpr di.rs1) (s.hart.gpr di.rs2) in
        let to = target op di s.hart in
        Arrives s.hart
          (link op di s.hart)
          (taken && misaligned to)
          to
          (if taken then to else add32 s.hart.pc 4)
          s.bus
          (commit (execute op di s) di)
  unfolding execute condition target link
  execute-Arrives _ jal_form =
      rw (ap (add32 s.hart.pc) (sext_21 di.imm)) (jump-Arrives s di z n _ p)
  execute-Arrives _ jalr_form =
      rw (even_target (s.hart.gpr di.rs1) di.imm) (jump-Arrives s di z n _ p)
  execute-Arrives _ beq_form = branch-Arrives s di z n _ _ (ap (add32 s.hart.pc) (sext_13 di.imm))
  execute-Arrives _ bne_form = branch-Arrives s di z n _ _ (ap (add32 s.hart.pc) (sext_13 di.imm))
  execute-Arrives _ blt_form = branch-Arrives s di z n _ _ (ap (add32 s.hart.pc) (sext_13 di.imm))
  execute-Arrives _ bge_form = branch-Arrives s di z n _ _ (ap (add32 s.hart.pc) (sext_13 di.imm))
  execute-Arrives _ bltu_form = branch-Arrives s di z n _ _ (ap (add32 s.hart.pc) (sext_13 di.imm))
  execute-Arrives _ bgeu_form =
      rw (leb-not (s.hart.gpr di.rs1) (s.hart.gpr di.rs2))
        (branch-Arrives s di z n _ _ (ap (add32 s.hart.pc) (sext_13 di.imm)))
