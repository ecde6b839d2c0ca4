-- ===== src/Hart/Csr/Access.antt =====
-- The CSR instructions (src/hart.c): what an access reads and changes.
use rve.Base.{
  ℕ, zero, suc, ◌-◌, ◌/◌, ◌^◌, ◌≡◌, ◌≢◌, ◌<◌, refl, ap, ◌∙◌, arith, Bool, none, ◌==◌, if◌then◌else◌,
  Bool-cases, if-true, if-false, sym, inl, inr, bit_at, bit_at-and, bit_at-or, min, max,
}
use native.Mathlib.Nat.{pow-suc, one-le-pow}
use rve.Word.{not32}
use rve.Decoder.Types.{DecodedInstruction}
use rve.Hart.Types.{Hart, CsrFile}
use rve.Hart.Csr.{
  CsrOp, CsrName, CsrTarget, csr_target, csr_dispatch, csr_access, csr_new_val, read_csr, write_csr,
}

-- The address field of a CSR instruction.
abbrev pub csr_addr : DecodedInstruction → ℕ
csr_addr di = di.original_instruction / 2 ^ 20

read_csr-write_csr :
    (csr : CsrFile) (name : CsrName) (v : ℕ) → read_csr (write_csr csr name v) name ≡ v
read_csr-write_csr csr CsrName.mstatus v = refl
read_csr-write_csr csr CsrName.mtvec v = refl
read_csr-write_csr csr CsrName.mepc v = refl
read_csr-write_csr csr CsrName.mcause v = refl
read_csr-write_csr csr CsrName.mtval v = refl
read_csr-write_csr csr CsrName.mscratch v = refl

read_csr-write_csr_ne :
    (csr : CsrFile) (name other : CsrName) (v : ℕ)
    → other ≢ name
    → read_csr (write_csr csr name v) other ≡ read_csr csr other
read_csr-write_csr_ne csr CsrName.mstatus CsrName.mstatus v h = absurd (h refl)
read_csr-write_csr_ne csr CsrName.mstatus _ v h = refl
read_csr-write_csr_ne csr CsrName.mtvec CsrName.mtvec v h = absurd (h refl)
read_csr-write_csr_ne csr CsrName.mtvec _ v h = refl
read_csr-write_csr_ne csr CsrName.mepc CsrName.mepc v h = absurd (h refl)
read_csr-write_csr_ne csr CsrName.mepc _ v h = refl
read_csr-write_csr_ne csr CsrName.mcause CsrName.mcause v h = absurd (h refl)
read_csr-write_csr_ne csr CsrName.mcause _ v h = refl
read_csr-write_csr_ne csr CsrName.mtval CsrName.mtval v h = absurd (h refl)
read_csr-write_csr_ne csr CsrName.mtval _ v h = refl
read_csr-write_csr_ne csr CsrName.mscratch CsrName.mscratch v h = absurd (h refl)
read_csr-write_csr_ne csr CsrName.mscratch _ v h = refl

-- The digits of `~x`.
bit_at-complement : (n x k : ℕ) → x < 2 ^ n → k < n → bit_at (2 ^ n - 1 - x) k ≡ 1 - bit_at x k
bit_at-complement zero x k h l = absurd (omega arith)
bit_at-complement (suc n) x zero h l = omega (arith, pow-suc 2 n, one-le-pow n 2 (omega arith))
bit_at-complement (suc n) x (suc k) h l =
    ap (λ y. bit_at y k) half
    ∙ bit_at-complement n (x / 2) k (omega (arith, pow-suc 2 n)) (omega arith)
  where
    half : (2 ^ suc n - 1 - x) / 2 ≡ 2 ^ n - 1 - x / 2
    half = omega (arith, pow-suc 2 n, one-le-pow n 2 (omega arith))

-- What an operation does with each bit: the new one of the old one and that of the operand.
abbrev pub new_bit : CsrOp → ℕ → ℕ → ℕ
new_bit CsrOp.rw_op old operand = operand
new_bit CsrOp.rs_op old operand = max old operand
new_bit CsrOp.rc_op old operand = min old (1 - operand)

csr_new_val-bit :
    (op : CsrOp) (old operand k : ℕ)
    → operand < 2 ^ 32
    → k < 32
    → bit_at (csr_new_val op old operand) k ≡ new_bit op (bit_at old k) (bit_at operand k)
unfolding csr_new_val
csr_new_val-bit CsrOp.rw_op old operand k h l = refl
csr_new_val-bit CsrOp.rs_op old operand k h l = bit_at-or k old operand
csr_new_val-bit CsrOp.rc_op old operand k h l =
    bit_at-and k old (not32 operand) ∙ ap (min (bit_at old k)) (bit_at-complement 32 operand k h l)

-- The operand of the instruction.
abbrev pub operand_of : Hart → DecodedInstruction → Bool → ℕ
operand_of hart di use_uimm = if use_uimm then di.rs1 else hart.gpr di.rs1

access_target :
    (hart : Hart) (di : DecodedInstruction) (op : CsrOp) (use_uimm : Bool) (name : CsrName)
    → csr_target (csr_addr di) ≡ CsrTarget.live name
    → csr_dispatch hart di op use_uimm ≡ csr_access hart di name op use_uimm
unfolding csr_dispatch
access_target hart di op use_uimm name t = rw (csr_dispatch, t) refl

access-csr :
    (hart : Hart) (di : DecodedInstruction) (name : CsrName) (op : CsrOp) (use_uimm : Bool)
    → (csr_access hart di name op use_uimm).1.csr ≡ (
        if di.rs1 == 0
        then hart.csr
        else write_csr hart.csr name
            (csr_new_val op (read_csr hart.csr name) (operand_of hart di use_uimm)))
unfolding csr_access
access-csr hart di name op use_uimm = ground arith

access-gpr :
    (hart : Hart) (di : DecodedInstruction) (name : CsrName) (op : CsrOp) (use_uimm : Bool)
    → let (trap, hart') = csr_access hart di name op use_uimm in
      (trap ≡ none)
      × (hart'.gpr di.rd ≡ (if di.rd == 0 then hart.gpr di.rd else read_csr hart.csr name))
unfolding csr_access
access-gpr hart di name op use_uimm = (refl, ground arith)

-- A CSR instruction on an address of a stored CSR, with an operand that is a word, does not trap;
-- each of the 32 bits of that CSR becomes the operand's bit for a write, the larger of both for a
-- set, and the old one without the operand's for a clear, but stays if the operand field is zero;
-- any other CSR is kept; and rd gets the old value unless it is x0.
pub csr_dispatch_lem :
    (hart : Hart) (di : DecodedInstruction) (op : CsrOp) (use_uimm : Bool) (name other : CsrName)
    (k : ℕ)
    → csr_target (csr_addr di) ≡ CsrTarget.live name
    → operand_of hart di use_uimm < 2 ^ 32
    → k < 32
    → other ≢ name
    → let (trap, hart') = csr_dispatch hart di op use_uimm in
      let old = read_csr hart.csr name in
      (trap ≡ none)
      × (bit_at (read_csr hart'.csr name) k ≡ (
          if di.rs1 == 0
          then bit_at old k
          else new_bit op (bit_at old k) (bit_at (operand_of hart di use_uimm) k)))
      × (read_csr hart'.csr other ≡ read_csr hart.csr other)
      × (hart'.gpr di.rd ≡ (if di.rd == 0 then hart.gpr di.rd else old))
csr_dispatch_lem hart di op use_uimm name other k t w l n =
    let c = access-csr hart di name op use_uimm in
    let old = read_csr hart.csr name in
    let (trap, gpr) = access-gpr hart di name op use_uimm in
    rw (access_target hart di op use_uimm name t) (elim (Bool-cases (di.rs1 == 0)) [
      | inl z ↦
          let same = c ∙ if-true _ z in
          (
            trap,
            ap (λ x. bit_at (read_csr x name) k) same ∙ sym (if-true _ z),
            ap (λ x. read_csr x other) same,
            gpr,
          )
      | inr z ↦
          let new = c ∙ if-false _ z in
          (
            trap,
            ap (λ x. bit_at (read_csr x name) k) new
                ∙ ap (λ v. bit_at v k) (read_csr-write_csr hart.csr name _)
                ∙ csr_new_val-bit op old (operand_of hart di use_uimm) k w l
                ∙ sym (if-false _ z),
            ap (λ x. read_csr x other) new ∙ read_csr-write_csr_ne hart.csr name other _ n,
            gpr,
          )
    ])
