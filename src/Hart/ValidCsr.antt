-- ===== src/Hart/ValidCsr.antt =====
-- The CSR instructions of src/hart.c keep the invariant of the hart.
use rve.Base.{
  ℕ, ◌/◌, ◌^◌, ◌≡◌, refl, arith, Bool, ◌==◌, if◌then◌else◌, bit_and-lt, bit_or-lt, if-elim,
}
use rve.Word.{IsWord, not32}
use rve.Decoder.Types.{DecodedInstruction}
use rve.Hart.Types.{Hart, CsrFile}
use rve.Hart.Csr.{
  CsrOp, CsrName, csr_dispatch, csr_access, csr_new_val, read_csr, write_csr, csr_target, CsrTarget,
  write_rd_if,
}
use rve.Hart.Access.{Locals}
use rve.Hart.Execute.{exec_csr}
use rve.Hart.ValidAccess.{IsWords, WordCsrs, WordLocals, code_of, set_gpr-IsWords}

csr_new_val-IsWord :
    (op : CsrOp) (old operand : ℕ)
    → IsWord old
    → IsWord operand
    → IsWord (csr_new_val op old operand)
unfolding csr_new_val
csr_new_val-IsWord CsrOp.rw_op old operand h g = g
csr_new_val-IsWord CsrOp.rs_op old operand h g = bit_or-lt 32 old operand h g
csr_new_val-IsWord CsrOp.rc_op old operand h g = bit_and-lt 32 old (not32 operand) h

read_csr-IsWord : (csr : CsrFile) (name : CsrName) → WordCsrs csr → IsWord (read_csr csr name)
read_csr-IsWord csr CsrName.mstatus c = c.mstatus
read_csr-IsWord csr CsrName.mtvec c = c.mtvec
read_csr-IsWord csr CsrName.mepc c = c.mepc
read_csr-IsWord csr CsrName.mcause c = c.mcause
read_csr-IsWord csr CsrName.mtval c = c.mtval
read_csr-IsWord csr CsrName.mscratch c = c.mscratch

write_csr-WordCsrs :
    (csr : CsrFile) (name : CsrName) (v : ℕ)
    → IsWord v
    → WordCsrs csr
    → WordCsrs (write_csr csr name v)
write_csr-WordCsrs csr CsrName.mstatus v w c = record {
  mstatus = w;
  mtvec = c.mtvec;
  mepc = c.mepc;
  mcause = c.mcause;
  mtval = c.mtval;
  mscratch = c.mscratch;
}
write_csr-WordCsrs csr CsrName.mtvec v w c = record {
  mstatus = c.mstatus;
  mtvec = w;
  mepc = c.mepc;
  mcause = c.mcause;
  mtval = c.mtval;
  mscratch = c.mscratch;
}
write_csr-WordCsrs csr CsrName.mepc v w c = record {
  mstatus = c.mstatus;
  mtvec = c.mtvec;
  mepc = w;
  mcause = c.mcause;
  mtval = c.mtval;
  mscratch = c.mscratch;
}
write_csr-WordCsrs csr CsrName.mcause v w c = record {
  mstatus = c.mstatus;
  mtvec = c.mtvec;
  mepc = c.mepc;
  mcause = w;
  mtval = c.mtval;
  mscratch = c.mscratch;
}
write_csr-WordCsrs csr CsrName.mtval v w c = record {
  mstatus = c.mstatus;
  mtvec = c.mtvec;
  mepc = c.mepc;
  mcause = c.mcause;
  mtval = w;
  mscratch = c.mscratch;
}
write_csr-WordCsrs csr CsrName.mscratch v w c = record {
  mstatus = c.mstatus;
  mtvec = c.mtvec;
  mepc = c.mepc;
  mcause = c.mcause;
  mtval = c.mtval;
  mscratch = w;
}

write_rd_if-IsWords :
    (hart : Hart) (rd v : ℕ) → IsWords hart → IsWord v → IsWords (write_rd_if hart rd v)
write_rd_if-IsWords hart rd v h w =
    if-elim IsWords (rd == 0) (λ e. h) (λ e. set_gpr-IsWords hart rd v h w)

csr_access-IsWords :
    (hart : Hart) (di : DecodedInstruction) (name : CsrName) (op : CsrOp) (use_uimm : Bool)
    → IsWords hart
    → IsWord di.rs1
    → IsWords (csr_access hart di name op use_uimm).1
unfolding csr_access
csr_access-IsWords hart di name op use_uimm h r =
    let old = read_csr-IsWord hart.csr name h.csr in
    let operand =
      if-elim IsWord use_uimm {x = di.rs1} {y = hart.gpr di.rs1} (λ e. r) (λ e. h.gpr di.rs1) in
    let g = write_rd_if-IsWords hart di.rd (read_csr hart.csr name) h old in
    let new =
      csr_new_val-IsWord op (read_csr hart.csr name) (if use_uimm then di.rs1 else hart.gpr di.rs1)
        old operand in
    if-elim IsWords (di.rs1 == 0) (λ e. g)
      (λ e. record { gpr = g.gpr; csr = write_csr-WordCsrs _ name _ new g.csr; pc = g.pc })

constant-IsWord : (addr v : ℕ) → csr_target addr ≡ CsrTarget.constant v → IsWord v
unfolding csr_target
constant-IsWord addr v t = ground arith

csr_dispatch-IsWords :
    (hart : Hart) (di : DecodedInstruction) (op : CsrOp) (use_uimm : Bool)
    → IsWords hart
    → IsWord di.rs1
    → IsWords (csr_dispatch hart di op use_uimm).1
unfolding csr_dispatch
csr_dispatch-IsWords hart di op use_uimm h r =
    go (csr_target (di.original_instruction / 2 ^ 20)) refl
  where
    go :
        (t : CsrTarget)
        → csr_target (di.original_instruction / 2 ^ 20) ≡ t
        → IsWords (csr_dispatch hart di op use_uimm).1
    go (CsrTarget.constant v) e =
        rw (csr_dispatch, e) (write_rd_if-IsWords hart di.rd v h (constant-IsWord _ v e))
    go (CsrTarget.live name) e =
        rw (csr_dispatch, e) (csr_access-IsWords hart di name op use_uimm h r)
    go CsrTarget.unimplemented e = rw (csr_dispatch, e) h

csr_dispatch-code :
    (hart : Hart) (di : DecodedInstruction) (op : CsrOp) (use_uimm : Bool)
    → IsWord (code_of (csr_dispatch hart di op use_uimm).0)
unfolding csr_dispatch csr_access
csr_dispatch-code hart di op use_uimm = ground arith

pub exec_csr-Word :
    (s : Locals) (di : DecodedInstruction) (op : CsrOp) (use_uimm : Bool)
    → IsWord di.rs1
    → WordLocals s
    → WordLocals (exec_csr s di op use_uimm)
unfolding exec_csr
exec_csr-Word s di op use_uimm r x = record {
  hart = csr_dispatch-IsWords s.hart di op use_uimm x.hart r;
  bus = x.bus;
  instruction = x.instruction;
  next_pc = x.next_pc;
  mem_addr = x.mem_addr;
  bad_pc = x.bad_pc;
  code = csr_dispatch-code s.hart di op use_uimm;
}
