-- ===== src/Hart/Frame.antt =====
-- Which registers an instruction changes (src/hart.c).
use rve.Base.{ℕ, ◌≡◌, ◌≢◌, ap, Bool, true, false, none, some, ◌==◌, arith}
use rve.Decoder.Types.{Op, DecodedInstruction}
use rve.Hart.Types.{Hart, ecall_m}
use rve.Hart.Csr.{CsrOp, csr_access, csr_dispatch}
use rve.Hart.Access.{Locals, exec_load, exec_store}
use rve.Hart.Execute.{execute}

csr_dispatch_frame :
    (hart : Hart) (di : DecodedInstruction) (op : CsrOp) (use_uimm : Bool) (j : ℕ)
    → (di.rd == j) ≡ false
    → (csr_dispatch hart di op use_uimm).1.gpr j ≡ hart.gpr j
unfolding csr_dispatch csr_access
csr_dispatch_frame hart di op use_uimm j n = ground arith

exec_load_frame :
    (s : Locals) (di : DecodedInstruction) (size : ℕ) (sign : Bool) (j : ℕ)
    → (di.rd == j) ≡ false
    → (exec_load s di size sign).hart.gpr j ≡ s.hart.gpr j
unfolding exec_load
exec_load_frame s di size sign j n = ground arith

-- A refused load has changed no register.
exec_load_precise :
    (s : Locals) (di : DecodedInstruction) (size : ℕ) (sign : Bool) (c : ℕ)
    → (exec_load s di size sign).pending_trap ≡ some c
    → (exec_load s di size sign).hart ≡ s.hart
unfolding exec_load
exec_load_precise s di size sign c t = ground arith

csr_dispatch_precise :
    (hart : Hart) (di : DecodedInstruction) (op : CsrOp) (use_uimm : Bool) (c : ℕ)
    → (csr_dispatch hart di op use_uimm).0 ≡ some c
    → (csr_dispatch hart di op use_uimm).1 ≡ hart
unfolding csr_dispatch csr_access
csr_dispatch_precise hart di op use_uimm c t = ground arith

exec_store_hart :
    (s : Locals) (di : DecodedInstruction) (size mask : ℕ)
    → (exec_store s di size mask).hart ≡ s.hart
unfolding exec_store
exec_store_hart s di size mask = ground arith

-- The operations that write no register: stores, branches, and the illegal ones.
abbrev pub writes_rd : Op → Bool
writes_rd Op.sb = false
writes_rd Op.sh = false
writes_rd Op.sw = false
writes_rd Op.beq = false
writes_rd Op.bne = false
writes_rd Op.blt = false
writes_rd Op.bge = false
writes_rd Op.bltu = false
writes_rd Op.bgeu = false
writes_rd Op.unknown = false
writes_rd _ = true

-- Registers other than `rd` are kept (x0 is zero before an ECALL clears it).
pub execute_frame :
    (op : Op) (di : DecodedInstruction) (s : Locals) (j : ℕ)
    → s.hart.gpr 0 ≡ 0
    → (di.rd == j) ≡ false
    → (execute op di s).hart.gpr j ≡ s.hart.gpr j
unfolding execute
execute_frame Op.lb di s j z n = exec_load_frame s di 8 true j n
execute_frame Op.lh di s j z n = exec_load_frame s di 16 true j n
execute_frame Op.lw di s j z n = exec_load_frame s di 32 true j n
execute_frame Op.lbu di s j z n = exec_load_frame s di 8 false j n
execute_frame Op.lhu di s j z n = exec_load_frame s di 16 false j n
execute_frame Op.sb di s j z n = ap (λ h. h.gpr j) (exec_store_hart s di 8 0xFF)
execute_frame Op.sh di s j z n = ap (λ h. h.gpr j) (exec_store_hart s di 16 0xFFFF)
execute_frame Op.sw di s j z n = ap (λ h. h.gpr j) (exec_store_hart s di 32 0xFFFF_FFFF)
execute_frame Op.csrrw di s j z n = csr_dispatch_frame s.hart di CsrOp.rw_op false j n
execute_frame Op.csrrs di s j z n = csr_dispatch_frame s.hart di CsrOp.rs_op false j n
execute_frame Op.csrrc di s j z n = csr_dispatch_frame s.hart di CsrOp.rc_op false j n
execute_frame Op.csrrwi di s j z n = csr_dispatch_frame s.hart di CsrOp.rw_op true j n
execute_frame Op.csrrsi di s j z n = csr_dispatch_frame s.hart di CsrOp.rs_op true j n
execute_frame Op.csrrci di s j z n = csr_dispatch_frame s.hart di CsrOp.rc_op true j n
execute_frame _ di s j z n = ground arith

-- An operation that writes no register keeps all of them.
pub execute_keeps :
    (op : Op) (di : DecodedInstruction) (s : Locals) (j : ℕ)
    → writes_rd op ≡ false
    → (execute op di s).hart.gpr j ≡ s.hart.gpr j
unfolding execute
execute_keeps Op.sb di s j w = ap (λ h. h.gpr j) (exec_store_hart s di 8 0xFF)
execute_keeps Op.sh di s j w = ap (λ h. h.gpr j) (exec_store_hart s di 16 0xFFFF)
execute_keeps Op.sw di s j w = ap (λ h. h.gpr j) (exec_store_hart s di 32 0xFFFF_FFFF)
execute_keeps _ di s j w = ground arith

-- A trap other than ECALL leaves the registers and the PC as they are; so it is with the CSRs.
pub execute_precise :
    (op : Op) (di : DecodedInstruction) (s : Locals) (c : ℕ)
    → s.pending_trap ≡ none
    → (execute op di s).pending_trap ≡ some c
    → c ≢ ecall_m
    → (execute op di s).hart ≡ s.hart
unfolding execute
execute_precise Op.lb di s c p t e = exec_load_precise s di 8 true c t
execute_precise Op.lh di s c p t e = exec_load_precise s di 16 true c t
execute_precise Op.lw di s c p t e = exec_load_precise s di 32 true c t
execute_precise Op.lbu di s c p t e = exec_load_precise s di 8 false c t
execute_precise Op.lhu di s c p t e = exec_load_precise s di 16 false c t
execute_precise Op.sb di s c p t e = exec_store_hart s di 8 0xFF
execute_precise Op.sh di s c p t e = exec_store_hart s di 16 0xFFFF
execute_precise Op.sw di s c p t e = exec_store_hart s di 32 0xFFFF_FFFF
execute_precise Op.csrrw di s c p t e = csr_dispatch_precise s.hart di CsrOp.rw_op false c t
execute_precise Op.csrrs di s c p t e = csr_dispatch_precise s.hart di CsrOp.rs_op false c t
execute_precise Op.csrrc di s c p t e = csr_dispatch_precise s.hart di CsrOp.rc_op false c t
execute_precise Op.csrrwi di s c p t e = csr_dispatch_precise s.hart di CsrOp.rw_op true c t
execute_precise Op.csrrsi di s c p t e = csr_dispatch_precise s.hart di CsrOp.rs_op true c t
execute_precise Op.csrrci di s c p t e = csr_dispatch_precise s.hart di CsrOp.rc_op true c t
execute_precise _ di s c p t e = ground arith

-- No trap, ECALL included, changes a register.
pub execute_trapped :
    (op : Op) (di : DecodedInstruction) (s : Locals) (c j : ℕ)
    → s.hart.gpr 0 ≡ 0
    → s.pending_trap ≡ none
    → (execute op di s).pending_trap ≡ some c
    → (execute op di s).hart.gpr j ≡ s.hart.gpr j
unfolding execute
execute_trapped Op.ecall di s c j z p t = ground arith
execute_trapped Op.lb di s c j z p t = ap (λ h. h.gpr j) (exec_load_precise s di 8 true c t)
execute_trapped Op.lh di s c j z p t = ap (λ h. h.gpr j) (exec_load_precise s di 16 true c t)
execute_trapped Op.lw di s c j z p t = ap (λ h. h.gpr j) (exec_load_precise s di 32 true c t)
execute_trapped Op.lbu di s c j z p t = ap (λ h. h.gpr j) (exec_load_precise s di 8 false c t)
execute_trapped Op.lhu di s c j z p t = ap (λ h. h.gpr j) (exec_load_precise s di 16 false c t)
execute_trapped Op.sb di s c j z p t = ap (λ h. h.gpr j) (exec_store_hart s di 8 0xFF)
execute_trapped Op.sh di s c j z p t = ap (λ h. h.gpr j) (exec_store_hart s di 16 0xFFFF)
execute_trapped Op.sw di s c j z p t = ap (λ h. h.gpr j) (exec_store_hart s di 32 0xFFFF_FFFF)
execute_trapped Op.csrrw di s c j z p t =
    ap (λ h. h.gpr j) (csr_dispatch_precise s.hart di CsrOp.rw_op false c t)
execute_trapped Op.csrrs di s c j z p t =
    ap (λ h. h.gpr j) (csr_dispatch_precise s.hart di CsrOp.rs_op false c t)
execute_trapped Op.csrrc di s c j z p t =
    ap (λ h. h.gpr j) (csr_dispatch_precise s.hart di CsrOp.rc_op false c t)
execute_trapped Op.csrrwi di s c j z p t =
    ap (λ h. h.gpr j) (csr_dispatch_precise s.hart di CsrOp.rw_op true c t)
execute_trapped Op.csrrsi di s c j z p t =
    ap (λ h. h.gpr j) (csr_dispatch_precise s.hart di CsrOp.rs_op true c t)
execute_trapped Op.csrrci di s c j z p t =
    ap (λ h. h.gpr j) (csr_dispatch_precise s.hart di CsrOp.rc_op true c t)
execute_trapped _ di s c j z p t = ground arith
