-- ===== src/Hart/Refused.antt =====
-- What an instruction of src/hart.c that traps leaves for the commit.
use rve.Base.{ℕ, ◌≡◌, ◌≢◌, refl, Bool, true, false, Option, none, some, ◌==◌, if◌then◌else◌, arith}
use rve.Decoder.Types.{Op, DecodedInstruction}
use rve.Hart.Types.{ecall_m, instr_misaligned, instr_access_fault}
use rve.Hart.Csr.{CsrOp, csr_dispatch, csr_access}
use rve.Hart.Access.{Locals, misaligned, exec_load, exec_store}
use rve.Hart.Execute.{execute, exec_csr}

-- The state that a refused instruction leaves for the commit.
pub record Refused (s s' : Locals) (c : ℕ) : Type 0 where
  pub instruction : s'.r.instruction ≡ s.r.instruction
  pub mem_addr : s'.mem_addr ≡ s.mem_addr
  pub bad_pc : c ≡ instr_misaligned → misaligned s'.bad_pc ≡ true
  pub cause : c ≢ instr_access_fault

exec_load-Refused :
    (s : Locals) (di : DecodedInstruction) (size : ℕ) (sign : Bool) (c : ℕ)
    → (exec_load s di size sign).pending_trap ≡ some c
    → Refused s (exec_load s di size sign) c
unfolding exec_load
exec_load-Refused s di size sign c t = record {
  instruction = ground arith;
  mem_addr = ground arith;
  bad_pc = λ e. ground arith;
  cause = λ e. ground arith;
}

exec_store-Refused :
    (s : Locals) (di : DecodedInstruction) (size mask c : ℕ)
    → (exec_store s di size mask).pending_trap ≡ some c
    → Refused s (exec_store s di size mask) c
unfolding exec_store
exec_store-Refused s di size mask c t = record {
  instruction = ground arith;
  mem_addr = ground arith;
  bad_pc = λ e. ground arith;
  cause = λ e. ground arith;
}

exec_csr-Refused :
    (s : Locals) (di : DecodedInstruction) (op : CsrOp) (use_uimm : Bool) (c : ℕ)
    → (exec_csr s di op use_uimm).pending_trap ≡ some c
    → Refused s (exec_csr s di op use_uimm) c
unfolding exec_csr csr_dispatch csr_access
exec_csr-Refused s di op use_uimm c t = record {
  instruction = refl;
  mem_addr = refl;
  bad_pc = λ e. ground arith;
  cause = λ e. ground arith;
}

pub execute-Refused :
    (op : Op) (di : DecodedInstruction) (s : Locals) (c : ℕ)
    → s.pending_trap ≡ none
    → (execute op di s).pending_trap ≡ some c
    → Refused s (execute op di s) c
unfolding execute
execute-Refused Op.lb di s c p t = exec_load-Refused s di 8 true c t
execute-Refused Op.lh di s c p t = exec_load-Refused s di 16 true c t
execute-Refused Op.lw di s c p t = exec_load-Refused s di 32 true c t
execute-Refused Op.lbu di s c p t = exec_load-Refused s di 8 false c t
execute-Refused Op.lhu di s c p t = exec_load-Refused s di 16 false c t
execute-Refused Op.sb di s c p t = exec_store-Refused s di 8 0xFF c t
execute-Refused Op.sh di s c p t = exec_store-Refused s di 16 0xFFFF c t
execute-Refused Op.sw di s c p t = exec_store-Refused s di 32 0xFFFF_FFFF c t
execute-Refused Op.csrrw di s c p t = exec_csr-Refused s di CsrOp.rw_op false c t
execute-Refused Op.csrrs di s c p t = exec_csr-Refused s di CsrOp.rs_op false c t
execute-Refused Op.csrrc di s c p t = exec_csr-Refused s di CsrOp.rc_op false c t
execute-Refused Op.csrrwi di s c p t = exec_csr-Refused s di CsrOp.rw_op true c t
execute-Refused Op.csrrsi di s c p t = exec_csr-Refused s di CsrOp.rs_op true c t
execute-Refused Op.csrrci di s c p t = exec_csr-Refused s di CsrOp.rc_op true c t
execute-Refused _ di s c p t = record {
  instruction = ground arith;
  mem_addr = ground arith;
  bad_pc = λ e. ground arith;
  cause = λ e. ground arith;
}

-- Only ECALL enters its trap in the record before the commit.
abbrev pub early_trap : Option ℕ → Option ℕ
early_trap none = none
early_trap (some c) = if c == ecall_m then some c else none

exec_load-trap :
    (s : Locals) (di : DecodedInstruction) (size : ℕ) (sign : Bool)
    → s.r.trap ≡ none
    → (exec_load s di size sign).r.trap ≡ early_trap (exec_load s di size sign).pending_trap
unfolding exec_load
exec_load-trap s di size sign n = ground arith

exec_store-trap :
    (s : Locals) (di : DecodedInstruction) (size mask : ℕ)
    → s.r.trap ≡ none
    → (exec_store s di size mask).r.trap ≡ early_trap (exec_store s di size mask).pending_trap
unfolding exec_store
exec_store-trap s di size mask n = ground arith

exec_csr-trap :
    (s : Locals) (di : DecodedInstruction) (op : CsrOp) (use_uimm : Bool)
    → s.r.trap ≡ none
    → (exec_csr s di op use_uimm).r.trap ≡ early_trap (exec_csr s di op use_uimm).pending_trap
unfolding exec_csr csr_dispatch csr_access
exec_csr-trap s di op use_uimm n = ground arith

pub execute-trap :
    (op : Op) (di : DecodedInstruction) (s : Locals)
    → s.pending_trap ≡ none
    → s.r.trap ≡ none
    → (execute op di s).r.trap ≡ early_trap (execute op di s).pending_trap
unfolding execute
execute-trap Op.lb di s p n = exec_load-trap s di 8 true n
execute-trap Op.lh di s p n = exec_load-trap s di 16 true n
execute-trap Op.lw di s p n = exec_load-trap s di 32 true n
execute-trap Op.lbu di s p n = exec_load-trap s di 8 false n
execute-trap Op.lhu di s p n = exec_load-trap s di 16 false n
execute-trap Op.sb di s p n = exec_store-trap s di 8 0xFF n
execute-trap Op.sh di s p n = exec_store-trap s di 16 0xFFFF n
execute-trap Op.sw di s p n = exec_store-trap s di 32 0xFFFF_FFFF n
execute-trap Op.csrrw di s p n = exec_csr-trap s di CsrOp.rw_op false n
execute-trap Op.csrrs di s p n = exec_csr-trap s di CsrOp.rs_op false n
execute-trap Op.csrrc di s p n = exec_csr-trap s di CsrOp.rc_op false n
execute-trap Op.csrrwi di s p n = exec_csr-trap s di CsrOp.rw_op true n
execute-trap Op.csrrsi di s p n = exec_csr-trap s di CsrOp.rs_op true n
execute-trap Op.csrrci di s p n = exec_csr-trap s di CsrOp.rc_op true n
execute-trap _ di s p n = ground arith
