-- ===== src/Hart/Untouched.antt =====
-- What the instructions of src/hart.c leave to the commit.
use rve.Base.{ℕ, ◌≡◌, refl, Bool, true, false, none, some, arith}
use rve.Decoder.Types.{Op, DecodedInstruction, zeroed}
use rve.Decoder.Fields.{get_opcode}
use rve.Decoder.Formats.{
  decode_instruction_u, decode_instruction_j, decode_instruction_b, decode_instruction_s,
}
use rve.Decoder.IType.{decode_instruction_i}
use rve.Decoder.RType.{decode_instruction_r}
use rve.Decoder.Decode.{rve_decode_instruction}
use rve.Hart.Types.{ecall_m}
use rve.Hart.Csr.{CsrOp, csr_dispatch, csr_access}
use rve.Hart.Access.{Locals, exec_load, exec_store}
use rve.Hart.Execute.{execute, exec_csr}
use rve.Hart.Step.{has_rd}
use rve.Hart.Frame.{writes_rd}

-- Only the S and B formats have no destination.
has_rd-u :
    (di : DecodedInstruction) (w opcode : ℕ)
    → has_rd di.format ≡ true
    → has_rd (decode_instruction_u di w opcode).format ≡ true
unfolding decode_instruction_u
has_rd-u di w opcode h = ground arith

has_rd-j :
    (di : DecodedInstruction) (w opcode : ℕ)
    → has_rd (decode_instruction_j di w opcode).format ≡ true
unfolding decode_instruction_j
has_rd-j di w opcode = ground arith

has_rd-r :
    (di : DecodedInstruction) (w opcode : ℕ)
    → has_rd (decode_instruction_r di w opcode).format ≡ true
unfolding decode_instruction_r
has_rd-r di w opcode = ground arith

has_rd-i :
    (di : DecodedInstruction) (w opcode : ℕ)
    → has_rd (decode_instruction_i di w opcode).format ≡ true
unfolding decode_instruction_i
has_rd-i di w opcode = ground arith

writes_rd-b :
    (di : DecodedInstruction) (w opcode : ℕ)
    → di.op ≡ Op.unknown
    → writes_rd (decode_instruction_b di w opcode).op ≡ false
unfolding decode_instruction_b
writes_rd-b di w opcode h = ground arith

writes_rd-s :
    (di : DecodedInstruction) (w opcode : ℕ)
    → di.op ≡ Op.unknown
    → writes_rd (decode_instruction_s di w opcode).op ≡ false
unfolding decode_instruction_s
writes_rd-s di w opcode h = ground arith

pub decode_no_rd :
    (w : ℕ)
    → has_rd (rve_decode_instruction w).format ≡ false
    → writes_rd (rve_decode_instruction w).op ≡ false
unfolding rve_decode_instruction
decode_no_rd w h = ground (
  arith,
  has_rd-u (record zeroed { original_instruction = w }) w (get_opcode w),
  has_rd-j (record zeroed { original_instruction = w }) w (get_opcode w),
  has_rd-r (record zeroed { original_instruction = w }) w (get_opcode w),
  has_rd-i (record zeroed { original_instruction = w }) w (get_opcode w),
  writes_rd-b (record zeroed { original_instruction = w }) w (get_opcode w),
  writes_rd-s (record zeroed { original_instruction = w }) w (get_opcode w),
)

-- The parts of the record that the instructions leave to the commit.
pub record Untouched (s s' : Locals) : Type 0 where
  pub pc : s'.r.pc ≡ s.r.pc
  pub rd_written : s'.r.rd_written ≡ s.r.rd_written
  pub ecall_next : s'.pending_trap ≡ some ecall_m → s'.r.next_pc ≡ s'.hart.pc

exec_load-Untouched :
    (s : Locals) (di : DecodedInstruction) (size : ℕ) (sign : Bool)
    → Untouched s (exec_load s di size sign)
unfolding exec_load
exec_load-Untouched s di size sign = record {
  pc = ground arith;
  rd_written = ground arith;
  ecall_next = λ t. ground arith;
}

exec_store-Untouched :
    (s : Locals) (di : DecodedInstruction) (size mask : ℕ) → Untouched s (exec_store s di size mask)
unfolding exec_store
exec_store-Untouched s di size mask = record {
  pc = ground arith;
  rd_written = ground arith;
  ecall_next = λ t. ground arith;
}

exec_csr-Untouched :
    (s : Locals) (di : DecodedInstruction) (op : CsrOp) (use_uimm : Bool)
    → Untouched s (exec_csr s di op use_uimm)
unfolding exec_csr csr_dispatch csr_access
exec_csr-Untouched s di op use_uimm = record {
  pc = refl;
  rd_written = refl;
  ecall_next = λ t. ground arith;
}

pub execute-Untouched :
    (op : Op) (di : DecodedInstruction) (s : Locals)
    → s.pending_trap ≡ none
    → Untouched s (execute op di s)
unfolding execute
execute-Untouched Op.lb di s p = exec_load-Untouched s di 8 true
execute-Untouched Op.lh di s p = exec_load-Untouched s di 16 true
execute-Untouched Op.lw di s p = exec_load-Untouched s di 32 true
execute-Untouched Op.lbu di s p = exec_load-Untouched s di 8 false
execute-Untouched Op.lhu di s p = exec_load-Untouched s di 16 false
execute-Untouched Op.sb di s p = exec_store-Untouched s di 8 0xFF
execute-Untouched Op.sh di s p = exec_store-Untouched s di 16 0xFFFF
execute-Untouched Op.sw di s p = exec_store-Untouched s di 32 0xFFFF_FFFF
execute-Untouched Op.csrrw di s p = exec_csr-Untouched s di CsrOp.rw_op false
execute-Untouched Op.csrrs di s p = exec_csr-Untouched s di CsrOp.rs_op false
execute-Untouched Op.csrrc di s p = exec_csr-Untouched s di CsrOp.rc_op false
execute-Untouched Op.csrrwi di s p = exec_csr-Untouched s di CsrOp.rw_op true
execute-Untouched Op.csrrsi di s p = exec_csr-Untouched s di CsrOp.rs_op true
execute-Untouched Op.csrrci di s p = exec_csr-Untouched s di CsrOp.rc_op true
execute-Untouched _ di s p = record {
  pc = ground arith;
  rd_written = ground arith;
  ecall_next = λ t. ground arith;
}
