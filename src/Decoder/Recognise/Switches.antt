-- ===== src/Decoder/Recognise/Switches.antt =====
-- The switches of src/decoder.c choose the operation that the manual gives the constant fields to.
use rve.Base.{ℕ, ◌≡◌, arith, some}
use rve.Decoder.Types.{Op}
use rve.Decoder.Formats.{u_op, b_op, s_op}
use rve.Decoder.RType.{r_op}
use rve.Decoder.IType.{jalr_op, load_op, right_op, op_imm_op, misc_mem_op, csr_op}
use rve.Decoder.Encoding.{Encoding, encoding}

pub b_op-encoding : (f3 : ℕ) (op : Op) → b_op f3 ≡ some op → encoding op ≡ Encoding.b_enc f3
unfolding b_op
b_op-encoding f3 op e = ground arith

pub r_op-encoding :
    (f7 f3 : ℕ) (op : Op) → r_op f7 f3 ≡ some op → encoding op ≡ Encoding.r_enc 0b0110011 f3 f7
unfolding r_op
r_op-encoding f7 f3 op e = ground arith

pub s_op-encoding : (f3 : ℕ) (op : Op) → s_op f3 ≡ some op → encoding op ≡ Encoding.s_enc f3
unfolding s_op
s_op-encoding f3 op e = ground arith

pub jalr_op-encoding :
    (f3 : ℕ) (op : Op) → jalr_op f3 ≡ some op → encoding op ≡ Encoding.i_enc 0b1100111 f3
unfolding jalr_op
jalr_op-encoding f3 op e = ground arith

pub load_op-encoding :
    (f3 : ℕ) (op : Op) → load_op f3 ≡ some op → encoding op ≡ Encoding.i_enc 0b0000011 f3
unfolding load_op
load_op-encoding f3 op e = ground arith

pub op_imm_op-encoding :
    (f3 : ℕ) (op : Op) → op_imm_op f3 ≡ some op → encoding op ≡ Encoding.i_enc 0b0010011 f3
unfolding op_imm_op
op_imm_op-encoding f3 op e = ground arith

pub right_op-encoding :
    (f7 : ℕ) (op : Op) → right_op f7 ≡ some op → encoding op ≡ Encoding.right_enc 5 f7
unfolding right_op
right_op-encoding f7 op e = ground arith

pub misc_mem_op-encoding :
    (f3 : ℕ) (op : Op) → misc_mem_op f3 ≡ some op → encoding op ≡ Encoding.fence_enc f3
unfolding misc_mem_op
misc_mem_op-encoding f3 op e = ground arith

pub csr_op-encoding : (f3 : ℕ) (op : Op) → csr_op f3 ≡ some op → encoding op ≡ Encoding.csr_enc f3
unfolding csr_op
csr_op-encoding f3 op e = ground arith

pub u_op-encoding : (o : ℕ) (op : Op) → u_op o ≡ some op → encoding op ≡ Encoding.u_enc o
unfolding u_op
u_op-encoding o op e = ground arith
