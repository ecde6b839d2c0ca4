-- ===== src/Hart/Valid.antt =====
-- The invariant of `hart_step` (src/hart.c): registers, CSRs and the PC hold words, x0 holds zero,
-- and the bus is wired.
use rve.Base.{arith, true, false, bit_and-lt, bit_or-lt, bit_xor-lt}
use rve.Word.{sext, add32, not32}
use rve.Decoder.Types.{Op, DecodedInstruction}
use rve.Hart.Csr.{CsrOp}
use rve.Hart.Access.{Locals}
use rve.Hart.Execute.{execute, exec_ecall, exec_mret, exec_illegal}
use rve.Hart.Status.{mret_mstatus_lem}
use rve.Decoder.Words.{WordFields, sext-IsWord}
use rve.Hart.Words.{
  mul-IsWord, div-IsWord, rem-IsWord, divu-IsWord, remu-IsWord, high-IsWord, shifts-IsWord,
  sums-IsWord,
}
use rve.Hart.ValidAccess.{
  WordLocals, exec_branch-Word, exec_jump-Word, exec_load-Word, exec_store-Word, set_gpr-IsWords,
  write_rd-Word,
}
use rve.Hart.ValidCsr.{exec_csr-Word}

exec_ecall-Word : (s : Locals) → WordLocals s → WordLocals (exec_ecall s)
unfolding exec_ecall
exec_ecall-Word s x =
    let g = set_gpr-IsWords s.hart 0 0 x.hart (omega arith) in
    record {
      hart = record { gpr = g.gpr; csr = g.csr; pc = omega arith };
      bus = x.bus;
      instruction = x.instruction;
      next_pc = x.next_pc;
      mem_addr = x.mem_addr;
      bad_pc = x.bad_pc;
      code = omega arith;
    }

exec_mret-Word : (s : Locals) → WordLocals s → WordLocals (exec_mret s)
unfolding exec_mret
exec_mret-Word s x =
    let c = x.hart.csr in
    let m = mret_mstatus_lem s.hart.csr.mstatus c.mstatus in
    record {
      hart = record {
        gpr = x.hart.gpr;
        csr = record {
          mstatus = omega arith;
          mtvec = c.mtvec;
          mepc = c.mepc;
          mcause = c.mcause;
          mtval = c.mtval;
          mscratch = c.mscratch;
        };
        pc = x.hart.pc;
      };
      bus = x.bus;
      instruction = x.instruction;
      next_pc = c.mepc;
      mem_addr = x.mem_addr;
      bad_pc = x.bad_pc;
      code = x.code;
    }

exec_illegal-Word : (s : Locals) → WordLocals s → WordLocals (exec_illegal s)
exec_illegal-Word s x = record {
  hart = x.hart;
  bus = x.bus;
  instruction = x.instruction;
  next_pc = x.next_pc;
  mem_addr = x.mem_addr;
  bad_pc = x.bad_pc;
  code = omega arith;
}

pub execute-Word :
    (op : Op) (di : DecodedInstruction) (s : Locals)
    → WordFields di
    → WordLocals s
    → WordLocals (execute op di s)
unfolding execute
execute-Word Op.lui di s f x = write_rd-Word s di _ x (f.imm)
execute-Word Op.auipc di s f x = write_rd-Word s di _ x (omega arith)
execute-Word Op.jal di s f x = exec_jump-Word s di _ (omega arith) x
execute-Word Op.jalr di s f x =
    exec_jump-Word s di _
      (bit_and-lt 32 (add32 (s.hart.gpr di.rs1) (sext di.imm 12)) (not32 1) (omega arith)) x
execute-Word Op.beq di s f x = exec_branch-Word s di _ x
execute-Word Op.bne di s f x = exec_branch-Word s di _ x
execute-Word Op.blt di s f x = exec_branch-Word s di _ x
execute-Word Op.bge di s f x = exec_branch-Word s di _ x
execute-Word Op.bltu di s f x = exec_branch-Word s di _ x
execute-Word Op.bgeu di s f x = exec_branch-Word s di _ x
execute-Word Op.lb di s f x = exec_load-Word s di 8 true (omega arith) x
execute-Word Op.lh di s f x = exec_load-Word s di 16 true (omega arith) x
execute-Word Op.lw di s f x = exec_load-Word s di 32 true (omega arith) x
execute-Word Op.lbu di s f x = exec_load-Word s di 8 false (omega arith) x
execute-Word Op.lhu di s f x = exec_load-Word s di 16 false (omega arith) x
execute-Word Op.sb di s f x = exec_store-Word s di 8 0xFF x
execute-Word Op.sh di s f x = exec_store-Word s di 16 0xFFFF x
execute-Word Op.sw di s f x = exec_store-Word s di 32 0xFFFF_FFFF x
execute-Word Op.addi di s f x = write_rd-Word s di _ x (omega arith)
execute-Word Op.slti di s f x = write_rd-Word s di _ x (ground arith)
execute-Word Op.sltiu di s f x = write_rd-Word s di _ x (ground arith)
execute-Word Op.slt di s f x = write_rd-Word s di _ x (ground arith)
execute-Word Op.sltu di s f x = write_rd-Word s di _ x (ground arith)
execute-Word Op.xori di s f x =
    write_rd-Word s di _ x (
      bit_xor-lt 32 (s.hart.gpr di.rs1) (sext di.imm 12) (x.hart.gpr di.rs1)
        (sext-IsWord di.imm 12))
execute-Word Op.xor di s f x =
    write_rd-Word s di _ x (
      bit_xor-lt 32 (s.hart.gpr di.rs1) (s.hart.gpr di.rs2) (x.hart.gpr di.rs1) (x.hart.gpr di.rs2))
execute-Word Op.ori di s f x =
    write_rd-Word s di _ x (
      bit_or-lt 32 (s.hart.gpr di.rs1) (sext di.imm 12) (x.hart.gpr di.rs1) (sext-IsWord di.imm 12))
execute-Word Op.or di s f x =
    write_rd-Word s di _ x
      (bit_or-lt 32 (s.hart.gpr di.rs1) (s.hart.gpr di.rs2) (x.hart.gpr di.rs1) (x.hart.gpr di.rs2))
execute-Word Op.andi di s f x =
    write_rd-Word s di _ x (bit_and-lt 32 (s.hart.gpr di.rs1) (sext di.imm 12) (x.hart.gpr di.rs1))
execute-Word Op.and di s f x =
    write_rd-Word s di _ x
      (bit_and-lt 32 (s.hart.gpr di.rs1) (s.hart.gpr di.rs2) (x.hart.gpr di.rs1))
execute-Word Op.slli di s f x =
    write_rd-Word s di _ x ((shifts-IsWord (s.hart.gpr di.rs1) di.imm (x.hart.gpr di.rs1)).0)
execute-Word Op.sll di s f x =
    write_rd-Word s di _ x
      ((shifts-IsWord (s.hart.gpr di.rs1) (s.hart.gpr di.rs2) (x.hart.gpr di.rs1)).0)
execute-Word Op.srli di s f x =
    write_rd-Word s di _ x ((shifts-IsWord (s.hart.gpr di.rs1) di.imm (x.hart.gpr di.rs1)).1)
execute-Word Op.srl di s f x =
    write_rd-Word s di _ x
      ((shifts-IsWord (s.hart.gpr di.rs1) (s.hart.gpr di.rs2) (x.hart.gpr di.rs1)).1)
execute-Word Op.srai di s f x =
    write_rd-Word s di _ x ((shifts-IsWord (s.hart.gpr di.rs1) di.imm (x.hart.gpr di.rs1)).2)
execute-Word Op.sra di s f x =
    write_rd-Word s di _ x
      ((shifts-IsWord (s.hart.gpr di.rs1) (s.hart.gpr di.rs2) (x.hart.gpr di.rs1)).2)
execute-Word Op.add di s f x =
    write_rd-Word s di _ x ((sums-IsWord (s.hart.gpr di.rs1) (s.hart.gpr di.rs2)).0)
execute-Word Op.sub di s f x =
    write_rd-Word s di _ x ((sums-IsWord (s.hart.gpr di.rs1) (s.hart.gpr di.rs2)).1)
execute-Word Op.mul di s f x =
    write_rd-Word s di _ x (mul-IsWord (s.hart.gpr di.rs1) (s.hart.gpr di.rs2))
execute-Word Op.mulh di s f x =
    write_rd-Word s di _ x ((high-IsWord (s.hart.gpr di.rs1) (s.hart.gpr di.rs2)).0)
execute-Word Op.mulhsu di s f x =
    write_rd-Word s di _ x ((high-IsWord (s.hart.gpr di.rs1) (s.hart.gpr di.rs2)).1)
execute-Word Op.mulhu di s f x =
    write_rd-Word s di _ x ((high-IsWord (s.hart.gpr di.rs1) (s.hart.gpr di.rs2)).2)
execute-Word Op.div di s f x =
    write_rd-Word s di _ x (div-IsWord (s.hart.gpr di.rs1) (s.hart.gpr di.rs2))
execute-Word Op.divu di s f x =
    write_rd-Word s di _ x (divu-IsWord (s.hart.gpr di.rs1) (s.hart.gpr di.rs2) (x.hart.gpr di.rs1))
execute-Word Op.rem di s f x =
    write_rd-Word s di _ x (rem-IsWord (s.hart.gpr di.rs1) (s.hart.gpr di.rs2) (x.hart.gpr di.rs1))
execute-Word Op.remu di s f x =
    write_rd-Word s di _ x (remu-IsWord (s.hart.gpr di.rs1) (s.hart.gpr di.rs2) (x.hart.gpr di.rs1))
execute-Word Op.fence di s f x = x
execute-Word Op.fence_i di s f x = x
execute-Word Op.csrrw di s f x = exec_csr-Word s di CsrOp.rw_op false f.rs1 x
execute-Word Op.csrrs di s f x = exec_csr-Word s di CsrOp.rs_op false f.rs1 x
execute-Word Op.csrrc di s f x = exec_csr-Word s di CsrOp.rc_op false f.rs1 x
execute-Word Op.csrrwi di s f x = exec_csr-Word s di CsrOp.rw_op true f.rs1 x
execute-Word Op.csrrsi di s f x = exec_csr-Word s di CsrOp.rs_op true f.rs1 x
execute-Word Op.csrrci di s f x = exec_csr-Word s di CsrOp.rc_op true f.rs1 x
execute-Word Op.ecall di s f x = exec_ecall-Word s x
execute-Word Op.mret di s f x = exec_mret-Word s x
execute-Word Op.ebreak di s f x = exec_illegal-Word s x
execute-Word Op.unknown di s f x = exec_illegal-Word s x
execute-Word Op.num di s f x = exec_illegal-Word s x
