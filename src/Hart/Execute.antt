-- ===== src/Hart/Execute.antt =====
-- The switch of `hart_step` over the decoded operation (src/hart.c).
use rve.Base.{
  ℕ, Bool, true, false, not, some, ltb, leb, ◌==◌, if◌then◌else◌, to_word, bit_and, bit_or, bit_xor,
}
use rve.Word.{add32, shl32, shr32, not32, signed_ltb, sext}
use rve.Decoder.Types.{Op, DecodedInstruction}
use rve.Hart.Types.{illegal_instr, instr_misaligned, ecall_m, set_gpr}
use rve.Hart.Csr.{CsrOp, csr_dispatch}
use rve.Hart.Arith.{
  add_word, sub_word, mul, mulh, mulhsu, mulhu, div, divu, rem, remu, sll, srl, sra,
}
use rve.Hart.Access.{Locals, misaligned, exec_branch, exec_load, exec_store}

-- `hart->gpr[di.rd] = v`
abbrev pub write_rd : Locals → DecodedInstruction → ℕ → Locals
write_rd s di v = record s { hart = set_gpr s.hart di.rd v }

-- `bad_pc = target; pending_trap = TRAP_INSTR_MISALIGNED` or the link and the jump.
unfoldable pub exec_jump : Locals → DecodedInstruction → ℕ → Locals
exec_jump s di target =
    if misaligned target
    then record s { bad_pc = target; pending_trap = some instr_misaligned }
    else record s { hart = set_gpr s.hart di.rd (add32 s.hart.pc 4); next_pc = target }

-- A CSR operation leaves its trap in `pending_trap`.
unfoldable pub exec_csr : Locals → DecodedInstruction → CsrOp → Bool → Locals
exec_csr s di op use_uimm =
    let (trap, hart') = csr_dispatch s.hart di op use_uimm in
    record s { hart = hart'; pending_trap = trap }

-- The record is filled and the PC moved here: `commit` returns at once on this trap.
unfoldable pub exec_ecall : Locals → Locals
exec_ecall s =
    let next = add32 s.hart.pc 4 in
    let hart' = set_gpr s.hart 0 0 in
    let r = s.r in
    record s {
      hart = record hart' { pc = next };
      r = record r { trap = some ecall_m; next_pc = next };
      pending_trap = some ecall_m;
    }

-- `mstatus` on MRET: MPIE goes to MIE, and MPIE is set.
unfoldable pub mret_mstatus : ℕ → ℕ
mret_mstatus mstatus =
    let mpie = bit_and (shr32 mstatus 7) 1 in
    bit_or (bit_or (bit_and mstatus (not32 0x8)) (shl32 mpie 3)) (shl32 1 7)

unfoldable pub exec_mret : Locals → Locals
unfolding mret_mstatus
exec_mret s =
    let hart = s.hart in
    let csr = hart.csr in
    record s {
      next_pc = csr.mepc;
      hart = record hart { csr = record csr { mstatus = mret_mstatus csr.mstatus } };
    }

abbrev pub exec_illegal : Locals → Locals
exec_illegal s = record s { pending_trap = some illegal_instr }

unfoldable pub execute : Op → DecodedInstruction → Locals → Locals
unfolding exec_jump exec_csr exec_ecall exec_mret exec_branch sll srl sra
execute Op.lui di s = write_rd s di di.imm
execute Op.auipc di s = write_rd s di (add32 s.hart.pc di.imm)
execute Op.jal di s = exec_jump s di (add32 s.hart.pc (sext di.imm 21))
execute Op.jalr di s =
    exec_jump s di (bit_and (add32 (s.hart.gpr di.rs1) (sext di.imm 12)) (not32 1))
execute Op.beq di s = exec_branch s di (s.hart.gpr di.rs1 == s.hart.gpr di.rs2)
execute Op.bne di s = exec_branch s di (not (s.hart.gpr di.rs1 == s.hart.gpr di.rs2))
execute Op.blt di s = exec_branch s di (signed_ltb (s.hart.gpr di.rs1) (s.hart.gpr di.rs2))
execute Op.bge di s = exec_branch s di (not (signed_ltb (s.hart.gpr di.rs1) (s.hart.gpr di.rs2)))
execute Op.bltu di s = exec_branch s di (ltb (s.hart.gpr di.rs1) (s.hart.gpr di.rs2))
execute Op.bgeu di s = exec_branch s di (leb (s.hart.gpr di.rs2) (s.hart.gpr di.rs1))
execute Op.lb di s = exec_load s di 8 true
execute Op.lh di s = exec_load s di 16 true
execute Op.lw di s = exec_load s di 32 true
execute Op.lbu di s = exec_load s di 8 false
execute Op.lhu di s = exec_load s di 16 false
execute Op.sb di s = exec_store s di 8 0x0000_00FF
execute Op.sh di s = exec_store s di 16 0x0000_FFFF
execute Op.sw di s = exec_store s di 32 0xFFFF_FFFF
execute Op.addi di s = write_rd s di (add32 (s.hart.gpr di.rs1) (sext di.imm 12))
execute Op.slti di s = write_rd s di (to_word (signed_ltb (s.hart.gpr di.rs1) (sext di.imm 12)))
execute Op.sltiu di s = write_rd s di (to_word (ltb (s.hart.gpr di.rs1) (sext di.imm 12)))
execute Op.xori di s = write_rd s di (bit_xor (s.hart.gpr di.rs1) (sext di.imm 12))
execute Op.ori di s = write_rd s di (bit_or (s.hart.gpr di.rs1) (sext di.imm 12))
execute Op.andi di s = write_rd s di (bit_and (s.hart.gpr di.rs1) (sext di.imm 12))
execute Op.slli di s = write_rd s di (sll (s.hart.gpr di.rs1) di.imm)
execute Op.srli di s = write_rd s di (srl (s.hart.gpr di.rs1) di.imm)
execute Op.srai di s = write_rd s di (sra (s.hart.gpr di.rs1) di.imm)
execute Op.add di s = write_rd s di (add_word (s.hart.gpr di.rs1) (s.hart.gpr di.rs2))
execute Op.sub di s = write_rd s di (sub_word (s.hart.gpr di.rs1) (s.hart.gpr di.rs2))
execute Op.sll di s = write_rd s di (sll (s.hart.gpr di.rs1) (s.hart.gpr di.rs2))
execute Op.slt di s = write_rd s di (to_word (signed_ltb (s.hart.gpr di.rs1) (s.hart.gpr di.rs2)))
execute Op.sltu di s = write_rd s di (to_word (ltb (s.hart.gpr di.rs1) (s.hart.gpr di.rs2)))
execute Op.xor di s = write_rd s di (bit_xor (s.hart.gpr di.rs1) (s.hart.gpr di.rs2))
execute Op.srl di s = write_rd s di (srl (s.hart.gpr di.rs1) (s.hart.gpr di.rs2))
execute Op.sra di s = write_rd s di (sra (s.hart.gpr di.rs1) (s.hart.gpr di.rs2))
execute Op.or di s = write_rd s di (bit_or (s.hart.gpr di.rs1) (s.hart.gpr di.rs2))
execute Op.and di s = write_rd s di (bit_and (s.hart.gpr di.rs1) (s.hart.gpr di.rs2))
execute Op.mul di s = write_rd s di (mul (s.hart.gpr di.rs1) (s.hart.gpr di.rs2))
execute Op.mulh di s = write_rd s di (mulh (s.hart.gpr di.rs1) (s.hart.gpr di.rs2))
execute Op.mulhsu di s = write_rd s di (mulhsu (s.hart.gpr di.rs1) (s.hart.gpr di.rs2))
execute Op.mulhu di s = write_rd s di (mulhu (s.hart.gpr di.rs1) (s.hart.gpr di.rs2))
execute Op.div di s = write_rd s di (div (s.hart.gpr di.rs1) (s.hart.gpr di.rs2))
execute Op.divu di s = write_rd s di (divu (s.hart.gpr di.rs1) (s.hart.gpr di.rs2))
execute Op.rem di s = write_rd s di (rem (s.hart.gpr di.rs1) (s.hart.gpr di.rs2))
execute Op.remu di s = write_rd s di (remu (s.hart.gpr di.rs1) (s.hart.gpr di.rs2))
execute Op.fence di s = s
execute Op.fence_i di s = s
execute Op.csrrw di s = exec_csr s di CsrOp.rw_op false
execute Op.csrrs di s = exec_csr s di CsrOp.rs_op false
execute Op.csrrc di s = exec_csr s di CsrOp.rc_op false
execute Op.csrrwi di s = exec_csr s di CsrOp.rw_op true
execute Op.csrrsi di s = exec_csr s di CsrOp.rs_op true
execute Op.csrrci di s = exec_csr s di CsrOp.rc_op true
execute Op.ecall di s = exec_ecall s
execute Op.mret di s = exec_mret s
execute Op.ebreak di s = exec_illegal s
execute Op.unknown di s = exec_illegal s
execute Op.num di s = exec_illegal s
