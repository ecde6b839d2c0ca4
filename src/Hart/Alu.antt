-- ===== src/Hart/Alu.antt =====
-- The arithmetic instructions as the switch of src/hart.c runs them: the operation of the manual and
-- the second operand of each, and what the instruction leaves.
use rve.Base.{ℕ, ◌%◌, ◌≡◌, ap}
use rve.Word.{IsWord, to_u32}
use rve.Word.Laws.{extend, sext_12}
use rve.Decoder.Types.{Op, DecodedInstruction}
use rve.Hart.Access.{Locals}
use rve.Hart.Execute.{write_rd, execute}
use rve.Hart.Manual.{
  manual, add-manual, addi-manual, sub-manual, sll-manual, slt-manual, sltu-manual, xor-manual,
  srl-manual, sra-manual, or-manual, and-manual, mul-manual, mulh-manual, mulhsu-manual,
  mulhu-manual, div-manual, divu-manual, rem-manual, remu-manual,
}

-- Where the second operand comes from.
pub data Operand : Type 0 where
  register immediate shift_amount : Operand

unfoldable pub operand : Operand → DecodedInstruction → (ℕ → ℕ) → ℕ
operand Operand.register di gpr = gpr di.rs2
operand Operand.immediate di gpr = extend 0x800 (di.imm % 0x1000)
operand Operand.shift_amount di gpr = di.imm

-- The instructions of the unit, each with its operation and its second operand.
pub data Alu : Op → Op → Operand → Type 0 where
  add_form : Alu Op.add Op.add Operand.register
  sub_form : Alu Op.sub Op.sub Operand.register
  sll_form : Alu Op.sll Op.sll Operand.register
  slt_form : Alu Op.slt Op.slt Operand.register
  sltu_form : Alu Op.sltu Op.sltu Operand.register
  xor_form : Alu Op.xor Op.xor Operand.register
  srl_form : Alu Op.srl Op.srl Operand.register
  sra_form : Alu Op.sra Op.sra Operand.register
  or_form : Alu Op.or Op.or Operand.register
  and_form : Alu Op.and Op.and Operand.register
  mul_form : Alu Op.mul Op.mul Operand.register
  mulh_form : Alu Op.mulh Op.mulh Operand.register
  mulhsu_form : Alu Op.mulhsu Op.mulhsu Operand.register
  mulhu_form : Alu Op.mulhu Op.mulhu Operand.register
  div_form : Alu Op.div Op.div Operand.register
  divu_form : Alu Op.divu Op.divu Operand.register
  rem_form : Alu Op.rem Op.rem Operand.register
  remu_form : Alu Op.remu Op.remu Operand.register
  addi_form : Alu Op.addi Op.add Operand.immediate
  slti_form : Alu Op.slti Op.slt Operand.immediate
  sltiu_form : Alu Op.sltiu Op.sltu Operand.immediate
  xori_form : Alu Op.xori Op.xor Operand.immediate
  ori_form : Alu Op.ori Op.or Operand.immediate
  andi_form : Alu Op.andi Op.and Operand.immediate
  slli_form : Alu Op.slli Op.sll Operand.shift_amount
  srli_form : Alu Op.srli Op.srl Operand.shift_amount
  srai_form : Alu Op.srai Op.sra Operand.shift_amount

-- What an instruction of the unit leaves.
module _ (di : DecodedInstruction) (s : Locals) (h : IsWord (s.hart.gpr di.rs1)) where
  execute-register :
      IsWord (s.hart.gpr di.rs2)
      → (op code : Op) → Alu op code Operand.register
      → execute op di s
        ≡ write_rd s di
            (to_u32 (manual code (s.hart.gpr di.rs1) (operand Operand.register di s.hart.gpr)))
  unfolding execute operand
  execute-register g _ _ add_form =
      ap (write_rd s di) (add-manual (s.hart.gpr di.rs1) (s.hart.gpr di.rs2) h g)
  execute-register g _ _ sub_form =
      ap (write_rd s di) (sub-manual (s.hart.gpr di.rs1) (s.hart.gpr di.rs2) h g)
  execute-register g _ _ sll_form =
      ap (write_rd s di) (sll-manual (s.hart.gpr di.rs1) (s.hart.gpr di.rs2) h g)
  execute-register g _ _ slt_form =
      ap (write_rd s di) (slt-manual (s.hart.gpr di.rs1) (s.hart.gpr di.rs2) h g)
  execute-register g _ _ sltu_form =
      ap (write_rd s di) (sltu-manual (s.hart.gpr di.rs1) (s.hart.gpr di.rs2) h g)
  execute-register g _ _ xor_form =
      ap (write_rd s di) (xor-manual (s.hart.gpr di.rs1) (s.hart.gpr di.rs2) h g)
  execute-register g _ _ srl_form =
      ap (write_rd s di) (srl-manual (s.hart.gpr di.rs1) (s.hart.gpr di.rs2) h g)
  execute-register g _ _ sra_form =
      ap (write_rd s di) (sra-manual (s.hart.gpr di.rs1) (s.hart.gpr di.rs2) h g)
  execute-register g _ _ or_form =
      ap (write_rd s di) (or-manual (s.hart.gpr di.rs1) (s.hart.gpr di.rs2) h g)
  execute-register g _ _ and_form =
      ap (write_rd s di) (and-manual (s.hart.gpr di.rs1) (s.hart.gpr di.rs2) h g)
  execute-register g _ _ mul_form =
      ap (write_rd s di) (mul-manual (s.hart.gpr di.rs1) (s.hart.gpr di.rs2) h g)
  execute-register g _ _ mulh_form =
      ap (write_rd s di) (mulh-manual (s.hart.gpr di.rs1) (s.hart.gpr di.rs2) h g)
  execute-register g _ _ mulhsu_form =
      ap (write_rd s di) (mulhsu-manual (s.hart.gpr di.rs1) (s.hart.gpr di.rs2) h g)
  execute-register g _ _ mulhu_form =
      ap (write_rd s di) (mulhu-manual (s.hart.gpr di.rs1) (s.hart.gpr di.rs2) h g)
  execute-register g _ _ div_form =
      ap (write_rd s di) (div-manual (s.hart.gpr di.rs1) (s.hart.gpr di.rs2) h g)
  execute-register g _ _ divu_form =
      ap (write_rd s di) (divu-manual (s.hart.gpr di.rs1) (s.hart.gpr di.rs2) h g)
  execute-register g _ _ rem_form =
      ap (write_rd s di) (rem-manual (s.hart.gpr di.rs1) (s.hart.gpr di.rs2) h g)
  execute-register g _ _ remu_form =
      ap (write_rd s di) (remu-manual (s.hart.gpr di.rs1) (s.hart.gpr di.rs2) h g)

  execute-immediate :
      (op code : Op)
      → Alu op code Operand.immediate
      → IsWord (extend 0x800 (di.imm % 0x1000))
      → execute op di s
        ≡ write_rd s di
            (to_u32 (manual code (s.hart.gpr di.rs1) (operand Operand.immediate di s.hart.gpr)))
  unfolding execute operand
  execute-immediate _ _ addi_form g =
      rw (sext_12 di.imm)
        (ap (write_rd s di) (addi-manual (s.hart.gpr di.rs1) (extend 0x800 (di.imm % 0x1000)) h g))
  execute-immediate _ _ slti_form g =
      rw (sext_12 di.imm)
        (ap (write_rd s di) (slt-manual (s.hart.gpr di.rs1) (extend 0x800 (di.imm % 0x1000)) h g))
  execute-immediate _ _ sltiu_form g =
      rw (sext_12 di.imm)
        (ap (write_rd s di) (sltu-manual (s.hart.gpr di.rs1) (extend 0x800 (di.imm % 0x1000)) h g))
  execute-immediate _ _ xori_form g =
      rw (sext_12 di.imm)
        (ap (write_rd s di) (xor-manual (s.hart.gpr di.rs1) (extend 0x800 (di.imm % 0x1000)) h g))
  execute-immediate _ _ ori_form g =
      rw (sext_12 di.imm)
        (ap (write_rd s di) (or-manual (s.hart.gpr di.rs1) (extend 0x800 (di.imm % 0x1000)) h g))
  execute-immediate _ _ andi_form g =
      rw (sext_12 di.imm)
        (ap (write_rd s di) (and-manual (s.hart.gpr di.rs1) (extend 0x800 (di.imm % 0x1000)) h g))

  execute-shift :
      (op code : Op)
      → Alu op code Operand.shift_amount
      → IsWord di.imm
      → execute op di s
        ≡ write_rd s di
            (to_u32 (manual code (s.hart.gpr di.rs1) (operand Operand.shift_amount di s.hart.gpr)))
  unfolding execute operand
  execute-shift _ _ slli_form g = ap (write_rd s di) (sll-manual (s.hart.gpr di.rs1) di.imm h g)
  execute-shift _ _ srli_form g = ap (write_rd s di) (srl-manual (s.hart.gpr di.rs1) di.imm h g)
  execute-shift _ _ srai_form g = ap (write_rd s di) (sra-manual (s.hart.gpr di.rs1) di.imm h g)

  pub execute-Manual :
      (op code : Op) (k : Operand)
      → Alu op code k
      → IsWord (operand k di s.hart.gpr)
      → execute op di s
        ≡ write_rd s di (to_u32 (manual code (s.hart.gpr di.rs1) (operand k di s.hart.gpr)))
  unfolding operand
  execute-Manual op code Operand.register f g = execute-register g op code f
  execute-Manual op code Operand.immediate f g = execute-immediate op code f g
  execute-Manual op code Operand.shift_amount f g = execute-shift op code f g
