-- ===== src/Decoder/Print/Short.antt =====
-- The text of every instruction that the decoder gives is shorter than the buffers of 64 bytes that
-- it is printed into (src/decoder.c, `rve_decoded_format_to_buffer`, and src/main.c).
use rve.Base.{ℕ, ◌≡◌, ◌≤◌, arith, length, if-elim}
use rve.Word.{IsWord}
use rve.Text.{Bytes, printf, show}
use rve.Decoder.Types.{Op, DecodedInstruction, zeroed}
use rve.Decoder.Fields.{get_opcode}
use rve.Decoder.Formats.{
  decode_instruction_u, decode_instruction_j, decode_instruction_b, decode_instruction_s,
}
use rve.Decoder.RType.{decode_instruction_r}
use rve.Decoder.IType.{decode_instruction_i}
use rve.Decoder.Decode.{rve_decode_instruction}
use rve.Decoder.Words.{WordFields, decode-WordFields}
use rve.Decoder.Print.{text_by_op, instruction_text}
use rve.Decoder.Print.Fits.{
  branch_text-length, csr_imm_text-length, csr_text-length, invalid_text-length, jump_text-length,
  load_text-length, op_imm_text-length, op_text-length, plain_text-length, shift_text-length,
  sltiu_text-length, store_text-length, unhandled_text-length, upper_text-length,
}

text_by_op-length :
    (op : Op) (di : DecodedInstruction) → WordFields di → length (text_by_op op di) ≤ 63
unfolding text_by_op printf show
text_by_op-length Op.unknown di f = omega arith
text_by_op-length Op.lui di f = upper_text-length "lui" di (omega arith) f
text_by_op-length Op.auipc di f = upper_text-length "auipc" di (omega arith) f
text_by_op-length Op.jal di f = jump_text-length "jal" di (omega arith) f
text_by_op-length Op.jalr di f = load_text-length "jalr" di (omega arith) f
text_by_op-length Op.beq di f = branch_text-length "beq" di (omega arith) f
text_by_op-length Op.bne di f = branch_text-length "bne" di (omega arith) f
text_by_op-length Op.blt di f = branch_text-length "blt" di (omega arith) f
text_by_op-length Op.bge di f = branch_text-length "bge" di (omega arith) f
text_by_op-length Op.bltu di f = branch_text-length "bltu" di (omega arith) f
text_by_op-length Op.bgeu di f = branch_text-length "bgeu" di (omega arith) f
text_by_op-length Op.lb di f = load_text-length "lb" di (omega arith) f
text_by_op-length Op.lh di f = load_text-length "lh" di (omega arith) f
text_by_op-length Op.lw di f = load_text-length "lw" di (omega arith) f
text_by_op-length Op.lbu di f = load_text-length "lbu" di (omega arith) f
text_by_op-length Op.lhu di f = load_text-length "lhu" di (omega arith) f
text_by_op-length Op.sb di f = store_text-length "sb" di (omega arith) f
text_by_op-length Op.sh di f = store_text-length "sh" di (omega arith) f
text_by_op-length Op.sw di f = store_text-length "sw" di (omega arith) f
text_by_op-length Op.addi di f = op_imm_text-length "addi" di (omega arith) f
text_by_op-length Op.slti di f = op_imm_text-length "slti" di (omega arith) f
text_by_op-length Op.sltiu di f = sltiu_text-length "sltiu" di (omega arith) f
text_by_op-length Op.xori di f = op_imm_text-length "xori" di (omega arith) f
text_by_op-length Op.ori di f = op_imm_text-length "ori" di (omega arith) f
text_by_op-length Op.andi di f = op_imm_text-length "andi" di (omega arith) f
text_by_op-length Op.slli di f = shift_text-length "slli" di (omega arith) f
text_by_op-length Op.srli di f = shift_text-length "srli" di (omega arith) f
text_by_op-length Op.srai di f = shift_text-length "srai" di (omega arith) f
text_by_op-length Op.add di f = op_text-length "add" di (omega arith) f
text_by_op-length Op.sub di f = op_text-length "sub" di (omega arith) f
text_by_op-length Op.sll di f = op_text-length "sll" di (omega arith) f
text_by_op-length Op.slt di f = op_text-length "slt" di (omega arith) f
text_by_op-length Op.sltu di f = op_text-length "sltu" di (omega arith) f
text_by_op-length Op.xor di f = op_text-length "xor" di (omega arith) f
text_by_op-length Op.srl di f = op_text-length "srl" di (omega arith) f
text_by_op-length Op.sra di f = op_text-length "sra" di (omega arith) f
text_by_op-length Op.or di f = op_text-length "or" di (omega arith) f
text_by_op-length Op.and di f = op_text-length "and" di (omega arith) f
text_by_op-length Op.fence di f = plain_text-length "fence" di (omega arith) f
text_by_op-length Op.fence_i di f = plain_text-length "fence.i" di (omega arith) f
text_by_op-length Op.ecall di f = plain_text-length "ecall" di (omega arith) f
text_by_op-length Op.ebreak di f = plain_text-length "ebreak" di (omega arith) f
text_by_op-length Op.mret di f = plain_text-length "mret" di (omega arith) f
text_by_op-length Op.mul di f = unhandled_text-length di
text_by_op-length Op.mulh di f = unhandled_text-length di
text_by_op-length Op.mulhsu di f = unhandled_text-length di
text_by_op-length Op.mulhu di f = unhandled_text-length di
text_by_op-length Op.div di f = unhandled_text-length di
text_by_op-length Op.divu di f = unhandled_text-length di
text_by_op-length Op.rem di f = unhandled_text-length di
text_by_op-length Op.remu di f = unhandled_text-length di
text_by_op-length Op.csrrw di f = csr_text-length "csrrw" di (omega arith) f
text_by_op-length Op.csrrs di f = csr_text-length "csrrs" di (omega arith) f
text_by_op-length Op.csrrc di f = csr_text-length "csrrc" di (omega arith) f
text_by_op-length Op.csrrwi di f = csr_imm_text-length "csrrwi" di (omega arith) f
text_by_op-length Op.csrrsi di f = csr_imm_text-length "csrrsi" di (omega arith) f
text_by_op-length Op.csrrci di f = csr_imm_text-length "csrrci" di (omega arith) f
text_by_op-length Op.num di f = omega arith

pub instruction_text-length :
    (di : DecodedInstruction)
    → WordFields di
    → IsWord di.original_instruction
    → length (instruction_text di) ≤ 63
unfolding instruction_text
instruction_text-length di f h =
    if-elim (λ (s : Bytes). length s ≤ 63) di.valid (λ _. text_by_op-length di.op di f)
      (λ _. invalid_text-length di h)

-- The decoder keeps the word.
word_u :
    (di : DecodedInstruction) (w opcode : ℕ)
    → (decode_instruction_u di w opcode).original_instruction ≡ di.original_instruction
unfolding decode_instruction_u
word_u di w opcode = ground arith

word_j :
    (di : DecodedInstruction) (w opcode : ℕ)
    → (decode_instruction_j di w opcode).original_instruction ≡ di.original_instruction
unfolding decode_instruction_j
word_j di w opcode = ground arith

word_b :
    (di : DecodedInstruction) (w opcode : ℕ)
    → (decode_instruction_b di w opcode).original_instruction ≡ di.original_instruction
unfolding decode_instruction_b
word_b di w opcode = ground arith

word_s :
    (di : DecodedInstruction) (w opcode : ℕ)
    → (decode_instruction_s di w opcode).original_instruction ≡ di.original_instruction
unfolding decode_instruction_s
word_s di w opcode = ground arith

word_r :
    (di : DecodedInstruction) (w opcode : ℕ)
    → (decode_instruction_r di w opcode).original_instruction ≡ di.original_instruction
unfolding decode_instruction_r
word_r di w opcode = ground arith

word_i :
    (di : DecodedInstruction) (w opcode : ℕ)
    → (decode_instruction_i di w opcode).original_instruction ≡ di.original_instruction
unfolding decode_instruction_i
word_i di w opcode = ground arith

decode-original_instruction : (w : ℕ) → (rve_decode_instruction w).original_instruction ≡ w
unfolding rve_decode_instruction
decode-original_instruction w =
    let di = record zeroed { original_instruction = w } in
    let o = get_opcode w in
    ground (
      arith,
      word_u di w o,
      word_j di w o,
      word_b di w o,
      word_s di w o,
      word_r di w o,
      word_i di w o,
    )

pub decoded_text-length :
    (w : ℕ) → IsWord w → length (instruction_text (rve_decode_instruction w)) ≤ 63
decoded_text-length w h =
    instruction_text-length (rve_decode_instruction w) (decode-WordFields w h)
      (omega (arith, decode-original_instruction w))
