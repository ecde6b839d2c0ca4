-- ===== src/Decoder/Print.antt =====
-- The text of an instruction: `rve_decoded_format_to_buffer` of src/decoder.c.
pub mod Fits
pub mod Short
pub mod Stored
use Prim.Native.String.{String}
use rve.Base.{
  ℕ, ◌/◌, ◌-◌, ◌%◌, ◌^◌, Bool, false, true, not, Option, none, some, [], ◌∷◌, ◌==◌, if◌then◌else◌,
  bit_and,
}
use rve.Text.{Bytes, Piece, lit, str, str_left, dec, udec, hex, hex_caps, codes, printf}
use rve.Text.Buffer.{snprintf}
use rve.Word.{shr32}
use rve.Decoder.Types.{Format, Op, DecodedInstruction}
use rve.Decoder.Names.{op_number, get_abi_name, rve_instruction_format_to_cstr}

-- `"%-8s"` of a mnemonic.
abbrev mnemonic : String → Piece
mnemonic name = str_left 8 (codes name)

abbrev reg : ℕ → Piece
reg i = str (codes (get_abi_name i))

-- What the cases of one group print.
unfoldable pub upper_text : String → DecodedInstruction → Bytes
upper_text name di =
    printf (mnemonic name ∷ lit " " ∷ reg di.rd ∷ lit ", 0x" ∷ hex 0 (shr32 di.imm 12) ∷ [])

unfoldable pub jump_text : String → DecodedInstruction → Bytes
jump_text name di = printf (mnemonic name ∷ lit " " ∷ reg di.rd ∷ lit ", " ∷ dec di.imm ∷ [])

unfoldable pub load_text : String → DecodedInstruction → Bytes
load_text name di = printf (
    mnemonic name
    ∷ lit " "
    ∷ reg di.rd
    ∷ lit ", "
    ∷ dec di.imm
    ∷ lit "("
    ∷ reg di.rs1
    ∷ lit ")"
    ∷ [])

unfoldable pub store_text : String → DecodedInstruction → Bytes
store_text name di = printf (
    mnemonic name
    ∷ lit " "
    ∷ reg di.rs2
    ∷ lit ", "
    ∷ dec di.imm
    ∷ lit "("
    ∷ reg di.rs1
    ∷ lit ")"
    ∷ [])

unfoldable pub branch_text : String → DecodedInstruction → Bytes
branch_text name di =
    printf
      (mnemonic name ∷ lit " " ∷ reg di.rs1 ∷ lit ", " ∷ reg di.rs2 ∷ lit ", " ∷ dec di.imm ∷ [])

unfoldable pub op_imm_text : String → DecodedInstruction → Bytes
op_imm_text name di =
    printf
      (mnemonic name ∷ lit " " ∷ reg di.rd ∷ lit ", " ∷ reg di.rs1 ∷ lit ", " ∷ dec di.imm ∷ [])

unfoldable pub sltiu_text : String → DecodedInstruction → Bytes
sltiu_text name di =
    printf
      (mnemonic name ∷ lit " " ∷ reg di.rd ∷ lit ", " ∷ reg di.rs1 ∷ lit ", " ∷ udec di.imm ∷ [])

unfoldable pub shift_text : String → DecodedInstruction → Bytes
shift_text name di = printf (
    mnemonic name
    ∷ lit " "
    ∷ reg di.rd
    ∷ lit ", "
    ∷ reg di.rs1
    ∷ lit ", "
    ∷ udec (bit_and di.imm 0x1F)
    ∷ [])

unfoldable pub op_text : String → DecodedInstruction → Bytes
op_text name di =
    printf
      (mnemonic name ∷ lit " " ∷ reg di.rd ∷ lit ", " ∷ reg di.rs1 ∷ lit ", " ∷ reg di.rs2 ∷ [])

unfoldable pub plain_text : String → DecodedInstruction → Bytes
plain_text name di = printf (mnemonic name ∷ [])

unfoldable pub csr_text : String → DecodedInstruction → Bytes
csr_text name di = printf (
    mnemonic name
    ∷ lit " "
    ∷ reg di.rd
    ∷ lit ", 0x"
    ∷ hex 3 (bit_and di.imm 0xFFF)
    ∷ lit ", "
    ∷ reg di.rs1
    ∷ [])

unfoldable pub csr_imm_text : String → DecodedInstruction → Bytes
csr_imm_text name di = printf (
    mnemonic name
    ∷ lit " "
    ∷ reg di.rd
    ∷ lit ", 0x"
    ∷ hex 3 (bit_and di.imm 0xFFF)
    ∷ lit ", "
    ∷ udec di.rs1
    ∷ [])

unfoldable pub unhandled_text : DecodedInstruction → Bytes
unhandled_text di = printf (
    lit "<unhandled valid op: "
    ∷ dec (op_number di.op)
    ∷ lit " format: "
    ∷ str (codes (rve_instruction_format_to_cstr di.format))
    ∷ lit ">"
    ∷ [])

unfoldable pub invalid_text : DecodedInstruction → Bytes
invalid_text di =
    printf (lit "<invalid instruction: 0x" ∷ hex_caps 8 di.original_instruction ∷ lit ">" ∷ [])

-- The switch over the operation; the operations of the M extension have no case.
unfoldable pub text_by_op : Op → DecodedInstruction → Bytes
text_by_op Op.lui di = upper_text "lui" di
text_by_op Op.auipc di = upper_text "auipc" di
text_by_op Op.jal di = jump_text "jal" di
text_by_op Op.jalr di = load_text "jalr" di
text_by_op Op.beq di = branch_text "beq" di
text_by_op Op.bne di = branch_text "bne" di
text_by_op Op.blt di = branch_text "blt" di
text_by_op Op.bge di = branch_text "bge" di
text_by_op Op.bltu di = branch_text "bltu" di
text_by_op Op.bgeu di = branch_text "bgeu" di
text_by_op Op.lb di = load_text "lb" di
text_by_op Op.lh di = load_text "lh" di
text_by_op Op.lw di = load_text "lw" di
text_by_op Op.lbu di = load_text "lbu" di
text_by_op Op.lhu di = load_text "lhu" di
text_by_op Op.sb di = store_text "sb" di
text_by_op Op.sh di = store_text "sh" di
text_by_op Op.sw di = store_text "sw" di
text_by_op Op.addi di = op_imm_text "addi" di
text_by_op Op.slti di = op_imm_text "slti" di
text_by_op Op.sltiu di = sltiu_text "sltiu" di
text_by_op Op.xori di = op_imm_text "xori" di
text_by_op Op.ori di = op_imm_text "ori" di
text_by_op Op.andi di = op_imm_text "andi" di
text_by_op Op.slli di = shift_text "slli" di
text_by_op Op.srli di = shift_text "srli" di
text_by_op Op.srai di = shift_text "srai" di
text_by_op Op.add di = op_text "add" di
text_by_op Op.sub di = op_text "sub" di
text_by_op Op.sll di = op_text "sll" di
text_by_op Op.slt di = op_text "slt" di
text_by_op Op.sltu di = op_text "sltu" di
text_by_op Op.xor di = op_text "xor" di
text_by_op Op.srl di = op_text "srl" di
text_by_op Op.sra di = op_text "sra" di
text_by_op Op.or di = op_text "or" di
text_by_op Op.and di = op_text "and" di
text_by_op Op.fence di = plain_text "fence" di
text_by_op Op.fence_i di = plain_text "fence.i" di
text_by_op Op.ecall di = plain_text "ecall" di
text_by_op Op.ebreak di = plain_text "ebreak" di
text_by_op Op.csrrw di = csr_text "csrrw" di
text_by_op Op.csrrs di = csr_text "csrrs" di
text_by_op Op.csrrc di = csr_text "csrrc" di
text_by_op Op.csrrwi di = csr_imm_text "csrrwi" di
text_by_op Op.csrrsi di = csr_imm_text "csrrsi" di
text_by_op Op.csrrci di = csr_imm_text "csrrci" di
text_by_op Op.mret di = plain_text "mret" di
text_by_op Op.unknown di = printf (lit "<internal error: should be invalid>" ∷ [])
text_by_op Op.num di = printf (lit "<internal error: OP_NUM>" ∷ [])
text_by_op _ di = unhandled_text di

-- What the function prints of an instruction.
unfoldable pub instruction_text : DecodedInstruction → Bytes
instruction_text di = if di.valid then text_by_op di.op di else invalid_text di

-- `buffer[0] = '\0'`
abbrev pub cleared : (ℕ → ℕ) → ℕ → ℕ
cleared buffer j = if j == 0 then 0 else buffer j

-- The result and the buffer; `none` stands for the result -1, and for a NULL pointer.
unfoldable pub rve_decoded_format_to_buffer :
    Option DecodedInstruction → Option (ℕ → ℕ) → ℕ → Option ℕ × Option (ℕ → ℕ)
rve_decoded_format_to_buffer di none size = (none, none)
rve_decoded_format_to_buffer none (some buffer) size =
    (none, some (if size == 0 then buffer else cleared buffer))
rve_decoded_format_to_buffer (some di) (some buffer) size =
    if size == 0
    then (none, some buffer)
    else let (count, buffer') = snprintf size (instruction_text di) (cleared buffer) in
      (some count, some buffer')
