-- ===== src/Decoder/RoundTrip.antt =====
-- Decoding what the manual's tables encode.
use rve.Base.{◌+◌, ◌*◌, ◌/◌, ◌%◌, ◌^◌, ◌<◌, ◌≡◌, refl, arith, ℕ, ◌==◌, false, some}
use rve.Word.Laws.{extend}
use rve.Decoder.Types.{Op}
use rve.Decoder.Fields.{
  get_opcode, get_rd, get_funct3, get_rs1, get_rs2, get_shamt, get_funct7, get_imm_i, get_imm_s,
  get_imm_u, get_imm_j, get_imm_b,
}
use rve.Decoder.Fields.Laws.{
  get_opcode_lem, get_rd_lem, get_funct3_lem, get_rs1_lem, get_rs2_lem, get_funct7_lem,
  get_imm_i_lem, get_imm_s_lem, get_imm_u_lem, get_imm_j_lem, get_imm_b_lem,
}
use rve.Decoder.Formats.{
  b_op, s_op, decode_instruction_u, decode_instruction_j, decode_instruction_b,
  decode_instruction_s,
}
use rve.Decoder.IType.{
  load_op, op_imm_op, right_op, misc_mem_op, csr_op, decode_op_imm, decode_srli_srai,
  decode_instruction_i,
}
use rve.Decoder.RType.{r_op, decode_instruction_r}
use rve.Decoder.Decode.{rve_decode_instruction}
use rve.Decoder.Encoding.{Encoding, Operands, encoding, pack, pack_i, assemble, IsOperands, decoded}

-- The fields of a packed word.
pack_fields :
    (f7 rs2 rs1 f3 rd opcode : ℕ)
    → f7 < 128
    → rs2 < 32
    → rs1 < 32
    → f3 < 8
    → rd < 32
    → opcode < 128
    → let w : ℕ = pack f7 rs2 rs1 f3 rd opcode in
      (get_opcode w ≡ opcode)
      × (get_rd w ≡ rd)
      × (get_funct3 w ≡ f3)
      × (get_rs1 w ≡ rs1)
      × (get_rs2 w ≡ rs2)
      × (get_funct7 w ≡ f7)
      × (w < 2 ^ 32)
pack_fields f7 rs2 rs1 f3 rd opcode h7 h2 h1 h3 hd ho =
    let w : ℕ = pack f7 rs2 rs1 f3 rd opcode in
    omega (
      arith,
      get_opcode_lem w,
      get_rd_lem w,
      get_funct3_lem w,
      get_rs1_lem w,
      get_rs2_lem w,
      get_funct7_lem w,
    )

-- The fields of a word with a twelve-bit immediate on top.
pack_i_fields :
    (imm rs1 f3 rd opcode : ℕ)
    → rs1 < 32
    → f3 < 8
    → rd < 32
    → opcode < 128
    → imm ≡ extend 0x800 (imm % 0x1000)
    → let w : ℕ = pack_i imm rs1 f3 rd opcode in
      (get_opcode w ≡ opcode)
      × (get_rd w ≡ rd)
      × (get_funct3 w ≡ f3)
      × (get_rs1 w ≡ rs1)
      × (get_imm_i w ≡ imm)
pack_i_fields imm rs1 f3 rd opcode h1 h3 hd ho hi =
    let w : ℕ = pack_i imm rs1 f3 rd opcode in
    (
      omega (arith, get_opcode_lem w),
      omega (arith, get_rd_lem w),
      omega (arith, get_funct3_lem w),
      omega (arith, get_rs1_lem w),
      ground (arith, get_imm_i_lem w (omega arith)),
    )

-- What the theorem asks of an operation, its operands and an encoding.
abbrev Decodes : Op → Operands → Encoding → Type 0
Decodes op o e = rve_decode_instruction (assemble e o) ≡ decoded op e o (assemble e o)

-- R: the two inner switches are `r_op`.
r_case :
    (op : Op) (f3 f7 : ℕ) (o : Operands)
    → IsOperands (Encoding.r_enc 0b0110011 f3 f7) o
    → f3 < 8
    → f7 < 128
    → r_op f7 f3 ≡ some op
    → Decodes op o (Encoding.r_enc 0b0110011 f3 f7)
unfolding rve_decode_instruction decode_instruction_r assemble
r_case op f3 f7 o h h3 h7 e =
    let (e0, e1, e2, e3, e4, e5, fits) =
      pack_fields f7 o.rs2 o.rs1 f3 o.rd 0b0110011 h7 h.2 h.1 h3 h.0 (omega arith) in
    rw (e0, e1, e2, e3, e4, e5, e)

-- B and S: the switch on funct3, and then the immediate.
b_case :
    (op : Op) (f3 : ℕ) (o : Operands)
    → IsOperands (Encoding.b_enc f3) o
    → f3 < 8
    → b_op f3 ≡ some op
    → Decodes op o (Encoding.b_enc f3)
unfolding rve_decode_instruction decode_instruction_b assemble
b_case op f3 o h h3 e =
    let w : ℕ = assemble (Encoding.b_enc f3) o in
    let (e0, e5, e1, e2, e3, e6, fits) =
      pack_fields (o.imm / 2 ^ 12 % 2 * 2 ^ 6 + o.imm / 2 ^ 5 % 2 ^ 6) o.rs2 o.rs1 f3
        (o.imm / 2 % 2 ^ 4 * 2 + o.imm / 2 ^ 11 % 2) 0b1100011 (omega arith) h.2 h.1 h3
        (omega arith) (omega arith) in
    let e4 : get_imm_b w ≡ o.imm = ground (arith, get_imm_b_lem w) in rw (e0, e1, e2, e3, e4, e)

s_case :
    (op : Op) (f3 : ℕ) (o : Operands)
    → IsOperands (Encoding.s_enc f3) o
    → f3 < 8
    → s_op f3 ≡ some op
    → Decodes op o (Encoding.s_enc f3)
unfolding rve_decode_instruction decode_instruction_s assemble
s_case op f3 o h h3 e =
    let w : ℕ = assemble (Encoding.s_enc f3) o in
    let (e0, e5, e1, e2, e3, e6, fits) =
      pack_fields (o.imm / 2 ^ 5 % 2 ^ 7) o.rs2 o.rs1 f3 (o.imm % 2 ^ 5) 0b0100011 (omega arith) h.2
        h.1 h3 (omega arith) (omega arith) in
    let e4 : get_imm_s w ≡ o.imm = ground (arith, get_imm_s_lem w) in rw (e0, e1, e2, e3, e4, e5, e)

u_fields :
    (opcode : ℕ) (o : Operands)
    → IsOperands (Encoding.u_enc opcode) o
    → opcode < 128
    → let w : ℕ = assemble (Encoding.u_enc opcode) o in
      (get_opcode w ≡ opcode) × (get_rd w ≡ o.rd) × (get_imm_u w ≡ o.imm)
unfolding assemble
u_fields opcode o h ho =
    let w : ℕ = assemble (Encoding.u_enc opcode) o in
    omega (arith, get_opcode_lem w, get_rd_lem w, get_imm_u_lem w (omega arith))

lui_case : (o : Operands) → IsOperands (encoding Op.lui) o → Decodes Op.lui o (encoding Op.lui)
unfolding rve_decode_instruction decode_instruction_u
lui_case o h = let (e0, e1, e2) = u_fields 0b0110111 o h (omega arith) in rw (e0, e1, e2)

auipc_case :
    (o : Operands) → IsOperands (encoding Op.auipc) o → Decodes Op.auipc o (encoding Op.auipc)
unfolding rve_decode_instruction decode_instruction_u
auipc_case o h = let (e0, e1, e2) = u_fields 0b0010111 o h (omega arith) in rw (e0, e1, e2)

j_case : (o : Operands) → IsOperands Encoding.j_enc o → Decodes Op.jal o Encoding.j_enc
unfolding rve_decode_instruction decode_instruction_j assemble
j_case o h =
    let w : ℕ = assemble Encoding.j_enc o in
    let e0 : get_opcode w ≡ 0b1101111 = omega (arith, get_opcode_lem w) in
    let e1 : get_rd w ≡ o.rd = omega (arith, get_rd_lem w) in
    let e2 : get_imm_j w ≡ o.imm = ground (arith, get_imm_j_lem w) in rw (e0, e1, e2)

-- I: the switch on funct3, by opcode.
load_case :
    (op : Op) (f3 : ℕ) (o : Operands)
    → IsOperands (Encoding.i_enc 0b0000011 f3) o
    → f3 < 8
    → load_op f3 ≡ some op
    → Decodes op o (Encoding.i_enc 0b0000011 f3)
unfolding rve_decode_instruction decode_instruction_i assemble
load_case op f3 o h h3 e =
    let (e0, e1, e2, e3, e4) =
      pack_i_fields o.imm o.rs1 f3 o.rd 0b0000011 h.1 h3 h.0 (omega arith) h.3 in
    rw (e0, e1, e2, e3, e4, e)

jalr_case : (o : Operands) → IsOperands (encoding Op.jalr) o → Decodes Op.jalr o (encoding Op.jalr)
unfolding rve_decode_instruction decode_instruction_i assemble
jalr_case o h =
    let (e0, e1, e2, e3, e4) =
      pack_i_fields o.imm o.rs1 0 o.rd 0b1100111 h.1 (omega arith) h.0 (omega arith) h.3 in
    rw (e0, e1, e2, e3, e4)

op_imm_case :
    (op : Op) (f3 : ℕ) (o : Operands)
    → IsOperands (Encoding.i_enc 0b0010011 f3) o
    → f3 < 8
    → op_imm_op f3 ≡ some op
    → Decodes op o (Encoding.i_enc 0b0010011 f3)
unfolding rve_decode_instruction decode_instruction_i assemble
op_imm_case op f3 o h h3 e =
    let (e0, e1, e2, e3, e4) =
      pack_i_fields o.imm o.rs1 f3 o.rd 0b0010011 h.1 h3 h.0 (omega arith) h.3 in
    rw (e0, e2, e, decode_op_imm) (rw (e1, e2, e3, e4))

-- The shifts, which look at funct7 too.
shift_imm :
    (f7 f3 : ℕ) (o : Operands)
    → f7 < 128
    → o.imm < 32
    → o.rs1 < 32
    → f3 < 8
    → o.rd < 32
    → let w : ℕ = pack f7 o.imm o.rs1 f3 o.rd 0b0010011 in f7 ≡ 0 → get_imm_i w ≡ o.imm
shift_imm f7 f3 o h7 hi h1 h3 hd z =
    let w : ℕ = pack f7 o.imm o.rs1 f3 o.rd 0b0010011 in
    ground (arith, get_imm_i_lem w (omega arith))

slli_case : (o : Operands) → IsOperands (encoding Op.slli) o → Decodes Op.slli o (encoding Op.slli)
unfolding rve_decode_instruction decode_instruction_i op_imm_op assemble
slli_case o h =
    let (e0, e1, e2, e3, e4, e5, fits) =
      pack_fields 0 o.imm o.rs1 1 o.rd 0b0010011 (omega arith) h.3 h.1 (omega arith) h.0
        (omega arith) in
    rw (e0, e1, e2, e3, e5, shift_imm 0 1 o (omega arith) h.3 h.1 (omega arith) h.0 refl)

right_case :
    (op : Op) (f7 : ℕ) (o : Operands)
    → IsOperands (Encoding.right_enc 5 f7) o
    → f7 < 128
    → right_op f7 ≡ some op
    → Decodes op o (Encoding.right_enc 5 f7)
unfolding rve_decode_instruction decode_instruction_i op_imm_op get_shamt assemble
right_case op f7 o h h7 e =
    let (e0, e1, e2, e3, e4, e5, fits) =
      pack_fields f7 o.imm o.rs1 5 o.rd 0b0010011 h7 h.3 h.1 (omega arith) h.0 (omega arith) in
    rw (e0, e2, decode_op_imm, e5, e, decode_srli_srai) (rw (e1, e2, e3, e4, e5))

fence_case :
    (op : Op) (f3 : ℕ) (o : Operands)
    → IsOperands (Encoding.fence_enc f3) o
    → f3 < 8
    → misc_mem_op f3 ≡ some op
    → Decodes op o (Encoding.fence_enc f3)
unfolding rve_decode_instruction decode_instruction_i assemble
fence_case op f3 o h h3 e =
    let (e0, e1, e2, e3, e4) =
      pack_i_fields o.imm o.rs1 f3 o.rd 0b0001111 h.1 h3 h.0 (omega arith) h.3 in
    rw (e0, e1, e2, e3, e)

csr_case :
    (op : Op) (f3 : ℕ) (o : Operands)
    → IsOperands (Encoding.csr_enc f3) o
    → f3 < 8
    → (f3 == 0) ≡ false
    → csr_op f3 ≡ some op
    → Decodes op o (Encoding.csr_enc f3)
unfolding rve_decode_instruction decode_instruction_i assemble
csr_case op f3 o h h3 n e =
    let (e0, e1, e2, e3, e4) =
      pack_i_fields o.imm o.rs1 f3 o.rd 0b1110011 h.1 h3 h.0 (omega arith) h.3 in
    rw (e0, e2, n, e) (rw (e1, e2, e3, e4))

-- The instructions without operands are evaluated.
ecall_case : (o : Operands) → Decodes Op.ecall o (encoding Op.ecall)
unfolding rve_decode_instruction decode_instruction_i get_opcode get_rd get_funct3 get_rs1 get_rs2
    get_imm_i assemble
ecall_case o = refl

ebreak_case : (o : Operands) → Decodes Op.ebreak o (encoding Op.ebreak)
unfolding rve_decode_instruction decode_instruction_i get_opcode get_rd get_funct3 get_rs1 get_rs2
    get_imm_i assemble
ebreak_case o = refl

mret_case : (o : Operands) → Decodes Op.mret o (encoding Op.mret)
unfolding rve_decode_instruction decode_instruction_i get_opcode get_rd get_funct3 get_rs1 get_rs2
    get_imm_i assemble
mret_case o = refl

-- Decoding the word that an independent encoder assembles, for any operation of the manual's
-- tables with operands in range, gives back the operation, its format, its registers and the
-- immediate that the encoding holds, and marks the instruction valid.
pub decode-assemble :
    (op : Op) (o : Operands)
    → IsOperands (encoding op) o
    → rve_decode_instruction (assemble (encoding op) o)
      ≡ decoded op (encoding op) o (assemble (encoding op) o)
unfolding r_op b_op s_op load_op op_imm_op right_op misc_mem_op csr_op
decode-assemble Op.lui o h = lui_case o h
decode-assemble Op.auipc o h = auipc_case o h
decode-assemble Op.jal o h = j_case o h
decode-assemble Op.jalr o h = jalr_case o h
decode-assemble Op.beq o h = b_case Op.beq 0 o h (omega arith) refl
decode-assemble Op.bne o h = b_case Op.bne 1 o h (omega arith) refl
decode-assemble Op.blt o h = b_case Op.blt 4 o h (omega arith) refl
decode-assemble Op.bge o h = b_case Op.bge 5 o h (omega arith) refl
decode-assemble Op.bltu o h = b_case Op.bltu 6 o h (omega arith) refl
decode-assemble Op.bgeu o h = b_case Op.bgeu 7 o h (omega arith) refl
decode-assemble Op.lb o h = load_case Op.lb 0 o h (omega arith) refl
decode-assemble Op.lh o h = load_case Op.lh 1 o h (omega arith) refl
decode-assemble Op.lw o h = load_case Op.lw 2 o h (omega arith) refl
decode-assemble Op.lbu o h = load_case Op.lbu 4 o h (omega arith) refl
decode-assemble Op.lhu o h = load_case Op.lhu 5 o h (omega arith) refl
decode-assemble Op.sb o h = s_case Op.sb 0 o h (omega arith) refl
decode-assemble Op.sh o h = s_case Op.sh 1 o h (omega arith) refl
decode-assemble Op.sw o h = s_case Op.sw 2 o h (omega arith) refl
decode-assemble Op.addi o h = op_imm_case Op.addi 0 o h (omega arith) refl
decode-assemble Op.slti o h = op_imm_case Op.slti 2 o h (omega arith) refl
decode-assemble Op.sltiu o h = op_imm_case Op.sltiu 3 o h (omega arith) refl
decode-assemble Op.xori o h = op_imm_case Op.xori 4 o h (omega arith) refl
decode-assemble Op.ori o h = op_imm_case Op.ori 6 o h (omega arith) refl
decode-assemble Op.andi o h = op_imm_case Op.andi 7 o h (omega arith) refl
decode-assemble Op.slli o h = slli_case o h
decode-assemble Op.srli o h = right_case Op.srli 0 o h (omega arith) refl
decode-assemble Op.srai o h = right_case Op.srai 32 o h (omega arith) refl
decode-assemble Op.add o h = r_case Op.add 0 0 o h (omega arith) (omega arith) refl
decode-assemble Op.sub o h = r_case Op.sub 0 32 o h (omega arith) (omega arith) refl
decode-assemble Op.sll o h = r_case Op.sll 1 0 o h (omega arith) (omega arith) refl
decode-assemble Op.slt o h = r_case Op.slt 2 0 o h (omega arith) (omega arith) refl
decode-assemble Op.sltu o h = r_case Op.sltu 3 0 o h (omega arith) (omega arith) refl
decode-assemble Op.xor o h = r_case Op.xor 4 0 o h (omega arith) (omega arith) refl
decode-assemble Op.srl o h = r_case Op.srl 5 0 o h (omega arith) (omega arith) refl
decode-assemble Op.sra o h = r_case Op.sra 5 32 o h (omega arith) (omega arith) refl
decode-assemble Op.or o h = r_case Op.or 6 0 o h (omega arith) (omega arith) refl
decode-assemble Op.and o h = r_case Op.and 7 0 o h (omega arith) (omega arith) refl
decode-assemble Op.mul o h = r_case Op.mul 0 1 o h (omega arith) (omega arith) refl
decode-assemble Op.mulh o h = r_case Op.mulh 1 1 o h (omega arith) (omega arith) refl
decode-assemble Op.mulhsu o h = r_case Op.mulhsu 2 1 o h (omega arith) (omega arith) refl
decode-assemble Op.mulhu o h = r_case Op.mulhu 3 1 o h (omega arith) (omega arith) refl
decode-assemble Op.div o h = r_case Op.div 4 1 o h (omega arith) (omega arith) refl
decode-assemble Op.divu o h = r_case Op.divu 5 1 o h (omega arith) (omega arith) refl
decode-assemble Op.rem o h = r_case Op.rem 6 1 o h (omega arith) (omega arith) refl
decode-assemble Op.remu o h = r_case Op.remu 7 1 o h (omega arith) (omega arith) refl
decode-assemble Op.fence o h = fence_case Op.fence 0 o h (omega arith) refl
decode-assemble Op.fence_i o h = fence_case Op.fence_i 1 o h (omega arith) refl
decode-assemble Op.csrrw o h = csr_case Op.csrrw 1 o h (omega arith) refl refl
decode-assemble Op.csrrs o h = csr_case Op.csrrs 2 o h (omega arith) refl refl
decode-assemble Op.csrrc o h = csr_case Op.csrrc 3 o h (omega arith) refl refl
decode-assemble Op.csrrwi o h = csr_case Op.csrrwi 5 o h (omega arith) refl refl
decode-assemble Op.csrrsi o h = csr_case Op.csrrsi 6 o h (omega arith) refl refl
decode-assemble Op.csrrci o h = csr_case Op.csrrci 7 o h (omega arith) refl refl
decode-assemble Op.ecall o h = ecall_case o
decode-assemble Op.ebreak o h = ebreak_case o
decode-assemble Op.mret o h = mret_case o
decode-assemble Op.unknown o h = absurd h.3
decode-assemble Op.num o h = absurd h.3
