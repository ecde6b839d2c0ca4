-- ===== src/Decoder/Recognise/IType.antt =====
-- `decode_instruction_i` of src/decoder.c recognises encodings only.
use rve.Base.{
  ℕ, ◌+◌, ◌*◌, ◌/◌, ◌%◌, ◌^◌, ◌≡◌, ap, refl, arith, ◌&&◌, inl, inr, ◌∙◌, if-elim, Option, none,
  some, ◌==◌, Option-cases, bit_and, bit_and_mask, if◌then◌else◌,
}
use rve.Word.{IsWord}
use rve.Riscv.Opcode
use rve.Riscv.Funct3
use rve.Riscv.Funct7
use rve.Riscv.Funct12
use rve.Decoder.Types.{Op, Format, DecodedInstruction}
use rve.Decoder.Fields.{get_funct3, get_funct7, get_rd, get_rs1, get_rs2, get_imm_i}
use rve.Decoder.Fields.Laws.{get_funct3_lem, get_rd_lem, get_rs1_lem, get_imm_i_lem}
use rve.Decoder.IType.{
  jalr_op, load_op, right_op, op_imm_op, misc_mem_op, csr_op, decode_slli, decode_srli_srai,
  decode_op_imm, decode_misc_mem, decode_priv, decode_system, decode_instruction_i,
}
use rve.Decoder.Encoding.{Encoding, encoding, assemble}
use rve.Decoder.Recognise.Switches.{
  jalr_op-encoding, load_op-encoding, op_imm_op-encoding, right_op-encoding, misc_mem_op-encoding,
  csr_op-encoding,
}
use rve.Decoder.Recognise.Words.{
  Sound, Encodes, chosen-Sound, encodes, assemble-i, assemble-right, assemble-slli, assemble-fence,
  assemble-csr,
}

-- `case RISCV_FUNCT3_SLLI`
abbrev left_op : ℕ → Option Op
left_op funct7 = if funct7 == Funct7.slli then some Op.slli else none

left_op-encoding : (f7 : ℕ) (op : Op) → left_op f7 ≡ some op → encoding op ≡ Encoding.left_enc 1 f7
left_op-encoding f7 op e = ground arith

module _ (w : ℕ) (h : IsWord w) where
  i-Encodes :
      (opcode : ℕ) (op : Op)
      → w % 128 ≡ opcode
      → encoding op ≡ Encoding.i_enc opcode (get_funct3 w)
      → Encodes op w
  i-Encodes opcode op o e =
      encodes op w (w / 2 ^ 20) (Encoding.i_enc opcode (get_funct3 w)) e tt
        (assemble-i w h opcode o)

  -- The instructions without operands.
  funct12_lem : bit_and (get_imm_i w) 0xFFF ≡ w / 2 ^ 20
  funct12_lem = bit_and_mask 12 (get_imm_i w) ∙ rw (get_imm_i_lem w h) (ground arith)

  word_lem :
      (top : ℕ)
      → w % 128 ≡ 0b1110011
      → get_funct3 w ≡ 0
      → get_rs1 w ≡ 0
      → get_rd w ≡ 0
      → bit_and (get_imm_i w) 0xFFF ≡ top
      → top * 2 ^ 20 + 0b1110011 ≡ w
  word_lem top o f s d t = omega (arith, get_funct3_lem w, get_rs1_lem w, get_rd_lem w, funct12_lem)

  module _ (di : DecodedInstruction) (u : di.op ≡ Op.unknown) where
    slli-Sound : w % 128 ≡ 0b0010011 → get_funct3 w ≡ 1 → Sound w (decode_slli di w).op
    unfolding decode_slli
    slli-Sound o f =
        chosen-Sound w di.op (decode_slli di w).op (left_op (get_funct7 w)) u (ground arith)
          (λ op e.
            encodes op w (w / 2 ^ 20 % 32) (Encoding.left_enc 1 (get_funct7 w))
              (left_op-encoding (get_funct7 w) op e) (omega arith) (assemble-slli w h o f))

    right-Sound : w % 128 ≡ 0b0010011 → get_funct3 w ≡ 5 → Sound w (decode_srli_srai di w).op
    unfolding decode_srli_srai
    right-Sound o f =
        chosen-Sound w di.op (decode_srli_srai di w).op (right_op (get_funct7 w)) u (ground arith)
          (λ op e.
            encodes op w (w / 2 ^ 20 % 32) (Encoding.right_enc 5 (get_funct7 w))
              (right_op-encoding (get_funct7 w) op e) (omega arith) (assemble-right w h o f))

    op_imm-Sound : w % 128 ≡ 0b0010011 → di.funct3 ≡ get_funct3 w → Sound w (decode_op_imm di w).op
    unfolding decode_op_imm
    op_imm-Sound o f = elim (Option-cases (op_imm_op di.funct3)) [
      | inl e ↦
          rw (decode_op_imm, e)
            (if-elim (λ (x : DecodedInstruction). Sound w x.op) (di.funct3 == Funct3.slli)
              (λ g. slli-Sound o (ground arith))
              (λ g.
                if-elim (λ (x : DecodedInstruction). Sound w x.op) (di.funct3 == Funct3.srli_srai)
                  (λ k. right-Sound o (ground arith)) (λ k. inl u)))
      | inr (op, e) ↦
          rw (decode_op_imm, e)
            (inr (i-Encodes 0b0010011 op o (op_imm_op-encoding (get_funct3 w) op (rw f at e))))
    ]

    misc_mem-Sound : w % 128 ≡ 0b0001111 → Sound w (decode_misc_mem di w).op
    unfolding decode_misc_mem
    misc_mem-Sound o =
        chosen-Sound w di.op (decode_misc_mem di w).op (misc_mem_op (get_funct3 w)) u (ground arith)
          (λ op e.
            encodes op w (w / 2 ^ 20) (Encoding.fence_enc (get_funct3 w))
              (misc_mem_op-encoding (get_funct3 w) op e) tt (assemble-fence w h o))

    word-Encodes :
        (op : Op) (top imm : ℕ)
        → encoding op ≡ Encoding.word_enc (top * 2 ^ 20 + 0b1110011) imm
        → w % 128 ≡ 0b1110011
        → get_funct3 w ≡ 0
        → get_rs1 w ≡ 0
        → get_rd w ≡ 0
        → bit_and (get_imm_i w) 0xFFF ≡ top
        → Encodes op w
    unfolding assemble
    word-Encodes op top imm e o f s d t =
        encodes op w 0 (Encoding.word_enc (top * 2 ^ 20 + 0b1110011) imm) e tt
          (word_lem top o f s d t)

    priv-Sound :
        w % 128 ≡ 0b1110011
        → get_funct3 w ≡ 0
        → di.rs1 ≡ get_rs1 w
        → di.rd ≡ get_rd w
        → di.imm ≡ get_imm_i w
        → Sound w (decode_priv di w).op
    unfolding decode_priv
    priv-Sound o f s d i =
        let t = ap (λ n. bit_and n 0xFFF) i in
        if-elim (λ (x : DecodedInstruction). Sound w x.op)
          (bit_and di.imm 0xFFF == Funct12.ecall && (di.rs1 == 0 && (di.rd == 0 && get_rs2 w == 0)))
          (λ e.
            inr (
              word-Encodes Op.ecall 0 0 refl o f (ground arith) (ground arith) (ground (arith, t))))
          (λ e.
            if-elim (λ (x : DecodedInstruction). Sound w x.op)
              (bit_and di.imm 0xFFF == Funct12.ebreak
                && (di.rs1 == 0 && (di.rd == 0 && get_rs2 w == 1)))
              (λ g. inr (
                word-Encodes Op.ebreak 1 1 refl o f (ground arith) (ground arith)
                  (ground (arith, t))))
              (λ g.
                if-elim (λ (x : DecodedInstruction). Sound w x.op)
                  (bit_and di.imm 0xFFF == Funct12.mret
                    && (di.rs1 == 0 && (di.rd == 0 && get_rs2 w == 2)))
                  (λ k. inr (
                    word-Encodes Op.mret 0x302 0x302 refl o f (ground arith) (ground arith)
                      (ground (arith, t))))
                  (λ k. inl u)))

    csr-Encodes : (op : Op) → w % 128 ≡ 0b1110011 → csr_op (get_funct3 w) ≡ some op → Encodes op w
    csr-Encodes op o e =
        encodes op w (w / 2 ^ 20) (Encoding.csr_enc (get_funct3 w))
          (csr_op-encoding (get_funct3 w) op e) tt (assemble-csr w h o)

  system-Sound :
      (di : DecodedInstruction)
      → di.op ≡ Op.unknown
      → w % 128 ≡ 0b1110011
      → di.rs1 ≡ get_rs1 w
      → di.rd ≡ get_rd w
      → Sound w (decode_system di w).op
  unfolding decode_system
  system-Sound di u o s d =
      let di' : DecodedInstruction = record di { imm = get_imm_i w; funct3 = get_funct3 w } in
      if-elim (λ (x : DecodedInstruction). Sound w x.op) (get_funct3 w == Funct3.priv)
        (λ e. priv-Sound di' u o (ground arith) s d refl)
        (λ e. elim (Option-cases (csr_op (get_funct3 w))) [
          | inl g ↦ rw g (inl u)
          | inr (op, g) ↦ rw g (inr (csr-Encodes di' u op o g))
        ])

  pub i-Sound :
      (di : DecodedInstruction) (opcode : ℕ)
      → di.op ≡ Op.unknown
      → w % 128 ≡ opcode
      → Sound w (decode_instruction_i di w opcode).op
  unfolding decode_instruction_i
  i-Sound di opcode u o =
      let di' : DecodedInstruction = record di {
        rs1 = get_rs1 w;
        rd = get_rd w;
        imm = get_imm_i w;
        funct3 = get_funct3 w;
        format = Format.i_type;
      } in
      let P : DecodedInstruction → Type 0 = λ x. Sound w x.op in
      if-elim P (opcode == Opcode.jalr)
        (λ e.
          chosen-Sound w di.op _ (jalr_op (get_funct3 w)) u (ground arith)
            (λ op g. i-Encodes 0b1100111 op (ground arith) (jalr_op-encoding (get_funct3 w) op g)))
        (λ _.
          if-elim P (opcode == Opcode.load)
            (λ e. chosen-Sound w di.op _ (load_op (get_funct3 w)) u (ground arith) (λ op g.
              i-Encodes 0b0000011 op (ground arith) (load_op-encoding (get_funct3 w) op g)))
            (λ _.
              if-elim P (opcode == Opcode.op_imm) (λ e. op_imm-Sound di' u (ground arith) refl)
                (λ _.
                  if-elim P (opcode == Opcode.misc_mem) (λ e. misc_mem-Sound di' u (ground arith))
                    (λ _.
                      if-elim P (opcode == Opcode.system)
                        (λ e. system-Sound di' u (ground arith) refl refl) (λ _. inl u)))))
