-- ===== src/Decoder/Recognise/Formats.antt =====
-- The R, B, S, U and J formats of src/decoder.c recognise encodings only.
use rve.Base.{ℕ, ◌+◌, ◌*◌, ◌/◌, ◌%◌, ◌^◌, ◌≡◌, refl, arith, inl, inr, if-elim, ◌==◌}
use rve.Word.{IsWord}
use rve.Riscv.Opcode
use rve.Decoder.Types.{Op, DecodedInstruction}
use rve.Decoder.Fields.Laws.{fields_b, fields_j}
use rve.Decoder.Fields.{get_funct3, get_funct7}
use rve.Decoder.Formats.{
  u_op, b_op, s_op, decode_instruction_u, decode_instruction_j, decode_instruction_b,
  decode_instruction_s,
}
use rve.Decoder.RType.{r_op, decode_instruction_r}
use rve.Decoder.Encoding.{Encoding}
use rve.Decoder.Recognise.Switches.{b_op-encoding, s_op-encoding, u_op-encoding, r_op-encoding}
use rve.Decoder.Recognise.Words.{
  Sound, chosen-Sound, encodes, assemble-r, assemble-b, assemble-s, assemble-u, assemble-j,
}

module _ (w : ℕ) (h : IsWord w) (di : DecodedInstruction) (u : di.op ≡ Op.unknown)
    (opcode : ℕ) where
  pub r-Sound : w % 128 ≡ 0b0110011 → Sound w (decode_instruction_r di w opcode).op
  unfolding decode_instruction_r
  r-Sound o =
      chosen-Sound w di.op (decode_instruction_r di w opcode).op
        (r_op (get_funct7 w) (get_funct3 w)) u (ground arith)
        (λ op e.
          encodes op w 0 (Encoding.r_enc 0b0110011 (get_funct3 w) (get_funct7 w))
            (r_op-encoding (get_funct7 w) (get_funct3 w) op e) tt (assemble-r w h o))

  pub b-Sound : w % 128 ≡ 0b1100011 → Sound w (decode_instruction_b di w opcode).op
  unfolding decode_instruction_b
  b-Sound o =
      chosen-Sound w di.op (decode_instruction_b di w opcode).op (b_op (get_funct3 w)) u
        (ground arith)
        (λ op e.
          encodes op w (fields_b w) (Encoding.b_enc (get_funct3 w))
            (b_op-encoding (get_funct3 w) op e) tt (assemble-b w h o))

  pub s-Sound : w % 128 ≡ 0b0100011 → Sound w (decode_instruction_s di w opcode).op
  unfolding decode_instruction_s
  s-Sound o =
      chosen-Sound w di.op (decode_instruction_s di w opcode).op (s_op (get_funct3 w)) u
        (ground arith)
        (λ op e.
          encodes op w (w / 2 ^ 25 % 128 * 32 + w / 2 ^ 7 % 32) (Encoding.s_enc (get_funct3 w))
            (s_op-encoding (get_funct3 w) op e) tt (assemble-s w h o))

  pub u-Sound : w % 128 ≡ opcode → Sound w (decode_instruction_u di w opcode).op
  unfolding decode_instruction_u
  u-Sound o =
      chosen-Sound w di.op (decode_instruction_u di w opcode).op (u_op opcode) u (ground arith)
        (λ op e.
          encodes op w (w / 2 ^ 12 * 2 ^ 12) (Encoding.u_enc opcode) (u_op-encoding opcode op e) tt
            (assemble-u w h opcode o))

  pub j-Sound : w % 128 ≡ opcode → Sound w (decode_instruction_j di w opcode).op
  unfolding decode_instruction_j
  j-Sound o =
      if-elim (λ (x : DecodedInstruction). Sound w x.op) (opcode == Opcode.jal)
        (λ e.
          inr
            (encodes Op.jal w (fields_j w) Encoding.j_enc refl tt (assemble-j w h (ground arith))))
        (λ e. inl u)
