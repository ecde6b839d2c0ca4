-- ===== src/Decoder/Recognise/Exact.antt =====
-- The words that `rve_decode_instruction` of src/decoder.c gives an operation to.
use rve.Base.{ℕ, ◌≡◌, ◌≢◌, ◌↔◌, refl, sym, ap, ◌∙◌, arith, inl, inr, if-elim, ◌||◌, ◌==◌}
use rve.Word.{IsWord}
use rve.Riscv.Opcode
use rve.Decoder.Types.{Op, DecodedInstruction, zeroed}
use rve.Decoder.Fields.{get_opcode}
use rve.Decoder.Fields.Laws.{get_opcode_lem}
use rve.Decoder.Decode.{rve_decode_instruction}
use rve.Decoder.Encoding.{Operands, IsOperands, encoding, decoded}
use rve.Decoder.RoundTrip.{decode-assemble}
use rve.Decoder.Recognise.Words.{Sound, Encodes}
use rve.Decoder.Recognise.Formats.{r-Sound, b-Sound, s-Sound, u-Sound, j-Sound}
use rve.Decoder.Recognise.IType.{i-Sound}
use rve.Decoder.Recognise.Normal.{normalise, normal-Holds, assemble-normalise, decoded-op}

pub decode-Sound : (w : ℕ) → IsWord w → Sound w (rve_decode_instruction w).op
unfolding rve_decode_instruction
decode-Sound w h =
    let di : DecodedInstruction = record zeroed { original_instruction = w } in
    let opcode = get_opcode w in
    let o = sym (get_opcode_lem w) in
    let P : DecodedInstruction → Type 0 = λ x. Sound w x.op in
    if-elim P (opcode == Opcode.lui || opcode == Opcode.auipc) (λ _. u-Sound w h di refl opcode o)
      (λ _.
        if-elim P (opcode == Opcode.jal) (λ _. j-Sound w h di refl opcode o)
          (λ _.
            if-elim P
              (opcode == Opcode.jalr
                || (opcode == Opcode.load
                    || (opcode == Opcode.op_imm
                        || (opcode == Opcode.misc_mem || opcode == Opcode.system))))
              (λ _. i-Sound w h di opcode refl o)
              (λ _.
                if-elim P (opcode == Opcode.branch)
                  (λ e. b-Sound w h di refl opcode (ground (arith, o)))
                  (λ _.
                    if-elim P (opcode == Opcode.store)
                      (λ e. s-Sound w h di refl opcode (ground (arith, o)))
                      (λ _.
                        if-elim P (opcode == Opcode.op)
                          (λ e. r-Sound w h di refl opcode (ground (arith, o))) (λ _. inl refl))))))

Sound-Encodes : (w : ℕ) (op op' : Op) → Sound w op' → op ≢ Op.unknown → op' ≡ op → Encodes op w
Sound-Encodes w op op' (inl u) n e = absurd (n (sym e ∙ u))
Sound-Encodes w op op' (inr x) n e = rw e at x

-- The operands of an encoding that the decoder finds.
pub Encodes-decoded :
    (w : ℕ) (op : Op)
    → IsWord w
    → Encodes op w
    → (o : Operands) × IsOperands (encoding op) o
      × (rve_decode_instruction w ≡ decoded op (encoding op) o w)
Encodes-decoded w op h x =
    let e = encoding op in
    let o = normalise e x.operands in
    let a = assemble-normalise e x.operands ∙ x.word in
    let holds = normal-Holds e x.operands x.imm (rw x.word h) in
    let held : IsOperands e o = (x.rd, x.rs1, x.rs2, holds) in
    (o, held, rw a at (decode-assemble op o held))

Encodes-decode : (w : ℕ) (op : Op) → IsWord w → Encodes op w → (rve_decode_instruction w).op ≡ op
Encodes-decode w op h x =
    let (o, held, e) = Encodes-decoded w op h x in
    ap (λ (di : DecodedInstruction). di.op) e ∙ decoded-op op (encoding op) o w

-- For a word below 2^32 and an operation other than `unknown`, the decoder gives the word that
-- operation exactly if the word is an encoding of it in the manual's tables, with registers below
-- 32 and, for a shift, an amount below 32.
pub rve_decode_instruction_iff :
    (w : ℕ) (op : Op)
    → IsWord w
    → op ≢ Op.unknown
    → ((rve_decode_instruction w).op ≡ op) ↔ Encodes op w
rve_decode_instruction_iff w op h n =
    (Sound-Encodes w op (rve_decode_instruction w).op (decode-Sound w h) n, Encodes-decode w op h)
