-- ===== src/Decoder/Words.antt =====
-- The fields of a decoded instruction that hold words (src/decoder.c), and the extension of one.
use rve.Base.{ℕ, ◌-◌, ◌/◌, ◌^◌, arith, bit_and-lt}
use native.Mathlib.Nat.{div-le_self}
use rve.Word.{IsWord, sar32, shl32, sext}
use rve.Decoder.Types.{DecodedInstruction, zeroed}
use rve.Decoder.Fields.{
  get_opcode, get_imm_i, get_imm_s, get_imm_u, get_imm_j, get_imm_b, get_shamt, get_rs1, get_rs2,
}
use rve.Decoder.Formats.{
  decode_instruction_u, decode_instruction_j, decode_instruction_b, decode_instruction_s,
}
use rve.Decoder.IType.{decode_instruction_i}
use rve.Decoder.RType.{decode_instruction_r}
use rve.Decoder.Decode.{rve_decode_instruction}

-- Shifts and extensions of words are words.
pub sar32-IsWord : (x k : ℕ) → IsWord x → IsWord (sar32 x k)
sar32-IsWord x k h = ground (arith, div-le_self x (2 ^ k))

pub sext-IsWord : (x bits : ℕ) → IsWord (sext x bits)
unfolding sext
sext-IsWord x bits = sar32-IsWord (shl32 x (32 - bits)) (32 - bits) (ground arith)

-- The fields that an instruction's execution reads as words.
pub record WordFields (di : DecodedInstruction) : Type 0 where
  pub imm : IsWord di.imm
  pub rs1 : IsWord di.rs1

pub imm_i-IsWord : (w : ℕ) → IsWord w → IsWord (get_imm_i w)
unfolding get_imm_i
imm_i-IsWord w h = sar32-IsWord w 20 h

pub imm_s-IsWord : (w : ℕ) → IsWord (get_imm_s w)
unfolding get_imm_s
imm_s-IsWord w = sar32-IsWord _ 20 (ground arith)

pub imm_j-IsWord : (w : ℕ) → IsWord (get_imm_j w)
unfolding get_imm_j
imm_j-IsWord w = sar32-IsWord _ 11 (ground arith)

pub imm_b-IsWord : (w : ℕ) → IsWord (get_imm_b w)
unfolding get_imm_b
imm_b-IsWord w = sar32-IsWord _ 19 (ground arith)

pub imm_u-IsWord : (w : ℕ) → IsWord w → IsWord (get_imm_u w)
unfolding get_imm_u
imm_u-IsWord w h = bit_and-lt 32 w _ h

pub shamt-IsWord : (w : ℕ) → IsWord w → IsWord (get_shamt w)
unfolding get_shamt get_rs2
shamt-IsWord w h = bit_and-lt 32 (w / 2 ^ 20) 0x1F (omega arith)

pub rs1-IsWord : (w : ℕ) → IsWord w → IsWord (get_rs1 w)
unfolding get_rs1
rs1-IsWord w h = bit_and-lt 32 (w / 2 ^ 15) 0x1F (omega arith)

fields_u :
    (di : DecodedInstruction) (w opcode : ℕ)
    → IsWord w
    → WordFields di
    → WordFields (decode_instruction_u di w opcode)
unfolding decode_instruction_u
fields_u di w opcode h f = record { imm = ground (arith, imm_u-IsWord w); rs1 = ground arith }

fields_j :
    (di : DecodedInstruction) (w opcode : ℕ)
    → WordFields di
    → WordFields (decode_instruction_j di w opcode)
unfolding decode_instruction_j
fields_j di w opcode f = record { imm = ground (arith, imm_j-IsWord w); rs1 = ground arith }

fields_b :
    (di : DecodedInstruction) (w opcode : ℕ)
    → IsWord w
    → WordFields di
    → WordFields (decode_instruction_b di w opcode)
unfolding decode_instruction_b
fields_b di w opcode h f = record {
  imm = ground (arith, imm_b-IsWord w);
  rs1 = ground (arith, rs1-IsWord w);
}

fields_s :
    (di : DecodedInstruction) (w opcode : ℕ)
    → IsWord w
    → WordFields di
    → WordFields (decode_instruction_s di w opcode)
unfolding decode_instruction_s
fields_s di w opcode h f = record {
  imm = ground (arith, imm_s-IsWord w);
  rs1 = ground (arith, rs1-IsWord w);
}

fields_r :
    (di : DecodedInstruction) (w opcode : ℕ)
    → IsWord w
    → WordFields di
    → WordFields (decode_instruction_r di w opcode)
unfolding decode_instruction_r
fields_r di w opcode h f = record { imm = ground arith; rs1 = ground (arith, rs1-IsWord w) }

fields_i :
    (di : DecodedInstruction) (w opcode : ℕ)
    → IsWord w
    → WordFields di
    → WordFields (decode_instruction_i di w opcode)
unfolding decode_instruction_i
fields_i di w opcode h f = record {
  imm = ground (arith, imm_i-IsWord w, shamt-IsWord w);
  rs1 = ground (arith, rs1-IsWord w);
}

pub decode-WordFields : (w : ℕ) → IsWord w → WordFields (rve_decode_instruction w)
unfolding rve_decode_instruction
decode-WordFields w h =
    let di = record zeroed { original_instruction = w } in
    let o = get_opcode w in
    let f : WordFields di = record { imm = omega arith; rs1 = omega arith } in
    record {
      imm = ground (
        arith,
        (fields_u di w o h f).imm,
        (fields_j di w o f).imm,
        (fields_b di w o h f).imm,
        (fields_s di w o h f).imm,
        (fields_r di w o h f).imm,
        (fields_i di w o h f).imm,
      );
      rs1 = ground (
        arith,
        (fields_u di w o h f).rs1,
        (fields_j di w o f).rs1,
        (fields_b di w o h f).rs1,
        (fields_s di w o h f).rs1,
        (fields_r di w o h f).rs1,
        (fields_i di w o h f).rs1,
      );
    }
