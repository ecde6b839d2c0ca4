-- ===== src/Decoder/Fields.antt =====
-- The field and immediate extractors of src/decoder.c. A shift to the left of a narrow field
-- stays within a word; the casts to `reg_t` keep all of a field of at most 7 bits.
pub mod Laws
use rve.Base.{ℕ, bit_and, bit_or}
use rve.Word.{shl32, shr32, sar32}

unfoldable pub get_opcode : ℕ → ℕ
get_opcode instruction = bit_and instruction 0x7F

unfoldable pub get_rd : ℕ → ℕ
get_rd instruction = bit_and (shr32 instruction 7) 0x1F

unfoldable pub get_funct3 : ℕ → ℕ
get_funct3 instruction = bit_and (shr32 instruction 12) 0x7

unfoldable pub get_rs1 : ℕ → ℕ
get_rs1 instruction = bit_and (shr32 instruction 15) 0x1F

unfoldable pub get_rs2 : ℕ → ℕ
get_rs2 instruction = bit_and (shr32 instruction 20) 0x1F

unfoldable pub get_shamt : ℕ → ℕ
get_shamt instruction = get_rs2 instruction

unfoldable pub get_funct7 : ℕ → ℕ
get_funct7 instruction = bit_and (shr32 instruction 25) 0x7F

unfoldable pub get_imm_i : ℕ → ℕ
get_imm_i instruction = sar32 instruction 20

unfoldable pub get_imm_s : ℕ → ℕ
get_imm_s instruction =
    let imm_11_5 = get_funct7 instruction in
    let imm_4_0 = get_rd instruction in
    let imm_unsigned = bit_or (shl32 imm_11_5 5) imm_4_0 in sar32 (shl32 imm_unsigned 20) 20

unfoldable pub get_imm_u : ℕ → ℕ
get_imm_u instruction = bit_and instruction 0xFFFF_F000

unfoldable pub get_imm_j : ℕ → ℕ
get_imm_j instruction =
    let imm_20 = bit_and (shr32 instruction 31) 0x1 in
    let imm_10_1 = bit_and (shr32 instruction 21) 0x3FF in
    let imm_11 = bit_and (shr32 instruction 20) 0x1 in
    let imm_19_12 = bit_and (shr32 instruction 12) 0xFF in
    let imm_unsigned =
      bit_or (bit_or (bit_or (shl32 imm_20 20) (shl32 imm_19_12 12)) (shl32 imm_11 11))
        (shl32 imm_10_1 1) in
    sar32 (shl32 imm_unsigned 11) 11

unfoldable pub get_imm_b : ℕ → ℕ
get_imm_b instruction =
    let imm_12 = bit_and (shr32 instruction 31) 0x1 in
    let imm_10_5 = bit_and (shr32 instruction 25) 0x3F in
    let imm_4_1 = bit_and (shr32 instruction 8) 0xF in
    let imm_11 = bit_and (shr32 instruction 7) 0x1 in
    let imm_unsigned =
      bit_or (bit_or (bit_or (shl32 imm_12 12) (shl32 imm_11 11)) (shl32 imm_10_5 5))
        (shl32 imm_4_1 1) in
    sar32 (shl32 imm_unsigned 19) 19
