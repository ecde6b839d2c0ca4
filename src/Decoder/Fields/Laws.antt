-- ===== src/Decoder/Fields/Laws.antt =====
-- The extractors as arithmetic.
use rve.Base.{
  ℕ, ◌+◌, ◌*◌, ◌/◌, ◌%◌, ◌^◌, ◌<◌, ◌≡◌, arith, bit_and_mask, bit_or_field, bit_and_field,
}
use rve.Base.{bit_or}
use rve.Word.{IsWord, shl32}
use rve.Word.Laws.{extend}
use rve.Decoder.Fields.{
  get_opcode, get_rd, get_funct3, get_rs1, get_rs2, get_funct7, get_imm_i, get_imm_s, get_imm_u,
  get_imm_j, get_imm_b,
}

pub get_opcode_lem : (w : ℕ) → get_opcode w ≡ w % 0x80
unfolding get_opcode
get_opcode_lem w = bit_and_mask 7 w

pub get_rd_lem : (w : ℕ) → get_rd w ≡ w / 2 ^ 7 % 32
unfolding get_rd
get_rd_lem w = bit_and_mask 5 (w / 2 ^ 7)

pub get_funct3_lem : (w : ℕ) → get_funct3 w ≡ w / 2 ^ 12 % 8
unfolding get_funct3
get_funct3_lem w = bit_and_mask 3 (w / 2 ^ 12)

pub get_rs1_lem : (w : ℕ) → get_rs1 w ≡ w / 2 ^ 15 % 32
unfolding get_rs1
get_rs1_lem w = bit_and_mask 5 (w / 2 ^ 15)

pub get_rs2_lem : (w : ℕ) → get_rs2 w ≡ w / 2 ^ 20 % 32
unfolding get_rs2
get_rs2_lem w = bit_and_mask 5 (w / 2 ^ 20)

pub get_funct7_lem : (w : ℕ) → get_funct7 w ≡ w / 2 ^ 25 % 128
unfolding get_funct7
get_funct7_lem w = bit_and_mask 7 (w / 2 ^ 25)

pub get_imm_i_lem : (w : ℕ) → IsWord w → get_imm_i w ≡ extend 0x800 (w / 2 ^ 20)
unfolding get_imm_i
get_imm_i_lem w h = ground arith

pub get_imm_u_lem : (w : ℕ) → IsWord w → get_imm_u w ≡ w / 2 ^ 12 * 2 ^ 12
unfolding get_imm_u
get_imm_u_lem w h = omega (arith, bit_and_field 12 20 w)

pub get_imm_s_lem : (w : ℕ) → get_imm_s w ≡ extend 0x800 (w / 2 ^ 25 % 128 * 32 + w / 2 ^ 7 % 32)
unfolding get_imm_s
get_imm_s_lem w =
    rw (get_funct7_lem w, get_rd_lem w)
      (ground (arith, bit_or_field 5 (w / 2 ^ 25 % 128) (w / 2 ^ 7 % 32)))

-- `|` of the shifted fields of a J and of a B immediate is their sum.
module _ (a b c d : ℕ) (ha : a < 2) (hc : c < 2) where
  join_j :
      b < 256
      → d < 1024
      → bit_or (bit_or (bit_or (shl32 a 20) (shl32 b 12)) (shl32 c 11)) (shl32 d 1)
        ≡ a * 2 ^ 20 + b * 2 ^ 12 + c * 2 ^ 11 + d * 2
  join_j hb hd = ground (
    arith,
    bit_or_field 20 a (b * 2 ^ 12) (omega arith),
    bit_or_field 12 (a * 2 ^ 8 + b) (c * 2 ^ 11) (omega arith),
    bit_or_field 11 (a * 2 ^ 9 + b * 2 + c) (d * 2) (omega arith),
  )

  join_b :
      b < 64
      → d < 16
      → bit_or (bit_or (bit_or (shl32 a 12) (shl32 c 11)) (shl32 b 5)) (shl32 d 1)
        ≡ a * 2 ^ 12 + c * 2 ^ 11 + b * 2 ^ 5 + d * 2
  join_b hb hd = ground (
    arith,
    bit_or_field 12 a (c * 2 ^ 11) (omega arith),
    bit_or_field 11 (a * 2 + c) (b * 2 ^ 5) (omega arith),
    bit_or_field 5 (a * 2 ^ 7 + c * 2 ^ 6 + b) (d * 2) (omega arith),
  )

-- The fields of a J immediate, in their order.
abbrev pub fields_j : ℕ → ℕ
fields_j w =
    w / 2 ^ 31 % 2 * 2 ^ 20
    + w / 2 ^ 12 % 256 * 2 ^ 12
    + w / 2 ^ 20 % 2 * 2 ^ 11
    + w / 2 ^ 21 % 1024 * 2

pub get_imm_j_lem : (w : ℕ) → get_imm_j w ≡ extend 0x10_0000 (fields_j w)
unfolding get_imm_j
get_imm_j_lem w =
    rw
      (
        bit_and_mask 1 (w / 2 ^ 31),
        bit_and_mask 10 (w / 2 ^ 21),
        bit_and_mask 1 (w / 2 ^ 20),
        bit_and_mask 8 (w / 2 ^ 12),
        join_j (w / 2 ^ 31 % 2) (w / 2 ^ 12 % 256) (w / 2 ^ 20 % 2) (w / 2 ^ 21 % 1024)
            (omega arith) (omega arith) (omega arith) (omega arith),
      )
      (ground arith)

-- The fields of a B immediate, in their order.
abbrev pub fields_b : ℕ → ℕ
fields_b w =
    w / 2 ^ 31 % 2 * 2 ^ 12 + w / 2 ^ 7 % 2 * 2 ^ 11 + w / 2 ^ 25 % 64 * 2 ^ 5 + w / 2 ^ 8 % 16 * 2

pub get_imm_b_lem : (w : ℕ) → get_imm_b w ≡ extend 0x1000 (fields_b w)
unfolding get_imm_b
get_imm_b_lem w =
    rw
      (
        bit_and_mask 1 (w / 2 ^ 31),
        bit_and_mask 6 (w / 2 ^ 25),
        bit_and_mask 4 (w / 2 ^ 8),
        bit_and_mask 1 (w / 2 ^ 7),
        join_b (w / 2 ^ 31 % 2) (w / 2 ^ 25 % 64) (w / 2 ^ 7 % 2) (w / 2 ^ 8 % 16) (omega arith)
            (omega arith) (omega arith) (omega arith),
      )
      (ground arith)
