-- ===== src/Tools/Suite.antt =====
-- The decoder's tests, src/tests/decoder.c, without the text that they print.
use Prim.Native.String.{String}
use rve.Base.{
  ℕ, ◌+◌, Bool, true, false, not, ◌&&◌, ◌||◌, List, [], ◌∷◌, ◌==◌, if◌then◌else◌, bit_and,
}
use rve.Decoder.Types.{Format, Op, DecodedInstruction}
use rve.Decoder.Names.{op_number}
use rve.Decoder.Decode.{rve_decode_instruction}

-- `decoder_test_case_t`
pub record DecoderTest : Type 0 where
  pub name : String
  pub instruction : ℕ
  pub expect_valid : Bool
  pub expect_format : Format
  pub expect_op : Op
  pub expect_rd : ℕ
  pub expect_rs1 : ℕ
  pub expect_rs2 : ℕ
  pub expect_imm : ℕ

-- `NA` and `NA_IMM`
abbrev pub na : ℕ
na = 0xFF

abbrev pub na_imm : ℕ
na_imm = 0xBA_DBAD

-- A line of the table.
abbrev row : String → ℕ → Bool → Format → Op → ℕ → ℕ → ℕ → ℕ → DecoderTest
row name instruction valid format op rd rs1 rs2 imm = record {
  name = name;
  instruction = instruction;
  expect_valid = valid;
  expect_format = format;
  expect_op = op;
  expect_rd = rd;
  expect_rs1 = rs1;
  expect_rs2 = rs2;
  expect_imm = imm;
}

abbrev pub decoder_tests : List DecoderTest
decoder_tests =
    row "lui x5, 0xABCD0" 0xABCD_02B7 true Format.u_type Op.lui 5 na na 0xABCD0000
    ∷ row "auipc x6, 0x1" 0x0000_1317 true Format.u_type Op.auipc 6 na na 0x1000
    ∷ row "auipc x1, -4096" 0xFF00_0097 true Format.u_type Op.auipc 1 na na 0xFFFFF000
    ∷ row "jal x1, +20" 0x0140_00EF true Format.j_type Op.jal 1 na na 20
    ∷ row "jal x0, -32" 0xFE1F_F06F true Format.j_type Op.jal 0 na na 0xFFFFFFE0
    ∷ row "jalr x0, 0(x1)" 0x0000_8067 true Format.i_type Op.jalr 0 1 na 0
    ∷ row "jalr x5, 16(x2)" 0x0101_02E7 true Format.i_type Op.jalr 5 2 na 16
    ∷ row "lw x7, 12(x5)" 0x00C2_A383 true Format.i_type Op.lw 7 5 na 12
    ∷ row "lb x10, -1(x2)" 0xFFF1_0503 true Format.i_type Op.lb 10 2 na 0xFFFFFFFF
    ∷ row "lhu x3, 1024(x4)" 0x4002_5183 true Format.i_type Op.lhu 3 4 na 0x400
    ∷ row "lbu x1, 0(x0)" 0x0000_4083 true Format.i_type Op.lbu 1 0 na 0
    ∷ row "beq x1, x2, +8" 0x0020_8463 true Format.b_type Op.beq na 1 2 8
    ∷ row "bne x5, x0, -16" 0xFE02_98E3 true Format.b_type Op.bne na 5 0 0xFFFFFFF0
    ∷ row "blt x3, x4, +4" 0x0041_C263 true Format.b_type Op.blt na 3 4 4
    ∷ row "bgeu x6, x7, 0" 0x0073_7063 true Format.b_type Op.bgeu na 6 7 0
    ∷ row "sw x2, 8(x5)" 0x0022_A423 true Format.s_type Op.sw na 5 2 8
    ∷ row "sb x0, -4(x6)" 0xFE03_0E23 true Format.s_type Op.sb na 6 0 0xFFFFFFFC
    ∷ row "sh x15, 60(sp)" 0x02F1_1E23 true Format.s_type Op.sh na 2 15 60
    ∷ row "addi x5, x6, 42" 0x02A3_0293 true Format.i_type Op.addi 5 6 na 42
    ∷ row "addi x7, x7, -1" 0xFFF3_8393 true Format.i_type Op.addi 7 7 na 0xFFFFFFFF
    ∷ row "slti x8, x9, 10" 0x00A4_A413 true Format.i_type Op.slti 8 9 na 10
    ∷ row "sltiu x10, x11, 1" 0x0015_B513 true Format.i_type Op.sltiu 10 11 na 1
    ∷ row "xori x12, x13, -1" 0xFFF6_C613 true Format.i_type Op.xori 12 13 na 0xFFFFFFFF
    ∷ row "ori x14, x15, 0xFF" 0x0FF7_E713 true Format.i_type Op.ori 14 15 na 255
    ∷ row "andi x1, x1, 0" 0x0000_F093 true Format.i_type Op.andi 1 1 na 0
    ∷ row "slli x5, x6, 5" 0x0053_1293 true Format.i_type Op.slli 5 6 na 5
    ∷ row "srli x7, x8, 31" 0x01F4_5393 true Format.i_type Op.srli 7 8 na 31
    ∷ row "srai x9, x10, 10" 0x40A5_5493 true Format.i_type Op.srai 9 10 na 10
    ∷ row "add x3, x1, x2" 0x0020_81B3 true Format.r_type Op.add 3 1 2 0
    ∷ row "sub x4, x5, x6" 0x4062_8233 true Format.r_type Op.sub 4 5 6 0
    ∷ row "sll x7, x8, x9" 0x0094_13B3 true Format.r_type Op.sll 7 8 9 0
    ∷ row "slt x10, x1, x0" 0x0000_A533 true Format.r_type Op.slt 10 1 0 0
    ∷ row "sltu x11, x12, x13" 0x00D6_35B3 true Format.r_type Op.sltu 11 12 13 0
    ∷ row "xor x14, x15, x1" 0x0017_C733 true Format.r_type Op.xor 14 15 1 0
    ∷ row "srl x2, x3, x4" 0x0041_D133 true Format.r_type Op.srl 2 3 4 0
    ∷ row "sra x5, x6, x7" 0x4073_52B3 true Format.r_type Op.sra 5 6 7 0
    ∷ row "or x8, x9, x10" 0x00A4_E433 true Format.r_type Op.or 8 9 10 0
    ∷ row "and x11, x12, x13" 0x00D6_75B3 true Format.r_type Op.and 11 12 13 0
    ∷ row "ecall" 0x0000_0073 true Format.i_type Op.ecall 0 0 na 0
    ∷ row "ebreak" 0x0010_0073 true Format.i_type Op.ebreak 0 0 na 1
    ∷ row "Invalid Opcode" 0xFFFF_FFFF false Format.unknown Op.unknown na na na na_imm
    ∷ row "JALR with bad funct3" 0x0000_9067 false Format.unknown Op.unknown na na na na_imm
    ∷ row "LOAD with bad funct3" 0x00C2_B383 false Format.unknown Op.unknown na na na na_imm
    ∷ []

-- The number of an enumerator of the formats.
abbrev format_number : Format → ℕ
format_number Format.unknown = 0
format_number Format.r_type = 1
format_number Format.i_type = 2
format_number Format.s_type = 3
format_number Format.b_type = 4
format_number Format.u_type = 5
format_number Format.j_type = 6
format_number Format.num = 7

-- `CHECK`: the failure that it counts.
abbrev check : Bool → ℕ
check condition = if condition then 0 else 1

-- `if (expected != wildcard) CHECK(got == expected, …)`
abbrev check_unless : ℕ → ℕ → ℕ → ℕ
check_unless wildcard expected got = if expected == wildcard then 0 else check (got == expected)

abbrev is_op : Op → Op → Bool
is_op a b = op_number a == op_number b

-- The checks of the fields that a format has.
unfoldable pub check_fields : Format → DecoderTest → DecodedInstruction → ℕ
unfolding op_number
check_fields Format.r_type test di =
    check_unless na test.expect_rd di.rd
    + check_unless na test.expect_rs1 di.rs1
    + check_unless na test.expect_rs2 di.rs2
    + check (di.imm == 0)
check_fields Format.i_type test di =
    check_unless na test.expect_rd di.rd
    + check_unless na test.expect_rs1 di.rs1
    + (if not (is_op test.expect_op Op.fence) && not (is_op test.expect_op Op.fence_i)
        then check_unless na_imm test.expect_imm di.imm
        else 0)
    + (if is_op test.expect_op Op.slli
          || (is_op test.expect_op Op.srli || is_op test.expect_op Op.srai)
        then check (bit_and di.imm 0x1F == bit_and test.expect_imm 0x1F)
        else 0)
check_fields Format.s_type test di =
    check_unless na test.expect_rs1 di.rs1
    + check_unless na test.expect_rs2 di.rs2
    + check_unless na_imm test.expect_imm di.imm
check_fields Format.b_type test di =
    check_unless na test.expect_rs1 di.rs1
    + check_unless na test.expect_rs2 di.rs2
    + check_unless na_imm test.expect_imm di.imm
check_fields Format.u_type test di =
    check_unless na test.expect_rd di.rd + check_unless na_imm test.expect_imm di.imm
check_fields Format.j_type test di =
    check_unless na test.expect_rd di.rd + check_unless na_imm test.expect_imm di.imm
check_fields _ test di = 0

-- The failures that are counted.
unfoldable pub check_decoded_fields : DecoderTest → DecodedInstruction → ℕ
unfolding check_fields
check_decoded_fields test di =
    check (format_number di.format == format_number test.expect_format)
    + check (is_op di.op test.expect_op)
    + check_fields test.expect_format test di

abbrev same_bool : Bool → Bool → Bool
same_bool true b = b
same_bool false b = not b

-- One round of the loop.
unfoldable pub run_test : DecoderTest → ℕ
unfolding check_decoded_fields
run_test test =
    let di = rve_decode_instruction test.instruction in
    if same_bool di.valid test.expect_valid
    then (if test.expect_valid then check_decoded_fields test di else 0)
    else 1

-- The sum of the failures.
unfoldable pub run_tests : List DecoderTest → ℕ
unfolding run_test
run_tests [] = 0
run_tests (test ∷ tests) = run_test test + run_tests tests

unfoldable pub run_decoder_tests : ℕ
unfolding run_tests
run_decoder_tests = run_tests decoder_tests
