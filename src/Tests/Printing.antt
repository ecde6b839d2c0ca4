-- ===== src/Tests/Printing.antt =====
-- Texts and command lines at fixed inputs (src/decoder.c, src/main.c, src/tests/decoder.c).
use rve.Base.{ℕ, ◌≡◌, ◌≢◌, ◌<◌, ◌↔◌, refl, arith, true, false, some, length, get_elem?}
use rve.Text.{codes, printf, emit}
use rve.Text.Buffer.{Stored}
use rve.Decoder.Types.{Op}
use rve.Decoder.Decode.{rve_decode_instruction}
use rve.Decoder.Fields.{
  get_opcode, get_rd, get_funct3, get_rs1, get_rs2, get_funct7, get_shamt, get_imm_i, get_imm_s,
  get_imm_u, get_imm_j, get_imm_b,
}
use rve.Decoder.Formats.{
  decode_instruction_u, decode_instruction_j, decode_instruction_b, decode_instruction_s,
}
use rve.Decoder.RType.{decode_instruction_r}
use rve.Decoder.IType.{decode_instruction_i, load_op, op_imm_op, right_op}
use rve.Decoder.Names.{get_abi_name, op_number}
use rve.Decoder.Names.Abi.{role, role_name, get_abi_name-role_name}
use rve.Decoder.Print.{instruction_text, text_by_op, rve_decoded_format_to_buffer}
use rve.Decoder.Print.Stored.{printed, count, rve_decoded_format_to_buffer-Stored, decoded-Stored}
use rve.Decoder.Recognise.Words.{Encodes}
use rve.Decoder.Recognise.Exact.{rve_decode_instruction_iff}
use rve.Main.CommandLine.{Args, accepted, starts_with_dash, parse_args}
use rve.Main.RoundTrip.{print_args, parse_args-print_args}
use rve.Tools.Suite.{run_decoder_tests}

-- `beq x1, x2, +8`
abbrev branch : ℕ
branch = 0x0020_8463

branch_text : instruction_text (rve_decode_instruction branch) ≡ codes "beq      ra, sp, 8"
unfolding instruction_text rve_decode_instruction get_opcode decode_instruction_b text_by_op
    get_funct3 rve.Decoder.Print.branch_text printf get_abi_name get_rs1 get_rs2 get_imm_b emit
branch_text = refl

-- The test of `auipc x1, -4096` expects another immediate than its word has.
one_failure : run_decoder_tests ≡ 1
unfolding run_decoder_tests rve_decode_instruction get_opcode decode_instruction_u get_rd get_imm_u
    decode_instruction_j get_imm_j decode_instruction_i get_funct3 get_rs1 get_imm_i load_op
    decode_instruction_b get_rs2 get_imm_b decode_instruction_s get_imm_s get_funct7 get_shamt
    op_imm_op right_op decode_instruction_r op_number
one_failure = refl

not_unknown : Op.beq ≢ Op.unknown
not_unknown = ground arith

rve_decode_instruction_iff_example :
    ((rve_decode_instruction branch).op ≡ Op.beq) ↔ Encodes Op.beq branch
rve_decode_instruction_iff_example =
    rve_decode_instruction_iff branch Op.beq (omega arith) not_unknown

get_abi_name-role_name_example : codes (get_abi_name 10) ≡ role_name (role 10)
get_abi_name-role_name_example = get_abi_name-role_name 10

rve_decoded_format_to_buffer-Stored_example :
    (buffer' : ℕ → ℕ) × (rve_decoded_format_to_buffer
        (some (rve_decode_instruction branch))
        (some (λ j. 7))
        8
      ≡ (count (some (rve_decode_instruction branch)), some buffer'))
    × Stored (printed (some (rve_decode_instruction branch))) 8 (λ j. 7) buffer'
rve_decoded_format_to_buffer-Stored_example =
    rve_decoded_format_to_buffer-Stored (some (rve_decode_instruction branch)) (λ j. 7) 8
      (omega arith)

decoded-Stored_example :
    let text = instruction_text (rve_decode_instruction branch) in
    (buffer' : ℕ → ℕ) × (rve_decoded_format_to_buffer
        (some (rve_decode_instruction branch))
        (some (λ j. 7))
        64
      ≡ (some (length text), some buffer'))
    × (length text < 64)
    × ((k : ℕ) → k < length text → get_elem? text k ≡ some (buffer' k))
    × (buffer' (length text) ≡ 0)
decoded-Stored_example = decoded-Stored branch (λ j. 7) 64 (omega arith) (omega arith)

abbrev settings : Args
settings = record {
  binary = some (codes "a.bin");
  reset_pc = 0x8000_0000;
  load_addr = 0x1000;
  max_steps = 500;
  trace = true;
  dump_regs = false;
}

no_dash : starts_with_dash (codes "a.bin") ≡ false
unfolding starts_with_dash
no_dash = refl

parse_args-print_args_example :
    parse_args (print_args (codes "rve") settings (codes "a.bin")) ≡ accepted settings
parse_args-print_args_example =
    parse_args-print_args (codes "rve") (codes "a.bin") settings refl no_dash (omega arith)
      (omega arith) (omega arith)
