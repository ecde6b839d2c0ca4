-- ===== src/Decoder/Print/Fits.antt =====
-- How long the text of a group of instructions is (src/decoder.c, `rve_decoded_format_to_buffer`).
use Prim.Native.String.{String}
use rve.Base.{
  ℕ, zero, suc, ◌≤◌, arith, none, some, List, [], ◌∷◌, length, get_elem?, ltb, if-elim, bit_and,
  bit_and-lt,
}
use rve.Word.{IsWord, shr32}
use rve.Text.{Piece, show, codes, hex_lower, hex_upper}
use rve.Text.Width.{printf-length, pad_left-length, pad_right-length}
use rve.Text.Digits.{decimal-length, hex_lower-length, hex_upper-length, signed_decimal-length}
use rve.Decoder.Types.{Format, Op, DecodedInstruction}
use rve.Decoder.Names.{abi_names, xlen, get_abi_name, rve_instruction_format_to_cstr, op_number}
use rve.Decoder.Words.{WordFields}
use rve.Decoder.Print.{
  upper_text, jump_text, load_text, store_text, branch_text, op_imm_text, sltiu_text, shift_text,
  op_text, plain_text, csr_text, csr_imm_text, unhandled_text, invalid_text,
}

abbrev AllShort : List String → Type 0
AllShort [] = Unit
AllShort (s ∷ ss) = (length (codes s) ≤ 4) × AllShort ss

get_elem?-Short :
    (names : List String) (i : ℕ)
    → AllShort names
    → length (codes (elim (get_elem? names i) [ none ↦ "" | some name ↦ name ])) ≤ 4
get_elem?-Short [] i h = omega arith
get_elem?-Short (s ∷ ss) zero h = h.0
get_elem?-Short (s ∷ ss) (suc i) h = get_elem?-Short ss i h.1

abi_names-AllShort : AllShort abi_names
abi_names-AllShort = omega arith

pub get_abi_name-length : (i : ℕ) → length (codes (get_abi_name i)) ≤ 4
unfolding get_abi_name
get_abi_name-length i =
    if-elim (λ s. length (codes s) ≤ 4) (ltb i xlen)
      (λ _. get_elem?-Short abi_names i abi_names-AllShort) (λ _. omega arith)

-- The pieces of the printer.
mnemonic-length :
    (name : String) → length (codes name) ≤ 8 → length (show (Piece.str_left 8 (codes name))) ≤ 8
unfolding show
mnemonic-length name h = pad_right-length 8 (codes name) h

reg-length : (i : ℕ) → length (show (Piece.str (codes (get_abi_name i)))) ≤ 4
unfolding show
reg-length i = get_abi_name-length i

dec-length : (w : ℕ) → IsWord w → length (show (Piece.dec w)) ≤ 11
unfolding show
dec-length w h = signed_decimal-length w h

udec-length : (w : ℕ) → IsWord w → length (show (Piece.udec w)) ≤ 10
unfolding show
udec-length w h = decimal-length w h

hex-length : (k w : ℕ) → k ≤ 8 → IsWord w → length (show (Piece.hex k w)) ≤ 8
unfolding show
hex-length k w h g = pad_left-length b'0' k 8 (hex_lower w) h (hex_lower-length w g)

module _ (name : String) (di : DecodedInstruction) (short : length (codes name) ≤ 8)
    (f : WordFields di) where
  pub upper_text-length : length (upper_text name di) ≤ 63
  unfolding upper_text show
  upper_text-length = rw printf-length (
      omega (
        arith,
        mnemonic-length name short,
        reg-length di.rd,
        hex-length 0 (shr32 di.imm 12) (omega arith) (omega (arith, f.imm)),
      ))

  pub jump_text-length : length (jump_text name di) ≤ 63
  unfolding jump_text show
  jump_text-length =
      rw printf-length
        (omega (arith, mnemonic-length name short, reg-length di.rd, dec-length di.imm f.imm))

  pub load_text-length : length (load_text name di) ≤ 63
  unfolding load_text show
  load_text-length = rw printf-length (
      omega (
        arith,
        mnemonic-length name short,
        reg-length di.rd,
        reg-length di.rs1,
        dec-length di.imm f.imm,
      ))

  pub store_text-length : length (store_text name di) ≤ 63
  unfolding store_text show
  store_text-length = rw printf-length (
      omega (
        arith,
        mnemonic-length name short,
        reg-length di.rs2,
        reg-length di.rs1,
        dec-length di.imm f.imm,
      ))

  pub branch_text-length : length (branch_text name di) ≤ 63
  unfolding branch_text show
  branch_text-length = rw printf-length (
      omega (
        arith,
        mnemonic-length name short,
        reg-length di.rs1,
        reg-length di.rs2,
        dec-length di.imm f.imm,
      ))

  pub op_imm_text-length : length (op_imm_text name di) ≤ 63
  unfolding op_imm_text show
  op_imm_text-length = rw printf-length (
      omega (
        arith,
        mnemonic-length name short,
        reg-length di.rd,
        reg-length di.rs1,
        dec-length di.imm f.imm,
      ))

  pub sltiu_text-length : length (sltiu_text name di) ≤ 63
  unfolding sltiu_text show
  sltiu_text-length = rw printf-length (
      omega (
        arith,
        mnemonic-length name short,
        reg-length di.rd,
        reg-length di.rs1,
        udec-length di.imm f.imm,
      ))

  pub shift_text-length : length (shift_text name di) ≤ 63
  unfolding shift_text show
  shift_text-length = rw printf-length (
      omega (
        arith,
        mnemonic-length name short,
        reg-length di.rd,
        reg-length di.rs1,
        udec-length (bit_and di.imm 0x1F) (bit_and-lt 32 di.imm 0x1F f.imm),
      ))

  pub op_text-length : length (op_text name di) ≤ 63
  unfolding op_text show
  op_text-length = rw printf-length (
      omega
        (arith, mnemonic-length name short, reg-length di.rd, reg-length di.rs1, reg-length di.rs2))

  pub plain_text-length : length (plain_text name di) ≤ 63
  unfolding plain_text show
  plain_text-length = rw printf-length (omega (arith, mnemonic-length name short))

  pub csr_text-length : length (csr_text name di) ≤ 63
  unfolding csr_text show
  csr_text-length = rw printf-length (
      omega (
        arith,
        mnemonic-length name short,
        reg-length di.rd,
        reg-length di.rs1,
        hex-length 3 (bit_and di.imm 0xFFF) (omega arith) (bit_and-lt 32 di.imm 0xFFF f.imm),
      ))

  pub csr_imm_text-length : length (csr_imm_text name di) ≤ 63
  unfolding csr_imm_text show
  csr_imm_text-length = rw printf-length (
      omega (
        arith,
        mnemonic-length name short,
        reg-length di.rd,
        udec-length di.rs1 f.rs1,
        hex-length 3 (bit_and di.imm 0xFFF) (omega arith) (bit_and-lt 32 di.imm 0xFFF f.imm),
      ))

pub invalid_text-length :
    (di : DecodedInstruction) → IsWord di.original_instruction → length (invalid_text di) ≤ 63
unfolding invalid_text show
invalid_text-length di h = rw printf-length (
    omega (
      arith,
      pad_left-length b'0' 8 8 (hex_upper di.original_instruction) (omega arith)
          (hex_upper-length di.original_instruction h),
    ))

format-length : (f : Format) → length (codes (rve_instruction_format_to_cstr f)) ≤ 13
unfolding rve_instruction_format_to_cstr
format-length Format.unknown = omega arith
format-length Format.r_type = omega arith
format-length Format.i_type = omega arith
format-length Format.s_type = omega arith
format-length Format.b_type = omega arith
format-length Format.u_type = omega arith
format-length Format.j_type = omega arith
format-length Format.num = omega arith

op_number-IsWord : (op : Op) → IsWord (op_number op)
unfolding op_number
op_number-IsWord op = ground arith

pub unhandled_text-length : (di : DecodedInstruction) → length (unhandled_text di) ≤ 63
unfolding unhandled_text show
unhandled_text-length di =
    rw printf-length (
      omega (arith, dec-length (op_number di.op) (op_number-IsWord di.op), format-length di.format))
