-- ===== src/Main/Trace.antt =====
-- The tracer of src/main.c: `trace_callback`.
use rve.Base.{ℕ, ◌+◌, ◌%◌, ◌^◌, not, none, some, [], ◌∷◌, ◌++◌, ◌==◌, if◌then◌else◌}
use rve.Word.{add32}
use rve.Text.{Bytes, lit, str, str_left, dec, udec, udec_right, hex_caps, codes, printf}
use rve.Text.Buffer.{c_string}
use rve.Decoder.Types.{DecodedInstruction}
use rve.Decoder.Names.{get_abi_name}
use rve.Decoder.Print.{rve_decoded_format_to_buffer}
use rve.Hart.Types.{Retire}

-- `cycle_count` of `main`, and the text that the tracer has put on stdout.
pub record Tracer : Type 0 where
  pub cycle : ℕ
  pub lines : Bytes

-- `asm_buf`, an array of 64 bytes whose first contents do not matter, read as a text.
unfoldable pub asm_text : DecodedInstruction → Bytes
unfolding rve_decoded_format_to_buffer c_string
asm_text di = elim (rve_decoded_format_to_buffer (some di) (some (λ j. 0)) 64).1 [
  | none ↦ []
  | some asm_buf ↦ c_string 64 0 asm_buf
]

-- The effect that a line ends with.
unfoldable pub effect_text : Retire → Bytes
effect_text r = elim r.trap [
  | some trap ↦ printf (lit "  TRAP(" ∷ dec trap ∷ lit ")" ∷ [])
  | none ↦
      if r.mem_write
      then printf (
          lit "  mem[0x"
          ∷ hex_caps 8 r.mem_write_addr
          ∷ lit "] <- 0x"
          ∷ hex_caps 8 r.mem_write_value
          ∷ lit " ("
          ∷ udec r.mem_write_size
          ∷ lit "b)"
          ∷ [])
      else if r.mem_read
      then printf (
          lit "  mem[0x"
          ∷ hex_caps 8 r.mem_read_addr
          ∷ lit "] -> 0x"
          ∷ hex_caps 8 r.mem_read_value
          ∷ lit " ("
          ∷ udec r.mem_read_size
          ∷ lit "b)"
          ∷ [])
      else if r.rd_written
      then printf
          (lit "  " ∷ str (codes (get_abi_name r.rd)) ∷ lit " <- 0x" ∷ hex_caps 8 r.rd_value ∷ [])
      else if not (r.next_pc == add32 r.pc 4)
      then printf (lit "  -> 0x" ∷ hex_caps 8 r.next_pc ∷ [])
      else []
]

unfoldable pub trace_line : ℕ → Retire → Bytes
unfolding asm_text effect_text
trace_line cycle r =
    printf (
      lit "["
      ∷ udec_right 6 cycle
      ∷ lit "] 0x"
      ∷ hex_caps 8 r.pc
      ∷ lit "  "
      ∷ str_left 32 (asm_text r.di)
      ∷ [])
    ++ effect_text r
    ++ codes "\n"

unfoldable pub trace_callback : Retire → Tracer → Tracer
unfolding trace_line
trace_callback r t = record {
  cycle = (t.cycle + 1) % 2 ^ 64;
  lines = t.lines ++ trace_line t.cycle r;
}
