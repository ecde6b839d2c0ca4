-- ===== src/Main/CommandLine.antt =====
-- The command line: `args_t`, `parse_args` and `print_usage` of src/main.c.
use Prim.Native.String.{String}
use rve.Base.{
  ℕ, ◌%◌, ◌^◌, Bool, true, false, Option, none, some, List, [], ◌∷◌, ◌==◌, if◌then◌else◌,
}
use rve.Text.{Bytes, lit, str, codes, same_text, printf}
use rve.Text.Number.{strtoul}

-- `args_t`; `none` is NULL.
pub record Args : Type 0 where
  pub binary : Option Bytes
  pub reset_pc : ℕ
  pub load_addr : ℕ
  pub max_steps : ℕ
  pub trace : Bool
  pub dump_regs : Bool

-- The result false with the text on stderr, or true with what `*out` then holds.
pub data Parsed : Type 0 where
  refused : Bytes → Parsed
  accepted : Args → Parsed

-- The options that take a value.
pub data ValueOption : Type 0 where
  pc load max : ValueOption

-- Which test of the loop an argument meets first.
pub data Kind : Type 0 where
  help trace regs unknown plain : Kind
  with_value : ValueOption → Kind

-- `argv[i][0] == '-'`
unfoldable pub starts_with_dash : Bytes → Bool
starts_with_dash [] = false
starts_with_dash (c ∷ s) = c == b'-'

unfoldable pub kind : Bytes → Kind
unfolding starts_with_dash
kind arg =
    if same_text arg (codes "--help")
    then help
    else if same_text arg (codes "--trace")
    then trace
    else if same_text arg (codes "--regs")
    then regs
    else if same_text arg (codes "--pc")
    then with_value pc
    else if same_text arg (codes "--load")
    then with_value load
    else if same_text arg (codes "--max")
    then with_value max
    else if starts_with_dash arg
    then unknown
    else plain

unfoldable pub option_name : ValueOption → String
option_name pc = "--pc"
option_name load = "--load"
option_name max = "--max"

unfoldable pub set_value : ValueOption → Bytes → Args → Args
unfolding strtoul
set_value pc value out = record out { reset_pc = strtoul 16 value % 2 ^ 32 }
set_value load value out = record out { load_addr = strtoul 16 value % 2 ^ 32 }
set_value max value out = record out { max_steps = strtoul 10 value }

-- The test behind the loop.
abbrev pub finish : Args → Parsed
finish out = elim out.binary [
  | none ↦ refused (codes "No binary specified.\n")
  | some b ↦ accepted out
]

-- The loop from `argv[i]` on. The second argument is an option that waits for its value, which
-- `++i` takes from the next argument.
unfoldable pub parse_loop : List Bytes → Option ValueOption → Args → Parsed
unfolding set_value kind option_name
parse_loop [] (some option) out =
    refused (printf (lit (option_name option) ∷ lit " requires a value\n" ∷ []))
parse_loop (value ∷ rest) (some option) out = parse_loop rest none (set_value option value out)
parse_loop [] none out = finish out
parse_loop (arg ∷ rest) none out = elim (kind arg) [
  | help ↦ refused []
  | trace ↦ parse_loop rest none (record out { trace = true })
  | regs ↦ parse_loop rest none (record out { dump_regs = true })
  | with_value option ↦ parse_loop rest (some option) out
  | unknown ↦ refused (printf (lit "Unknown option: " ∷ str arg ∷ lit "\n" ∷ []))
  | plain ↦ elim out.binary [
    | none ↦ parse_loop rest none (record out { binary = some arg })
    | some b ↦ refused (printf (lit "Unexpected argument: " ∷ str arg ∷ lit "\n" ∷ []))
  ]
]

-- What `memset` and the assignments before the loop leave.
abbrev pub defaults : Args
defaults = record {
  binary = none;
  reset_pc = 0x0000_0000;
  load_addr = 0x0000_0000;
  max_steps = 0;
  trace = false;
  dump_regs = false;
}

-- `argv[0]` is not looked at.
unfoldable pub parse_args : List Bytes → Parsed
unfolding parse_loop
parse_args [] = parse_loop [] none defaults
parse_args (name ∷ args) = parse_loop args none defaults

-- The text on stderr.
unfoldable pub print_usage : Bytes → Bytes
print_usage argv0 = printf (
    lit "Usage: "
    ∷ str argv0
    ∷ lit " [options] <binary>\n\nOptions:\n"
    ∷ lit "  --trace          Print one line per retired instruction\n"
    ∷ lit "  --regs           Dump register file on exit\n"
    ∷ lit "  --pc <hex>       Set reset PC (default: 0x00000000)\n"
    ∷ lit "  --load <hex>     Load binary at this address (default: 0x00000000)\n"
    ∷ lit "  --max <n>        Stop after n instructions\n"
    ∷ lit "  --help           Show this message\n\n"
    ∷ lit "The binary is a flat raw image (not ELF). It is loaded verbatim\n"
    ∷ lit "into the SoC's address space starting at --load.\n"
    ∷ [])
