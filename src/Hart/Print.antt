-- ===== src/Hart/Print.antt =====
-- What src/hart.c prints: `hart_print` and `rve_trap_to_cstr`.
use Prim.Native.String.{String}
use rve.Base.{ℕ, zero, suc, ◌+◌, Option, none, some, [], ◌∷◌, ◌++◌, ◌==◌, if◌then◌else◌}
use rve.Text.{Bytes, lit, str, str_left, dec_left, hex_caps, codes, printf}
use rve.Decoder.Names.{get_abi_name}
use rve.Hart.Types.{
  Hart, instr_misaligned, instr_access_fault, illegal_instr, load_misaligned, load_access_fault,
  store_misaligned, store_access_fault, ecall_u, ecall_m, int_sw,
}

-- `title ? title : "hart"`
abbrev title_or : Option Bytes → Bytes
title_or none = codes "hart"
title_or (some title) = title

-- One register of a row: its number, its name and its value.
unfoldable pub print_gpr : Hart → ℕ → String → Bytes
print_gpr hart i gap = printf (
    lit "x"
    ∷ dec_left 2 i
    ∷ lit " "
    ∷ str_left 5 (codes (get_abi_name i))
    ∷ lit " 0x"
    ∷ hex_caps 8 (hart.gpr i)
    ∷ lit gap
    ∷ [])

-- The rows of the loop from register `i` on.
unfoldable pub print_rows : ℕ → Hart → ℕ → Bytes
unfolding print_gpr
print_rows zero hart i = []
print_rows (suc rows) hart i =
    codes "  "
    ++ print_gpr hart i "    "
    ++ print_gpr hart (i + 1) "    "
    ++ print_gpr hart (i + 2) "    "
    ++ print_gpr hart (i + 3) "\n"
    ++ print_rows rows hart (i + 4)

-- The text on stdout; `XLEN / 4` is 8.
unfoldable pub hart_print : Hart → Option Bytes → Bytes
unfolding print_rows
hart_print hart title =
    let csr = hart.csr in
    printf (
      lit "=== "
      ∷ str (title_or title)
      ∷ lit " ===\n"
      ∷ lit "PC: 0x"
      ∷ hex_caps 8 hart.pc
      ∷ lit "\n"
      ∷ [])
    ++ print_rows 8 hart 0
    ++ printf (
        lit "  mstatus=0x"
        ∷ hex_caps 8 csr.mstatus
        ∷ lit "  mtvec=0x"
        ∷ hex_caps 8 csr.mtvec
        ∷ lit "\n"
        ∷ lit "  mepc=0x"
        ∷ hex_caps 8 csr.mepc
        ∷ lit "  mcause=0x"
        ∷ hex_caps 8 csr.mcause
        ∷ lit "  mtval=0x"
        ∷ hex_caps 8 csr.mtval
        ∷ lit "  mscratch=0x"
        ∷ hex_caps 8 csr.mscratch
        ∷ lit "\n"
        ∷ lit "===\n"
        ∷ [])

-- `none` is TRAP_NONE. The timer and the external interrupt have no case of their own.
unfoldable pub rve_trap_to_cstr : Option ℕ → String
rve_trap_to_cstr none = "none"
rve_trap_to_cstr (some trap) =
    if trap == instr_misaligned
    then "instruction-address-misaligned"
    else if trap == instr_access_fault
    then "instruction-access-fault"
    else if trap == illegal_instr
    then "illegal-instruction"
    else if trap == load_misaligned
    then "load-address-misaligned"
    else if trap == load_access_fault
    then "load-access-fault"
    else if trap == store_misaligned
    then "store-address-misaligned"
    else if trap == store_access_fault
    then "store-access-fault"
    else if trap == ecall_u
    then "ecall-u"
    else if trap == ecall_m
    then "ecall-m"
    else if trap == int_sw
    then "interrupt-software"
    else "unknown"
