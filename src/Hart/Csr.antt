-- ===== src/Hart/Csr.antt =====
-- The CSR operations of src/hart.c. A pointer to a CSR is its name.
pub mod Access
use rve.Base.{ℕ, Bool, ◌||◌, Option, none, some, ◌==◌, leb, ◌&&◌, if◌then◌else◌, bit_and, bit_or}
use rve.Word.{shr32, not32}
use rve.Decoder.Types.{DecodedInstruction}
use rve.Hart.Types.{Hart, CsrFile, illegal_instr, set_gpr}

-- `csr_op_t`
pub data CsrOp : Type 0 where
  rw_op rs_op rc_op : CsrOp

-- `&hart->csr.…`
pub data CsrName : Type 0 where
  mstatus mtvec mepc mcause mtval mscratch : CsrName

abbrev pub read_csr : CsrFile → CsrName → ℕ
read_csr csr CsrName.mstatus = csr.mstatus
read_csr csr CsrName.mtvec = csr.mtvec
read_csr csr CsrName.mepc = csr.mepc
read_csr csr CsrName.mcause = csr.mcause
read_csr csr CsrName.mtval = csr.mtval
read_csr csr CsrName.mscratch = csr.mscratch

abbrev pub write_csr : CsrFile → CsrName → ℕ → CsrFile
write_csr csr CsrName.mstatus v = record csr { mstatus = v }
write_csr csr CsrName.mtvec v = record csr { mtvec = v }
write_csr csr CsrName.mepc v = record csr { mepc = v }
write_csr csr CsrName.mcause v = record csr { mcause = v }
write_csr csr CsrName.mtval v = record csr { mtval = v }
write_csr csr CsrName.mscratch v = record csr { mscratch = v }

-- The switch of `csr_access`. Its default is not reached: the operation is one of three.
unfoldable pub csr_new_val : CsrOp → ℕ → ℕ → ℕ
csr_new_val CsrOp.rw_op old_val operand = operand
csr_new_val CsrOp.rs_op old_val operand = bit_or old_val operand
csr_new_val CsrOp.rc_op old_val operand = bit_and old_val (not32 operand)

-- `if (di->rd != 0) hart->gpr[di->rd] = v`
abbrev pub write_rd_if : Hart → ℕ → ℕ → Hart
write_rd_if hart rd v = if rd == 0 then hart else set_gpr hart rd v

-- The result is the trap of the C function, and the hart.
unfoldable pub csr_access : Hart → DecodedInstruction → CsrName → CsrOp → Bool → Option ℕ × Hart
unfolding csr_new_val
csr_access hart di reg op use_uimm =
    let operand = if use_uimm then di.rs1 else hart.gpr di.rs1 in
    let old_val = read_csr hart.csr reg in
    let new_val = csr_new_val op old_val operand in
    let hart' = write_rd_if hart di.rd old_val in
    (none, if di.rs1 == 0 then hart' else record hart' { csr = write_csr hart'.csr reg new_val })

-- The addresses of the stubs, which read as zero and ignore writes.
unfoldable pub is_stub : ℕ → Bool
is_stub addr =
    leb 0x302 addr && leb addr 0x304
    || (addr == 0x344
        || (addr == 0x180
            || (addr == 0x744
                || (addr == 0x747
                    || (leb 0x3A0 addr && leb addr 0x3A3 || leb 0x3B0 addr && leb addr 0x3B3)))))

-- The addresses of the CSRs that are stored.
unfoldable pub live_csr : ℕ → Option CsrName
live_csr addr =
    if addr == 0x300
    then some CsrName.mstatus
    else if addr == 0x305
    then some CsrName.mtvec
    else if addr == 0x340
    then some CsrName.mscratch
    else if addr == 0x341
    then some CsrName.mepc
    else if addr == 0x342
    then some CsrName.mcause
    else if addr == 0x343
    then some CsrName.mtval
    else none

-- What an address leads to: a value that is read and ignores writes, a stored CSR, or nothing.
pub data CsrTarget : Type 0 where
  constant : ℕ → CsrTarget
  live : CsrName → CsrTarget
  unimplemented : CsrTarget

-- The switch of `csr_dispatch` over the address.
unfoldable pub csr_target : ℕ → CsrTarget
unfolding is_stub live_csr
csr_target addr =
    if leb 0xF11 addr && leb addr 0xF14
    then CsrTarget.constant 0
    else if addr == 0x301
    then CsrTarget.constant 0x4000_1100
    else if is_stub addr
    then CsrTarget.constant 0
    else elim (live_csr addr) [ none ↦ CsrTarget.unimplemented | some reg ↦ CsrTarget.live reg ]

unfoldable pub csr_dispatch : Hart → DecodedInstruction → CsrOp → Bool → Option ℕ × Hart
csr_dispatch hart di op use_uimm = elim (csr_target (shr32 di.original_instruction 20)) [
  | CsrTarget.constant v ↦ (none, write_rd_if hart di.rd v)
  | CsrTarget.live reg ↦ csr_access hart di reg op use_uimm
  | CsrTarget.unimplemented ↦ (some illegal_instr, hart)
]
