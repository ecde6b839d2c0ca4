-- ===== src/Hart/Trap.antt =====
-- `trap_tval`, `commit_trap`, `hart_take_trap` and `hart_init` of src/hart.c.
use rve.Base.{ℕ, ◌*◌, ◌%◌, ◌^◌, Bool, ◌&&◌, ◌||◌, ◌==◌, if◌then◌else◌, bit_and, bit_or}
use rve.Word.{add32, shl32, shr32, not32}
use rve.Hart.Types.{
  Hart, CsrFile, trap_is_interrupt, instr_misaligned, instr_access_fault, illegal_instr,
  load_misaligned, load_access_fault, store_misaligned, store_access_fault,
}

unfoldable pub trap_tval : ℕ → ℕ → ℕ → ℕ → ℕ → ℕ
trap_tval cause pc instruction mem_addr bad_pc =
    if cause == instr_misaligned || cause == instr_access_fault
    then bad_pc
    else if cause == load_misaligned
        || (cause == load_access_fault
            || (cause == store_misaligned || cause == store_access_fault))
    then mem_addr
    else if cause == illegal_instr
    then instruction
    else 0

-- `mstatus` on a trap: MIE goes to MPIE, MIE is cleared, MPP is machine mode.
unfoldable pub trap_mstatus : ℕ → ℕ
trap_mstatus mstatus =
    let mie = bit_and (shr32 mstatus 3) 1 in
    let cleared = bit_or (bit_and mstatus (not32 0x88)) (shl32 mie 7) in bit_or cleared (shl32 3 11)

-- The target of the trap vector.
unfoldable pub trap_vector : ℕ → ℕ → Bool → ℕ
trap_vector mtvec cause is_int =
    let base = bit_and mtvec (not32 3) in
    let mode = bit_and mtvec 3 in
    if mode == 1 && is_int then add32 base ((bit_and cause 0x7FFF_FFFF * 4) % 2 ^ 32) else base

-- The hart with its CSRs updated, and the new PC.
unfoldable pub commit_trap : Hart → ℕ → ℕ → Hart × ℕ
unfolding trap_mstatus trap_vector
commit_trap hart cause tval =
    let is_int = trap_is_interrupt cause in
    let csr : CsrFile = record {
      mstatus = trap_mstatus hart.csr.mstatus;
      mtvec = hart.csr.mtvec;
      mepc = hart.pc;
      mcause = if is_int then bit_or 0x8000_0000 cause else cause;
      mtval = tval;
      mscratch = hart.csr.mscratch;
    } in
    (record hart { csr = csr }, trap_vector hart.csr.mtvec cause is_int)

unfoldable pub hart_take_trap : Hart → ℕ → ℕ → Hart
unfolding commit_trap
hart_take_trap hart cause tval =
    let (hart', target) = commit_trap hart cause tval in record hart' { pc = target }

abbrev pub zero_csr : CsrFile
zero_csr = record { mstatus = 0; mtvec = 0; mepc = 0; mcause = 0; mtval = 0; mscratch = 0 }

unfoldable pub hart_init : ℕ → Hart
hart_init pc = record { gpr = λ j. 0; csr = zero_csr; pc = pc }
