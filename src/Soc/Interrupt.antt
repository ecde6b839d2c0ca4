-- ===== src/Soc/Interrupt.antt =====
-- `soc_raise_interrupt` (src/soc.c).
use rve.Base.{
  ℕ, ◌+◌, ◌*◌, ◌%◌, ◌/◌, ◌^◌, ◌≡◌, refl, ◌∙◌, Bool, true, false, sym, ◌==◌, ◌||◌, if◌then◌else◌,
  arith, if-true, if-false, Bool-cases, inl, inr,
}
use rve.Word.{IsWord}
use rve.Hart.Types.{trap_is_interrupt}
use rve.Hart.Trap.{hart_take_trap, commit_trap}
use rve.Hart.Vector.{hart_take_trap_lem}
use rve.Hart.Status.{trap_mstatus_lem}
use rve.Hart.Retire.{hart_step-Explains}
use rve.Soc.{Soc, soc_raise_interrupt, soc_step}

-- The manual's numbers of the machine's software, timer and external interrupts.
abbrev pub interrupt_number : ℕ → Bool
interrupt_number c = c == 3 || (c == 7 || c == 11)

-- `mtvec` is in vectored mode.
abbrev pub vectored : ℕ → Bool
vectored mtvec = mtvec % 4 == 1

-- `mstatus` in the handler: the mode before is the machine's, the interrupt enable is kept in bit 7
-- and cleared in bit 3.
abbrev pub masked : ℕ → ℕ
masked m =
    m / 2 ^ 13 * 2 ^ 13
    + 3 * 2 ^ 11
    + m / 2 ^ 8 % 2 ^ 3 * 2 ^ 8
    + m / 2 ^ 3 % 2 * 2 ^ 7
    + m / 2 ^ 4 % 2 ^ 3 * 2 ^ 4
    + m % 2 ^ 3

raised :
    (soc : Soc) (c : ℕ)
    → trap_is_interrupt c ≡ true
    → soc_raise_interrupt soc c ≡ record soc { hart = hart_take_trap soc.hart c 0 }
unfolding soc_raise_interrupt
raised soc c i = if-true _ i

-- What raising `c` makes of a SoC, and where its next step starts.
pub record Raises (soc : Soc) (c : ℕ) (soc' : Soc) : Type 0 where
  pub pc : soc'.hart.pc ≡ (
      if interrupt_number c
      then (if vectored soc.hart.csr.mtvec
          then (soc.hart.csr.mtvec / 4 * 4 + c * 4) % 2 ^ 32
          else soc.hart.csr.mtvec / 4 * 4)
      else soc.hart.pc)
  pub mcause :
      soc'.hart.csr.mcause ≡ (if interrupt_number c then 2 ^ 31 + c else soc.hart.csr.mcause)
  pub mepc : soc'.hart.csr.mepc ≡ (if interrupt_number c then soc.hart.pc else soc.hart.csr.mepc)
  pub mtval : soc'.hart.csr.mtval ≡ (if interrupt_number c then 0 else soc.hart.csr.mtval)
  pub mstatus :
      soc'.hart.csr.mstatus
      ≡ (if interrupt_number c then masked soc.hart.csr.mstatus else soc.hart.csr.mstatus)
  pub mtvec : soc'.hart.csr.mtvec ≡ soc.hart.csr.mtvec
  pub mscratch : soc'.hart.csr.mscratch ≡ soc.hart.csr.mscratch
  pub gpr : soc'.hart.gpr ≡ soc.hart.gpr
  pub bus : soc'.bus ≡ soc.bus
  pub next_step : (soc_step soc').0.pc ≡ soc'.hart.pc

step_pc : (soc : Soc) → soc.hart.gpr 0 ≡ 0 → (soc_step soc).0.pc ≡ soc.hart.pc
unfolding soc_step
step_pc soc z = (hart_step-Explains soc.hart soc.bus z).pc

ignored : (soc : Soc) (c : ℕ) → trap_is_interrupt c ≡ false → soc_raise_interrupt soc c ≡ soc
unfolding soc_raise_interrupt
ignored soc c i = if-false _ i

ignored-Raises :
    (soc : Soc) (c : ℕ) → soc.hart.gpr 0 ≡ 0 → trap_is_interrupt c ≡ false → Raises soc c soc
ignored-Raises soc c z i = record {
  pc = sym (if-false _ i);
  mcause = sym (if-false _ i);
  mepc = sym (if-false _ i);
  mtval = sym (if-false _ i);
  mstatus = sym (if-false _ i);
  mtvec = refl;
  mscratch = refl;
  gpr = refl;
  bus = refl;
  next_step = step_pc soc z;
}

raised-Raises :
    (soc : Soc) (c : ℕ)
    → IsWord soc.hart.csr.mtvec
    → IsWord soc.hart.csr.mstatus
    → soc.hart.gpr 0 ≡ 0
    → trap_is_interrupt c ≡ true
    → Raises soc c (record soc { hart = hart_take_trap soc.hart c 0 })
unfolding hart_take_trap commit_trap
raised-Raises soc c w m z i =
    let (pc, mcause, mepc, mtval, gpr) = hart_take_trap_lem soc.hart c 0 w (ground arith) in
    record {
      pc = pc ∙ ground arith;
      mcause = mcause ∙ ground arith;
      mepc = mepc ∙ ground arith;
      mtval = mtval ∙ ground arith;
      mstatus = trap_mstatus_lem soc.hart.csr.mstatus m ∙ sym (if-true _ i);
      mtvec = refl;
      mscratch = refl;
      gpr = gpr;
      bus = refl;
      next_step = step_pc (record soc { hart = hart_take_trap soc.hart c 0 }) z;
    }

-- Where mtvec and mstatus are words and x0 is zero, raising 3, 7 or 11 moves the PC to the base
-- of mtvec, or in vectored mode four bytes further for each unit of the cause, sets mcause to the
-- cause plus 2^31, mepc to the PC and mtval to 0, keeps the interrupt enable of mstatus in bit 7,
-- clears it and sets bits 11 and 12; raising any other number changes none of these. Always the
-- rest of the CSRs, the registers and the bus are kept, and the next step of the SoC starts at
-- the PC that is left.
pub soc_raise_interrupt-Raises :
    (soc : Soc) (c : ℕ)
    → IsWord soc.hart.csr.mtvec
    → IsWord soc.hart.csr.mstatus
    → soc.hart.gpr 0 ≡ 0
    → Raises soc c (soc_raise_interrupt soc c)
soc_raise_interrupt-Raises soc c w m z = elim (Bool-cases (trap_is_interrupt c)) [
  | inl i ↦ rw (raised soc c i) (raised-Raises soc c w m z i)
  | inr i ↦ rw (ignored soc c i) (ignored-Raises soc c z i)
]
