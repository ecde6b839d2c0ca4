-- ===== src/Tests/Numbers.antt =====
-- The arithmetic and the trap bits at fixed inputs (src/hart.c).
use rve.Base.{
  ◌≢◌, none, false, max, bit_at, ◌≡◌, ◌<◌, ◌+◌, ◌*◌, ◌/◌, ◌%◌, ◌^◌, ◌==◌, ◌&&◌, if◌then◌else◌, refl,
  arith,
}
use rve.Word.{signed}
use rve.Word.Int.{nat_abs}
use rve.Hart.Types.{trap_is_interrupt}
use rve.Soc.{Soc, soc_raise_interrupt}
use rve.Soc.Interrupt.{Raises, soc_raise_interrupt-Raises}
use rve.Hart.Csr.{CsrOp, CsrName, CsrTarget, csr_target, csr_dispatch}
use rve.Hart.Csr.Access.{csr_addr, csr_dispatch_lem}
use rve.Hart.Arith.{div, rem}
use rve.Hart.Arith.Exact.{div-rem, rem-bound}
use rve.Hart.Execute.{execute}
use rve.Hart.Step.{locals}
use rve.Hart.Status.{mret-take_trap}
use rve.Hart.Trap.{hart_take_trap}
use rve.Hart.Vector.{hart_take_trap_lem}
use rve.Decoder.Types.{Op, DecodedInstruction, zeroed}
use rve.Tests.Fixtures.{hart_at, small_bus}

div-rem_example : (div 0xFFFF_FFF9 2 * 2 + rem 0xFFFF_FFF9 2) % 2 ^ 32 ≡ 0xFFFF_FFF9
div-rem_example = div-rem 0xFFFF_FFF9 2 (omega arith) (omega arith)

rem-bound_example : nat_abs (signed (rem 0xFFFF_FFF9 2)) < nat_abs (signed 2)
rem-bound_example = rem-bound 0xFFFF_FFF9 2 (omega arith) (omega arith) (omega arith)

-- A timer interrupt, and the return from its handler.
mret-take_trap_example :
    let hart = hart_at 0x1004 in
    let s' = execute Op.mret zeroed (locals (hart_take_trap hart 7 0) small_bus) in
    (s'.next_pc ≡ 0x1004)
    × (s'.hart.gpr ≡ hart.gpr)
    × (s'.hart.csr.mstatus
        ≡ 8 / 2 ^ 13 * 2 ^ 13 + 3 * 2 ^ 11 + 8 / 2 ^ 8 % 2 ^ 3 * 2 ^ 8 + 2 ^ 7 + 8 % 2 ^ 7)
mret-take_trap_example =
    mret-take_trap (hart_at 0x1004) 7 0 zeroed
      (locals (hart_take_trap (hart_at 0x1004) 7 0) small_bus) (omega arith) refl

hart_take_trap_lem_example :
    let hart' = hart_take_trap (hart_at 0x1004) 7 0 in
    (hart'.pc ≡ (if 1 == 1 && trap_is_interrupt 7 then (0x100 + 7 * 4) % 2 ^ 32 else 0x100))
    × (hart'.csr.mcause ≡ (if trap_is_interrupt 7 then 2 ^ 31 + 7 else 7))
    × (hart'.csr.mepc ≡ 0x1004)
    × (hart'.csr.mtval ≡ 0)
    × (hart'.gpr ≡ (hart_at 0x1004).gpr)
hart_take_trap_lem_example = hart_take_trap_lem (hart_at 0x1004) 7 0 (omega arith) (omega arith)

-- The timer interrupt, raised.
soc_raise_interrupt-Raises_example :
    let soc : Soc = record { hart = hart_at 0x1004; bus = small_bus } in
    Raises soc 7 (soc_raise_interrupt soc 7)
soc_raise_interrupt-Raises_example =
    soc_raise_interrupt-Raises (record { hart = hart_at 0x1004; bus = small_bus }) 7 (omega arith)
      (omega arith) refl

-- `csrrs x5, mstatus, x3`
abbrev set_bits : DecodedInstruction
set_bits = record zeroed { original_instruction = 0x3001_A2F3; rd = 5; rs1 = 3 }

reaches_mstatus : csr_target (csr_addr set_bits) ≡ CsrTarget.live CsrName.mstatus
unfolding csr_target
reaches_mstatus = refl

mtvec_differs : CsrName.mtvec ≢ CsrName.mstatus
mtvec_differs h = cc

csr_dispatch_lem_example :
    let hart = hart_at 0x1004 in
    let (trap, hart') = csr_dispatch hart set_bits CsrOp.rs_op false in
    (trap ≡ none)
    × (bit_at hart'.csr.mstatus 3 ≡ max (bit_at 8 3) (bit_at 0 3))
    × (hart'.csr.mtvec ≡ 0x101)
    × (hart'.gpr 5 ≡ 8)
csr_dispatch_lem_example =
    csr_dispatch_lem (hart_at 0x1004) set_bits CsrOp.rs_op false CsrName.mstatus CsrName.mtvec 3
      reaches_mstatus (omega arith) (omega arith) mtvec_differs
