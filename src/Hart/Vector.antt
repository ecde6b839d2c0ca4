-- ===== src/Hart/Vector.antt =====
-- The entry of a trap handler (src/hart.c) in terms of numbers, and x0.
use rve.Base.{
  ℕ, ◌+◌, ◌*◌, ◌%◌, ◌/◌, ◌^◌, ◌≡◌, ◌<◌, refl, ap, arith, Bool, ◌&&◌, ◌==◌, if◌then◌else◌, bit_or,
  bit_or_field, bit_and_mask, bit_and_field,
}
use rve.Word.{IsWord}
use rve.Hart.Types.{Hart, trap_is_interrupt}
use rve.Hart.Trap.{hart_take_trap, commit_trap, trap_vector}

-- The two lowest bits of `mtvec` are its mode.
trap_vector_lem :
    (mtvec c : ℕ) (is_int : Bool)
    → IsWord mtvec
    → c < 2 ^ 31
    → trap_vector mtvec c is_int
      ≡ (if mtvec % 4 == 1 && is_int then (mtvec / 4 * 4 + c * 4) % 2 ^ 32 else mtvec / 4 * 4)
unfolding trap_vector
trap_vector_lem mtvec c is_int w h =
    ground (arith, bit_and_mask 2 mtvec, bit_and_field 2 30 mtvec, bit_and_mask 31 c)

interrupt_cause : (c : ℕ) → c < 2 ^ 31 → bit_or 0x8000_0000 c ≡ 2 ^ 31 + c
interrupt_cause c h = bit_or_field 31 1 c h

-- Taking a trap with a cause below 2^31, where mtvec is a word, goes to the base of mtvec, or in
-- vectored mode for a cause that counts as an interrupt four bytes further for each unit of the
-- cause; mcause is the cause, with 2^31 added for such a cause, mepc is the old PC, mtval the
-- given value, and the registers are kept.
pub hart_take_trap_lem :
    (hart : Hart) (c tval : ℕ)
    → IsWord hart.csr.mtvec
    → c < 2 ^ 31
    → let hart' = hart_take_trap hart c tval in
      let base = hart.csr.mtvec / 4 * 4 in
      (hart'.pc ≡ (
        if hart.csr.mtvec % 4 == 1 && trap_is_interrupt c then (base + c * 4) % 2 ^ 32 else base))
      × (hart'.csr.mcause ≡ (if trap_is_interrupt c then 2 ^ 31 + c else c))
      × (hart'.csr.mepc ≡ hart.pc)
      × (hart'.csr.mtval ≡ tval)
      × (hart'.gpr ≡ hart.gpr)
unfolding hart_take_trap commit_trap
hart_take_trap_lem hart c tval w h = (
  trap_vector_lem hart.csr.mtvec c (trap_is_interrupt c) w h,
  ap (λ x. if trap_is_interrupt c then x else c) (interrupt_cause c h),
  refl,
  refl,
  refl,
)
