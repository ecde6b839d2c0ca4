-- ===== src/Hart/Status.antt =====
-- The interrupt bits of `mstatus` over a trap and an MRET (src/hart.c).
use rve.Base.{
  ℕ, zero, suc, ◌+◌, ◌*◌, ◌/◌, ◌%◌, ◌^◌, ◌<◌, min, ◌≡◌, refl, ap, ◌∙◌, arith, bit_and, bit_or,
  bit_and_halves, bit_or_halves, bit_and_mask, bit_or_field, bit_or-zero,
}
use native.Mathlib.Nat.{pow-suc}
use rve.Word.{IsWord}
use rve.Decoder.Types.{Op, DecodedInstruction}
use rve.Hart.Types.{Hart}
use rve.Hart.Access.{Locals}
use rve.Hart.Trap.{trap_mstatus, commit_trap, hart_take_trap}
use rve.Hart.Execute.{mret_mstatus, exec_mret, execute}

and_digit :
    (a a' m c d : ℕ)
    → d < 2
    → m ≡ c * 2 + d
    → a' ≡ a / 2
    → bit_and a m ≡ bit_and a' c * 2 + min (a % 2) d
and_digit a a' m c d h e f = rw f (ground (arith, bit_and_halves a m, ap (bit_and (a / 2)) half))
  where
    half : m / 2 ≡ c
    half = omega arith

-- The mask of the three lowest digits, with a clear digit above.
mask_0x7 : (a c : ℕ) → bit_and a (c * 2 ^ 4 + 7) ≡ bit_and (a / 2 ^ 4) c * 2 ^ 4 + a % 2 ^ 3
mask_0x7 a c = omega (
  arith,
  and_digit a (a / 2) (c * 2 ^ 4 + 7) (c * 2 ^ 3 + 3) 1 (omega arith) (omega arith) refl,
  and_digit (a / 2) (a / 4) (c * 2 ^ 3 + 3) (c * 2 ^ 2 + 1) 1 (omega arith) (omega arith)
      (omega arith),
  and_digit (a / 4) (a / 8) (c * 2 ^ 2 + 1) (c * 2) 1 (omega arith) (omega arith) (omega arith),
  and_digit (a / 8) (a / 2 ^ 4) (c * 2) c 0 (omega arith) (omega arith) (omega arith),
)

clear_0x88 :
    (m : ℕ)
    → IsWord m
    → bit_and m 0xFFFF_FF77 ≡ m / 2 ^ 8 * 2 ^ 8 + m / 2 ^ 4 % 2 ^ 3 * 2 ^ 4 + m % 2 ^ 3
clear_0x88 m w = omega (
  arith,
  mask_0x7 m 0xFFF_FFF7,
  mask_0x7 (m / 2 ^ 4) 0xFF_FFFF,
  bit_and_mask 24 (m / 2 ^ 4 / 2 ^ 4),
)

-- Below the field that is set, the digits are kept.
bit_or_above :
    (k q q' r : ℕ) → r < 2 ^ k → bit_or (q * 2 ^ k + r) (q' * 2 ^ k) ≡ bit_or q q' * 2 ^ k + r
bit_or_above zero q q' r h = ground arith
bit_or_above (suc k) q q' r h = ground (
  arith,
  bit_or_halves (q * 2 ^ suc k + r) (q' * 2 ^ suc k),
  pow-suc 2 k,
  ap (λ (t : ℕ). q * t) (pow-suc 2 k),
  ap (λ (t : ℕ). q' * t) (pow-suc 2 k),
  ap (λ (t : ℕ). bit_or q q' * t) (pow-suc 2 k),
  bit_or_above k q q' (r / 2) (omega (arith, pow-suc 2 k)),
)

-- The field of machine mode, 3.
bit_or_3 : (q : ℕ) → bit_or q 3 ≡ q / 4 * 4 + 3
bit_or_3 q = omega (arith, bit_or_halves q 3, bit_or_halves (q / 2) 1, bit_or-zero (q / 2 / 2))

or_at :
    (k x y q q' r : ℕ)
    → x ≡ q * 2 ^ k + r
    → y ≡ q' * 2 ^ k
    → r < 2 ^ k
    → bit_or x y ≡ bit_or q q' * 2 ^ k + r
or_at k x y q q' r e f h = rw e (rw f (bit_or_above k q q' r h))

-- Bit 3 is moved to bit 7.
mie_moved :
    (m : ℕ)
    → IsWord m
    → bit_or (bit_and m 0xFFFF_FF77) (bit_and (m / 8) 1 * 128 % 2 ^ 32)
      ≡ m / 2 ^ 8 * 2 ^ 8 + m / 2 ^ 3 % 2 * 2 ^ 7 + m / 2 ^ 4 % 2 ^ 3 * 2 ^ 4 + m % 2 ^ 3
mie_moved m w = omega (
  arith,
  or_at 7 (bit_and m 0xFFFF_FF77) (bit_and (m / 8) 1 * 128 % 2 ^ 32) (m / 2 ^ 8 * 2 ^ 1) (m / 8 % 2)
      (m / 2 ^ 4 % 2 ^ 3 * 2 ^ 4 + m % 2 ^ 3) (omega (arith, clear_0x88 m w))
      (omega (arith, bit_and_mask 1 (m / 8))) (omega arith),
  bit_or_field 1 (m / 2 ^ 8) (m / 8 % 2) (omega arith),
)

pub trap_mstatus_lem :
    (m : ℕ)
    → IsWord m
    → trap_mstatus m
      ≡ m / 2 ^ 13 * 2 ^ 13
        + 3 * 2 ^ 11
        + m / 2 ^ 8 % 2 ^ 3 * 2 ^ 8
        + m / 2 ^ 3 % 2 * 2 ^ 7
        + m / 2 ^ 4 % 2 ^ 3 * 2 ^ 4
        + m % 2 ^ 3
unfolding trap_mstatus
trap_mstatus_lem m w = omega (
  arith,
  or_at 11 (bit_or (bit_and m 0xFFFF_FF77) (bit_and (m / 8) 1 * 128 % 2 ^ 32)) 6144 (m / 2 ^ 11) 3
      (m / 2 ^ 8 % 2 ^ 3 * 2 ^ 8 + m / 2 ^ 3 % 2 * 2 ^ 7 + m / 2 ^ 4 % 2 ^ 3 * 2 ^ 4 + m % 2 ^ 3)
      (omega (arith, mie_moved m w)) refl (omega arith),
  bit_or_3 (m / 2 ^ 11),
)

-- Bit 7 is moved to bit 3.
mpie_moved :
    (m : ℕ)
    → IsWord m
    → bit_or (bit_and m 0xFFFF_FFF7) (bit_and (m / 128) 1 * 8 % 2 ^ 32)
      ≡ m / 2 ^ 4 * 2 ^ 4 + m / 2 ^ 7 % 2 * 2 ^ 3 + m % 2 ^ 3
mpie_moved m w = omega (
  arith,
  mask_0x7 m 0xFFF_FFFF,
  bit_and_mask 28 (m / 2 ^ 4),
  or_at 3 (bit_and m 0xFFFF_FFF7) (bit_and (m / 128) 1 * 8 % 2 ^ 32) (m / 2 ^ 4 * 2 ^ 1)
      (m / 128 % 2) (m % 2 ^ 3) (omega (arith, mask_0x7 m 0xFFF_FFFF, bit_and_mask 28 (m / 2 ^ 4)))
      (omega (arith, bit_and_mask 1 (m / 128))) (omega arith),
  bit_or_field 1 (m / 2 ^ 4) (m / 128 % 2) (omega arith),
)

pub mret_mstatus_lem :
    (m : ℕ)
    → IsWord m
    → mret_mstatus m
      ≡ m / 2 ^ 8 * 2 ^ 8 + 2 ^ 7 + m / 2 ^ 4 % 2 ^ 3 * 2 ^ 4 + m / 2 ^ 7 % 2 * 2 ^ 3 + m % 2 ^ 3
unfolding mret_mstatus
mret_mstatus_lem m w = omega (
  arith,
  or_at 7 (bit_or (bit_and m 0xFFFF_FFF7) (bit_and (m / 128) 1 * 8 % 2 ^ 32)) 128 (m / 2 ^ 7) 1
      (m / 2 ^ 4 % 2 ^ 3 * 2 ^ 4 + m / 2 ^ 7 % 2 * 2 ^ 3 + m % 2 ^ 3)
      (omega (arith, mpie_moved m w)) refl (omega arith),
  bit_or_halves (m / 2 ^ 7) 1,
  bit_or-zero (m / 2 ^ 7 / 2),
)

pub mret-trap_mstatus :
    (m : ℕ)
    → IsWord m
    → mret_mstatus (trap_mstatus m)
      ≡ m / 2 ^ 13 * 2 ^ 13 + 3 * 2 ^ 11 + m / 2 ^ 8 % 2 ^ 3 * 2 ^ 8 + 2 ^ 7 + m % 2 ^ 7
mret-trap_mstatus m w = omega (
  arith,
  trap_mstatus_lem m w,
  mret_mstatus_lem (trap_mstatus m) (omega (arith, trap_mstatus_lem m w)),
)

-- An MRET executed in the state that taking a trap leaves, where mstatus was a word, returns to
-- the PC of the trap with the registers unchanged, and the seven lowest bits of mstatus, the
-- interrupt enable among them, are as before the trap; bit 7 is set, bits 11 and 12 are set, and
-- the other bits are kept.
pub mret-take_trap :
    (hart : Hart) (c tval : ℕ) (di : DecodedInstruction) (s : Locals)
    → IsWord hart.csr.mstatus
    → s.hart ≡ hart_take_trap hart c tval
    → let m = hart.csr.mstatus in
      let s' = execute Op.mret di s in
      (s'.next_pc ≡ hart.pc)
      × (s'.hart.gpr ≡ hart.gpr)
      × (s'.hart.csr.mstatus
          ≡ m / 2 ^ 13 * 2 ^ 13 + 3 * 2 ^ 11 + m / 2 ^ 8 % 2 ^ 3 * 2 ^ 8 + 2 ^ 7 + m % 2 ^ 7)
unfolding execute exec_mret hart_take_trap commit_trap
mret-take_trap hart c tval di s w e = (
  ap (λ h. h.csr.mepc) e,
  ap (λ h. h.gpr) e,
  ap (λ h. mret_mstatus h.csr.mstatus) e ∙ mret-trap_mstatus hart.csr.mstatus w,
)
