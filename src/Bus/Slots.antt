-- ===== src/Bus/Slots.antt =====
-- `bus_find_slot` and `bus_add_peripheral` of src/bus.c: which slot is filled, and the count.
use rve.Base.{
  ℕ, zero, suc, ◌+◌, ◌≤◌, ◌<◌, ◌≡◌, refl, ap, inl, inr, Bool, true, false, Option, none, some, List,
  [], ◌∷◌, if◌then◌else◌, ◌-◌, ◌∙◌, take, get_elem?, set, length, arith, Bool-cases, length-set,
  ◌↔◌,
}
use rve.Peripherals.Types.{Peripheral, Context, PeripheralOps}
use rve.Bus.{
  Bus, max_peripherals, peripheral_name_max, find_slot, bus_find_slot, bus_add_peripheral,
}

-- The number of slots in use.
abbrev pub in_use : List Peripheral → ℕ
in_use [] = 0
in_use (p ∷ ps) = in_use ps + (if p.active then 1 else 0)

-- What `bus_find_slot` returns: the first inactive slot, or none where all are active.
abbrev pub FirstFree : List Peripheral → Option ℕ → Type 0
FirstFree ps none = (j : ℕ) (q : Peripheral) → get_elem? ps j ≡ some q → q.active ≡ true
FirstFree ps (some k) =
    (p : Peripheral) × (get_elem? ps k ≡ some p)
    × (p.active ≡ false)
    × ((j : ℕ) (q : Peripheral) → j < k → get_elem? ps j ≡ some q → q.active ≡ true)

abbrev shift : ℕ → Option ℕ → Option ℕ
shift i none = none
shift i (some k) = some (i + k)

-- The loop, started at slot 0.
first_free : List Peripheral → Option ℕ
first_free [] = none
first_free (p ∷ ps) = if p.active then shift 1 (first_free ps) else some 0

find_slot-eq : (ps : List Peripheral) (i : ℕ) → find_slot ps i ≡ shift i (first_free ps)
unfolding find_slot first_free
find_slot-eq [] i = refl
find_slot-eq (p ∷ ps) i = ground (arith, find_slot-eq ps (i + 1))

FirstFree-cons :
    (p : Peripheral) (ps : List Peripheral) (o : Option ℕ)
    → p.active ≡ true
    → FirstFree ps o
    → FirstFree (p ∷ ps) (shift 1 o)
FirstFree-cons p ps none a h = all
  where
    all : (j : ℕ) (q : Peripheral) → get_elem? (p ∷ ps) j ≡ some q → q.active ≡ true
    all zero q g = ground arith
    all (suc j) q g = h j q g
FirstFree-cons p ps (some k) a (q, g, free, before) =
    let e : suc k ≡ 1 + k = omega arith in (q, rw (← e) g, free, before')
  where
    before' : (j : ℕ) (r : Peripheral) → j < 1 + k → get_elem? (p ∷ ps) j ≡ some r → r.active ≡ true
    before' zero r lt g' = ground arith
    before' (suc j) r lt g' = before j r (omega arith) g'

first_free-FirstFree : (ps : List Peripheral) → FirstFree ps (first_free ps)
unfolding first_free
first_free-FirstFree [] = λ j q g. absurd (cc)
first_free-FirstFree (p ∷ ps) = elim (Bool-cases p.active) [
  | inl a ↦ simp a (FirstFree-cons p ps (first_free ps) a (first_free-FirstFree ps))
  | inr a ↦ simp a (p, refl, a, λ j q lt g. absurd (omega arith))
]

-- The search for a slot gives an inactive one before which all are active, and none only if all
-- are active.
pub bus_find_slot-FirstFree : (bus : Bus) → FirstFree bus.peripherals (bus_find_slot bus)
unfolding bus_find_slot
bus_find_slot-FirstFree bus =
    rw (find_slot-eq bus.peripherals 0, unshifted (first_free bus.peripherals))
      (first_free-FirstFree bus.peripherals)
  where
    unshifted : (o : Option ℕ) → shift 0 o ≡ o
    unshifted none = refl
    unshifted (some k) = ap some (omega arith)

-- The counter of the bus is right, and the array has its ten slots.
pub record IsValid (bus : Bus) : Type 0 where
  pub slots : length bus.peripherals ≡ max_peripherals
  pub counted : bus.count ≡ in_use bus.peripherals

in_use-le : (ps : List Peripheral) → in_use ps ≤ length ps
in_use-le [] = omega arith
in_use-le (p ∷ ps) = ground (arith, in_use-le ps)

in_use-set :
    (ps : List Peripheral) (k : ℕ) (p q : Peripheral)
    → get_elem? ps k ≡ some p
    → p.active ≡ false
    → q.active ≡ true
    → (in_use (set ps k q) ≡ in_use ps + 1) × (in_use ps < length ps)
in_use-set [] k p q g a b = absurd (cc)
in_use-set (r ∷ ps) zero p q g a b = ground (arith, in_use-le ps)
in_use-set (r ∷ ps) (suc k) p q g a b = ground (arith, in_use-set ps k p q g a b)

in_use-all :
    (ps : List Peripheral)
    → ((j : ℕ) (q : Peripheral) → get_elem? ps j ≡ some q → q.active ≡ true)
    → in_use ps ≡ length ps
in_use-all [] h = refl
in_use-all (p ∷ ps) h = ground (arith, h 0 p refl, in_use-all ps (λ j. h (suc j)))

module _ (bus : Bus) (addr_start addr_end : ℕ) (ctx : Context) (ops : PeripheralOps)
    (name : List ℕ) where
  abbrev after : Bool × Bus
  after = bus_add_peripheral bus addr_start addr_end ctx ops name

  abbrev filled : Peripheral
  filled = record {
    active = true;
    name = take (peripheral_name_max - 1) name;
    addr_start = addr_start;
    addr_end = addr_end;
    ctx = ctx;
    ops = ops;
  }

  add_full : bus_find_slot bus ≡ none → after ≡ (false, bus)
  unfolding bus_add_peripheral
  add_full e = rw (e, bus_add_peripheral)

  add_at :
      (k : ℕ)
      → bus_find_slot bus ≡ some k
      → after
        ≡ (true, record bus { peripherals = set bus.peripherals k filled; count = bus.count + 1 })
  unfolding bus_add_peripheral
  add_at k e = rw (e, bus_add_peripheral)

  -- On a bus with ten slots whose counter is the number of active ones, a registration keeps that
  -- invariant, succeeds exactly if fewer than ten are in use, and counts one more exactly if it
  -- succeeds.
  pub bus_add_peripheral-IsValid :
      IsValid bus
      → IsValid after.1
        × ((after.0 ≡ true) ↔ (bus.count < max_peripherals))
        × (after.1.count ≡ (if after.0 then bus.count + 1 else bus.count))
  bus_add_peripheral-IsValid v = go (bus_find_slot bus) refl (bus_find_slot-FirstFree bus)
    where
      go :
          (o : Option ℕ)
          → bus_find_slot bus ≡ o
          → FirstFree bus.peripherals o
          → IsValid after.1
            × ((after.0 ≡ true) ↔ (bus.count < max_peripherals))
            × (after.1.count ≡ (if after.0 then bus.count + 1 else bus.count))
      go none e h =
          rw (add_full e) (
            v,
            (λ t. absurd (cc), λ lt. absurd (omega (arith, in_use-all bus.peripherals h))),
            refl,
          )
      go (some k) e (p, g, a, before) =
          let (used, room) = in_use-set bus.peripherals k p filled g a refl in
          rw (add_at k e) (
            record { slots = length-set bus.peripherals k filled ∙ v.slots; counted = omega arith },
            (λ t. omega arith, λ lt. refl),
            refl,
          )
