-- ===== src/Bus/Update.antt =====
-- A device that has changed its context serves the addresses that it did (src/bus.c).
use rve.Base.{
  ℕ, zero, suc, ◌+◌, ◌≡◌, refl, ◌∙◌, Option, none, some, List, [], ◌∷◌, get_elem?, set,
  get_elem?-set_self, get_elem?-lt, Option-cases, inl, inr,
}
use rve.Peripherals.Types.{Context, Peripheral}
use rve.Bus.{Bus, bus_get_peripheral, lookup_slot, find_best, covers, range_size, update_ctx}

find_best-set_ctx :
    (ps : List Peripheral) (i : ℕ) (p : Peripheral) (ctx : Context) (addr j : ℕ) (best : Option ℕ)
    (smallest : ℕ)
    → get_elem? ps i ≡ some p
    → find_best (set ps i (record p { ctx = ctx })) addr j best smallest
      ≡ find_best ps addr j best smallest
unfolding find_best covers range_size
find_best-set_ctx [] i p ctx addr j best smallest g = refl
find_best-set_ctx (q ∷ ps) zero p ctx addr j best smallest g = let e : q ≡ p = cc in rw e refl
find_best-set_ctx (q ∷ ps) (suc i) p ctx addr j best smallest g =
    find_best-set_ctx ps i p ctx addr (j + 1) _ _ g

pub bus_get_peripheral-update_ctx :
    (bus : Bus) (i : ℕ) (p : Peripheral) (ctx : Context) (addr : ℕ)
    → get_elem? bus.peripherals i ≡ some p
    → bus_get_peripheral (update_ctx bus i p ctx) addr ≡ bus_get_peripheral bus addr
unfolding bus_get_peripheral
bus_get_peripheral-update_ctx bus i p ctx addr g =
    find_best-set_ctx bus.peripherals i p ctx addr 0 none 0xFFFF_FFFF g

pub lookup_slot-at :
    (bus : Bus) (addr i : ℕ) (p : Peripheral)
    → bus_get_peripheral bus addr ≡ some i
    → get_elem? bus.peripherals i ≡ some p
    → lookup_slot bus addr ≡ some (i, p)
unfolding lookup_slot
lookup_slot-at bus addr i p g e = rw (lookup_slot, g) (rw e refl)

pub lookup_slot-inv :
    (bus : Bus) (addr i : ℕ) (p : Peripheral)
    → lookup_slot bus addr ≡ some (i, p)
    → (bus_get_peripheral bus addr ≡ some i) × (get_elem? bus.peripherals i ≡ some p)
unfolding lookup_slot
lookup_slot-inv bus addr i p l = elim (Option-cases (bus_get_peripheral bus addr)) [
  | inl e ↦ cc (rw (lookup_slot, e) at l)
  | inr (k, e) ↦ elim (Option-cases (get_elem? bus.peripherals k)) [
    | inl g ↦ cc (rw g at (rw (lookup_slot, e) at l))
    | inr (q, g) ↦
        let found = lookup_slot-at bus addr k q e g in
        let ki : k ≡ i = cc in let qp : q ≡ p = cc in (rw ki at e, rw (ki, qp) at g)
  ]
]

-- An address that the device serves is served by it with its new context.
pub lookup_slot-update_ctx :
    (bus : Bus) (i : ℕ) (p : Peripheral) (ctx : Context) (addr : ℕ)
    → get_elem? bus.peripherals i ≡ some p
    → bus_get_peripheral bus addr ≡ some i
    → lookup_slot (update_ctx bus i p ctx) addr ≡ some (i, record p { ctx = ctx })
lookup_slot-update_ctx bus i p ctx addr g s =
    lookup_slot-at (update_ctx bus i p ctx) addr i (record p { ctx = ctx })
      (bus_get_peripheral-update_ctx bus i p ctx addr g ∙ s)
      (get_elem?-set_self bus.peripherals i (record p { ctx = ctx })
        (get_elem?-lt bus.peripherals i p g))
