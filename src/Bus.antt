-- ===== src/Bus.antt =====
-- src/bus.c. The slots are a list of ten, and a `peripheral_t *` into the bus is the index of its
-- slot. The state that the devices share through pointers travels with the bus.
pub mod Lookup
pub mod Slots
pub mod WiredDevice
pub mod Wired
pub mod Update
use rve.Base.{
  ℕ, zero, suc, ◌+◌, ◌-◌, ◌%◌, ◌^◌, Bool, true, false, ◌&&◌, ◌||◌, Option, none, some, List, [],
  ◌∷◌, ltb, leb, if◌then◌else◌, get_elem?, set, take,
}
use rve.Peripherals.Types.{Host, Context, PeripheralOps, Peripheral}

abbrev pub max_peripherals : ℕ
max_peripherals = 10

abbrev pub peripheral_name_max : ℕ
peripheral_name_max = 32

pub record Bus : Type 0 where
  pub peripherals : List Peripheral
  pub count : ℕ
  pub host : Host

unfoldable pub deactivate : List Peripheral → List Peripheral
deactivate [] = []
deactivate (p ∷ ps) = record p { active = false } ∷ deactivate ps

unfoldable pub bus_init : Bus → Bus
unfolding deactivate
bus_init bus = record bus { peripherals = deactivate bus.peripherals; count = 0 }

-- The index of the first inactive slot, from index `i` on; `none` is -1.
unfoldable pub find_slot : List Peripheral → ℕ → Option ℕ
find_slot [] i = none
find_slot (p ∷ ps) i = let rest = find_slot ps (i + 1) in if p.active then rest else some i

unfoldable pub bus_find_slot : Bus → Option ℕ
unfolding find_slot
bus_find_slot bus = find_slot bus.peripherals 0

unfoldable pub bus_add_peripheral : Bus → ℕ → ℕ → Context → PeripheralOps → List ℕ → Bool × Bus
unfolding bus_find_slot
bus_add_peripheral bus addr_start addr_end ctx ops name = elim (bus_find_slot bus) [
  | none ↦ (false, bus)
  | some slot ↦ (
    true,
    record bus {
      peripherals = set bus.peripherals slot (record {
        active = true;
        name = take (peripheral_name_max - 1) name;
        addr_start = addr_start;
        addr_end = addr_end;
        ctx = ctx;
        ops = ops;
      });
      count = bus.count + 1;
    },
  )
]

-- `p->active && addr >= p->addr_start && addr < p->addr_end`
unfoldable pub covers : Peripheral → ℕ → Bool
covers p addr = p.active && (leb p.addr_start addr && ltb addr p.addr_end)

-- `p->addr_end - p->addr_start`, which wraps.
unfoldable pub range_size : Peripheral → ℕ
range_size p = (p.addr_end + 2 ^ 32 - p.addr_start) % 2 ^ 32

-- `best_match == NULL || range < smallest_range`
unfoldable pub improves : Option ℕ → ℕ → ℕ → Bool
improves none range smallest_range = true
improves (some _) range smallest_range = ltb range smallest_range

-- The loop from slot `i` on.
unfoldable pub find_best : List Peripheral → ℕ → ℕ → Option ℕ → ℕ → Option ℕ
find_best [] addr i best_match smallest_range = best_match
find_best (p ∷ ps) addr i best_match smallest_range =
    let better = covers p addr && improves best_match (range_size p) smallest_range in
    find_best ps addr (i + 1) (if better then some i else best_match)
      (if better then range_size p else smallest_range)

unfoldable pub bus_get_peripheral : Bus → ℕ → Option ℕ
bus_get_peripheral bus addr = find_best bus.peripherals addr 0 none 0xFFFF_FFFF

-- The slot that `bus_get_peripheral` points to.
unfoldable pub lookup_slot : Bus → ℕ → Option (ℕ × Peripheral)
lookup_slot bus addr = elim (bus_get_peripheral bus addr) [
  | none ↦ none
  | some i ↦ elim (get_elem? bus.peripherals i) [ none ↦ none | some p ↦ some (i, p) ]
]

-- The device at slot `i` has changed its context.
abbrev pub update_ctx : Bus → ℕ → Peripheral → Context → Bus
update_ctx bus i p ctx = record bus { peripherals = set bus.peripherals i (record p { ctx = ctx }) }

unfoldable pub bus_read : Bus → ℕ → ℕ → Option ℕ × Bus
unfolding lookup_slot
bus_read bus addr size_bits = elim (lookup_slot bus addr) [
  | none ↦ (none, bus)
  | some (i, p) ↦ elim p.ops.read [
    | none ↦ (none, bus)
    | some read ↦ let (result, ctx) = read p.ctx addr size_bits in (result, update_ctx bus i p ctx)
  ]
]

unfoldable pub bus_write : Bus → ℕ → ℕ → ℕ → Bool × Bus
unfolding lookup_slot
bus_write bus addr word size_bits = elim (lookup_slot bus addr) [
  | none ↦ (false, bus)
  | some (i, p) ↦ elim p.ops.write [
    | none ↦ (false, bus)
    | some write ↦
        let (done, ctx, host) = write p.ctx addr word size_bits bus.host in
        let bus' = update_ctx bus i p ctx in (done, record bus' { host = host })
  ]
]
