-- ===== src/Bus/Wired.antt =====
-- The invariant of the slots (src/bus.c, src/memory.c, src/uart.c): each table of operations stands
-- with a context of its kind, and what the devices store are bytes.
use rve.Base.{
  ℕ, zero, suc, ◌^◌, ◌≤◌, ◌<◌, ◌≡◌, refl, sym, ap, ◌∙◌, arith, true, false, Option, none, some,
  List, get_elem?, set, replicate, [], ◌∷◌, length, get_elem?-set_self, get_elem?-set_ne,
  get_elem?-lt, Option-cases, Bool-cases, inl, inr, ◌==◌, bit_and, bit_and_mask,
}
use rve.Peripherals.Types.{Host, Memory, Context, Peripheral, ReadFn, WriteFn}
use rve.Peripherals.Memory.{memory_ops, memory_read, memory_write, write_memory}
use rve.Peripherals.Uart.{uart_read, uart_write}
use rve.Peripherals.Tohost.{tohost_write}
use rve.Bus.{Bus, bus_read, bus_write, bus_get_peripheral, lookup_slot, update_ctx, covers}
use rve.Bus.Lookup.{BestMatch, bus_get_peripheral-BestMatch}
use rve.Bus.WiredDevice.{
  ram, serial, halting, idle, AllWired, ByteMemory, Wired, read_memory-lt, read_register-Byte,
  write_memory-Byte, write_register-Byte,
}

-- The slot that answers is active.
lookup_slot-active :
    (bus : Bus) (addr i : ℕ) (p : Peripheral)
    → lookup_slot bus addr ≡ some (i, p)
    → (get_elem? bus.peripherals i ≡ some p) × (p.active ≡ true)
unfolding lookup_slot covers
lookup_slot-active bus addr i p l =
    go (bus_get_peripheral bus addr) refl (bus_get_peripheral-BestMatch bus addr)
  where
    go :
        (o : Option ℕ)
        → bus_get_peripheral bus addr ≡ o
        → BestMatch bus.peripherals addr o
        → (get_elem? bus.peripherals i ≡ some p) × (p.active ≡ true)
    go none e m = cc (rw (lookup_slot, e) at l)
    go (some k) e (q, g, c, wins) =
        let found : lookup_slot bus addr ≡ some (k, q) = rw (lookup_slot, e) (rw g refl) in
        let ki : k ≡ i = cc in
        let qp : q ≡ p = cc in
        let on : q.active ≡ true = ground arith in (rw (ki, qp) at g, rw qp at on)

-- A context of the same kind may replace the old one.
update_ctx-AllWired :
    (bus : Bus) (i : ℕ) (p : Peripheral) (ctx : Context)
    → AllWired bus
    → i < length bus.peripherals
    → Wired (record p { ctx = ctx })
    → AllWired (update_ctx bus i p ctx)
update_ctx-AllWired bus i p ctx a l w = record {
  wired = λ j q g. elim (Bool-cases (i == j)) [
    | inl e ↦
        let ij : i ≡ j = ground arith in
        let here : get_elem? (set bus.peripherals i (record p { ctx = ctx })) j
            ≡ some (record p { ctx = ctx }) =
          ap (get_elem? (set bus.peripherals i (record p { ctx = ctx }))) (sym ij)
          ∙ get_elem?-set_self bus.peripherals i (record p { ctx = ctx }) l in
        let pq : record p { ctx = ctx } ≡ q = cc in rw pq at w
    | inr e ↦
        a.wired j q
          (sym (get_elem?-set_ne bus.peripherals i j (record p { ctx = ctx }) (ground arith)) ∙ g)
  ];
}

-- What a read through the bus gives.
pub record ReadOk (x : Option ℕ × Bus) : Type 0 where
  pub word : (v : ℕ) → x.0 ≡ some v → v < 2 ^ 32
  pub wired : AllWired x.1

pub bus_read-served :
    (bus : Bus) (addr size_bits i : ℕ) (p : Peripheral) (read : ReadFn)
    → lookup_slot bus addr ≡ some (i, p)
    → p.ops.read ≡ some read
    → bus_read bus addr size_bits
      ≡ (let (result, ctx) = read p.ctx addr size_bits in (result, update_ctx bus i p ctx))
unfolding bus_read
bus_read-served bus addr size_bits i p read l o = rw (bus_read, l) (simp o refl)

bus_read-refused :
    (bus : Bus) (addr size_bits i : ℕ) (p : Peripheral)
    → lookup_slot bus addr ≡ some (i, p)
    → p.ops.read ≡ none
    → bus_read bus addr size_bits ≡ (none, bus)
unfolding bus_read
bus_read-refused bus addr size_bits i p l o = rw (bus_read, l) (simp o refl)

bus_read-unmapped :
    (bus : Bus) (addr size_bits : ℕ)
    → lookup_slot bus addr ≡ none
    → bus_read bus addr size_bits ≡ (none, bus)
unfolding bus_read
bus_read-unmapped bus addr size_bits l = rw (bus_read, l) refl

refused-ReadOk : (bus : Bus) → AllWired bus → ReadOk (none, bus)
refused-ReadOk bus a = record { word = λ v e. cc; wired = a }

slot-ReadOk :
    (bus : Bus) (addr size_bits i : ℕ) (p : Peripheral)
    → AllWired bus
    → size_bits ≤ 32
    → lookup_slot bus addr ≡ some (i, p)
    → get_elem? bus.peripherals i ≡ some p
    → p.active ≡ true
    → Wired p
    → ReadOk (bus_read bus addr size_bits)
unfolding memory_read uart_read
slot-ReadOk bus addr size_bits i p a h l g act (ram m o c b) =
    rw (bus_read-served bus addr size_bits i p memory_read l (ap (λ x. x.read) o)) (
      rw c (record {
        word = λ v e. read_memory-lt m addr size_bits v h b e;
        wired =
            update_ctx-AllWired bus i p (Context.memory m) a (get_elem?-lt bus.peripherals i p g)
              (ram m o refl b);
      }))
slot-ReadOk bus addr size_bits i p a h l g act (serial u o c b) =
    let (v, b') = read_register-Byte u (bit_and addr 0x7) b in
    rw (bus_read-served bus addr size_bits i p uart_read l (ap (λ x. x.read) o)) (
      rw c (record {
        word = λ v e. ground arith;
        wired =
            update_ctx-AllWired bus i p _ a (get_elem?-lt bus.peripherals i p g)
              (serial _ o refl b');
      }))
slot-ReadOk bus addr size_bits i p a h l g act (halting o c) =
    rw (bus_read-refused bus addr size_bits i p l (ap (λ x. x.read) o)) (refused-ReadOk bus a)
slot-ReadOk bus addr size_bits i p a h l g act (idle n) = cc

pub bus_read-ReadOk :
    (bus : Bus) (addr size_bits : ℕ)
    → AllWired bus
    → size_bits ≤ 32
    → ReadOk (bus_read bus addr size_bits)
bus_read-ReadOk bus addr size_bits a h = go (lookup_slot bus addr) refl
  where
    go :
        (o : Option (ℕ × Peripheral))
        → lookup_slot bus addr ≡ o
        → ReadOk (bus_read bus addr size_bits)
    go none l = rw (bus_read-unmapped bus addr size_bits l) (refused-ReadOk bus a)
    go (some (i, p)) l =
        let (g, act) = lookup_slot-active bus addr i p l in
        slot-ReadOk bus addr size_bits i p a h l g act (a.wired i p g)

bus_write-refused :
    (bus : Bus) (addr word size_bits : ℕ)
    → lookup_slot bus addr ≡ none
    → bus_write bus addr word size_bits ≡ (false, bus)
unfolding bus_write
bus_write-refused bus addr word size_bits l = rw (bus_write, l) refl

bus_write-served :
    (bus : Bus) (addr word size_bits i : ℕ) (p : Peripheral) (write : WriteFn)
    → lookup_slot bus addr ≡ some (i, p)
    → p.ops.write ≡ some write
    → (bus_write bus addr word size_bits).1.peripherals
      ≡ set bus.peripherals i (record p { ctx = (write p.ctx addr word size_bits bus.host).1 })
unfolding bus_write
bus_write-served bus addr word size_bits i p write l o = rw (bus_write, l) (simp o refl)

-- The invariant is about the slots alone.
same_slots : (bus bus' : Bus) → bus'.peripherals ≡ bus.peripherals → AllWired bus → AllWired bus'
same_slots bus bus' e a = record { wired = λ j q g. a.wired j q (rw e at g) }

memory_write-Wired :
    (p : Peripheral) (m : Memory) (addr word size_bits : ℕ) (host : Host)
    → p.ops ≡ memory_ops
    → ByteMemory m
    → Wired (record p { ctx = (memory_write (Context.memory m) addr word size_bits host).1 })
unfolding memory_write
memory_write-Wired p m addr word size_bits host o b =
    elim (Option-cases (write_memory m addr word size_bits)) [
      | inl e ↦ rw (memory_write, e) (ram m o refl b)
      | inr (m', e) ↦
          rw (memory_write, e) (ram m' o refl (write_memory-Byte m addr word size_bits e b))
    ]

slot_write-AllWired :
    (bus : Bus) (addr word size_bits i : ℕ) (p : Peripheral)
    → AllWired bus
    → lookup_slot bus addr ≡ some (i, p)
    → get_elem? bus.peripherals i ≡ some p
    → p.active ≡ true
    → Wired p
    → AllWired (bus_write bus addr word size_bits).1
unfolding uart_write tohost_write
slot_write-AllWired bus addr word size_bits i p a l g act (ram m o c b) =
    same_slots _ _
      (bus_write-served bus addr word size_bits i p memory_write l (ap (λ x. x.write) o))
      (update_ctx-AllWired bus i p _ a (get_elem?-lt bus.peripherals i p g)
        (rw c (memory_write-Wired p m addr word size_bits bus.host o b)))
slot_write-AllWired bus addr word size_bits i p a l g act (serial u o c b) =
    same_slots _ _ (bus_write-served bus addr word size_bits i p uart_write l (ap (λ x. x.write) o))
      (update_ctx-AllWired bus i p _ a (get_elem?-lt bus.peripherals i p g) (
        rw c (
          serial _ o refl (
            write_register-Byte u (bit_and addr 0x7) (bit_and word 0xFF) bus.host
              (omega (arith, bit_and_mask 8 word)) b))))
slot_write-AllWired bus addr word size_bits i p a l g act (halting o c) =
    same_slots _ _
      (bus_write-served bus addr word size_bits i p tohost_write l (ap (λ x. x.write) o))
      (update_ctx-AllWired bus i p _ a (get_elem?-lt bus.peripherals i p g) (rw c (halting o refl)))
slot_write-AllWired bus addr word size_bits i p a l g act (idle n) = cc

pub bus_write-AllWired :
    (bus : Bus) (addr word size_bits : ℕ)
    → AllWired bus
    → AllWired (bus_write bus addr word size_bits).1
bus_write-AllWired bus addr word size_bits a = go (lookup_slot bus addr) refl
  where
    go :
        (o : Option (ℕ × Peripheral))
        → lookup_slot bus addr ≡ o
        → AllWired (bus_write bus addr word size_bits).1
    go none l = rw (bus_write-refused bus addr word size_bits l) a
    go (some (i, p)) l =
        let (g, act) = lookup_slot-active bus addr i p l in
        slot_write-AllWired bus addr word size_bits i p a l g act (a.wired i p g)

-- The same of a list of slots, to build it slot by slot.
abbrev pub WiredSlots : List Peripheral → Type 0
WiredSlots ps = (j : ℕ) (q : Peripheral) → get_elem? ps j ≡ some q → Wired q

pub nil-Wired : WiredSlots []
nil-Wired j q g = cc

pub cons-Wired :
    (p : Peripheral) (ps : List Peripheral) → Wired p → WiredSlots ps → WiredSlots (p ∷ ps)
cons-Wired p ps w h zero q g = let e : p ≡ q = cc in rw e at w
cons-Wired p ps w h (suc j) q g = h j q g

pub replicate-Wired : (n : ℕ) (p : Peripheral) → p.active ≡ false → WiredSlots (replicate n p)
replicate-Wired zero p a = nil-Wired
replicate-Wired (suc n) p a = cons-Wired p (replicate n p) (idle a) (replicate-Wired n p a)
