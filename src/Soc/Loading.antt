-- ===== src/Soc/Loading.antt =====
-- What `soc_load_binary` of src/soc.c leaves for the reads of the bus.
use rve.Base.{
  ℕ, ◌+◌, ◌/◌, ◌^◌, ◌≤◌, ◌<◌, ◌≡◌, refl, ap, ◌∙◌, Option, some, List, length, drop, get_elem?,
  Option-cases, inl, inr,
}
use rve.Peripherals.Types.{Memory, Context, Peripheral, PeripheralOps}
use rve.Peripherals.Memory.{memory_load_file, memory_read, memory_ops}
use rve.Peripherals.Memory.Image.{little_endian, memory_load_file-read_memory_image}
use rve.Bus.{Bus, bus_read, bus_get_peripheral, lookup_slot, update_ctx}
use rve.Bus.Wired.{bus_read-served}
use rve.Bus.Update.{lookup_slot-inv, lookup_slot-update_ctx}
use rve.Soc.{Soc, soc_load_binary}

-- A load that is accepted found a memory at the slot that serves the address.
pub record Loads (soc soc' : Soc) (image : List ℕ) (load_addr : ℕ) : Type 0 where
  pub i : ℕ
  pub p : Peripheral
  pub m : Memory
  pub m' : Memory
  pub serves : bus_get_peripheral soc.bus load_addr ≡ some i
  pub slot : get_elem? soc.bus.peripherals i ≡ some p
  pub before : p.ctx ≡ Context.memory m
  pub load : memory_load_file m load_addr image ≡ some m'
  pub after : soc' ≡ record soc { bus = update_ctx soc.bus i p (Context.memory m') }

pub soc_load_binary-Loads :
    (soc soc' : Soc) (image : List ℕ) (load_addr : ℕ)
    → soc_load_binary soc image load_addr ≡ some soc'
    → Loads soc soc' image load_addr
unfolding soc_load_binary
soc_load_binary-Loads soc soc' image load_addr h =
    elim (Option-cases (lookup_slot soc.bus load_addr)) [
      | inl l ↦ cc (rw (soc_load_binary, l) at h)
      | inr ((i, p), l) ↦ go i p l p.ctx refl
    ]
  where
    go :
        (i : ℕ) (p : Peripheral)
        → lookup_slot soc.bus load_addr ≡ some (i, p)
        → (c : Context) → p.ctx ≡ c
        → Loads soc soc' image load_addr
    go i p l (Context.memory m) c = elim (Option-cases (memory_load_file m load_addr image)) [
      | inl f ↦ cc (rw (c, f) at (rw (soc_load_binary, l) at h))
      | inr (m', f) ↦
          let (serves, slot) = lookup_slot-inv soc.bus load_addr i p l in
          record {
            i = i;
            p = p;
            m = m;
            m' = m';
            serves = serves;
            slot = slot;
            before = c;
            load = f;
            after = cc (rw (c, f) at (rw (soc_load_binary, l) at h));
          }
    ]
    go i p l Context.null c = cc (rw c at (rw (soc_load_binary, l) at h))
    go i p l (Context.uart u) c = cc (rw c at (rw (soc_load_binary, l) at h))
    go i p l Context.tohost c = cc (rw c at (rw (soc_load_binary, l) at h))

-- If the slot that took the image has the operations of a memory and serves the address too, a read
-- of one to four bytes of the image through the bus gives them, the lowest first.
pub soc_load_binary-bus_read :
    (soc soc' : Soc) (image : List ℕ) (load_addr k size_bits : ℕ)
    → load_addr < 2 ^ 32
    → length image < 2 ^ 63
    → (x : Loads soc soc' image load_addr) → x.p.ops ≡ memory_ops
    → bus_get_peripheral soc.bus (load_addr + k) ≡ some x.i
    → 0 < size_bits / 8
    → size_bits / 8 ≤ 4
    → k + size_bits / 8 ≤ length image
    → (bus_read soc'.bus (load_addr + k) size_bits).0
      ≡ some (little_endian (drop k image) (size_bits / 8))
unfolding memory_read
soc_load_binary-bus_read soc soc' image load_addr k size_bits ha hs x o s some_bytes narrow inside =
    let ctx = Context.memory x.m' in
    let l = lookup_slot-update_ctx soc.bus x.i x.p ctx (load_addr + k) x.slot s in
    rw (x.after) (
      ap (λ (y : Option ℕ × Bus). y.0)
        (bus_read-served (update_ctx soc.bus x.i x.p ctx) (load_addr + k) size_bits x.i
          (record x.p { ctx = ctx }) memory_read l (ap (λ (y : PeripheralOps). y.read) o))
      ∙ memory_load_file-read_memory_image x.m x.m' load_addr k size_bits image ha hs x.load
          some_bytes narrow inside)
