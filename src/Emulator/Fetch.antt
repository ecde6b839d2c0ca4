-- ===== src/Emulator/Fetch.antt =====
-- What the default machine of src/emulator.c fetches from an image that it has loaded.
use rve.Base.{
  ℕ, zero, suc, sym, ◌+◌, ◌*◌, ◌/◌, ◌^◌, ◌≤◌, ◌<◌, ◌≡◌, ap, ◌∙◌, true, some, List, [], ◌∷◌, length,
  drop, get_elem?, arith, ◌⊎◌, Option-cases, inl, inr,
}
use mathlib.Core.Option.{some-injective}
use rve.Peripherals.Types.{Memory, Context, Peripheral}
use rve.Peripherals.Memory.{memory_ops, memory_load_file, memory_create_ctx, memory_init}
use rve.Peripherals.Memory.Image.{little_endian}
use rve.Peripherals.Memory.Loading.{memory_load_file-inv}
use rve.Bus.{
  bus_read, bus_get_peripheral, bus_add_peripheral, bus_find_slot, find_slot, bus_init, deactivate,
}
use rve.Soc.{soc_init, soc_add_peripheral, soc_add_memory, soc_load_binary}
use rve.Soc.Loading.{soc_load_binary-Loads, soc_load_binary-bus_read}
use rve.Peripherals.Uart.{uart_ns16550a_create, uart_init, fetch_byte}
use rve.Emulator.Halting.{tohost_slot}
use rve.Emulator.Boot.{zero_memory, ram_slot, boot_uart, serial_slot}
use rve.Emulator.{Emulator, default_soc, emulator_init, emulator_load_binary}
use rve.Emulator.MemoryMap.{mapped_slot, default_soc-mapped_slot}

-- The slot that took an image is one of the two memories, and it serves each byte of the image but
-- for those in the TOHOST window.
record Placed (reset_pc : ℕ) (image : List ℕ) (load_addr : ℕ) (i : ℕ) (p : Peripheral)
    : Type 0 where
  pub ops : p.ops ≡ memory_ops
  pub serves :
      (k : ℕ)
      → k < length image
      → (load_addr + k < 0x8000_1000) ⊎ (0x8000_1008 ≤ load_addr + k)
      → bus_get_peripheral (default_soc true true true reset_pc).bus (load_addr + k) ≡ some i

-- An image that a memory of the map has taken lies inside of it.
ram_slot-Fits :
    (base size : ℕ) (image : List ℕ) (load_addr : ℕ) (p : Peripheral) (m m' : Memory)
    → load_addr < 2 ^ 32
    → length image < 2 ^ 63
    → ram_slot base size ≡ p
    → p.ctx ≡ Context.memory m
    → memory_load_file m load_addr image ≡ some m'
    → (base ≤ load_addr) × (load_addr + length image ≤ base + size)
ram_slot-Fits base size image load_addr p m m' ha hs e c f =
    let here : Context.memory (zero_memory base size) ≡ Context.memory m =
      ap (λ (x : Peripheral). x.ctx) e ∙ c in
    let same : zero_memory base size ≡ m = cc in
    let (raw, a, fits, l) = memory_load_file-inv m m' load_addr image ha hs f in
    rw (sym same) at fits

placed :
    (reset_pc : ℕ) (image : List ℕ) (load_addr : ℕ) (i : ℕ) (p : Peripheral) (m m' : Memory)
    → load_addr < 2 ^ 32
    → length image < 2 ^ 63
    → mapped_slot load_addr ≡ some i
    → get_elem? (default_soc true true true reset_pc).bus.peripherals i ≡ some p
    → p.ctx ≡ Context.memory m
    → memory_load_file m load_addr image ≡ some m'
    → Placed reset_pc image load_addr i p
unfolding default_soc soc_init soc_add_peripheral soc_add_memory bus_add_peripheral bus_find_slot
    find_slot bus_init deactivate memory_create_ctx memory_init uart_ns16550a_create uart_init
    fetch_byte
placed reset_pc image load_addr zero p m m' ha hs s g c f =
    let e : tohost_slot ≡ p = cc in
    absurd (let d : Context.tohost ≡ Context.memory m = ap (λ (x : Peripheral). x.ctx) e ∙ c in cc)
placed reset_pc image load_addr (suc zero) p m m' ha hs s g c f =
    let e : ram_slot 0 (4 * 1024 * 1024) ≡ p = some-injective _ _ g in
    let fits = ram_slot-Fits 0 (4 * 1024 * 1024) image load_addr p m m' ha hs e c f in
    record {
      ops = ap (λ (x : Peripheral). x.ops) (sym e);
      serves = λ k h w. default_soc-mapped_slot reset_pc (load_addr + k) ∙ ground arith;
    }
placed reset_pc image load_addr (suc (suc zero)) p m m' ha hs s g c f =
    let e : ram_slot 0x8000_0000 (16 * 1024 * 1024) ≡ p = some-injective _ _ g in
    let fits = ram_slot-Fits 0x8000_0000 (16 * 1024 * 1024) image load_addr p m m' ha hs e c f in
    record {
      ops = ap (λ (x : Peripheral). x.ops) (sym e);
      serves = λ k h w. default_soc-mapped_slot reset_pc (load_addr + k) ∙ ground arith;
    }
placed reset_pc image load_addr (suc (suc (suc zero))) p m m' ha hs s g c f =
    let e : serial_slot ≡ p = some-injective _ _ g in
    let d : Context.uart boot_uart ≡ Context.memory m = ap (λ (x : Peripheral). x.ctx) e ∙ c in
    absurd cc
placed reset_pc image load_addr (suc (suc (suc (suc i)))) p m m' ha hs s g c f =
    absurd (ground arith)

module _ {S D : Type 0} where
  emulator_load_binary-soc :
      (e e' : Emulator S D) (image : List ℕ) (load_addr : ℕ)
      → emulator_load_binary (some image) e load_addr ≡ some e'
      → soc_load_binary e.soc image load_addr ≡ some e'.soc
  unfolding emulator_load_binary
  emulator_load_binary-soc e e' [] load_addr h = cc
  emulator_load_binary-soc e e' (b ∷ bs) load_addr h =
      elim (Option-cases (soc_load_binary e.soc (b ∷ bs) load_addr)) [
        | inl f ↦ cc (rw (emulator_load_binary, f) at h)
        | inr (soc', f) ↦
            let whole : record e { soc = soc' } ≡ e' =
              some-injective _ _ (rw (emulator_load_binary, f) at h) in
            f ∙ ap (λ (x : Emulator S D). some x.soc) whole
      ]

  -- After `emulator_load_binary` has accepted an image of less than 2^63 bytes at a word address
  -- of a fresh emulator with room for each allocation, a read of one to four bytes that lie in
  -- the image and do not start in the TOHOST window gives these bytes, the lowest first.
  pub emulator_load_binary-bus_read :
      (reset_pc load_addr k size_bits : ℕ) (image : List ℕ) (no_data : S) (no_trace : D)
      (e' : Emulator S D)
      → load_addr < 2 ^ 32
      → length image < 2 ^ 63
      → emulator_load_binary
          (some image)
          (emulator_init true true true reset_pc no_data no_trace)
          load_addr
        ≡ some e'
      → 0 < size_bits / 8
      → size_bits / 8 ≤ 4
      → k + size_bits / 8 ≤ length image
      → (load_addr + k < 0x8000_1000) ⊎ (0x8000_1008 ≤ load_addr + k)
      → (bus_read e'.soc.bus (load_addr + k) size_bits).0
        ≡ some (little_endian (drop k image) (size_bits / 8))
  unfolding emulator_init
  emulator_load_binary-bus_read reset_pc load_addr k size_bits image u d e' ha hs h n0 n4 inside w =
      let soc = default_soc true true true reset_pc in
      let f =
        emulator_load_binary-soc (emulator_init true true true reset_pc u d) e' image load_addr h in
      let x = soc_load_binary-Loads soc e'.soc image load_addr f in
      let mapped = sym (default_soc-mapped_slot reset_pc load_addr) ∙ x.serves in
      let at_home =
        placed reset_pc image load_addr x.i x.p x.m x.m' ha hs mapped x.slot x.before x.load in
      soc_load_binary-bus_read soc e'.soc image load_addr k size_bits ha hs x at_home.ops
        (at_home.serves k (omega arith) w) n0 n4 inside
