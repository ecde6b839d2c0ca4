-- ===== src/Emulator/Halting.antt =====
-- How a machine halts: the TOHOST device under the memory map (src/tohost.c, src/emulator.c), and
-- the step and the run of an emulator that has halted.
use rve.Base.{ℕ, zero, suc, ◌+◌, ◌*◌, ◌≡◌, ◌≤◌, ◌<◌, refl, ap, ◌∙◌, arith, true, some}
use rve.Bus.{
  Bus, update_ctx, bus_write, lookup_slot, bus_add_peripheral, bus_find_slot, find_slot, bus_init,
  deactivate,
}
use rve.Bus.Update.{lookup_slot-at}
use rve.Peripherals.Types.{Context, Host, Peripheral, WriteFn}
use rve.Peripherals.Tohost.{tohost_write, peripheral_tohost_ops}
use rve.Peripherals.Memory.{memory_create_ctx, memory_init}
use rve.Soc.{soc_init, soc_add_peripheral, soc_add_memory}
use rve.Emulator.{Emulator, default_soc, tohost_name, emulator_step, emulator_run}
use rve.Emulator.MemoryMap.{default_soc-mapped_slot, mapped_slot}

mapped_tohost : (addr : ℕ) → 0x8000_1000 ≤ addr → addr < 0x8000_1008 → mapped_slot addr ≡ some 0
mapped_tohost addr h g = ground arith

-- The number that a test writes for case `n`: 1 for a pass, which is case 0.
abbrev pub verdict : ℕ → ℕ
verdict n = n * 2 + 1

pub tohost_write_lem :
    (addr n size_bits : ℕ) (host : Host)
    → tohost_write Context.tohost addr (verdict n) size_bits host
      ≡ (true, Context.tohost, record host { exit_code = n; halted = true })
unfolding tohost_write
tohost_write_lem addr n size_bits host =
    ap (λ c. (true, Context.tohost, record host { exit_code = c; halted = true })) (ground arith)

-- The first slot of the memory map.
abbrev pub tohost_slot : Peripheral
tohost_slot = record {
  active = true;
  name = tohost_name;
  addr_start = 0x8000_1000;
  addr_end = 0x8000_1008;
  ctx = Context.tohost;
  ops = peripheral_tohost_ops;
}

-- A device that answers is called, and its context and the host's cells are stored.
pub bus_write-served :
    (bus : Bus) (addr word size_bits i : ℕ) (p : Peripheral) (write : WriteFn)
    → lookup_slot bus addr ≡ some (i, p)
    → p.ops.write ≡ some write
    → bus_write bus addr word size_bits ≡ (
        let (done, ctx, host) = write p.ctx addr word size_bits bus.host in
        let bus' = update_ctx bus i p ctx in (done, record bus' { host = host }))
unfolding bus_write
bus_write-served bus addr word size_bits i p write l o = rw (bus_write, l) (simp o refl)

-- In the machine that `emulator_init` builds, with room for each allocation, a write of 2n + 1 to
-- the TOHOST window succeeds, halts the emulator, and makes n its exit code, so that 1 is the
-- exit code 0 of a pass.
pub default_soc-bus_write :
    (reset_pc addr n size_bits : ℕ)
    → 0x8000_1000 ≤ addr
    → addr < 0x8000_1008
    → let (done, bus') =
        bus_write (default_soc true true true reset_pc).bus addr (verdict n) size_bits in
      (done ≡ true) × (bus'.host.halted ≡ true) × (bus'.host.exit_code ≡ n)
unfolding default_soc soc_init soc_add_peripheral soc_add_memory bus_add_peripheral bus_find_slot
    find_slot bus_init deactivate memory_create_ctx memory_init
default_soc-bus_write reset_pc addr n size_bits h g =
    let bus = (default_soc true true true reset_pc).bus in
    let m = default_soc-mapped_slot reset_pc addr ∙ mapped_tohost addr h g in
    let l = lookup_slot-at bus addr 0 tohost_slot m refl in
    let w = bus_write-served bus addr (verdict n) size_bits 0 tohost_slot tohost_write l refl in
    let t = tohost_write_lem addr n size_bits bus.host in
    (
      ap (λ x. x.0) w ∙ ap (λ x. x.0) t,
      ap (λ x. x.1.host.halted) w ∙ ap (λ x. x.2.halted) t,
      ap (λ x. x.1.host.exit_code) w ∙ ap (λ x. x.2.exit_code) t,
    )

module _ {S D : Type 0} where
  -- A run that gives a result gives the same result with more fuel, with or without a step limit.
  pub emulator_run-fuel :
      (fuel more : ℕ) (e e' : Emulator S D) (max_steps code : ℕ)
      → fuel ≤ more
      → emulator_run fuel e max_steps ≡ some (code, e')
      → emulator_run more e max_steps ≡ some (code, e')
  unfolding emulator_run
  emulator_run-fuel zero more e e' max_steps code h r = cc
  emulator_run-fuel (suc fuel) zero e e' max_steps code h r = absurd (omega arith)
  emulator_run-fuel (suc fuel) (suc more) e e' max_steps code h r =
      ground (arith, emulator_run-fuel fuel more (emulator_step e).1 e' max_steps code)
