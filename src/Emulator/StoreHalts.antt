-- ===== src/Emulator/StoreHalts.antt =====
-- A store to the TOHOST device ends a run (src/hart.c, src/bus.c, src/tohost.c, src/emulator.c).
use rve.Base.{ℕ, suc, ◌≡◌, refl, ap, sym, ◌∙◌, true, false, Option, none, some, if-true, if-false}
use rve.Bus.{Bus, bus_write, lookup_slot}
use rve.Peripherals.Types.{Context, Peripheral}
use rve.Peripherals.Tohost.{tohost_write}
use rve.Hart.Types.{Retire}
use rve.Hart.Step.{hart_step}
use rve.Hart.Touches.{Touches, fetched_bus, hart_step-Touches}
use rve.Soc.{Soc, soc_step}
use rve.Emulator.{Emulator, emulator_step, step_running, emulator_run, halted, limit_reached}
use rve.Emulator.Halting.{verdict, tohost_write_lem, bus_write-served}

Touches-written :
    (bus bus' : Bus) (r : Retire) (trap : Option ℕ)
    → Touches bus r trap bus'
    → r.mem_write ≡ true
    → (bus_write bus r.mem_write_addr r.mem_write_value r.mem_write_size ≡ (true, bus'))
      × (trap ≡ none)
Touches-written bus bus' r trap (Touches.untouched n m b) w = absurd (cc)
Touches-written bus bus' r trap (Touches.read val n m b t v) w = absurd (cc)
Touches-written bus bus' r trap (Touches.written n m b t) w = (b, t)
Touches-written bus bus' r trap (Touches.read_refused addr size n m b t) w = absurd (cc)
Touches-written bus bus' r trap (Touches.write_refused addr val size n m b t) w = absurd (cc)

-- The device at this address is a TOHOST device.
pub record IsTohost (bus : Bus) (addr : ℕ) : Type 0 where
  pub slot : ℕ
  pub device : Peripheral
  pub found : lookup_slot bus addr ≡ some (slot, device)
  pub ops : device.ops.write ≡ some tohost_write
  pub ctx : device.ctx ≡ Context.tohost

bus_write-tohost :
    (bus : Bus) (addr n size_bits : ℕ)
    → IsTohost bus addr
    → let bus' = (bus_write bus addr (verdict n) size_bits).1 in
      (bus'.host.halted ≡ true) × (bus'.host.exit_code ≡ n)
bus_write-tohost bus addr n size_bits t =
    let w =
      bus_write-served bus addr (verdict n) size_bits t.slot t.device tohost_write t.found t.ops in
    let c =
      ap (λ c. tohost_write c addr (verdict n) size_bits bus.host) t.ctx
      ∙ tohost_write_lem addr n size_bits bus.host in
    (
      ap (λ x. x.1.host.halted) w ∙ ap (λ x. x.2.halted) c,
      ap (λ x. x.1.host.exit_code) w ∙ ap (λ x. x.2.exit_code) c,
    )

soc_step-tohost :
    (soc : Soc) (n : ℕ)
    → let (r, soc') = soc_step soc in
      r.mem_write ≡ true
      → r.mem_write_value ≡ verdict n
      → IsTohost (fetched_bus soc.hart soc.bus) r.mem_write_addr
      → (r.trap ≡ none) × (soc'.bus.host.halted ≡ true) × (soc'.bus.host.exit_code ≡ n)
unfolding soc_step
soc_step-tohost soc n w v t =
    let bus = fetched_bus soc.hart soc.bus in
    let r = (hart_step soc.hart soc.bus).0 in
    let bus' = (hart_step soc.hart soc.bus).2 in
    let (b, c) = Touches-written bus bus' r r.trap (hart_step-Touches soc.hart soc.bus) w in
    let e =
      ap (λ x. x.1) (ap (λ v'. bus_write bus r.mem_write_addr v' r.mem_write_size) (sym v) ∙ b) in
    let h = bus_write-tohost bus r.mem_write_addr n r.mem_write_size t in
    (c, ap (λ x. x.host.halted) (sym e) ∙ h.0, ap (λ x. x.host.exit_code) (sym e) ∙ h.1)

module _ {S D : Type 0} where
  emulator_step-tohost :
      (e : Emulator S D)
      → halted e ≡ false
      → (soc_step e.soc).0.trap ≡ none
      → (emulator_step e).1.soc ≡ (soc_step e.soc).1
  unfolding emulator_step step_running
  emulator_step-tohost e h t =
      ap (λ (x : Retire × Emulator S D). x.1.soc) (if-false _ h) ∙ rw (step_running, t) refl

  -- If the next instruction of a running emulator stores 2n + 1 to an address that a TOHOST
  -- device serves, and this step does not reach the step limit, a run on two units of fuel or
  -- more ends after that step with exit code n.
  pub emulator_run-tohost :
      (fuel : ℕ) (e : Emulator S D) (max_steps n : ℕ)
      → halted e ≡ false
      → limit_reached (emulator_step e).1 max_steps ≡ false
      → (soc_step e.soc).0.mem_write ≡ true
      → (soc_step e.soc).0.mem_write_value ≡ verdict n
      → IsTohost (fetched_bus e.soc.hart e.soc.bus) (soc_step e.soc).0.mem_write_addr
      → emulator_run (suc (suc fuel)) e max_steps ≡ some (n, (emulator_step e).1)
  unfolding emulator_run
  emulator_run-tohost fuel e max_steps n h l w v t =
      let x = soc_step-tohost e.soc n w v t in
      let s = emulator_step-tohost e h x.0 in
      let done = ap (λ (soc : Soc). soc.bus.host.halted) s ∙ x.1 in
      let code = ap (λ (soc : Soc). soc.bus.host.exit_code) s ∙ x.2 in
      if-false _ h
      ∙ (if-false _ l ∙ (if-true _ done ∙ ap (λ c. some (c, (emulator_step e).1)) code))
