-- ===== src/Soc.antt =====
-- src/soc.c. `soc_t` holds the hart and the bus; the pointer from the one to the other is left out.
pub mod Interrupt
pub mod Loading
use rve.Base.{
  ℕ, ◌+◌, ◌%◌, ◌^◌, Bool, true, false, ◌&&◌, Option, none, some, List, [], ◌∷◌, if◌then◌else◌,
  replicate,
}
use rve.Bus.{Bus, max_peripherals, bus_init, bus_add_peripheral, lookup_slot, update_ctx}
use rve.Peripherals.Types.{Host, Context, PeripheralOps, zero_slot}
use rve.Peripherals.Memory.{memory_create_ctx, memory_init, memory_load_file, memory_ops}
use rve.Hart.Types.{Hart, Retire, trap_is_interrupt}
use rve.Hart.Trap.{hart_init, hart_take_trap}
use rve.Hart.Step.{hart_step}

-- `soc_t`
pub record Soc : Type 0 where
  pub hart : Hart
  pub bus : Bus

-- The host's cells are given: they lie outside of the SoC.
unfoldable pub soc_init : Host → ℕ → Soc
soc_init host reset_pc =
    let zeros : Bus = record {
      peripherals = replicate max_peripherals zero_slot;
      count = 0;
      host = host;
    } in
    record { hart = hart_init reset_pc; bus = bus_init zeros }

unfoldable pub soc_add_peripheral : Soc → ℕ → ℕ → Context → PeripheralOps → List ℕ → Bool × Soc
soc_add_peripheral soc addr_start addr_end ctx ops name =
    let (done, bus') = bus_add_peripheral soc.bus addr_start addr_end ctx ops name in
    (done, record soc { bus = bus' })

-- "RAM"
abbrev pub ram_name : List ℕ
ram_name = b'R' ∷ b'A' ∷ b'M' ∷ []

-- The two tests say whether `malloc` and `calloc` find room.
unfoldable pub soc_add_memory : Bool → Bool → Soc → ℕ → ℕ → Bool × Soc
soc_add_memory malloc_ok calloc_ok soc addr_start size =
    elim (memory_create_ctx malloc_ok addr_start size) [
      | none ↦ (false, soc)
      | some mem ↦
          let (ready, mem') = memory_init calloc_ok mem in
          let (added, bus') =
            bus_add_peripheral soc.bus addr_start ((addr_start + size % 2 ^ 32) % 2 ^ 32)
              (Context.memory mem') memory_ops ram_name in
          if ready && added then (true, record soc { bus = bus' }) else (false, soc)
    ]

-- `none` is the result -1. The context is taken for a memory; where it is none, which C leaves
-- undefined, the result is -1 too.
unfoldable pub soc_load_binary : Soc → List ℕ → ℕ → Option Soc
soc_load_binary soc program_data load_addr = elim (lookup_slot soc.bus load_addr) [
  | none ↦ none
  | some (i, p) ↦ elim p.ctx [
    | Context.memory m ↦ elim (memory_load_file m load_addr program_data) [
      | none ↦ none
      | some m' ↦ some (record soc { bus = update_ctx soc.bus i p (Context.memory m') })
    ]
    | _ ↦ none
  ]
]

unfoldable pub soc_step : Soc → Retire × Soc
soc_step soc =
    let (r, hart', bus') = hart_step soc.hart soc.bus in (r, record { hart = hart'; bus = bus' })

unfoldable pub soc_raise_interrupt : Soc → ℕ → Soc
soc_raise_interrupt soc interrupt =
    if trap_is_interrupt interrupt
    then record soc { hart = hart_take_trap soc.hart interrupt 0 }
    else soc
