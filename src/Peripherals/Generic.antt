-- ===== src/Peripherals/Generic.antt =====
-- src/peripheral.c.
use rve.Base.{ℕ, Option, none, some, List, [], ◌∷◌}
use rve.Text.{Bytes, lit, str, hex_caps, printf}
use rve.Peripherals.Types.{Peripheral, PeripheralOps, Context}

-- The first argument is what `malloc` returns, with the bytes that it finds there; `none` fails the
-- assertion. A name of 32 bytes or more does not fit into the field, which `strcpy` does not see.
unfoldable pub peripheral_init :
    Option Peripheral → ℕ → ℕ → Context → PeripheralOps → List ℕ → Option Peripheral
peripheral_init none addr_start addr_end ctx ops name = none
peripheral_init (some fresh) addr_start addr_end ctx ops name = some (record fresh {
  addr_start = addr_start;
  addr_end = addr_end;
  ctx = ctx;
  ops = ops;
  name = name;
})

-- The text on stdout.
unfoldable pub peripheral_debug : Peripheral → Bytes
peripheral_debug p = printf (
    str p.name
    ∷ lit "\n"
    ∷ lit "\taddr_start 0x"
    ∷ hex_caps 8 p.addr_start
    ∷ lit "\n"
    ∷ lit "\taddr_end   0x"
    ∷ hex_caps 8 p.addr_end
    ∷ lit "\n"
    ∷ [])
