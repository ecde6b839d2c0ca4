-- ===== src/Peripherals/Tohost.antt =====
-- src/tohost.c. The two messages that it prints are left out.
use rve.Base.{ℕ, Bool, true, false, none, some, ◌==◌, if◌then◌else◌}
use rve.Word.{shr32}
use rve.Peripherals.Types.{Host, Context, PeripheralOps}

unfoldable pub tohost_write : Context → ℕ → ℕ → ℕ → Host → Bool × Context × Host
tohost_write Context.tohost addr word size_bits host =
    let code = if word == 1 then 0 else shr32 word 1 in
    (true, Context.tohost, record host { exit_code = code; halted = true })
tohost_write ctx addr word size_bits host = (false, ctx, host)

abbrev pub peripheral_tohost_ops : PeripheralOps
peripheral_tohost_ops = record { read = none; write = some tohost_write }
