-- ===== src/Peripherals/Uart.antt =====
-- src/uart.c. Registers are bytes; the casts to `u8` are written as remainders.
pub mod Registers
use rve.Base.{
  ℕ, ◌%◌, Bool, true, false, not, Option, none, some, List, [], ◌∷◌, ◌==◌, if◌then◌else◌, bit_and,
  bit_or,
}
use rve.Peripherals.Types.{Stream, Host, Uart, Context, PeripheralOps}

-- `UART_LSR_*` of include/rve/peripherals/uart.h
abbrev pub lsr_dr : ℕ
lsr_dr = 0x01

abbrev pub lsr_thre : ℕ
lsr_thre = 0x20

abbrev pub lsr_temt : ℕ
lsr_temt = 0x40

unfoldable pub dlab : Uart → Bool
dlab u = not (bit_and u.lcr 0x80 == 0)

unfoldable pub uart_init : Uart → Uart
uart_init u = record u {
  ier = 0;
  lcr = 0;
  mcr = 0;
  scr = 0;
  dll = 1;
  dlh = 0;
  rx_ready = false;
  rx_byte = 0;
}

-- `c = fgetc(rx_file); if (c != EOF) …`, where there is a file.
unfoldable pub fetch_byte : Uart → Uart
fetch_byte u = elim u.rx_file [
  | none ↦ u
  | some [] ↦ u
  | some (c ∷ rest) ↦ record u { rx_file = some rest; rx_byte = c % 256; rx_ready = true }
]

-- RBR: the waiting byte is consumed and the next one fetched.
unfoldable pub read_rbr : Uart → ℕ × Uart
unfolding fetch_byte
read_rbr u = if u.rx_ready then (u.rx_byte, fetch_byte (record u { rx_ready = false })) else (0, u)

-- The chain of tests on the offset: the value and the state after it.
unfoldable pub read_register : Uart → ℕ → ℕ × Uart
unfolding dlab read_rbr
read_register u offset =
    if offset == 0
    then if dlab u then (u.dll, u) else read_rbr u
    else if offset == 1
    then (if dlab u then u.dlh else u.ier, u)
    else if offset == 2
    then (0x01, u)
    else if offset == 3
    then (u.lcr, u)
    else if offset == 4
    then (u.mcr, u)
    else if offset == 5
    then (
      if u.rx_ready then bit_or (bit_or lsr_thre lsr_temt) lsr_dr else bit_or lsr_thre lsr_temt,
      u,
    )
    else if offset == 6
    then (0x00, u)
    else if offset == 7
    then (u.scr, u)
    else (0, u)

unfoldable pub uart_read : Context → ℕ → ℕ → Option ℕ × Context
unfolding read_register
uart_read (Context.uart u) addr size_bits =
    let (val, u') = read_register u (bit_and addr 0x7) in (some val, Context.uart u')
uart_read ctx addr size_bits = (none, ctx)

-- THR: the byte goes to `tx_file`, or to stdout where that is NULL.
unfoldable pub write_thr : Uart → ℕ → Host → Host
write_thr u val host = elim u.tx_file [
  | none ↦ record host { output = (Stream.stdout, val) ∷ host.output }
  | some f ↦ record host { output = (f, val) ∷ host.output }
]

unfoldable pub write_register : Uart → ℕ → ℕ → Host → Uart × Host
unfolding dlab write_thr
write_register u offset val host =
    if offset == 0
    then if dlab u then (record u { dll = val }, host) else (u, write_thr u val host)
    else if offset == 1
    then (if dlab u then record u { dlh = val } else record u { ier = val }, host)
    else if offset == 2
    then (u, host)
    else if offset == 3
    then (record u { lcr = val }, host)
    else if offset == 4
    then (record u { mcr = val }, host)
    else if offset == 7
    then (record u { scr = val }, host)
    else (u, host)

unfoldable pub uart_write : Context → ℕ → ℕ → ℕ → Host → Bool × Context × Host
unfolding write_register
uart_write (Context.uart u) addr word size_bits host =
    let (u', host') = write_register u (bit_and addr 0x7) (bit_and word 0xFF) host in
    (true, Context.uart u', host')
uart_write ctx addr word size_bits host = (false, ctx, host)

abbrev pub uart_ns16550a_ops : PeripheralOps
uart_ns16550a_ops = record { read = some uart_read; write = some uart_write }

-- `tx_file ? tx_file : stdout`
abbrev or_stdout : Option Stream → Stream
or_stdout none = Stream.stdout
or_stdout (some f) = f

-- What `calloc` returns, if it finds room (the first argument), is zero.
unfoldable pub uart_ns16550a_create : Bool → Option Stream → Option (List ℕ) → Option Uart
unfolding uart_init fetch_byte
uart_ns16550a_create calloc_ok tx_file rx_file =
    let zeros : Uart = record {
      tx_file = some (or_stdout tx_file);
      rx_file = rx_file;
      ier = 0;
      lcr = 0;
      mcr = 0;
      scr = 0;
      dll = 0;
      dlh = 0;
      rx_ready = false;
      rx_byte = 0;
    } in
    if calloc_ok then some (fetch_byte (uart_init zeros)) else none
