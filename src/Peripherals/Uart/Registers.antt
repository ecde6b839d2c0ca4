-- ===== src/Peripherals/Uart/Registers.antt =====
-- The registers and the receiver of the UART (src/uart.c).
use rve.Base.{
  ℕ, zero, suc, ◌%◌, ◌≡◌, ◌≢◌, ◌↔◌, refl, ap, ◌∙◌, arith, Bool, true, false, not, ◌||◌, Option,
  none, some, List, [], ◌∷◌, ◌==◌, if◌then◌else◌, bit_and,
}
use rve.Peripherals.Types.{Stream, Host, Uart}
use rve.Peripherals.Uart.{
  dlab, uart_init, fetch_byte, read_rbr, read_register, write_register, uart_ns16550a_create,
}

-- The offsets whose register reads back what was written: all but the data register, IIR/FCR, LSR
-- and MSR. With DLAB set, offset 0 is the low byte of the divisor.
abbrev pub is_stored : Uart → ℕ → Bool
is_stored u offset =
    if offset == 0
    then not (bit_and u.lcr 0x80 == 0)
    else offset == 1 || (offset == 3 || (offset == 4 || offset == 7))

-- A register of the UART that is stored (offsets 1, 3, 4 and 7, and offset 0 with DLAB set) reads
-- back what was written to it; the read has no effect, and the write sends nothing.
pub read_register-write_register :
    (u : Uart) (offset val : ℕ) (host : Host)
    → is_stored u offset ≡ true
    → let (u', host') = write_register u offset val host in
      ((read_register u' offset).0 ≡ val) × ((read_register u' offset).1 ≡ u') × (host' ≡ host)
unfolding read_register write_register dlab
read_register-write_register u offset val host h = (ground arith, ground arith, ground arith)

-- The values that `n` reads of the receive buffer give, and the UART after them.
abbrev pub receive : ℕ → Uart → List ℕ × Uart
receive zero u = ([], u)
receive (suc n) u = let (v, u') = read_register u 0 in let (vs, u'') = receive n u' in (v ∷ vs, u'')

-- The file as the receiver sees it.
abbrev pub bytes_of : List ℕ → List ℕ
bytes_of [] = []
bytes_of (c ∷ cs) = c % 256 ∷ bytes_of cs

abbrev pub file_bytes : Option (List ℕ) → List ℕ
file_bytes none = []
file_bytes (some cs) = bytes_of cs

-- The bytes that are still to be received.
abbrev pub waiting : Uart → List ℕ
waiting u = if u.rx_ready then u.rx_byte ∷ file_bytes u.rx_file else []

-- A queue that is read `n` times, and gives zero where it is empty.
abbrev pub dequeued : ℕ → List ℕ → List ℕ
dequeued zero bs = []
dequeued (suc n) [] = 0 ∷ dequeued n []
dequeued (suc n) (b ∷ bs) = b ∷ dequeued n bs

abbrev tail : List ℕ → List ℕ
tail [] = []
tail (b ∷ bs) = bs

waiting-read :
    (u : Uart)
    → dlab u ≡ false
    → (waiting (read_register u 0).1 ≡ tail (waiting u)) × (dlab (read_register u 0).1 ≡ false)
unfolding dlab read_register read_rbr fetch_byte
waiting-read u d = (ground arith, ground arith)

value-read :
    (u : Uart) (n : ℕ)
    → dlab u ≡ false
    → (read_register u 0).0 ∷ dequeued n (tail (waiting u)) ≡ dequeued (suc n) (waiting u)
unfolding dlab read_register read_rbr
value-read u n d = ground arith

pub receive_lem : (n : ℕ) (u : Uart) → dlab u ≡ false → (receive n u).0 ≡ dequeued n (waiting u)
receive_lem zero u d = refl
receive_lem (suc n) u d =
    let (w, d') = waiting-read u d in
    ap (λ vs. (read_register u 0).0 ∷ vs)
      (receive_lem n (read_register u 0).1 d' ∙ ap (dequeued n) w)
    ∙ value-read u n d

-- The values that reads of the receive buffer of a fresh UART give are the bytes of its input in
-- order, and zeros from its end on.
pub uart_ns16550a_create-receive :
    (tx_file : Option Stream) (bs : List ℕ) (u : Uart) (n : ℕ)
    → uart_ns16550a_create true tx_file (some bs) ≡ some u
    → (receive n u).0 ≡ dequeued n (bytes_of bs)
unfolding uart_ns16550a_create uart_init fetch_byte dlab
uart_ns16550a_create-receive tx_file bs u n e =
    receive_lem n u (ground arith) ∙ ap (dequeued n) (ground arith)

-- The line status has its data-ready bit exactly if a byte is waiting to be received.
line_status-waiting : (u : Uart) → ((read_register u 5).0 % 2 ≡ 1) ↔ (waiting u ≢ [])
unfolding read_register
line_status-waiting u = ground arith
