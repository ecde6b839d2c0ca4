-- ===== src/Bus/WiredDevice.antt =====
-- What the devices of src/memory.c and src/uart.c store: bytes, in a context of their kind.
use rve.Base.{
  ℕ, zero, suc, ◌+◌, ◌-◌, ◌/◌, ◌%◌, ◌^◌, ◌≤◌, ◌<◌, ◌≡◌, arith, false, Option, none, some, get_elem?,
  Option-cases, inl, inr,
}
use native.Mathlib.Nat.{pow-le-pow_right}
use rve.Peripherals.Types.{Host, Memory, Uart, Context, Peripheral}
use rve.Peripherals.Memory.{memory_ops, read_memory, write_memory, write_bytes, store_byte}
use rve.Peripherals.Memory.Laws.{write_memory-inv}
use rve.Peripherals.Memory.Bytes.{read_bytes-lt}
use rve.Peripherals.Uart.{
  uart_ns16550a_ops, read_register, write_register, read_rbr, fetch_byte, dlab,
}
use rve.Peripherals.Tohost.{peripheral_tohost_ops}
use rve.Bus.{Bus}

-- What a buffer holds at an offset; zero where there is none.
abbrev pub stored_at : Option (ℕ → ℕ) → ℕ → ℕ
stored_at none j = 0
stored_at (some raw) j = raw j

pub record ByteMemory (m : Memory) : Type 0 where
  pub bytes : (j : ℕ) → stored_at m.raw_memory j < 256

pub record ByteUart (u : Uart) : Type 0 where
  pub ier : u.ier < 256
  pub lcr : u.lcr < 256
  pub mcr : u.mcr < 256
  pub scr : u.scr < 256
  pub dll : u.dll < 256
  pub dlh : u.dlh < 256
  pub rx_byte : u.rx_byte < 256

pub data Wired (p : Peripheral) : Type 0 where
  ram : (m : Memory) → p.ops ≡ memory_ops → p.ctx ≡ Context.memory m → ByteMemory m → Wired p
  serial : (u : Uart) → p.ops ≡ uart_ns16550a_ops → p.ctx ≡ Context.uart u → ByteUart u → Wired p
  halting : p.ops ≡ peripheral_tohost_ops → p.ctx ≡ Context.tohost → Wired p
  idle : p.active ≡ false → Wired p

pub record AllWired (bus : Bus) : Type 0 where
  pub wired : (j : ℕ) (q : Peripheral) → get_elem? bus.peripherals j ≡ some q → Wired q

pub read_memory-lt :
    (m : Memory) (addr size_bits v : ℕ)
    → size_bits ≤ 32
    → ByteMemory m
    → read_memory m addr size_bits ≡ some v
    → v < 2 ^ 32
unfolding read_memory
read_memory-lt m addr size_bits v h b r = elim (Option-cases m.raw_memory) [
  | inl n ↦ ground arith
  | inr (raw, e) ↦
      let l = read_bytes-lt (size_bits / 8) raw (addr - m.base_addr) (λ j. rw e at (b.bytes j)) in
      let p = pow-le-pow_right {n = 256} (omega arith) {i = size_bits / 8} {j = 4} (omega arith) in
      ground arith
]

pub read_register-Byte :
    (u : Uart) (offset : ℕ)
    → ByteUart u
    → ((read_register u offset).0 < 256) × ByteUart (read_register u offset).1
unfolding read_register read_rbr fetch_byte dlab
read_register-Byte u offset b = (
  ground arith,
  record {
    ier = ground arith;
    lcr = ground arith;
    mcr = ground arith;
    scr = ground arith;
    dll = ground arith;
    dlh = ground arith;
    rx_byte = ground arith;
  },
)

pub write_register-Byte :
    (u : Uart) (offset val : ℕ) (host : Host)
    → val < 256
    → ByteUart u
    → ByteUart (write_register u offset val host).0
unfolding write_register dlab
write_register-Byte u offset val host v b = record {
  ier = ground arith;
  lcr = ground arith;
  mcr = ground arith;
  scr = ground arith;
  dll = ground arith;
  dlh = ground arith;
  rx_byte = ground arith;
}

write_bytes-Byte :
    (n : ℕ) (raw : ℕ → ℕ) (offset word : ℕ)
    → ((j : ℕ) → raw j < 256)
    → (j : ℕ) → write_bytes raw offset word n j < 256
unfolding write_bytes
write_bytes-Byte zero raw offset word b j = b j
write_bytes-Byte (suc n) raw offset word b j =
    write_bytes-Byte n (store_byte raw offset (word % 256)) (offset + 1) (word / 256)
      (λ k. ground (arith, b k)) j

pub write_memory-Byte :
    (m : Memory) (addr word size_bits : ℕ) {m' : Memory}
    → write_memory m addr word size_bits ≡ some m'
    → ByteMemory m
    → ByteMemory m'
write_memory-Byte m addr word size_bits w b =
    let (raw, e, allowed, same) = write_memory-inv m addr word size_bits w in
    rw same (record {
      bytes = λ j.
          write_bytes-Byte (size_bits / 8) raw (addr - m.base_addr) word (λ k. rw e at (b.bytes k))
            j;
    })
