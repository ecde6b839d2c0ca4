-- ===== src/Peripherals/Types.antt =====
-- The state of the devices and of a bus slot (include/rve/peripherals/*.h). A `void *ctx` is a
-- value of `Context`; what a device reaches by a pointer outside its context is in `Host`.
use rve.Base.{ℕ, Bool, false, Option, none, List, []}

-- A `FILE *` that is written to.
pub data Stream : Type 0 where
  stdout stderr : Stream
  file : ℕ → Stream

-- The cells that `halt_flag` and `exit_code` of a TOHOST context point to, and the bytes written
-- so far, latest first, each with its stream.
pub record Host : Type 0 where
  pub halted : Bool
  pub exit_code : ℕ
  pub output : List (Stream × ℕ)

-- `memory_t`; `raw_memory` is `none` where the pointer is NULL.
pub record Memory : Type 0 where
  pub raw_memory : Option (ℕ → ℕ)
  pub size : ℕ
  pub base_addr : ℕ

-- `uart_ns16550a_t`; `rx_file` holds the bytes that are still to be read.
pub record Uart : Type 0 where
  pub tx_file : Option Stream
  pub rx_file : Option (List ℕ)
  pub ier : ℕ
  pub lcr : ℕ
  pub mcr : ℕ
  pub scr : ℕ
  pub dll : ℕ
  pub dlh : ℕ
  pub rx_ready : Bool
  pub rx_byte : ℕ

pub data Context : Type 0 where
  null : Context
  memory : Memory → Context
  uart : Uart → Context
  tohost : Context

-- `peripheral_read_fn`: `none` is the result false, and otherwise the word is in `*result`.
abbrev pub ReadFn : Type 0
ReadFn = Context → ℕ → ℕ → Option ℕ × Context

-- `peripheral_write_fn`: the context, the address, the data, the size in bits.
abbrev pub WriteFn : Type 0
WriteFn = Context → ℕ → ℕ → ℕ → Host → Bool × Context × Host

-- `peripheral_ops_t`; `none` is NULL. The `tick` entry is NULL in every table and called nowhere,
-- and `init` and `deinit` are called by name only.
pub record PeripheralOps : Type 0 where
  pub read : Option ReadFn
  pub write : Option WriteFn

-- `peripheral_t`, without `config`, which nothing reads.
pub record Peripheral : Type 0 where
  pub active : Bool
  pub name : List ℕ
  pub addr_start : ℕ
  pub addr_end : ℕ
  pub ctx : Context
  pub ops : PeripheralOps

-- A slot of zero bytes.
abbrev pub zero_slot : Peripheral
zero_slot = record {
  active = false;
  name = [];
  addr_start = 0;
  addr_end = 0;
  ctx = Context.null;
  ops = record { read = none; write = none };
}
