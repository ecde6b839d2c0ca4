-- ===== src/Peripherals/Memory.antt =====
-- src/memory.c. A buffer is a function from offsets to bytes; its size is checked apart. Where the
-- code would follow a NULL `raw_memory` or take a context of another device for a memory, which C
-- leaves undefined, the access fails; the invariant of Bus/Wired excludes the latter. An access of
-- more than four bytes copies past the C object of a `word`; here the number is as wide as the
-- access, and the properties are about accesses that a word holds.
pub mod Bytes
pub mod Laws
pub mod Loading
pub mod Image
use rve.Base.{
  ℕ, zero, suc, ◌+◌, ◌-◌, ◌*◌, ◌/◌, ◌%◌, ◌^◌, Bool, true, false, ◌||◌, Option, none, some, List, [],
  ◌∷◌, ltb, ◌==◌, if◌then◌else◌, length,
}
use rve.Peripherals.Types.{Host, Memory, Context, PeripheralOps}

-- `memcpy` to and from the object of a word, the lowest byte first.
unfoldable pub read_bytes : (ℕ → ℕ) → ℕ → ℕ → ℕ
read_bytes raw offset zero = 0
read_bytes raw offset (suc n) = raw offset + 256 * read_bytes raw (offset + 1) n

abbrev pub store_byte : (ℕ → ℕ) → ℕ → ℕ → ℕ → ℕ
store_byte raw offset v j = if offset == j then v else raw j

unfoldable pub write_bytes : (ℕ → ℕ) → ℕ → ℕ → ℕ → ℕ → ℕ
write_bytes raw offset word zero = raw
write_bytes raw offset word (suc n) =
    write_bytes (store_byte raw offset (word % 256)) (offset + 1) (word / 256) n

-- `memcpy` of a list of bytes.
unfoldable pub copy_bytes : (ℕ → ℕ) → ℕ → List ℕ → ℕ → ℕ
copy_bytes raw offset [] = raw
copy_bytes raw offset (b ∷ bs) = copy_bytes (store_byte raw offset b) (offset + 1) bs

-- The first argument says whether `malloc` finds room.
unfoldable pub memory_create_ctx : Bool → ℕ → ℕ → Option Memory
memory_create_ctx malloc_ok base_addr size =
    if malloc_ok
    then some (record { raw_memory = none; size = size; base_addr = base_addr })
    else none

-- The first argument says whether `calloc` finds room; what it returns is zero.
unfoldable pub memory_init : Bool → Memory → Bool × Memory
memory_init calloc_ok m =
    if calloc_ok
    then (true, record m { raw_memory = some (λ j. 0) })
    else (false, record m { raw_memory = none })

unfoldable pub memory_deinit : Memory → Bool × Memory
memory_deinit m = (true, record m { raw_memory = none })

-- The size of the data is the length of the list; `none` is the result -1.
unfoldable pub memory_load_file : Memory → ℕ → List ℕ → Option Memory
memory_load_file m addr program_data = elim m.raw_memory [
  | none ↦ none
  | some raw ↦
      let offset = addr - m.base_addr in
      if ltb addr m.base_addr
      then none
      else if ltb m.size ((offset + length program_data) % 2 ^ 64)
      then none
      else some (record m { raw_memory = some (copy_bytes raw offset program_data) })
]

unfoldable pub memory_load_instruction : Memory → ℕ → ℕ → Memory
memory_load_instruction m addr instruction = elim m.raw_memory [
  | none ↦ m
  | some raw ↦
      let offset = addr - m.base_addr in
      if ltb addr m.base_addr
      then m
      else if ltb m.size (offset + 4)
      then m
      else record m { raw_memory = some (write_bytes raw offset instruction 4) }
]

-- The number of bytes of an access, or `none` where the access is refused.
unfoldable pub access_offset : Memory → ℕ → ℕ → Option ℕ
access_offset m addr size_bits =
    let bytes = size_bits / 8 in
    let offset = addr - m.base_addr in
    if bytes == 0 || ltb 8 bytes
    then none
    else if ltb addr m.base_addr
    then none
    else if ltb m.size (offset + bytes)
    then none
    else some offset

unfoldable pub read_memory : Memory → ℕ → ℕ → Option ℕ
unfolding access_offset
read_memory m addr size_bits = elim (access_offset m addr size_bits) [
  | none ↦ none
  | some offset ↦ elim m.raw_memory [
    | none ↦ none
    | some raw ↦ some (read_bytes raw offset (size_bits / 8))
  ]
]

unfoldable pub memory_read : Context → ℕ → ℕ → Option ℕ × Context
memory_read (Context.memory m) addr size_bits = (read_memory m addr size_bits, Context.memory m)
memory_read ctx addr size_bits = (none, ctx)

unfoldable pub write_memory : Memory → ℕ → ℕ → ℕ → Option Memory
unfolding access_offset
write_memory m addr word size_bits = elim (access_offset m addr size_bits) [
  | none ↦ none
  | some offset ↦ elim m.raw_memory [
    | none ↦ none
    | some raw ↦ some (record m { raw_memory = some (write_bytes raw offset word (size_bits / 8)) })
  ]
]

unfoldable pub memory_write : Context → ℕ → ℕ → ℕ → Host → Bool × Context × Host
memory_write (Context.memory m) addr word size_bits host =
    elim (write_memory m addr word size_bits) [
      | none ↦ (false, Context.memory m, host)
      | some m' ↦ (true, Context.memory m', host)
    ]
memory_write ctx addr word size_bits host = (false, ctx, host)

unfoldable pub memory_flush : Memory → Memory
memory_flush m = elim m.raw_memory [
  | none ↦ m
  | some raw ↦ record m { raw_memory = some (λ j. if ltb j m.size then 0 else raw j) }
]

abbrev pub memory_ops : PeripheralOps
memory_ops = record { read = some memory_read; write = some memory_write }
