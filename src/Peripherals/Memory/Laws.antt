-- ===== src/Peripherals/Memory/Laws.antt =====
-- What `memory_read` and `memory_write` of src/memory.c promise.
use rve.Base.{
  ℕ, ◌+◌, ◌-◌, ◌/◌, ◌%◌, ◌^◌, ◌≤◌, ◌<◌, ◌≡◌, ◌≢◌, ◌↔◌, refl, sym, ap, ◌∙◌, ◌⊎◌, Option, none, some,
  arith,
}
use rve.Peripherals.Types.{Memory}
use rve.Peripherals.Memory.{access_offset, read_memory, write_memory, read_bytes, write_bytes}
use rve.Peripherals.Memory.Bytes.{write_bytes-Outside, read-write_bytes, read_bytes_ext}

-- The bytes of the buffer from `addr` on, of an access of so many bits.
abbrev pub InRange : Memory → ℕ → ℕ → Type 0
InRange m addr size_bits =
    (1 ≤ size_bits / 8)
    × (size_bits / 8 ≤ 8)
    × (m.base_addr ≤ addr)
    × (addr + size_bits / 8 ≤ m.base_addr + m.size)

offset_in :
    (m : Memory) (addr size_bits : ℕ)
    → InRange m addr size_bits
    → access_offset m addr size_bits ≡ some (addr - m.base_addr)
unfolding access_offset
offset_in m addr size_bits h = ground arith

offset_out :
    (m : Memory) (addr size_bits : ℕ)
    → access_offset m addr size_bits ≢ none
    → InRange m addr size_bits
unfolding access_offset
offset_out m addr size_bits h = ground arith

pub read_memory_in :
    (m : Memory) (raw : ℕ → ℕ) (addr size_bits : ℕ)
    → m.raw_memory ≡ some raw
    → InRange m addr size_bits
    → read_memory m addr size_bits ≡ some (read_bytes raw (addr - m.base_addr) (size_bits / 8))
unfolding read_memory
read_memory_in m raw addr size_bits e h = rw (offset_in m addr size_bits h, e, read_memory)

-- An allocated memory answers a read of at most four bytes exactly if it is of one byte at least
-- and all of its bytes lie in the buffer, and then with the word that these bytes make, the
-- lowest first.
pub read_memory_iff :
    (m : Memory) (raw : ℕ → ℕ) (addr size_bits : ℕ)
    → size_bits / 8 ≤ 4
    → m.raw_memory ≡ some raw
    → ((read_memory m addr size_bits ≡ some (read_bytes raw (addr - m.base_addr) (size_bits / 8)))
        ↔ InRange m addr size_bits)
      × ((read_memory m addr size_bits ≢ none) ↔ InRange m addr size_bits)
unfolding read_memory
read_memory_iff m raw addr size_bits narrow e =
    let allowed : read_memory m addr size_bits ≢ none → InRange m addr size_bits =
      λ h. offset_out m addr size_bits (λ n. h (rw (n, read_memory))) in
    (
      (λ r. allowed (λ n. cc), read_memory_in m raw addr size_bits e),
      (allowed, λ h n. cc (read_memory_in m raw addr size_bits e h)),
    )

-- The memory after a write of an access in range.
abbrev pub written : Memory → (ℕ → ℕ) → ℕ → ℕ → ℕ → Memory
written m raw addr word size_bits = record m {
  raw_memory = some (write_bytes raw (addr - m.base_addr) word (size_bits / 8));
}

pub write_memory-inv :
    (m : Memory) (addr word size_bits : ℕ) {m' : Memory}
    → write_memory m addr word size_bits ≡ some m'
    → (raw : ℕ → ℕ) × (m.raw_memory ≡ some raw)
      × InRange m addr size_bits
      × (m' ≡ written m raw addr word size_bits)
unfolding write_memory
write_memory-inv m addr word size_bits {m'} h = go m.raw_memory refl
  where
    allowed : InRange m addr size_bits
    allowed = offset_out m addr size_bits (λ n. cc (rw (n, write_memory) at h))

    at_offset : access_offset m addr size_bits ≡ some (addr - m.base_addr)
    at_offset = offset_in m addr size_bits allowed

    go :
        (o : Option (ℕ → ℕ))
        → m.raw_memory ≡ o
        → (raw : ℕ → ℕ) × (m.raw_memory ≡ some raw)
          × InRange m addr size_bits
          × (m' ≡ written m raw addr word size_bits)
    go none e = cc (rw (at_offset, e, write_memory) at h)
    go (some raw) e = (raw, e, allowed, cc (rw (at_offset, e, write_memory) at h))

-- After a successful write of at most four bytes to a memory, a read of the same address and size
-- gives the written word, cut to the size.
pub read_memory-write_memory :
    (m : Memory) (addr word size_bits : ℕ) {m' : Memory}
    → size_bits / 8 ≤ 4
    → write_memory m addr word size_bits ≡ some m'
    → read_memory m' addr size_bits ≡ some (word % 256 ^ (size_bits / 8))
read_memory-write_memory m addr word size_bits narrow h =
    let (raw, e, allowed, same) = write_memory-inv m addr word size_bits h in
    let bytes = write_bytes raw (addr - m.base_addr) word (size_bits / 8) in
    rw same (
      read_memory_in (written m raw addr word size_bits) bytes addr size_bits refl allowed
      ∙ ap some (read-write_bytes (size_bits / 8) raw (addr - m.base_addr) word))

read_memory_out :
    (m : Memory) (addr size_bits : ℕ)
    → access_offset m addr size_bits ≡ none
    → read_memory m addr size_bits ≡ none
unfolding read_memory
read_memory_out m addr size_bits e = rw (e, read_memory)

abbrev with_bytes : Memory → (ℕ → ℕ) → Memory
with_bytes m bytes = record m { raw_memory = some bytes }

-- The range test does not look at the bytes.
offset-with_bytes :
    (m : Memory) (bytes : ℕ → ℕ) (addr size_bits : ℕ)
    → access_offset (with_bytes m bytes) addr size_bits ≡ access_offset m addr size_bits
unfolding access_offset
offset-with_bytes m bytes addr size_bits = refl

-- A read sees nothing of a change outside of its bytes.
pub read_memory-with_bytes :
    (m : Memory) (raw bytes : ℕ → ℕ) (addr size_bits : ℕ)
    → m.raw_memory ≡ some raw
    → (InRange m addr size_bits
        → (j : ℕ) → addr - m.base_addr ≤ j
        → j < addr - m.base_addr + size_bits / 8
        → bytes j ≡ raw j)
    → read_memory (with_bytes m bytes) addr size_bits ≡ read_memory m addr size_bits
read_memory-with_bytes m raw bytes addr size_bits e same = go (access_offset m addr size_bits) refl
  where
    go :
        (o : Option ℕ)
        → access_offset m addr size_bits ≡ o
        → read_memory (with_bytes m bytes) addr size_bits ≡ read_memory m addr size_bits
    go none n =
        read_memory_out (with_bytes m bytes) addr size_bits
          (offset-with_bytes m bytes addr size_bits ∙ n)
        ∙ sym (read_memory_out m addr size_bits n)
    go (some o) n =
        let ok : InRange m addr size_bits = offset_out m addr size_bits (λ z. cc) in
        read_memory_in (with_bytes m bytes) bytes addr size_bits refl ok
        ∙ ap some (read_bytes_ext (size_bits / 8) bytes raw (addr - m.base_addr) (same ok))
        ∙ sym (read_memory_in m raw addr size_bits e ok)

-- A successful write of at most four bytes to a memory changes no read of at most four bytes,
-- refused reads included, of an address range that ends at or before the written one or starts at
-- or after its end.
pub read_memory-write_memory_apart :
    (m : Memory) (addr word size_bits addr' size_bits' : ℕ) {m' : Memory}
    → size_bits / 8 ≤ 4
    → size_bits' / 8 ≤ 4
    → write_memory m addr word size_bits ≡ some m'
    → (addr' + size_bits' / 8 ≤ addr) ⊎ (addr + size_bits / 8 ≤ addr')
    → read_memory m' addr' size_bits' ≡ read_memory m addr' size_bits'
read_memory-write_memory_apart m addr word size_bits addr' size_bits' narrow narrow' h apart =
    let (raw, e, allowed, same) = write_memory-inv m addr word size_bits h in
    let o = addr - m.base_addr in
    rw same (
      read_memory-with_bytes m raw (write_bytes raw o word (size_bits / 8)) addr' size_bits' e
        (λ ok j p q. write_bytes-Outside (size_bits / 8) raw o word j (omega arith)))
