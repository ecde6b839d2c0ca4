-- ===== src/Peripherals/Memory/Loading.antt =====
-- What `memory_load_file` of src/memory.c promises.
use rve.Base.{
  ℕ, ◌+◌, ◌-◌, ◌/◌, ◌^◌, ◌≤◌, ◌<◌, ◌≡◌, ◌≢◌, ◌↔◌, refl, sym, ap, ◌∙◌, ◌⊎◌, Option, none, some, List,
  length, get_elem?, get_elem?-lt, arith,
}
use rve.Peripherals.Types.{Memory}
use rve.Peripherals.Memory.{read_memory, read_bytes, memory_load_file, copy_bytes}
use rve.Peripherals.Memory.Bytes.{copy_bytes-Outside, copy_bytes_inside}
use rve.Peripherals.Memory.Laws.{read_memory-with_bytes, read_memory_in}

-- The place of an image between `addr` and the end of the buffer.
abbrev pub Fits : Memory → ℕ → List ℕ → Type 0
Fits m addr image = (m.base_addr ≤ addr) × (addr + length image ≤ m.base_addr + m.size)

abbrev pub loaded : Memory → (ℕ → ℕ) → ℕ → List ℕ → Memory
loaded m raw addr image = record m { raw_memory = some (copy_bytes raw (addr - m.base_addr) image) }

-- For an allocated memory, an address that is a word and an image of less than 2^63 bytes, the
-- image is accepted exactly if it lies between the base address and the end of the buffer, and
-- then its bytes are copied from that address on.
pub memory_load_file_iff :
    (m : Memory) (raw : ℕ → ℕ) (addr : ℕ) (image : List ℕ)
    → m.raw_memory ≡ some raw
    → addr < 2 ^ 32
    → length image < 2 ^ 63
    → ((memory_load_file m addr image ≡ some (loaded m raw addr image)) ↔ Fits m addr image)
      × ((memory_load_file m addr image ≢ none) ↔ Fits m addr image)
unfolding memory_load_file
memory_load_file_iff m raw addr image e ha hs = (ground arith, ground arith)

pub memory_load_file-inv :
    (m m' : Memory) (addr : ℕ) (image : List ℕ)
    → addr < 2 ^ 32
    → length image < 2 ^ 63
    → memory_load_file m addr image ≡ some m'
    → (raw : ℕ → ℕ) × (m.raw_memory ≡ some raw) × Fits m addr image × (m' ≡ loaded m raw addr image)
unfolding memory_load_file
memory_load_file-inv m m' addr image ha hs h = go m.raw_memory refl
  where
    go :
        (o : Option (ℕ → ℕ))
        → m.raw_memory ≡ o
        → (raw : ℕ → ℕ) × (m.raw_memory ≡ some raw)
          × Fits m addr image
          × (m' ≡ loaded m raw addr image)
    go none e = cc (rw (e, memory_load_file) at h)
    go (some raw) e =
        let (f, g) = memory_load_file_iff m raw addr image e ha hs in
        let fits = g.0 (λ n. cc) in (raw, e, fits, cc (f.1 fits))

-- A read of eight bits is a read of one byte.
byte_at : (bytes : ℕ → ℕ) (j : ℕ) → some (read_bytes bytes j (8 / 8)) ≡ some (bytes j)
unfolding read_bytes
byte_at bytes j = ground arith

-- After an image of less than 2^63 bytes is loaded at a word address, a read of at most four
-- bytes that does not meet the image is as before.
pub memory_load_file-read_memory_apart :
    (m m' : Memory) (addr addr' size_bits : ℕ) (image : List ℕ)
    → size_bits / 8 ≤ 4
    → addr < 2 ^ 32
    → length image < 2 ^ 63
    → memory_load_file m addr image ≡ some m'
    → (addr' + size_bits / 8 ≤ addr) ⊎ (addr + length image ≤ addr')
    → read_memory m' addr' size_bits ≡ read_memory m addr' size_bits
memory_load_file-read_memory_apart m m' addr addr' size_bits image narrow ha hs h apart =
    let (raw, e, fits, same) = memory_load_file-inv m m' addr image ha hs h in
    let o = addr - m.base_addr in
    rw same (
      read_memory-with_bytes m raw (copy_bytes raw o image) addr' size_bits e
        (λ ok j p q. copy_bytes-Outside image raw o j (omega arith)))

-- After an image of less than 2^63 bytes is loaded at a word address, a read of eight bits at the
-- place of one of its bytes gives that byte.
pub memory_load_file-read_memory :
    (m m' : Memory) (addr i b : ℕ) (image : List ℕ)
    → addr < 2 ^ 32
    → length image < 2 ^ 63
    → memory_load_file m addr image ≡ some m'
    → get_elem? image i ≡ some b
    → read_memory m' (addr + i) 8 ≡ some b
memory_load_file-read_memory m m' addr i b image ha hs h g =
    let (raw, e, fits, same) = memory_load_file-inv m m' addr image ha hs h in
    let l = get_elem?-lt image i b g in
    let bytes = copy_bytes raw (addr - m.base_addr) image in
    rw same (
      read_memory_in (loaded m raw addr image) bytes (addr + i) 8 refl
        (omega arith, omega arith, omega arith, omega arith)
      ∙ byte_at bytes (addr + i - m.base_addr)
      ∙ ap (λ j. some (bytes j)) (omega arith)
      ∙ sym (copy_bytes_inside image raw (addr - m.base_addr) i l)
      ∙ g)
