-- ===== src/Peripherals/Memory/Image.antt =====
-- Words of an image that `memory_load_file` of src/memory.c has copied.
use rve.Base.{
  ℕ, zero, suc, ◌+◌, ◌-◌, ◌*◌, ◌/◌, ◌^◌, ◌≤◌, ◌<◌, ◌≡◌, refl, ap, ◌∙◌, some, List, [], ◌∷◌, length,
  drop, drop-get_elem?, arith,
}
use rve.Peripherals.Types.{Memory}
use rve.Peripherals.Memory.{read_memory, read_bytes, memory_load_file, copy_bytes}
use rve.Peripherals.Memory.Bytes.{copy_bytes_inside}
use rve.Peripherals.Memory.Laws.{read_memory_in}
use rve.Peripherals.Memory.Loading.{memory_load_file-inv, loaded}

-- The number that the first `n` bytes stand for, the lowest first.
unfoldable pub little_endian : List ℕ → ℕ → ℕ
little_endian bytes zero = 0
little_endian [] (suc n) = 0
little_endian (b ∷ bytes) (suc n) = b + 256 * little_endian bytes n

read_bytes-copy_bytes :
    (n k : ℕ) (image : List ℕ) (raw : ℕ → ℕ) (offset : ℕ)
    → k + n ≤ length image
    → read_bytes (copy_bytes raw offset image) (offset + k) n ≡ little_endian (drop k image) n
unfolding read_bytes little_endian
read_bytes-copy_bytes zero k image raw offset h = refl
read_bytes-copy_bytes (suc n) k image raw offset h =
    let b = copy_bytes raw offset image (offset + k) in
    let e = copy_bytes_inside image raw offset k (omega arith) in
    let rest = read_bytes-copy_bytes n (suc k) image raw offset (omega arith) in
    rw (drop-get_elem? image k b e) (
      ap (λ (x : ℕ). b + 256 * x)
        (ap (λ (j : ℕ). read_bytes (copy_bytes raw offset image) j n) (omega arith) ∙ rest))

pub memory_load_file-read_memory_image :
    (m m' : Memory) (addr k size_bits : ℕ) (image : List ℕ)
    → addr < 2 ^ 32
    → length image < 2 ^ 63
    → memory_load_file m addr image ≡ some m'
    → 0 < size_bits / 8
    → size_bits / 8 ≤ 4
    → k + size_bits / 8 ≤ length image
    → read_memory m' (addr + k) size_bits ≡ some (little_endian (drop k image) (size_bits / 8))
memory_load_file-read_memory_image m m' addr k size_bits image ha hs h some_bytes narrow inside =
    let (raw, e, fits, same) = memory_load_file-inv m m' addr image ha hs h in
    let o = addr - m.base_addr in
    let bytes = copy_bytes raw o image in
    rw same (
      read_memory_in (loaded m raw addr image) bytes (addr + k) size_bits refl
        (omega arith, omega arith, omega arith, omega arith)
      ∙ ap (λ j. some (read_bytes bytes j (size_bits / 8))) (omega arith)
      ∙ ap some (read_bytes-copy_bytes (size_bits / 8) k image raw o inside))
