-- ===== src/Peripherals/Memory/Bytes.antt =====
-- The byte copies of src/memory.c: what they change, and that they read back.
use rve.Base.{
  ℕ, zero, suc, ◌+◌, ◌/◌, ◌%◌, ◌^◌, ◌≤◌, ◌<◌, ◌≡◌, refl, sym, ap, ◌∙◌, ◌⊎◌, inl, List, [], ◌∷◌,
  some, get_elem?, length, arith, mod_radix,
}
use native.Mathlib.Nat.{add-zero, pow-suc, one-le-pow}
use rve.Peripherals.Memory.{read_bytes, write_bytes, store_byte, copy_bytes}

-- `n` bytes from `offset` on do not meet index `j`.
abbrev pub Outside : ℕ → ℕ → ℕ → Type 0
Outside offset n j = (j < offset) ⊎ (offset + n ≤ j)

pub write_bytes-Outside :
    (n : ℕ) (raw : ℕ → ℕ) (offset word j : ℕ)
    → Outside offset n j
    → write_bytes raw offset word n j ≡ raw j
unfolding write_bytes
write_bytes-Outside zero raw offset word j h = refl
write_bytes-Outside (suc n) raw offset word j h =
    ground (
      arith,
      write_bytes-Outside n (store_byte raw offset (word % 256)) (offset + 1) (word / 256) j,
    )

pub read-write_bytes :
    (n : ℕ) (raw : ℕ → ℕ) (offset word : ℕ)
    → read_bytes (write_bytes raw offset word n) offset n ≡ word % 256 ^ n
unfolding read_bytes write_bytes
read-write_bytes zero raw offset word = omega arith
read-write_bytes (suc n) raw offset word = ground (
  arith,
  pow-suc 256 n,
  mod_radix word 256 (256 ^ n) (omega arith) (one-le-pow n 256 (omega arith)),
  write_bytes-Outside n (store_byte raw offset (word % 256)) (offset + 1) (word / 256) offset,
  read-write_bytes n (store_byte raw offset (word % 256)) (offset + 1) (word / 256),
)

-- A read depends on its own bytes alone.
pub read_bytes_ext :
    (n : ℕ) (raw raw' : ℕ → ℕ) (offset : ℕ)
    → ((j : ℕ) → offset ≤ j → j < offset + n → raw j ≡ raw' j)
    → read_bytes raw offset n ≡ read_bytes raw' offset n
unfolding read_bytes
read_bytes_ext zero raw raw' offset h = refl
read_bytes_ext (suc n) raw raw' offset h = omega (
  arith,
  h offset (omega arith) (omega arith),
  read_bytes_ext n raw raw' (offset + 1) (λ j p q. h j (omega arith) (omega arith)),
)

-- A copied list is found byte by byte, and nothing else changes.
pub copy_bytes-Outside :
    (bs : List ℕ) (raw : ℕ → ℕ) (offset j : ℕ)
    → Outside offset (length bs) j
    → copy_bytes raw offset bs j ≡ raw j
unfolding copy_bytes
copy_bytes-Outside [] raw offset j h = refl
copy_bytes-Outside (b ∷ bs) raw offset j h =
    ground (arith, copy_bytes-Outside bs (store_byte raw offset b) (offset + 1) j)

pub copy_bytes_inside :
    (bs : List ℕ) (raw : ℕ → ℕ) (offset i : ℕ)
    → i < length bs
    → get_elem? bs i ≡ some (copy_bytes raw offset bs (offset + i))
unfolding copy_bytes
copy_bytes_inside [] raw offset i h = absurd (omega arith)
copy_bytes_inside (b ∷ bs) raw offset zero h = ap some (
    sym (
      rw add-zero (
        copy_bytes-Outside bs (store_byte raw offset b) (offset + 1) offset (inl (omega arith))
        ∙ ground arith)))
copy_bytes_inside (b ∷ bs) raw offset (suc i) h =
    copy_bytes_inside bs (store_byte raw offset b) (offset + 1) i (omega arith)
    ∙ ap (λ (j : ℕ). some (copy_bytes (store_byte raw offset b) (offset + 1) bs j)) (omega arith)

-- Bytes make a word of their length.
pub read_bytes-lt :
    (n : ℕ) (raw : ℕ → ℕ) (offset : ℕ) → ((j : ℕ) → raw j < 256) → read_bytes raw offset n < 256 ^ n
unfolding read_bytes
read_bytes-lt zero raw offset h = omega arith
read_bytes-lt (suc n) raw offset h =
    omega (arith, pow-suc 256 n, h offset, read_bytes-lt n raw (offset + 1) h)
