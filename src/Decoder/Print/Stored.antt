-- ===== src/Decoder/Print/Stored.antt =====
-- What `rve_decoded_format_to_buffer` of src/decoder.c leaves in the buffer.
use rve.Base.{
  ℕ, ◌-◌, ◌≡◌, ◌≤◌, ◌<◌, arith, false, Option, none, some, [], length, get_elem?, min, ◌==◌,
  if-false, ap, ◌∙◌,
}
use rve.Word.{IsWord}
use rve.Text.{Bytes}
use rve.Text.Buffer.{Stored, snprintf, snprintf-Stored, snprintf-count}
use rve.Decoder.Types.{DecodedInstruction}
use rve.Decoder.Decode.{rve_decode_instruction}
use rve.Decoder.Print.{instruction_text, rve_decoded_format_to_buffer, cleared}
use rve.Decoder.Print.Short.{decoded_text-length}

-- The text for an instruction, and none for a NULL pointer.
abbrev pub printed : Option DecodedInstruction → Bytes
printed none = []
printed (some di) = instruction_text di

abbrev pub count : Option DecodedInstruction → Option ℕ
count none = none
count (some di) = some (length (instruction_text di))

whole : (a b : ℕ) → b ≤ a → min a b ≡ b
whole a b h = omega arith

not_zero : (n : ℕ) → 0 < n → (n == 0) ≡ false
not_zero n h = ground arith

-- For a buffer of at least one byte, the text of an instruction, or no text for a NULL
-- instruction, is stored as far as it fits with one byte left, a NUL stands behind it, every
-- later byte is unchanged, and the result is the length of the whole text, or -1 for the NULL
-- instruction.
pub rve_decoded_format_to_buffer-Stored :
    (di : Option DecodedInstruction) (buffer : ℕ → ℕ) (size : ℕ)
    → 0 < size
    → (buffer' : ℕ → ℕ) × (rve_decoded_format_to_buffer di (some buffer) size
        ≡ (count di, some buffer'))
      × Stored (printed di) size buffer buffer'
unfolding rve_decoded_format_to_buffer
rve_decoded_format_to_buffer-Stored none buffer size h = (
  cleared buffer,
  ap (λ (b : ℕ → ℕ). (none, some b)) (if-false buffer (not_zero size h)),
  record { bytes = λ k h g. absurd (omega arith); ends = ground arith; rest = λ k h. ground arith },
)
rve_decoded_format_to_buffer-Stored (some di) buffer size h =
    let out = snprintf size (instruction_text di) (cleared buffer) in
    let x = snprintf-Stored size (instruction_text di) (cleared buffer) h in
    (
      out.1,
      if-false _ (not_zero size h)
          ∙ ap (λ (n : ℕ). (some n, some out.1))
              (snprintf-count size (instruction_text di) (cleared buffer)),
      record {
        bytes = x.bytes;
        ends = x.ends;
        rest = λ k h. x.rest k h ∙ if-false 0 (not_zero k (omega arith));
      },
    )

-- The text of any word, decoded, is shorter than 64 bytes, so that a buffer of at least 64 bytes,
-- as the tracer has it, holds all of it and a NUL behind it, and the result is its length.
pub decoded-Stored :
    (w : ℕ) (buffer : ℕ → ℕ) (size : ℕ)
    → IsWord w
    → 64 ≤ size
    → let text = instruction_text (rve_decode_instruction w) in
      (buffer' : ℕ → ℕ) × (rve_decoded_format_to_buffer
          (some (rve_decode_instruction w))
          (some buffer)
          size
        ≡ (some (length text), some buffer'))
      × (length text < 64)
      × ((k : ℕ) → k < length text → get_elem? text k ≡ some (buffer' k))
      × (buffer' (length text) ≡ 0)
decoded-Stored w buffer size h g =
    let (buffer', r, x) =
      rve_decoded_format_to_buffer-Stored (some (rve_decode_instruction w)) buffer size
        (omega arith) in
    let short = decoded_text-length w h in
    (
      buffer',
      r,
      omega (arith, short),
      λ k l. x.bytes k (omega (arith, short)) l,
      rw
          (whole (size - 1) (length (instruction_text (rve_decode_instruction w)))
            (omega (arith, short)))
          at x.ends,
    )
