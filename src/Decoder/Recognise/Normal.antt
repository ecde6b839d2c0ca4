-- ===== src/Decoder/Recognise/Normal.antt =====
-- The immediate that the manual's encodings hold for the bits of any number.
use rve.Base.{ℕ, ◌*◌, ◌/◌, ◌%◌, ◌^◌, ◌≡◌, refl, arith}
use rve.Word.{IsWord}
use rve.Word.Laws.{extend}
use rve.Decoder.Types.{Op}
use rve.Decoder.Encoding.{Encoding, Operands, assemble, Holds, decoded}
use rve.Decoder.Recognise.Words.{Short}

abbrev pub normal : Encoding → ℕ → ℕ
normal (Encoding.r_enc _ _ _) imm = 0
normal (Encoding.i_enc _ _) imm = extend 0x800 (imm % 2 ^ 12)
normal (Encoding.left_enc _ _) imm = imm
normal (Encoding.right_enc _ _) imm = imm
normal (Encoding.s_enc _) imm = extend 0x800 (imm % 2 ^ 12)
normal (Encoding.b_enc _) imm = extend 0x1000 (imm % 2 ^ 13 / 2 * 2)
normal (Encoding.fence_enc _) imm = extend 0x800 (imm % 2 ^ 12)
normal (Encoding.csr_enc _) imm = extend 0x800 (imm % 2 ^ 12)
normal (Encoding.u_enc _) imm = imm / 2 ^ 12 * 2 ^ 12
normal Encoding.j_enc imm = extend 0x10_0000 (imm % 2 ^ 21 / 2 * 2)
normal (Encoding.word_enc _ _) imm = 0
normal Encoding.no_enc imm = imm

abbrev pub normalise : Encoding → Operands → Operands
normalise e o = record o { imm = normal e o.imm }

pub normal-Holds :
    (e : Encoding) (o : Operands) → Short e o.imm → IsWord (assemble e o) → Holds e (normal e o.imm)
unfolding assemble
normal-Holds (Encoding.r_enc _ _ _) o s w = refl
normal-Holds (Encoding.i_enc _ _) o s w = ground arith
normal-Holds (Encoding.left_enc _ _) o s w = s
normal-Holds (Encoding.right_enc _ _) o s w = s
normal-Holds (Encoding.s_enc _) o s w = ground arith
normal-Holds (Encoding.b_enc _) o s w = (ground arith, ground arith)
normal-Holds (Encoding.fence_enc _) o s w = ground arith
normal-Holds (Encoding.csr_enc _) o s w = ground arith
normal-Holds (Encoding.u_enc _) o s w = (omega arith, omega arith)
normal-Holds Encoding.j_enc o s w = (ground arith, ground arith)
normal-Holds (Encoding.word_enc _ _) o s w = refl
normal-Holds Encoding.no_enc o s w = s

pub assemble-normalise : (e : Encoding) (o : Operands) → assemble e (normalise e o) ≡ assemble e o
unfolding assemble
assemble-normalise (Encoding.r_enc _ _ _) o = refl
assemble-normalise (Encoding.i_enc _ _) o = ground arith
assemble-normalise (Encoding.left_enc _ _) o = refl
assemble-normalise (Encoding.right_enc _ _) o = refl
assemble-normalise (Encoding.s_enc _) o = ground arith
assemble-normalise (Encoding.b_enc _) o = ground arith
assemble-normalise (Encoding.fence_enc _) o = ground arith
assemble-normalise (Encoding.csr_enc _) o = ground arith
assemble-normalise (Encoding.u_enc _) o = omega arith
assemble-normalise Encoding.j_enc o = ground arith
assemble-normalise (Encoding.word_enc _ _) o = refl
assemble-normalise Encoding.no_enc o = refl

pub decoded-op : (op : Op) (e : Encoding) (o : Operands) (w : ℕ) → (decoded op e o w).op ≡ op
decoded-op op (Encoding.r_enc _ _ _) o w = refl
decoded-op op (Encoding.i_enc _ _) o w = refl
decoded-op op (Encoding.left_enc _ _) o w = refl
decoded-op op (Encoding.right_enc _ _) o w = refl
decoded-op op (Encoding.s_enc _) o w = refl
decoded-op op (Encoding.b_enc _) o w = refl
decoded-op op (Encoding.fence_enc _) o w = refl
decoded-op op (Encoding.csr_enc _) o w = refl
decoded-op op (Encoding.u_enc _) o w = refl
decoded-op op Encoding.j_enc o w = refl
decoded-op op (Encoding.word_enc _ _) o w = refl
decoded-op op Encoding.no_enc o w = refl
