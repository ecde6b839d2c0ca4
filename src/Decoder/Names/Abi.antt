-- ===== src/Decoder/Names/Abi.antt =====
-- The names of the registers (src/decoder.c, `get_abi_name`) against the calling convention.
use Prim.Native.String.{String}
use native.Mathlib.Nat.{zero-add}
use rve.Base.{
  ℕ, zero, suc, ◌+◌, ◌-◌, ◌≡◌, ◌<◌, ◌≤◌, arith, none, some, List, [], ◌∷◌, ltb, ◌==◌, if◌then◌else◌,
  get_elem?, length, ap, ◌∙◌, if-true, if-false, Bool-cases, inl, inr,
}
use rve.Text.{Bytes, codes, decimal, emit}
use rve.Decoder.Names.{abi_names, get_abi_name}

-- The roles that the convention gives to the 32 registers: the numbered ones are the temporaries,
-- those that a call saves, and the arguments.
pub data Role : Type 0 where
  constant_zero return_address stack_pointer global_pointer thread_pointer : Role
  temporary saved argument : ℕ → Role
  no_register : Role

abbrev pub role : ℕ → Role
role i =
    if i == 0
    then constant_zero
    else if i == 1
    then return_address
    else if i == 2
    then stack_pointer
    else if i == 3
    then global_pointer
    else if i == 4
    then thread_pointer
    else if ltb i 8
    then temporary (i - 5)
    else if ltb i 10
    then saved (i - 8)
    else if ltb i 18
    then argument (i - 10)
    else if ltb i 28
    then saved (i - 16)
    else if ltb i 32
    then temporary (i - 25)
    else no_register

-- A numbered register is called by a letter and its number in decimal.
abbrev pub role_name : Role → Bytes
role_name constant_zero = codes "zero"
role_name return_address = codes "ra"
role_name stack_pointer = codes "sp"
role_name global_pointer = codes "gp"
role_name thread_pointer = codes "tp"
role_name (temporary k) = b't' ∷ decimal k
role_name (saved k) = b's' ∷ decimal k
role_name (argument k) = b'a' ∷ decimal k
role_name no_register = codes "x??"

abbrev name_at : List String → ℕ → String
name_at names i = elim (get_elem? names i) [ none ↦ "" | some name ↦ name ]

-- The names of a table stand for the roles from `k` on.
abbrev Named : List String → ℕ → Type 0
Named [] k = Unit
Named (s ∷ ss) k = (codes s ≡ role_name (role k)) × Named ss (suc k)

abi_names-Named : Named abi_names 0
unfolding emit
abi_names-Named = ground arith

Named-name_at :
    (names : List String) (k i : ℕ)
    → Named names k
    → i < length names
    → codes (name_at names i) ≡ role_name (role (k + i))
Named-name_at [] k i f h = absurd (omega arith)
Named-name_at (s ∷ ss) k zero f h =
    let e : k ≡ k + 0 = omega arith in f.0 ∙ ap (λ (n : ℕ). role_name (role n)) e
Named-name_at (s ∷ ss) k (suc i) f h =
    let e : suc k + i ≡ k + suc i = omega arith in
    Named-name_at ss (suc k) i f.1 (omega arith) ∙ ap (λ (n : ℕ). role_name (role n)) e

outside : (i : ℕ) → 32 ≤ i → no_register ≡ role i
outside i h = ground arith

-- The name of a register, for any index, is that of its role in the calling convention: the five
-- special registers, t0 to t6, s0 to s11 and a0 to a7 at their places, with the number in
-- decimal, and "x??" from 32 on.
pub get_abi_name-role_name : (i : ℕ) → codes (get_abi_name i) ≡ role_name (role i)
unfolding get_abi_name
get_abi_name-role_name i = elim (Bool-cases (ltb i 32)) [
  | inl e ↦
      ap (λ (s : String). codes s) (if-true _ e)
      ∙ Named-name_at abi_names 0 i abi_names-Named (ground arith)
      ∙ ap (λ (n : ℕ). role_name (role n)) (zero-add i)
  | inr e ↦ ap (λ (s : String). codes s) (if-false _ e) ∙ ap role_name (outside i (ground arith))
]
