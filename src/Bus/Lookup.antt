-- ===== src/Bus/Lookup.antt =====
-- `bus_get_peripheral` of src/bus.c: which slot answers an address.
use rve.Base.{
  ◌≢◌, ℕ, zero, suc, ◌+◌, ◌≤◌, ◌<◌, ◌≡◌, refl, ◌⊎◌, inl, inr, true, false, ◌&&◌, Option, none, some,
  List, [], ◌∷◌, get_elem?, arith, Bool-cases,
}
use rve.Peripherals.Types.{Peripheral}
use rve.Bus.{Bus, covers, range_size, improves, find_best, bus_get_peripheral}

-- Slot `j` wins over any other that covers the address: its range is smaller, or it is as small and
-- comes first.
abbrev pub Wins : List Peripheral → ℕ → ℕ → Peripheral → Type 0
Wins ps addr j p =
    (i : ℕ) (q : Peripheral)
    → get_elem? ps i ≡ some q
    → covers q addr ≡ true
    → (range_size p < range_size q) ⊎ ((range_size p ≤ range_size q) × (j ≤ i))

-- What the loop has found from slot `i` on, entered with `best` and `smallest`.
data Found (ps : List Peripheral) (addr i : ℕ) (best : Option ℕ) (smallest k : ℕ) : Type 0 where
  kept :
      best ≡ some k
      → ((j : ℕ) (q : Peripheral)
          → get_elem? ps j ≡ some q
          → covers q addr ≡ true
          → smallest ≤ range_size q)
      → Found ps addr i best smallest k
  moved :
      (j : ℕ) (p : Peripheral)
      → k ≡ i + j
      → get_elem? ps j ≡ some p
      → covers p addr ≡ true
      → improves best (range_size p) smallest ≡ true
      → Wins ps addr j p
      → Found ps addr i best smallest k

improves_trans :
    (best : Option ℕ) (k a b s : ℕ)
    → improves best a s ≡ true
    → improves (some k) b a ≡ true
    → improves best b s ≡ true
unfolding improves
improves_trans none k a b s h g = refl
improves_trans (some l) k a b s h g = ground arith

improves-lt : (k a s : ℕ) → improves (some k) a s ≡ true → a < s
unfolding improves
improves-lt k a s h = ground arith

-- What does not improve on `best`, where something does, has a range that is not smaller.
not-improves :
    (best : Option ℕ) (a b s k : ℕ)
    → improves best a s ≡ false
    → (best ≡ some k) ⊎ (improves best b s ≡ true)
    → s ≤ a
unfolding improves
not-improves none a b s k n h = cc
not-improves (some l) a b s k n h = ground arith

not-improves-lt :
    (best : Option ℕ) (a b s : ℕ) → improves best a s ≡ false → improves best b s ≡ true → b < a
unfolding improves
not-improves-lt none a b s n h = cc
not-improves-lt (some l) a b s n h = ground arith

-- The slot at hand is the new best.
Found-better :
    (p : Peripheral) (ps : List Peripheral) (addr i : ℕ) (best : Option ℕ) (s k : ℕ)
    → covers p addr ≡ true
    → improves best (range_size p) s ≡ true
    → Found ps addr (i + 1) (some i) (range_size p) k
    → Found (p ∷ ps) addr i best s k
Found-better p ps addr i best s k c b (kept e least) = moved 0 p (ground arith) refl c b wins
  where
    wins : Wins (p ∷ ps) addr 0 p
    wins zero q g cq = inr (ground arith, omega arith)
    wins (suc j) q g cq = inr (least j q g cq, omega arith)
Found-better p ps addr i best s k c b (moved j p' e g c' b' wins) =
    moved (suc j) p' (omega arith) g c'
      (improves_trans best i (range_size p) (range_size p') s b b') wins'
  where
    wins' : Wins (p ∷ ps) addr (suc j) p'
    wins' zero q h cq = inl (ground (arith, improves-lt i (range_size p') (range_size p) b'))
    wins' (suc l) q h cq = ground (arith, wins l q h cq)

Found-worse :
    (p : Peripheral) (ps : List Peripheral) (addr i : ℕ) (best : Option ℕ) (s k : ℕ)
    → (covers p addr && improves best (range_size p) s) ≡ false
    → Found ps addr (i + 1) best s k
    → Found (p ∷ ps) addr i best s k
Found-worse p ps addr i best s k n (kept e least) = kept e least'
  where
    least' :
        (j : ℕ) (q : Peripheral)
        → get_elem? (p ∷ ps) j ≡ some q
        → covers q addr ≡ true
        → s ≤ range_size q
    least' zero q h cq = ground (arith, not-improves best (range_size p) 0 s k)
    least' (suc j) q h cq = least j q h cq
Found-worse p ps addr i best s k n (moved j p' e g c' b' wins) =
    moved (suc j) p' (omega arith) g c' b' wins'
  where
    wins' : Wins (p ∷ ps) addr (suc j) p'
    wins' zero q h cq = ground (arith, not-improves-lt best (range_size p) (range_size p') s)
    wins' (suc l) q h cq = ground (arith, wins l q h cq)

find_best-Found :
    (ps : List Peripheral) (addr i : ℕ) (best : Option ℕ) (s k : ℕ)
    → find_best ps addr i best s ≡ some k
    → Found ps addr i best s k
unfolding find_best
find_best-Found [] addr i best s k h = kept h (λ j q g c. absurd (cc))
find_best-Found (p ∷ ps) addr i best s k h =
    elim (Bool-cases (covers p addr && improves best (range_size p) s)) [
      | inl e ↦
          Found-better p ps addr i best s k (ground arith) (ground arith)
            (find_best-Found ps addr (i + 1) (some i) (range_size p) k (rw e at h))
      | inr e ↦
          Found-worse p ps addr i best s k e (find_best-Found ps addr (i + 1) best s k (rw e at h))
    ]

-- A best match that is there is not lost.
find_best-ne-none : (ps : List Peripheral) (addr i k s : ℕ) → find_best ps addr i (some k) s ≢ none
unfolding find_best
find_best-ne-none [] addr i k s h = cc
find_best-ne-none (p ∷ ps) addr i k s h =
    elim (Bool-cases (covers p addr && improves (some k) (range_size p) s)) [
      | inl e ↦ find_best-ne-none ps addr (i + 1) i (range_size p) (rw e at h)
      | inr e ↦ find_best-ne-none ps addr (i + 1) k s (rw e at h)
    ]

find_best-none :
    (ps : List Peripheral) (addr i s : ℕ)
    → find_best ps addr i none s ≡ none
    → (j : ℕ) (q : Peripheral) → get_elem? ps j ≡ some q
    → covers q addr ≡ false
unfolding find_best improves
find_best-none [] addr i s h j q g = absurd (cc)
find_best-none (p ∷ ps) addr i s h zero q g = elim (Bool-cases (covers p addr)) [
  | inl e ↦ absurd (find_best-ne-none ps addr (i + 1) i (range_size p) (rw e at h))
  | inr e ↦ ground arith
]
find_best-none (p ∷ ps) addr i s h (suc j) q g = elim (Bool-cases (covers p addr)) [
  | inl e ↦ absurd (find_best-ne-none ps addr (i + 1) i (range_size p) (rw e at h))
  | inr e ↦ find_best-none ps addr (i + 1) s (rw e at h) j q g
]

-- What `bus_get_peripheral` promises.
abbrev pub BestMatch : List Peripheral → ℕ → Option ℕ → Type 0
BestMatch ps addr none = (j : ℕ) (q : Peripheral) → get_elem? ps j ≡ some q → covers q addr ≡ false
BestMatch ps addr (some k) =
    (p : Peripheral) × (get_elem? ps k ≡ some p) × (covers p addr ≡ true) × Wins ps addr k p

Found-best :
    (ps : List Peripheral) (addr k s : ℕ) → Found ps addr 0 none s k → BestMatch ps addr (some k)
Found-best ps addr k s (kept e least) = absurd (cc)
Found-best ps addr k s (moved j p e g c b wins) =
    let q : j ≡ k = omega arith in (p, rw q at g, c, rw q at wins)

-- The lookup gives an active slot whose range covers the address, such that each other slot that
-- covers it has a larger range, or one as large and a later index; it gives none only if no slot
-- covers the address.
pub bus_get_peripheral-BestMatch :
    (bus : Bus) (addr : ℕ) → BestMatch bus.peripherals addr (bus_get_peripheral bus addr)
unfolding bus_get_peripheral
bus_get_peripheral-BestMatch bus addr = go (find_best bus.peripherals addr 0 none 0xFFFF_FFFF) refl
  where
    go :
        (o : Option ℕ)
        → find_best bus.peripherals addr 0 none 0xFFFF_FFFF ≡ o
        → BestMatch bus.peripherals addr o
    go none e = find_best-none bus.peripherals addr 0 0xFFFF_FFFF e
    go (some k) e =
        Found-best bus.peripherals addr k 0xFFFF_FFFF
          (find_best-Found bus.peripherals addr 0 none 0xFFFF_FFFF k e)
