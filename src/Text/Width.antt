-- ===== src/Text/Width.antt =====
-- How long printed pieces are.
use rve.Base.{
  ℕ, ◌+◌, ◌-◌, ◌≡◌, ◌≤◌, refl, arith, List, [], ◌∷◌, length, length-append, length-replicate,
  replicate,
}
use rve.Text.{Bytes, Piece, show, printf, pad_left, pad_right}

abbrev pub widths : List Piece → ℕ
widths [] = 0
widths (p ∷ ps) = length (show p) + widths ps

pub printf-length : (ps : List Piece) → length (printf ps) ≡ widths ps
unfolding printf
printf-length [] = refl
printf-length (p ∷ ps) = omega (arith, length-append (show p) (printf ps), printf-length ps)

pub pad_right-length : (k : ℕ) (s : Bytes) → length s ≤ k → length (pad_right k s) ≤ k
pad_right-length k s h = omega (
  arith,
  length-append s (replicate (k - length s) b' '),
  length-replicate {A = ℕ} (k - length s) b' ',
)

pub pad_left-length : (c k m : ℕ) (s : Bytes) → k ≤ m → length s ≤ m → length (pad_left c k s) ≤ m
pad_left-length c k m s h g =
    omega (
      arith,
      length-append (replicate (k - length s) c) s,
      length-replicate {A = ℕ} (k - length s) c,
    )
