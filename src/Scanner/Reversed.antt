-- ===== src/Scanner/Reversed.antt =====
-- Where a reversed scan goes behind a region.
use gohbase.Prelude.{
  ℕ, zero, suc, ◌+◌, ◌≤◌, ◌≡◌, refl, ◌≢◌, inl, inr, true, [], ◌∷◌, arith, ◌==◌, Bool-cases, length,
  replicate, All,
}
use gohbase.Bytes.{Bytes, IsByte}
use gohbase.Bytes.Compare.{bytes_le, bytes_lt, compare_bytes}
use gohbase.Scanner.{lower_row, row_padding}

padding-le :
    (n : ℕ) (row : Bytes) → All IsByte row → length row ≤ n → bytes_le row (replicate n 0xff) ≡ true
unfolding compare_bytes
padding-le zero [] bytes short = refl
padding-le zero (y ∷ row) bytes short = absurd (omega arith)
padding-le (suc n) [] bytes short = refl
padding-le (suc n) (y ∷ row) (byte, bytes) short =
    ground (arith, padding-le n row bytes (omega arith))

nil-le : (b : Bytes) → bytes_le [] b ≡ true
unfolding compare_bytes
nil-le [] = refl
nil-le (x ∷ b) = refl

lower_row-lt : (start : Bytes) → start ≢ [] → bytes_lt (lower_row start) start ≡ true
unfolding lower_row compare_bytes
lower_row-lt [] h = absurd (h refl)
lower_row-lt (x ∷ []) h = ground arith
lower_row-lt (x ∷ y ∷ rest) h = ground (arith, lower_row-lt (y ∷ rest) (ground arith))

lower_row-above :
    (start row : Bytes)
    → All IsByte row
    → length row ≤ length start + 8
    → bytes_lt row start ≡ true
    → bytes_le row (lower_row start) ≡ true
unfolding lower_row compare_bytes
lower_row-above [] row bytes short below = ground arith
lower_row-above (x ∷ start) [] bytes short below = nil-le (lower_row (x ∷ start))
lower_row-above (x ∷ []) (y ∷ []) bytes short below = elim (Bool-cases (x == 0)) [
  | inl z ↦ absurd (ground arith)
  | inr z ↦ ground arith
]
lower_row-above (x ∷ []) (y ∷ y' ∷ row) (byte, bytes) short below = elim (Bool-cases (x == 0)) [
  | inl z ↦ absurd (ground arith)
  | inr z ↦
      let padded : bytes_le (y' ∷ row) row_padding ≡ true =
        padding-le 8 (y' ∷ row) bytes (omega arith) in
      ground arith
]
lower_row-above (x ∷ z ∷ start) (y ∷ row) (byte, bytes) short below =
    ground (arith, lower_row-above (z ∷ start) row bytes)

-- A reversed scan goes on right below the region that it has finished: the start row that update
-- makes of a start key that is not empty comes before that key, and every row before the key that
-- is at most eight bytes longer than it is not above that start row.
pub lower_row-nearest :
    (start : Bytes)
    → start ≢ []
    → (bytes_lt (lower_row start) start ≡ true)
      × ((row : Bytes)
          → All IsByte row
          → length row ≤ length start + 8
          → bytes_lt row start ≡ true
          → bytes_le row (lower_row start) ≡ true)
lower_row-nearest start some_key = (lower_row-lt start some_key, lower_row-above start)
