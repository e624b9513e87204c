-- ===== src/Bytes/Slices.antt =====
-- Slice expressions and `copy`.
use gohbase.Prelude.{
  ℕ, zero, suc, ◌+◌, ◌≤◌, ◌≡◌, refl, ap, [], ◌∷◌, ◌++◌, Option, none, some, arith, length,
  replicate, Option-cases, inl, inr,
}
use Prim.Native.Nat.add
use gohbase.Bytes.{Bytes}

-- `b[:n]` and `b[n:]`; `none` where `n` is beyond the slice.
unfoldable pub cut : ℕ → Bytes → Option (Bytes × Bytes)
cut zero b = some ([], b)
cut (suc n) [] = none
cut (suc n) (x ∷ b) = elim (cut n b) [ none ↦ none | some (head, tail) ↦ some (x ∷ head, tail) ]

pub cut-append : (a b : Bytes) → cut (length a) (a ++ b) ≡ some (a, b)
unfolding cut
cut-append [] b = refl
cut-append (x ∷ a) b = rw (cut-append a b, cut)

pub cut_sound :
    (n : ℕ) (b : Bytes) {head tail : Bytes}
    → cut n b ≡ some (head, tail)
    → (b ≡ head ++ tail) × (length head ≡ n)
unfolding cut
cut_sound zero b h = ground arith
cut_sound (suc n) [] h = ground arith
cut_sound (suc n) (x ∷ b) h = elim (Option-cases (cut n b)) [
  | inl e ↦ ground arith
  | inr ((front, back), e) ↦ ground (arith, cut_sound n b e)
]

-- Where the slice is long enough the cut succeeds.
pub cut_total :
    (n : ℕ) (b : Bytes) → n ≤ length b → (parts : Bytes × Bytes) × (cut n b ≡ some parts)
unfolding cut
cut_total zero b h = (([], b), refl)
cut_total (suc n) [] h = absurd (omega arith)
cut_total (suc n) (x ∷ b) h =
    let ((front, back), e) = cut_total n b (omega arith) in ((x ∷ front, back), rw (e, cut))

-- `copy(b[i:], src)`: it stops at the shorter end.
unfoldable pub copy_at : ℕ → Bytes → Bytes → Bytes
copy_at i src [] = []
copy_at (suc i) src (x ∷ b) = x ∷ copy_at i src b
copy_at zero [] (x ∷ b) = x ∷ b
copy_at zero (s ∷ src) (x ∷ b) = s ∷ copy_at zero src b

copy_at_front : (s : Bytes) (k : ℕ) → copy_at 0 s (replicate (length s + k) 0) ≡ s ++ replicate k 0
unfolding copy_at
copy_at_front [] zero = refl
copy_at_front [] (suc k) = ground (arith, add.zero (suc k))
copy_at_front (x ∷ s) k = rw add.suc (ap (◌∷◌ x) (copy_at_front s k))

-- A copy over zeros fills them from the left.
pub copy_at-replicate :
    (p s : Bytes) (k : ℕ)
    → copy_at (length p) s (p ++ replicate (length s + k) 0) ≡ (p ++ s) ++ replicate k 0
unfolding copy_at
copy_at-replicate [] s k = copy_at_front s k
copy_at-replicate (y ∷ p) s k = ap (◌∷◌ y) (copy_at-replicate p s k)

-- A copy over as many bytes replaces them.
pub copy_at-middle :
    (p s z r : Bytes) → length s ≡ length z → copy_at (length p) s (p ++ (z ++ r)) ≡ p ++ (s ++ r)
unfolding copy_at
copy_at-middle [] [] [] [] h = refl
copy_at-middle [] [] [] (x ∷ r) h = refl
copy_at-middle [] [] (y ∷ z) r h = absurd (omega arith)
copy_at-middle [] (x ∷ s) [] r h = absurd (omega arith)
copy_at-middle [] (x ∷ s) (y ∷ z) r h = ap (◌∷◌ x) (copy_at-middle [] s z r (omega arith))
copy_at-middle (x ∷ p) s z r h = ap (◌∷◌ x) (copy_at-middle p s z r h)
