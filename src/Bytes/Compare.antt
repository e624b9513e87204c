-- ===== src/Bytes/Compare.antt =====
-- bytes.Equal and bytes.Compare.
use gohbase.Prelude.{◌≡◌, refl, ◌↔◌, Bool, true, false, ◌&&◌, [], ◌∷◌, arith, ◌==◌}
use gohbase.Bytes.{Bytes}
use Prim.Native.Nat.{Ordering, compare}

-- bytes.Equal; a nil slice is an empty one.
unfoldable pub equal : Bytes → Bytes → Bool
equal [] [] = true
equal (x ∷ a) (y ∷ b) = x == y && equal a b
equal _ _ = false

-- The sign of bytes.Compare: the lexicographic order.
unfoldable pub compare_bytes : Bytes → Bytes → Ordering
compare_bytes [] [] = Ordering.eq
compare_bytes [] (y ∷ b) = Ordering.lt
compare_bytes (x ∷ a) [] = Ordering.gt
compare_bytes (x ∷ a) (y ∷ b) = elim (compare x y) [
  | Ordering.lt ↦ Ordering.lt
  | Ordering.eq ↦ compare_bytes a b
  | Ordering.gt ↦ Ordering.gt
]

pub equal_iff : (a b : Bytes) → (equal a b ≡ true) ↔ (a ≡ b)
unfolding equal
equal_iff [] [] = (λ _. refl, λ _. refl)
equal_iff [] (y ∷ b) = (λ h. cc, λ h. cc)
equal_iff (x ∷ a) [] = (λ h. cc, λ h. cc)
equal_iff (x ∷ a) (y ∷ b) = ground (arith, equal_iff a b)

abbrev pub flip : Ordering → Ordering
flip Ordering.lt = Ordering.gt
flip Ordering.eq = Ordering.eq
flip Ordering.gt = Ordering.lt

pub compare_bytes-flip : (a b : Bytes) → compare_bytes b a ≡ flip (compare_bytes a b)
unfolding compare_bytes
compare_bytes-flip [] [] = refl
compare_bytes-flip [] (y ∷ b) = refl
compare_bytes-flip (x ∷ a) [] = refl
compare_bytes-flip (x ∷ a) (y ∷ b) = ground (arith, compare_bytes-flip a b)

-- a < b, a ≤ b, as the source writes them with bytes.Compare.
abbrev pub bytes_lt : Bytes → Bytes → Bool
bytes_lt a b = elim (compare_bytes a b) [ Ordering.lt ↦ true | _ ↦ false ]

abbrev pub bytes_le : Bytes → Bytes → Bool
bytes_le a b = elim (compare_bytes a b) [ Ordering.gt ↦ false | _ ↦ true ]

abbrev pub bytes_gt : Bytes → Bytes → Bool
bytes_gt a b = elim (compare_bytes a b) [ Ordering.gt ↦ true | _ ↦ false ]

pub bytes_le_trans :
    (a b c : Bytes) → bytes_le a b ≡ true → bytes_le b c ≡ true → bytes_le a c ≡ true
unfolding compare_bytes
bytes_le_trans [] [] c h k = k
bytes_le_trans [] (y ∷ b) [] h k = refl
bytes_le_trans [] (y ∷ b) (z ∷ c) h k = refl
bytes_le_trans (x ∷ a) [] c h k = absurd (ground arith)
bytes_le_trans (x ∷ a) (y ∷ b) [] h k = absurd (ground arith)
bytes_le_trans (x ∷ a) (y ∷ b) (z ∷ c) h k = ground (arith, bytes_le_trans a b c)

pub bytes_lt_le_trans :
    (a b c : Bytes) → bytes_lt a b ≡ true → bytes_le b c ≡ true → bytes_lt a c ≡ true
unfolding compare_bytes
bytes_lt_le_trans [] [] c h k = absurd (ground arith)
bytes_lt_le_trans [] (y ∷ b) [] h k = absurd (ground arith)
bytes_lt_le_trans [] (y ∷ b) (z ∷ c) h k = refl
bytes_lt_le_trans (x ∷ a) [] c h k = absurd (ground arith)
bytes_lt_le_trans (x ∷ a) (y ∷ b) [] h k = absurd (ground arith)
bytes_lt_le_trans (x ∷ a) (y ∷ b) (z ∷ c) h k = ground (arith, bytes_lt_le_trans a b c)

pub bytes_le_lt_trans :
    (a b c : Bytes) → bytes_le a b ≡ true → bytes_lt b c ≡ true → bytes_lt a c ≡ true
unfolding compare_bytes
bytes_le_lt_trans [] [] c h k = k
bytes_le_lt_trans [] (y ∷ b) [] h k = absurd (ground arith)
bytes_le_lt_trans [] (y ∷ b) (z ∷ c) h k = refl
bytes_le_lt_trans (x ∷ a) [] c h k = absurd (ground arith)
bytes_le_lt_trans (x ∷ a) (y ∷ b) [] h k = absurd (ground arith)
bytes_le_lt_trans (x ∷ a) (y ∷ b) (z ∷ c) h k = ground (arith, bytes_le_lt_trans a b c)

pub bytes_le_refl : (a : Bytes) → bytes_le a a ≡ true
unfolding compare_bytes
bytes_le_refl [] = refl
bytes_le_refl (x ∷ a) = ground (arith, bytes_le_refl a)
