-- ===== src/Prelude/Lists.antt =====
-- Lists measured and cut by native numbers, under the library's names, and predicates on lists.
use Prim.Native.Nat.{ℕ, zero, suc, ◌+◌}
use mathlib.Core.Path.{◌≡◌, refl, ap}
use mathlib.Core.Logic.{◌⊎◌, inl, inr}
use mathlib.Core.List.{List, [], ◌∷◌, ◌++◌}
use mathlib.Core.Option.{Option, none, some}
use native.Mathlib.Omega.{arith}

module _ {ℓ} {A : Type ℓ} where
  abbrev pub length : List A → ℕ
  length [] = 0
  length (x ∷ xs) = suc (length xs)

  abbrev pub get_elem? : List A → ℕ → Option A
  get_elem? [] i = none
  get_elem? (x ∷ xs) zero = some x
  get_elem? (x ∷ xs) (suc i) = get_elem? xs i

  abbrev pub replicate : ℕ → A → List A
  replicate zero a = []
  replicate (suc n) a = a ∷ replicate n a

  abbrev pub All {κ} : (A → Type κ) → List A → Type κ
  All P [] = Unit {κ}
  All P (x ∷ xs) = P x × All P xs

  abbrev pub Pairwise {κ} : (A → A → Type κ) → List A → Type κ
  Pairwise R [] = Unit {κ}
  Pairwise R (x ∷ xs) = All (R x) xs × Pairwise R xs

  abbrev pub concat : List (List A) → List A
  concat [] = []
  concat (x ∷ xs) = x ++ concat xs

module _ {ℓ} {A : Type ℓ} where
  pub List-cases : (xs : List A) → (xs ≡ []) ⊎ ((y : A) × (ys : List A) × (xs ≡ y ∷ ys))
  List-cases [] = inl refl
  List-cases (x ∷ xs) = inr (x, xs, refl)

  pub length-append : (xs ys : List A) → length (xs ++ ys) ≡ length xs + length ys
  length-append [] ys = omega arith
  length-append (x ∷ xs) ys = omega (arith, length-append xs ys)

  pub length-replicate : (n : ℕ) (a : A) → length (replicate n a) ≡ n
  length-replicate zero a = refl
  length-replicate (suc n) a = ap suc (length-replicate n a)

  pub All-append {κ} : (P : A → Type κ) (xs ys : List A) → All P xs → All P ys → All P (xs ++ ys)
  All-append P [] ys hx hy = hy
  All-append P (x ∷ xs) ys (hx, hxs) hy = (hx, All-append P xs ys hxs hy)

  pub All-append_left {κ} : (P : A → Type κ) (xs ys : List A) → All P (xs ++ ys) → All P xs
  All-append_left P [] ys h = tt
  All-append_left P (x ∷ xs) ys (h, hs) = (h, All-append_left P xs ys hs)

  pub All-append_right {κ} : (P : A → Type κ) (xs ys : List A) → All P (xs ++ ys) → All P ys
  All-append_right P [] ys h = h
  All-append_right P (x ∷ xs) ys (h, hs) = All-append_right P xs ys hs

  pub All-map {κ κ'} :
      {P : A → Type κ} {Q : A → Type κ'}
      → ((a : A) → P a → Q a)
      → (xs : List A) → All P xs
      → All Q xs
  All-map f [] h = tt
  All-map f (x ∷ xs) (h, hs) = (f x h, All-map f xs hs)

  pub Pairwise-map {κ κ'} :
      {R : A → A → Type κ} {S : A → A → Type κ'} (P : A → Type κ)
      → ((a b : A) → P a → P b → R a b → S a b)
      → (xs : List A) → All P xs
      → Pairwise R xs
      → Pairwise S xs
  Pairwise-map {R = R} {S = S} P f [] h r = tt
  Pairwise-map {R = R} {S = S} P f (x ∷ xs) (hx, h) (each, r) =
      (head_of xs h each, Pairwise-map P f xs h r)
    where
      head_of : (ys : List A) → All P ys → All (R x) ys → All (S x) ys
      head_of [] h each = tt
      head_of (y ∷ ys) (hy, h) (e, each) = (f x y hx hy e, head_of ys h each)

  -- An element that fits between two parts of a list.
  pub Pairwise-insert {κ} :
      (R : A → A → Type κ) (xs ys : List A) (a : A)
      → Pairwise R (xs ++ ys)
      → All (λ x. R x a) xs
      → All (R a) ys
      → Pairwise R (xs ++ (a ∷ ys))
  Pairwise-insert R [] ys a r before after = (after, r)
  Pairwise-insert R (x ∷ xs) ys a (each, r) (b, before) after = (
    All-append (R x) xs (a ∷ ys) (All-append_left (R x) xs ys each)
        (b, All-append_right (R x) xs ys each),
    Pairwise-insert R xs ys a r before after,
  )

  pub Pairwise-at {κ} :
      (R : A → A → Type κ) (xs ys : List A) (a : A)
      → Pairwise R (xs ++ (a ∷ ys))
      → All (λ x. R x a) xs × (All (R a) ys × Pairwise R (xs ++ ys))
  Pairwise-at R [] ys a (each, r) = (tt, (each, r))
  Pairwise-at R (x ∷ xs) ys a (each, r) =
      let (before, rest) = Pairwise-at R xs ys a r in
      let right = All-append_right (R x) xs (a ∷ ys) each in
      (
        (right.0, before),
        (rest.0, (All-append (R x) xs ys (All-append_left (R x) xs (a ∷ ys) each) right.1, rest.1)),
      )

  pub All-both {κ κ'} :
      (P : A → Type κ) (Q : A → Type κ') (xs : List A)
      → All P xs
      → All Q xs
      → All (λ x. P x × Q x) xs
  All-both P Q [] h k = tt
  All-both P Q (x ∷ xs) (hx, h) (kx, k) = ((hx, kx), All-both P Q xs h k)
