-- ===== src/Prelude/Permuted.antt =====
-- Lists with the same elements in another order, as data.
use mathlib.Core.List.{List, [], ◌∷◌, ◌++◌, map}
use gohbase.Prelude.Lists.{All, concat}

pub data Permuted {ℓ} {A : Type ℓ} : List A → List A → Type ℓ where
  nil : Permuted [] []
  cons : (x : A) {xs ys : List A} → Permuted xs ys → Permuted (x ∷ xs) (x ∷ ys)
  swap : (x y : A) (xs : List A) → Permuted (x ∷ y ∷ xs) (y ∷ x ∷ xs)
  trans : {xs ys zs : List A} → Permuted xs ys → Permuted ys zs → Permuted xs zs

module _ {ℓ} {A : Type ℓ} where
  pub Permuted-refl : (xs : List A) → Permuted xs xs
  Permuted-refl [] = nil
  Permuted-refl (x ∷ xs) = cons x (Permuted-refl xs)

  pub Permuted-sym : {xs ys : List A} → Permuted xs ys → Permuted ys xs
  Permuted-sym nil = nil
  Permuted-sym (cons x p) = cons x (Permuted-sym p)
  Permuted-sym (swap x y xs) = swap y x xs
  Permuted-sym (trans p q) = trans (Permuted-sym q) (Permuted-sym p)

  pub Permuted-append_left :
      (zs : List A) {xs ys : List A} → Permuted xs ys → Permuted (zs ++ xs) (zs ++ ys)
  Permuted-append_left [] p = p
  Permuted-append_left (z ∷ zs) p = cons z (Permuted-append_left zs p)

  pub Permuted-append_right :
      (zs : List A) {xs ys : List A} → Permuted xs ys → Permuted (xs ++ zs) (ys ++ zs)
  Permuted-append_right zs nil = Permuted-refl zs
  Permuted-append_right zs (cons x p) = cons x (Permuted-append_right zs p)
  Permuted-append_right zs (swap x y xs) = swap x y (xs ++ zs)
  Permuted-append_right zs (trans p q) =
      trans (Permuted-append_right zs p) (Permuted-append_right zs q)

  pub Permuted-middle : (x : A) (xs ys : List A) → Permuted (xs ++ (x ∷ ys)) (x ∷ (xs ++ ys))
  Permuted-middle x [] ys = Permuted-refl (x ∷ ys)
  Permuted-middle x (y ∷ xs) ys = trans (cons y (Permuted-middle x xs ys)) (swap y x (xs ++ ys))

  -- Two pieces at the front change places.
  pub Permuted-exchange : (xs ys zs : List A) → Permuted (xs ++ (ys ++ zs)) (ys ++ (xs ++ zs))
  Permuted-exchange [] ys zs = Permuted-refl (ys ++ zs)
  Permuted-exchange (x ∷ xs) ys zs =
      trans (cons x (Permuted-exchange xs ys zs)) (back x ys (xs ++ zs))
    where
      back : (x : A) (ys ws : List A) → Permuted (x ∷ (ys ++ ws)) (ys ++ (x ∷ ws))
      back x [] ws = Permuted-refl (x ∷ ws)
      back x (y ∷ ys) ws = trans (swap x y (ys ++ ws)) (cons y (back x ys ws))

  pub All-Permuted {κ} : (P : A → Type κ) {xs ys : List A} → Permuted xs ys → All P xs → All P ys
  All-Permuted P nil h = h
  All-Permuted P (cons x p) (here, there) = (here, All-Permuted P p there)
  All-Permuted P (swap x y xs) (first, (second, rest)) = (second, (first, rest))
  All-Permuted P (trans p q) h = All-Permuted P q (All-Permuted P p h)

pub map-Permuted {ℓ κ} :
    {A : Type ℓ} {B : Type κ} (f : A → B) {xs ys : List A}
    → Permuted xs ys
    → Permuted (map f xs) (map f ys)
map-Permuted f nil = nil
map-Permuted f (cons x p) = cons (f x) (map-Permuted f p)
map-Permuted f (swap x y xs) = swap (f x) (f y) (map f xs)
map-Permuted f (trans p q) = trans (map-Permuted f p) (map-Permuted f q)

pub concat-Permuted {ℓ κ} :
    {A : Type ℓ} {B : Type κ} (f : A → List B) {xs ys : List A}
    → Permuted xs ys
    → Permuted (concat (map f xs)) (concat (map f ys))
concat-Permuted f nil = nil
concat-Permuted f (cons x p) = Permuted-append_left (f x) (concat-Permuted f p)
concat-Permuted f (swap x y xs) = Permuted-exchange (f x) (f y) (concat (map f xs))
concat-Permuted f (trans p q) = trans (concat-Permuted f p) (concat-Permuted f q)
