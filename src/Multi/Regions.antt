-- ===== src/Multi/Regions.antt =====
-- The groups of a batch, taken together.
use gohbase.Prelude.{
  ◌≡◌, refl, sym, subst, ◌≢◌, inl, inr, List, [], ◌∷◌, map, arith, ◌==◌, Bool-cases, All, concat,
}
use gohbase.Prelude.Permuted.{
  Permuted, nil, cons, trans, Permuted-refl, Permuted-append_left, Permuted-middle,
}
use gohbase.Multi.{Groups}
use gohbase.Multi.Groups.{Entry, members, Distinct, HasKey}

module _ {B : Type 0} (f : Entry → B) where
  abbrev pub by_region : List Entry → Groups → List B
  by_region xs gs = concat (map (λ g. map f (members g.0 xs)) gs)

  by_region-nil : (gs : Groups) → by_region [] gs ≡ []
  unfolding members
  by_region-nil [] = refl
  by_region-nil (g ∷ gs) = by_region-nil gs

  by_region-other :
      (x : Entry) (xs : List Entry) (gs : Groups)
      → ¬ HasKey x.1.region gs
      → by_region (x ∷ xs) gs ≡ by_region xs gs
  unfolding members
  by_region-other x xs [] fresh = refl
  by_region-other x xs (g ∷ gs) fresh =
      let e : g.0 ≢ x.1.region = λ k. fresh (inl k) in
      ground (arith, by_region-other x xs gs (λ k. fresh (inr k)))

  by_region-cons :
      (x : Entry) (xs : List Entry) (gs : Groups)
      → Distinct gs
      → HasKey x.1.region gs
      → Permuted (by_region (x ∷ xs) gs) (f x ∷ by_region xs gs)
  unfolding members
  by_region-cons x xs [] d has = absurd has
  by_region-cons x xs (g ∷ gs) (fresh, d) has = elim (Bool-cases (x.1.region == g.0)) [
    | inl same ↦
        let e : g.0 ≡ x.1.region = ground arith in
        simp same
          (rw (by_region-other x xs gs (subst (λ r. ¬ HasKey r gs) e fresh)) (Permuted-refl _))
    | inr other ↦
        let later : HasKey x.1.region gs = ground arith in
        simp other (
          trans (Permuted-append_left (map f (members g.0 xs)) (by_region-cons x xs gs d later))
            (Permuted-middle (f x) (map f (members g.0 xs)) (by_region xs gs)))
  ]

  pub by_region-Permuted :
      (xs : List Entry) (gs : Groups)
      → Distinct gs
      → All (λ x. HasKey x.1.region gs) xs
      → Permuted (by_region xs gs) (map f xs)
  by_region-Permuted [] gs d covered = subst (λ l. Permuted l []) (sym (by_region-nil gs)) nil
  by_region-Permuted (x ∷ xs) gs d (here, there) =
      trans (by_region-cons x xs gs d here) (cons (f x) (by_region-Permuted xs gs d there))
