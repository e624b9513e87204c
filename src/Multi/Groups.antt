-- ===== src/Multi/Groups.antt =====
-- What the loop of toProto makes of a batch: a group for each region, with the actions of its calls
-- in the order of the batch.
use gohbase.Prelude.{
  ℕ, suc, ◌+◌, ◌%◌, ◌^◌, ◌≡◌, refl, sym, ap, subst, ◌∙◌, ◌≢◌, ◌⊎◌, inl, inr, Bool, Option, none,
  some, List, [], ◌∷◌, ◌++◌, map, append-nil, append_assoc, arith, ◌==◌, if◌then◌else◌, Bool-cases,
  All, ok, ◌>>=◌,
}
use gohbase.Bytes.{Bytes}
use gohbase.Multi.{
  Collected, Message, get_request, mutate_request, unsupported_request, Call, Action, Actions,
  Groups, encode_call, add_action, keep, add_call, collect,
}

-- The calls that are sent, with their indices in the batch.
abbrev pub Entry : Type 0
Entry = ℕ × Call

unfoldable pub live : ℕ → List Call → List Entry
live i [] = []
live i (c ∷ cs) = let rest = live (suc i) cs in if c.expired then rest else (i, c) ∷ rest

abbrev pub mark : Call → Option Call
mark c = if c.expired then none else some c

unfoldable pub action_of : Bool → Entry → Action
action_of is_cb (i, c) = record { index = (i + 1) % 2 ^ 32; message = (encode_call is_cb c).0 }

unfoldable pub members : ℕ → List Entry → List Entry
members r [] = []
members r (x ∷ xs) = let rest = members r xs in if x.1.region == r then x ∷ rest else rest

members-append : (r : ℕ) (xs ys : List Entry) → members r (xs ++ ys) ≡ members r xs ++ members r ys
unfolding members
members-append r [] ys = refl
members-append r (x ∷ xs) ys = ground (arith, members-append r xs ys)

map-append : {A B : Type 0} (f : A → B) (xs ys : List A) → map f (xs ++ ys) ≡ map f xs ++ map f ys
map-append f [] ys = refl
map-append f (x ∷ xs) ys = ap (◌∷◌ (f x)) (map-append f xs ys)

abbrev pub HasKey : ℕ → Groups → Type 0
HasKey r [] = ⊥
HasKey r (g ∷ gs) = (g.0 ≡ r) ⊎ HasKey r gs

abbrev pub Distinct : Groups → Type 0
Distinct [] = Unit {0}
Distinct (g ∷ gs) = (¬ HasKey g.0 gs) × Distinct gs

-- A group holds the actions of the calls of its region.
abbrev pub IsGroup : Bool → List Entry → ℕ × Actions → Type 0
IsGroup is_cb xs g = g.1.pbs ≡ map (action_of is_cb) (members g.0 xs)

pub record Grouped (is_cb : Bool) (xs : List Entry) (gs : Groups) : Type 0 where
  pub groups : All (IsGroup is_cb xs) gs
  pub distinct : Distinct gs
  pub covered : All (λ x. HasKey x.1.region gs) xs

module _ (is_cb : Bool) (x : Entry) (cbs : List Bytes) where
  abbrev added : Groups → Groups
  added gs = add_action x.1.region (action_of is_cb x) cbs gs

  HasKey-added : (r : ℕ) (gs : Groups) → HasKey r (added gs) → (x.1.region ≡ r) ⊎ HasKey r gs
  unfolding add_action
  HasKey-added r [] (inl e) = inl e
  HasKey-added r [] (inr none_left) = absurd none_left
  HasKey-added r ((r', acts) ∷ gs) h = elim (Bool-cases (r' == x.1.region)) [
    | inl same ↦ ground arith
    | inr other ↦ ground (arith, HasKey-added r gs)
  ]

  HasKey-kept : (r : ℕ) (gs : Groups) → (x.1.region ≡ r) ⊎ HasKey r gs → HasKey r (added gs)
  unfolding add_action
  HasKey-kept r [] h = h
  HasKey-kept r ((r', acts) ∷ gs) h = elim (Bool-cases (r' == x.1.region)) [
    | inl same ↦ ground arith
    | inr other ↦ ground (arith, HasKey-kept r gs)
  ]

  Distinct-added : (gs : Groups) → Distinct gs → Distinct (added gs)
  unfolding add_action
  Distinct-added [] d = (λ none_left. none_left, tt)
  Distinct-added ((r', acts) ∷ gs) (fresh, d) = elim (Bool-cases (r' == x.1.region)) [
    | inl same ↦ ground arith
    | inr other ↦ ground (arith, HasKey-added r' gs, Distinct-added gs)
  ]

  action_member :
      (r : ℕ) (xs : List Entry)
      → x.1.region ≡ r
      → map (action_of is_cb) (members r (xs ++ (x ∷ [])))
        ≡ map (action_of is_cb) (members r xs) ++ (action_of is_cb x ∷ [])
  unfolding members
  action_member r xs same =
      ground
        (arith, members-append r xs (x ∷ []), map-append (action_of is_cb) (members r xs) (x ∷ []))

  no_member : (r : ℕ) (xs : List Entry) → x.1.region ≢ r → members r (xs ++ (x ∷ [])) ≡ members r xs
  unfolding members
  no_member r xs other = ground (arith, members-append r xs (x ∷ []), append-nil (members r xs))

  IsGroup-other :
      (xs : List Entry) (gs : Groups)
      → ¬ HasKey x.1.region gs
      → All (IsGroup is_cb xs) gs
      → All (IsGroup is_cb (xs ++ (x ∷ []))) gs
  IsGroup-other xs [] fresh ok_groups = tt
  IsGroup-other xs ((r', acts) ∷ gs) fresh (here, there) = (
    here ∙ ap (map (action_of is_cb)) (sym (no_member r' xs (λ e. fresh (inl (sym e))))),
    IsGroup-other xs gs (λ h. fresh (inr h)) there,
  )

  IsGroup-added :
      (xs : List Entry) (gs : Groups)
      → Distinct gs
      → (¬ HasKey x.1.region gs → members x.1.region xs ≡ [])
      → All (IsGroup is_cb xs) gs
      → All (IsGroup is_cb (xs ++ (x ∷ []))) (added gs)
  unfolding add_action
  IsGroup-added xs [] d fresh ok_groups =
      (rw (action_member x.1.region xs refl, fresh (λ h. h)) refl, tt)
  IsGroup-added xs ((r', acts) ∷ gs) (new, d) fresh (here, there) =
      elim (Bool-cases (r' == x.1.region)) [
        | inl same ↦
            let e : x.1.region ≡ r' = ground arith in
            simp same (
              ap (λ pbs. pbs ++ (action_of is_cb x ∷ [])) here ∙ sym (action_member r' xs e),
              IsGroup-other xs gs (λ h. new (subst (λ r. HasKey r gs) e h)) there,
            )
        | inr other ↦
            let e : x.1.region ≢ r' = ground arith in
            simp other (
              here ∙ ap (map (action_of is_cb)) (sym (no_member r' xs e)),
              IsGroup-added xs gs d
                  (λ h. fresh (λ k. elim k [ inl k₀ ↦ e (sym k₀) | inr k₁ ↦ h k₁ ])) there,
            )
      ]

  covered_added :
      (xs : List Entry) (gs : Groups)
      → All (λ y. HasKey y.1.region gs) xs
      → All (λ y. HasKey y.1.region (added gs)) (xs ++ (x ∷ []))
  covered_added [] gs c = (HasKey-kept x.1.region gs (inl refl), tt)
  covered_added (y ∷ xs) gs (here, there) =
      (HasKey-kept y.1.region gs (inr here), covered_added xs gs there)

  no_members :
      (xs : List Entry) (gs : Groups)
      → All (λ y. HasKey y.1.region gs) xs
      → ¬ HasKey x.1.region gs
      → members x.1.region xs ≡ []
  unfolding members
  no_members [] gs c fresh = refl
  no_members (y ∷ xs) gs (here, there) fresh = elim (Bool-cases (y.1.region == x.1.region)) [
    | inl same ↦
        let e : y.1.region ≡ x.1.region = ground arith in
        absurd (fresh (subst (λ r. HasKey r gs) e here))
    | inr other ↦ ground (arith, no_members xs gs there fresh)
  ]

  Grouped-added :
      (xs : List Entry) (gs : Groups)
      → Grouped is_cb xs gs
      → Grouped is_cb (xs ++ (x ∷ [])) (added gs)
  Grouped-added xs gs g = record {
    groups = IsGroup-added xs gs g.distinct (no_members xs gs g.covered) g.groups;
    distinct = Distinct-added gs g.distinct;
    covered = covered_added xs gs g.covered;
  }

-- A call's message is one that a batch can hold.
abbrev pub IsBatchable : Bool → Call → Type 0
IsBatchable is_cb c = (encode_call is_cb c).0 ≢ unsupported_request

-- What collect makes of calls at index `i`, where `xs` are the calls before them.
abbrev pub Gathered : Bool → ℕ → List Call → Groups → ℕ → List Entry → Type 0
Gathered is_cb i cs gs size xs =
    (gs' : Groups) × (size' : ℕ) × (collect is_cb i (map some cs) gs size
      ≡ ok (gs', size', map mark cs))
    × Grouped is_cb (xs ++ live i cs) gs'

add_call-supported :
    (again : Groups → ℕ → Collected) (i : ℕ) (c : Call) (e : Message × List Bytes × ℕ) (gs : Groups)
    (size : ℕ)
    → e.0 ≢ unsupported_request
    → add_call again i c e gs size ≡ (
        again
          (add_action c.region (record { index = (i + 1) % 2 ^ 32; message = e.0 }) e.1 gs)
          ((size + e.2) % 2 ^ 32)
        >>= keep (some c))
unfolding add_call
add_call-supported again i c (get_request b, cbs, sz) gs size fine = refl
add_call-supported again i c (mutate_request b, cbs, sz) gs size fine = refl
add_call-supported again i c (unsupported_request, cbs, sz) gs size fine = absurd (fine refl)

pub collect-Grouped :
    (is_cb : Bool) (i : ℕ) (cs : List Call) (gs : Groups) (size : ℕ) (xs : List Entry)
    → All (IsBatchable is_cb) cs
    → Grouped is_cb xs gs
    → Gathered is_cb i cs gs size xs
unfolding collect live action_of
collect-Grouped is_cb i [] gs size xs fine g =
    (gs, size, refl, subst (λ ys. Grouped is_cb ys gs) (sym (append-nil xs)) g)
collect-Grouped is_cb i (c ∷ cs) gs size xs (fine, all_fine) g = elim (Bool-cases c.expired) [
  | inl gone ↦
      let (gs', size', ran, g') = collect-Grouped is_cb (suc i) cs gs size xs all_fine g in
      simp gone (gs', size', ap (λ r. r >>= keep none) ran, g')
  | inr alive ↦
      let e = encode_call is_cb c in
      let (gs', size', ran, g') =
        collect-Grouped is_cb (suc i) cs (added is_cb (i, c) e.1 gs) ((size + e.2) % 2 ^ 32)
          (xs ++ ((i, c) ∷ [])) all_fine (Grouped-added is_cb (i, c) e.1 xs gs g) in
      simp alive (
        gs',
        size',
        add_call-supported (collect is_cb (suc i) (map some cs)) i c e gs size fine
            ∙ ap (λ r. r >>= keep (some c)) ran,
        subst (λ ys. Grouped is_cb ys gs') (append_assoc xs ((i, c) ∷ []) (live (suc i) cs)) g',
      )
]
