-- ===== src/Batch/Groups.antt =====
-- The calls of each client, and what adding a call to them does.
use gohbase.Prelude.{
  ==_iff, sym, subst, Pairwise, ℕ, zero, suc, ◌≡◌, refl, ap, ◌∙◌, ◌≢◌, ◌⊎◌, inl, inr, Bool, true,
  false, List, [], ◌∷◌, ◌++◌, append-nil, arith, ◌==◌, if◌then◌else◌, Bool-cases, length, All,
  All-append,
}
use gohbase.Batch.{
  BatchCall, BatchError, Results, update_at, with_error, Located, client, nowhere, ClientGroups,
  group_call,
}
use gohbase.Batch.Validity.{HasError}
use gohbase.Batch.Results.{In, InGroups}

-- The calls that a client has in the groups, and those of a batch that are located at it.
unfoldable pub group_of : ℕ → ClientGroups → List BatchCall
group_of k [] = []
group_of k ((j, cs) ∷ groups) = if j == k then cs else group_of k groups

unfoldable pub calls_of : (BatchCall → Located) → ℕ → List BatchCall → List BatchCall
calls_of where_is k [] = []
calls_of where_is k (c ∷ cs) =
    let rest = calls_of where_is k cs in
    elim (where_is c) [ client j ↦ if j == k then c ∷ rest else rest | nowhere e ↦ rest ]

unfoldable pub are_located : (BatchCall → Located) → List BatchCall → Bool
are_located where_is [] = true
are_located where_is (c ∷ cs) = elim (where_is c) [
  | client j ↦ are_located where_is cs
  | nowhere e ↦ false
]

abbrev pub AreApart : ClientGroups → Type 0
AreApart = Pairwise (λ g h. g.0 ≢ h.0)

pub group_of-group_call :
    (k j : ℕ) (c : BatchCall) (groups : ClientGroups)
    → group_of j (group_call k c groups) ≡ group_of j groups ++ (if k == j then c ∷ [] else [])
unfolding group_of group_call
group_of-group_call k j c [] = ground arith
group_of-group_call k j c ((i, cs) ∷ groups) =
    ground (arith, group_of-group_call k j c groups, append-nil cs, append-nil (group_of j groups))

pub All-group_call :
    (P : ℕ → BatchCall → Type 0) (k : ℕ) (c : BatchCall) (groups : ClientGroups)
    → P k c
    → All (λ g. All (P g.0) g.1) groups
    → All (λ g. All (P g.0) g.1) (group_call k c groups)
unfolding group_call
All-group_call P k c [] here h = ((here, tt), tt)
All-group_call P k c ((i, cs) ∷ groups) here (first, h) = elim (Bool-cases (i == k)) [
  | inl e ↦
      let at_i : P i c = subst (λ j. P j c) (sym ((==_iff i k).0 e)) here in
      rw e (All-append (P i) cs (c ∷ []) first (at_i, tt), h)
  | inr e ↦ rw e (first, All-group_call P k c groups here h)
]

keys-group_call :
    (i k : ℕ) (c : BatchCall) (groups : ClientGroups)
    → i ≢ k
    → All (λ g. i ≢ g.0) groups
    → All (λ g. i ≢ g.0) (group_call k c groups)
unfolding group_call
keys-group_call i k c [] other h = (other, tt)
keys-group_call i k c ((j, cs) ∷ groups) other (first, h) = elim (Bool-cases (j == k)) [
  | inl e ↦ rw e (first, h)
  | inr e ↦ rw e (first, keys-group_call i k c groups other h)
]

pub AreApart-group_call :
    (k : ℕ) (c : BatchCall) (groups : ClientGroups)
    → AreApart groups
    → AreApart (group_call k c groups)
unfolding group_call
AreApart-group_call k c [] h = (tt, tt)
AreApart-group_call k c ((i, cs) ∷ groups) (first, h) = elim (Bool-cases (i == k)) [
  | inl e ↦ rw e (first, h)
  | inr e ↦ rw e (
    keys-group_call i k c groups (λ same. ground (arith, same, e)) first,
    AreApart-group_call k c groups h,
  )
]

In-append_left : (c : BatchCall) (xs ys : List BatchCall) → In c xs → In c (xs ++ ys)
In-append_left c [] ys h = absurd h
In-append_left c (x ∷ xs) ys (inl e) = inl e
In-append_left c (x ∷ xs) ys (inr h) = inr (In-append_left c xs ys h)

In-last : (c : BatchCall) (xs : List BatchCall) → In c (xs ++ (c ∷ []))
In-last c [] = inl refl
In-last c (x ∷ xs) = inr (In-last c xs)

pub InGroups-added :
    (k : ℕ) (c : BatchCall) (groups : ClientGroups) → InGroups c (group_call k c groups)
unfolding group_call
InGroups-added k c [] = inl (inl refl)
InGroups-added k c ((i, cs) ∷ groups) = elim (Bool-cases (i == k)) [
  | inl e ↦ rw e (inl (In-last c cs))
  | inr e ↦ rw e (inr (InGroups-added k c groups))
]

pub InGroups-group_call :
    (k : ℕ) (c x : BatchCall) (groups : ClientGroups)
    → InGroups x groups
    → InGroups x (group_call k c groups)
unfolding group_call
InGroups-group_call k c x [] h = absurd h
InGroups-group_call k c x ((i, cs) ∷ groups) h = elim (Bool-cases (i == k)) [
  | inl e ↦
      rw e (elim h [ inl here ↦ inl (In-append_left x cs (c ∷ []) here) | inr there ↦ inr there ])
  | inr e ↦
      rw e
        (elim h [ inl here ↦ inl here | inr there ↦ inr (InGroups-group_call k c x groups there) ])
]

pub Located-cases : (l : Located) → ((k : ℕ) × (l ≡ client k)) ⊎ ((e : ℕ) × (l ≡ nowhere e))
Located-cases (client k) = inl (k, refl)
Located-cases (nowhere e) = inr (e, refl)

pub update_at-HasError :
    (i : ℕ) (e : BatchError) (res : Results) {n : ℕ}
    → All HasError res × (length res ≡ n)
    → All HasError (update_at i (with_error e) res) × (length (update_at i (with_error e) res) ≡ n)
unfolding update_at
update_at-HasError i e [] h = h
update_at-HasError zero e (r ∷ res) (((no_msg, error), each), size) =
    (((no_msg, (e, refl)), each), size)
update_at-HasError (suc i) e (r ∷ res) ((first, each), size) =
    let (each', size') = update_at-HasError i e res (each, refl) in
    ((first, each'), ap suc size' ∙ size)
