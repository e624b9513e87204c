-- ===== src/Batch/Grouping.antt =====
-- rpc.go (findClients): the calls of a batch by client.
use gohbase.Prelude.{
  ℕ, zero, suc, ◌≡◌, refl, sym, subst, ◌∙◌, ◌≢◌, inl, inr, true, ◌&&◌, some, List, [], ◌∷◌, ◌++◌,
  append-nil, append_assoc, arith, length, get_elem?, All,
}
use gohbase.Prelude.Permuted.{Permuted, nil, cons, swap, trans, All-Permuted}
use gohbase.Batch.{
  client, BatchCall, no_client, Located, ClientGroups, group_call, Found, locate, find_clients,
}
use gohbase.Batch.Validity.{HasError}
use gohbase.Batch.Results.{InGroups}
use gohbase.Batch.Groups.{
  group_of, calls_of, are_located, AreApart, group_of-group_call, All-group_call,
  AreApart-group_call, InGroups-added, InGroups-group_call, Located-cases, update_at-HasError,
}

module _ (where_is : BatchCall → Located) where
  abbrev pub IsHere : (BatchCall → Type 0) → ℕ → BatchCall → Type 0
  IsHere P k c = P c × (where_is c ≡ client k)

  pub find_clients-group_of :
      (k i : ℕ) (batch : List BatchCall) (f : Found)
      → group_of k (find_clients where_is i batch f).groups
        ≡ group_of k f.groups ++ calls_of where_is k batch
  unfolding find_clients calls_of
  find_clients-group_of k i [] f = sym (append-nil (group_of k f.groups))
  find_clients-group_of k i (c ∷ batch) f = elim (Located-cases (where_is c)) [
    | inl (j, e) ↦
        find_clients-group_of k (suc i) batch (locate i c (where_is c) f)
        ∙ ground (
          arith,
          e,
          group_of-group_call j k c f.groups,
          append_assoc (group_of k f.groups) (c ∷ []) (calls_of where_is k batch),
          append-nil (group_of k f.groups),
        )
    | inr (r, e) ↦
        find_clients-group_of k (suc i) batch (locate i c (where_is c) f) ∙ ground (arith, e)
  ]

  pub find_clients-is_ok :
      (i : ℕ) (batch : List BatchCall) (f : Found)
      → (find_clients where_is i batch f).is_ok ≡ (f.is_ok && are_located where_is batch)
  unfolding find_clients are_located
  find_clients-is_ok i [] f = ground arith
  find_clients-is_ok i (c ∷ batch) f = elim (Located-cases (where_is c)) [
    | inl (j, e) ↦ find_clients-is_ok (suc i) batch (locate i c (where_is c) f) ∙ ground (arith, e)
    | inr (r, e) ↦ find_clients-is_ok (suc i) batch (locate i c (where_is c) f) ∙ ground (arith, e)
  ]

  -- Where every call has a client, the results are left as they are.
  pub find_clients-res :
      (i : ℕ) (batch : List BatchCall) (f : Found)
      → are_located where_is batch ≡ true
      → (find_clients where_is i batch f).res ≡ f.res
  unfolding find_clients are_located
  find_clients-res i [] f h = refl
  find_clients-res i (c ∷ batch) f h = elim (Located-cases (where_is c)) [
    | inl (j, e) ↦
        find_clients-res (suc i) batch (locate i c (where_is c) f) (ground (arith, e, h))
        ∙ ground (arith, e)
    | inr (r, e) ↦ ground (arith, e, h)
  ]

  pub find_clients-HasError :
      (i : ℕ) (batch : List BatchCall) (f : Found) {n : ℕ}
      → All HasError f.res × (length f.res ≡ n)
      → All HasError (find_clients where_is i batch f).res
        × (length (find_clients where_is i batch f).res ≡ n)
  unfolding find_clients
  find_clients-HasError i [] f h = h
  find_clients-HasError i (c ∷ batch) f h = elim (Located-cases (where_is c)) [
    | inl (j, e) ↦ find_clients-HasError (suc i) batch (locate i c (where_is c) f) (rw e h)
    | inr (r, e) ↦
        find_clients-HasError (suc i) batch (locate i c (where_is c) f)
          (rw e (update_at-HasError i (no_client r) f.res h))
  ]

  pub find_clients-AreApart :
      (i : ℕ) (batch : List BatchCall) (f : Found)
      → AreApart f.groups
      → AreApart (find_clients where_is i batch f).groups
  unfolding find_clients
  find_clients-AreApart i [] f h = h
  find_clients-AreApart i (c ∷ batch) f h = elim (Located-cases (where_is c)) [
    | inl (j, e) ↦
        find_clients-AreApart (suc i) batch (locate i c (where_is c) f)
          (rw e (AreApart-group_call j c f.groups h))
    | inr (r, e) ↦ find_clients-AreApart (suc i) batch (locate i c (where_is c) f) (rw e h)
  ]

  -- What holds for the calls of the batch holds for those of each group, which are the client's own.
  pub find_clients-All :
      (P : BatchCall → Type 0) (i : ℕ) (batch : List BatchCall) (f : Found)
      → All P batch
      → All (λ g. All (IsHere P g.0) g.1) f.groups
      → All (λ g. All (IsHere P g.0) g.1) (find_clients where_is i batch f).groups
  unfolding find_clients
  find_clients-All P i [] f each h = h
  find_clients-All P i (c ∷ batch) f (here, each) h = elim (Located-cases (where_is c)) [
    | inl (j, e) ↦
        find_clients-All P (suc i) batch (locate i c (where_is c) f) each
          (rw e (All-group_call (IsHere P) j c f.groups (here, e) h))
    | inr (r, e) ↦ find_clients-All P (suc i) batch (locate i c (where_is c) f) each (rw e h)
  ]

  find_clients-InGroups :
      (i : ℕ) (batch : List BatchCall) (f : Found) (x : BatchCall)
      → InGroups x f.groups
      → InGroups x (find_clients where_is i batch f).groups
  unfolding find_clients
  find_clients-InGroups i [] f x h = h
  find_clients-InGroups i (c ∷ batch) f x h = elim (Located-cases (where_is c)) [
    | inl (j, e) ↦
        find_clients-InGroups (suc i) batch (locate i c (where_is c) f) x
          (rw e (InGroups-group_call j c x f.groups h))
    | inr (r, e) ↦ find_clients-InGroups (suc i) batch (locate i c (where_is c) f) x (rw e h)
  ]

  -- Every call that has a client is in its group.
  pub find_clients-finds :
      (i : ℕ) (batch : List BatchCall) (f : Found) (k : ℕ) (x : BatchCall)
      → are_located where_is batch ≡ true
      → get_elem? batch k ≡ some x
      → InGroups x (find_clients where_is i batch f).groups
  unfolding find_clients are_located
  find_clients-finds i [] f k x h at = cc
  find_clients-finds i (c ∷ batch) f zero x h at = elim (Located-cases (where_is c)) [
    | inl (j, e) ↦
        let same : c ≡ x = ground (arith, at) in
        find_clients-InGroups (suc i) batch (locate i c (where_is c) f) x (
          rw e
            (subst (λ y. InGroups y (group_call j c f.groups)) same (InGroups-added j c f.groups)))
    | inr (r, e) ↦ ground (arith, e, h)
  ]
  find_clients-finds i (c ∷ batch) f (suc k) x h at = elim (Located-cases (where_is c)) [
    | inl (j, e) ↦
        find_clients-finds (suc i) batch (locate i c (where_is c) f) k x (ground (arith, e, h)) at
    | inr (r, e) ↦ ground (arith, e, h)
  ]

-- The order in which the groups are visited does not matter to what a client gets.
pub AreApart-Permuted : {xs ys : ClientGroups} → Permuted xs ys → AreApart xs → AreApart ys
AreApart-Permuted nil h = h
AreApart-Permuted (cons x p) (first, h) =
    (All-Permuted (λ g. x.0 ≢ g.0) p first, AreApart-Permuted p h)
AreApart-Permuted (swap x y xs) ((apart, first), (second, h)) =
    (((λ e. apart (sym e)), second), (first, h))
AreApart-Permuted (trans p q) h = AreApart-Permuted q (AreApart-Permuted p h)

pub group_of-Permuted :
    (k : ℕ) {xs ys : ClientGroups} → Permuted xs ys → AreApart xs → group_of k xs ≡ group_of k ys
unfolding group_of
group_of-Permuted k nil h = refl
group_of-Permuted k (cons x p) (first, h) = ground (arith, group_of-Permuted k p h)
group_of-Permuted k (swap x y xs) ((apart, first), rest) = ground (arith, apart)
group_of-Permuted k (trans p q) h =
    group_of-Permuted k p h ∙ group_of-Permuted k q (AreApart-Permuted p h)

pub InGroups-Permuted :
    (c : BatchCall) {xs ys : ClientGroups} → Permuted xs ys → InGroups c xs → InGroups c ys
InGroups-Permuted c nil h = h
InGroups-Permuted c (cons x p) h = elim h [
  | inl here ↦ inl here
  | inr there ↦ inr (InGroups-Permuted c p there)
]
InGroups-Permuted c (swap x y xs) h = elim h [
  | inl first ↦ inr (inl first)
  | inr (inl second) ↦ inl second
  | inr (inr later) ↦ inr (inr later)
]
InGroups-Permuted c (trans p q) h = InGroups-Permuted c q (InGroups-Permuted c p h)
