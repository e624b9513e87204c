-- ===== src/Batch/Results.antt =====
-- The results of a batch while its calls are waited for, and what writing one of them does.
use gohbase.Prelude.{
  ℕ, zero, suc, ◌≡◌, refl, subst, ◌∙◌, ◌⊎◌, inl, inr, Bool, true, none, some, List, [], ◌∷◌, arith,
  ◌==◌, if◌then◌else◌, Bool-cases, get_elem?,
}
use gohbase.Batch.{
  BatchCall, context_error, CallResult, Results, Indexes, index_of, update_at, Waited, Located,
  received, canceled, Waits, ClientGroups,
}

-- The call stands somewhere in the batch.
abbrev pub InBatch : List BatchCall → BatchCall → Type 0
InBatch batch c = (j : ℕ) × (get_elem? batch j ≡ some c)

-- The first loop over the calls of the same client found that the context had ended.
abbrev pub Ended : (BatchCall → Located) → List BatchCall → Waits → BatchCall → Type 0
Ended where_is batch w c =
    (x : BatchCall) × InBatch batch x × (where_is x ≡ where_is c) × (w.first x ≡ canceled)

-- What a call of the batch may get: what its channel gave to the first loop, or, only where that
-- loop found the end of the context, what its channel gave to the second loop, or the error of the
-- context where the channel had no result for it.
abbrev pub Answered :
    (BatchCall → Located) → List BatchCall → Waits → BatchCall → CallResult → Type 0
Answered where_is batch w c r =
    (w.first c ≡ received r)
    ⊎ (Ended where_is batch w c
        × ((w.late c ≡ some r) ⊎ ((w.late c ≡ none) × (r.error ≡ some context_error))))

-- The index that the map has for each call is its place in the batch.
abbrev pub AreIndexed : Indexes → List BatchCall → Type 0
AreIndexed m batch = (k : ℕ) (c : BatchCall) → get_elem? batch k ≡ some c → index_of c m ≡ k

abbrev pub In : BatchCall → List BatchCall → Type 0
In c [] = ⊥
In c (x ∷ xs) = (x ≡ c) ⊎ In c xs

abbrev pub InGroups : BatchCall → ClientGroups → Type 0
InGroups c [] = ⊥
InGroups c ((k, cs) ∷ groups) = In c cs ⊎ InGroups c groups

pub Waited-cases : (o : Waited) → ((r : CallResult) × (o ≡ received r)) ⊎ (o ≡ canceled)
Waited-cases (received r) = inl (r, refl)
Waited-cases canceled = inr refl

get_elem?-update_at :
    (i k : ℕ) (f : CallResult → CallResult) (res : Results) {r : CallResult}
    → get_elem? res k ≡ some r
    → get_elem? (update_at i f res) k ≡ some (if i == k then f r else r)
unfolding update_at
get_elem?-update_at i k f [] h = cc
get_elem?-update_at zero zero f (x ∷ res) h = ground (arith, h)
get_elem?-update_at zero (suc k) f (x ∷ res) h = ground (arith, h)
get_elem?-update_at (suc i) zero f (x ∷ res) h = ground (arith, h)
get_elem?-update_at (suc i) (suc k) f (x ∷ res) h = get_elem?-update_at i k f res h ∙ ground arith

-- The result at `k` is there; if `done`, it is one that the call may get, with no error if all is
-- well so far.
abbrev pub HasResult :
    (BatchCall → Located) → List BatchCall → Waits → Bool → Bool → ℕ → BatchCall → Results → Type 0
HasResult where_is batch w is_ok done k c res =
    (r : CallResult) × (get_elem? res k ≡ some r)
    × (done ≡ true → Answered where_is batch w c r)
    × (done ≡ true → is_ok ≡ true → r.error ≡ none)

module _ (where_is : BatchCall → Located) (w : Waits) (m : Indexes) (batch : List BatchCall)
    (indexed : AreIndexed m batch) where
  -- A result is written for a call of the batch: the results of all calls are kept, and that of the
  -- call is one that it may get.
  pub keep-HasResult :
      (is_ok is_ok' done : Bool) (j : ℕ) (c' : BatchCall) (f : CallResult → CallResult) (k : ℕ)
      (c : BatchCall) (res : Results)
      → get_elem? batch j ≡ some c'
      → get_elem? batch k ≡ some c
      → ((r : CallResult) → Answered where_is batch w c' (f r))
      → ((r : CallResult) → is_ok' ≡ true → (f r).error ≡ none)
      → (is_ok' ≡ true → is_ok ≡ true)
      → HasResult where_is batch w is_ok done k c res
      → HasResult where_is batch w is_ok' done k c (update_at (index_of c' m) f res)
  keep-HasResult is_ok is_ok' done j c' f k c res at_j at_k answers clean fewer
        (r, there, answered, fine) =
      let written : get_elem? (update_at (index_of c' m) f res) k
          ≡ some (if j == k then f r else r) =
        rw (indexed j c' at_j) (get_elem?-update_at j k f res there) in
      elim (Bool-cases (j == k)) [
        | inl hit ↦
            let same : c' ≡ c = ground (arith, hit, at_j, at_k) in
            (
              f r,
              rw hit at written,
              (λ _. subst (λ x. Answered where_is batch w x (f r)) same (answers r)),
              (λ _. clean r),
            )
        | inr miss ↦ (r, rw miss at written, answered, (λ d o. fine d (fewer o)))
      ]

  pub hit-HasResult :
      (is_ok is_ok' done : Bool) (f : CallResult → CallResult) (k : ℕ) (c : BatchCall)
      (res : Results)
      → get_elem? batch k ≡ some c
      → ((r : CallResult) → Answered where_is batch w c (f r))
      → ((r : CallResult) → is_ok' ≡ true → (f r).error ≡ none)
      → HasResult where_is batch w is_ok done k c res
      → HasResult where_is batch w is_ok' true k c (update_at (index_of c m) f res)
  hit-HasResult is_ok is_ok' done f k c res at_k answers clean (r, there, _, _) = (
    f r,
    rw (indexed k c at_k) (get_elem?-update_at k k f res there ∙ ground arith),
    (λ _. answers r),
    (λ _. clean r),
  )

  pub weaken-HasResult :
      (is_ok is_ok' done : Bool) (k : ℕ) (c : BatchCall) (res : Results)
      → (is_ok' ≡ true → is_ok ≡ true)
      → HasResult where_is batch w is_ok done k c res
      → HasResult where_is batch w is_ok' done k c res
  weaken-HasResult is_ok is_ok' done k c res fewer (r, there, answered, fine) =
      (r, there, answered, (λ d o. fine d (fewer o)))
