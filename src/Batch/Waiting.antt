-- ===== src/Batch/Waiting.antt =====
-- What waiting for the calls of a batch leaves in their results.
use gohbase.Prelude.{
  ℕ, ◌≡◌, refl, sym, ap, subst, ◌∙◌, inl, inr, Bool, true, false, ◌&&◌, Option, none, some, List,
  [], ◌∷◌, arith, Option-cases, get_elem?, All,
}
use gohbase.Batch.{
  BatchCall, BatchError, context_error, CallResult, Indexes, index_of, update_at, with_error,
  Located, canceled, received, Waits, Progress, store_result, store_late, is_none, wait_late,
  wait_for_completion, wait_for_clients, ClientGroups,
}
use gohbase.Batch.Grouping.{IsHere}
use gohbase.Batch.Results.{
  Ended, Answered, AreIndexed, In, InGroups, InBatch, HasResult, Waited-cases, keep-HasResult,
  hit-HasResult, weaken-HasResult,
}

module _ (where_is : BatchCall → Located) (w : Waits) (m : Indexes) (batch : List BatchCall)
    (indexed : AreIndexed m batch) where
  -- A call of the client, and one at which the first loop found the end of the context.
  abbrev OfClient : ℕ → BatchCall → Type 0
  OfClient = IsHere where_is (InBatch batch)

  abbrev Stopped : ℕ → Type 0
  Stopped i = (x : BatchCall) × OfClient i x × (w.first x ≡ canceled)

  store_late-Answered :
      (i : ℕ) (c : BatchCall) (p : Progress)
      → Stopped i
      → OfClient i c
      → (f : CallResult → CallResult) × ((store_late m c (w.late c) p).results
          ≡ update_at (index_of c m) f p.results)
        × ((r : CallResult) → Answered where_is batch w c (f r))
  unfolding store_late store_result
  store_late-Answered i c p (x, (in_batch, at_x), end) (_, at_c) =
      let ended : Ended where_is batch w c = (x, in_batch, at_x ∙ sym at_c, end) in
      elim (Option-cases (w.late c)) [
        | inl e ↦
            (with_error context_error, rw (e, store_late) refl, (λ r. inr (ended, inr (e, refl))))
        | inr (r, e) ↦ ((λ _. r), rw (e, store_late) refl, (λ _. inr (ended, inl e)))
      ]

  wait_late-keeps :
      (i : ℕ) (done : Bool) (k : ℕ) (c : BatchCall) (rpcs : List BatchCall) (p : Progress)
      → get_elem? batch k ≡ some c
      → Stopped i
      → All (OfClient i) rpcs
      → HasResult where_is batch w false done k c p.results
      → HasResult where_is batch w false done k c (wait_late w m rpcs p).results
  unfolding wait_late
  wait_late-keeps i done k c [] p at_k stop known h = h
  wait_late-keeps i done k c (x ∷ rpcs) p at_k stop (((j, at_j), at_x), known) h =
      let (f, written, answers) = store_late-Answered i x p stop ((j, at_j), at_x) in
      wait_late-keeps i done k c rpcs (store_late m x (w.late x) p) at_k stop known (
        rw written (
          keep-HasResult where_is w m batch indexed false false done j x f k c p.results at_j at_k
            answers (λ r o. cc) (λ o. o) h))

  wait_late-Answered :
      (i : ℕ) (done : Bool) (k : ℕ) (c : BatchCall) (rpcs : List BatchCall) (p : Progress)
      → get_elem? batch k ≡ some c
      → Stopped i
      → All (OfClient i) rpcs
      → In c rpcs
      → HasResult where_is batch w false done k c p.results
      → HasResult where_is batch w false true k c (wait_late w m rpcs p).results
  unfolding wait_late
  wait_late-Answered i done k c [] p at_k stop known h r = absurd h
  wait_late-Answered i done k c (x ∷ rpcs) p at_k stop (((j, at_j), at_x), known) (inl same) h =
      let (f, written, answers) = store_late-Answered i x p stop ((j, at_j), at_x) in
      wait_late-keeps i true k c rpcs (store_late m x (w.late x) p) at_k stop known (
        rw written (
          subst
            (λ y. HasResult where_is batch w false true k c (update_at (index_of y m) f p.results))
            (sym same)
            (hit-HasResult where_is w m batch indexed false false done f k c p.results at_k
              (subst (λ y. (r : CallResult) → Answered where_is batch w y (f r)) same answers)
              (λ r o. cc) h)))
  wait_late-Answered i done k c (x ∷ rpcs) p at_k stop (((j, at_j), at_x), known) (inr there) h =
      let (f, written, answers) = store_late-Answered i x p stop ((j, at_j), at_x) in
      wait_late-Answered i done k c rpcs (store_late m x (w.late x) p) at_k stop known there (
        rw written (
          keep-HasResult where_is w m batch indexed false false done j x f k c p.results at_j at_k
            answers (λ r o. cc) (λ o. o) h))

  -- What a round of the first loop does where a result is received; `b` says whether all is well with
  -- the clients before.
  received-clean :
      (b is_ok : Bool) (e : Option BatchError) → (b && (is_ok && is_none e)) ≡ true → e ≡ none
  received-clean b is_ok none h = refl
  received-clean b is_ok (some e) h = ground arith

  received-fewer : (b is_ok none? : Bool) → (b && (is_ok && none?)) ≡ true → (b && is_ok) ≡ true
  received-fewer b is_ok none? h = ground arith

  wait_for_completion-keeps :
      (i : ℕ) (b done : Bool) (k : ℕ) (c : BatchCall) (rpcs : List BatchCall) (is_ok : Bool)
      (p : Progress)
      → get_elem? batch k ≡ some c
      → All (OfClient i) rpcs
      → HasResult where_is batch w (b && is_ok) done k c p.results
      → let (is_ok', p') = wait_for_completion w m rpcs is_ok p in
        HasResult where_is batch w (b && is_ok') done k c p'.results
  unfolding wait_for_completion store_result
  wait_for_completion-keeps i b done k c [] is_ok p at_k known h = h
  wait_for_completion-keeps i b done k c (x ∷ rpcs) is_ok p at_k (((j, at_j), at_x), known) h =
      elim (Waited-cases (w.first x)) [
        | inl (r, e) ↦
            rw (e, wait_for_completion)
              (wait_for_completion-keeps i b done k c rpcs (is_ok && is_none r.error)
                (store_result m x r p) at_k known
                (keep-HasResult where_is w m batch indexed (b && is_ok)
                  (b && (is_ok && is_none r.error)) done j x (λ _. r) k c p.results at_j at_k
                  (λ _. inl e) (λ _. received-clean b is_ok r.error)
                  (received-fewer b is_ok (is_none r.error)) h))
        | inr e ↦
            rw (e, wait_for_completion)
              (weaken-HasResult where_is w m batch indexed false (b && false) done k c
                (wait_late w m (x ∷ rpcs) p).results (λ o. ground arith)
                (wait_late-keeps i done k c (x ∷ rpcs) p at_k (x, ((j, at_j), at_x), e)
                  (((j, at_j), at_x), known)
                  (weaken-HasResult where_is w m batch indexed (b && is_ok) false done k c p.results
                    (λ o. cc) h)))
      ]

  wait_for_completion-Answered :
      (i : ℕ) (b done : Bool) (k : ℕ) (c : BatchCall) (rpcs : List BatchCall) (is_ok : Bool)
      (p : Progress)
      → get_elem? batch k ≡ some c
      → All (OfClient i) rpcs
      → In c rpcs
      → HasResult where_is batch w (b && is_ok) done k c p.results
      → let (is_ok', p') = wait_for_completion w m rpcs is_ok p in
        HasResult where_is batch w (b && is_ok') true k c p'.results
  unfolding wait_for_completion store_result
  wait_for_completion-Answered i b done k c [] is_ok p at_k known is_in h = absurd is_in
  wait_for_completion-Answered i b done k c (x ∷ rpcs) is_ok p at_k (((j, at_j), at_x), known) is_in
        h =
      let later : (r : CallResult)
          → w.first x ≡ received r
          → In c rpcs
          → After (is_ok && is_none r.error) (store_result m x r p) =
        λ r e there.
          wait_for_completion-Answered i b done k c rpcs (is_ok && is_none r.error)
            (store_result m x r p) at_k known there
            (keep-HasResult where_is w m batch indexed (b && is_ok)
              (b && (is_ok && is_none r.error)) done j x (λ _. r) k c p.results at_j at_k
              (λ _. inl e) (λ _. received-clean b is_ok r.error)
              (received-fewer b is_ok (is_none r.error)) h) in
      let now : (r : CallResult)
          → w.first x ≡ received r
          → x ≡ c
          → After (is_ok && is_none r.error) (store_result m x r p) =
        λ r e same.
          wait_for_completion-keeps i b true k c rpcs (is_ok && is_none r.error)
            (store_result m x r p) at_k known
            (subst
              (λ y.
                HasResult where_is batch w (b && (is_ok && is_none r.error)) true k c
                  (update_at (index_of y m) (λ _. r) p.results))
              (sym same)
              (hit-HasResult where_is w m batch indexed (b && is_ok)
                (b && (is_ok && is_none r.error)) done (λ _. r) k c p.results at_k
                (λ _. inl (ap w.first (sym same) ∙ e)) (λ _. received-clean b is_ok r.error) h)) in
      elim (Waited-cases (w.first x)) [
        | inl (r, e) ↦
            rw (e, wait_for_completion)
              (elim is_in [ inl same ↦ now r e same | inr there ↦ later r e there ])
        | inr e ↦
            rw (e, wait_for_completion)
              (weaken-HasResult where_is w m batch indexed false (b && false) true k c
                (wait_late w m (x ∷ rpcs) p).results (λ o. ground arith)
                (wait_late-Answered i done k c (x ∷ rpcs) p at_k (x, ((j, at_j), at_x), e)
                  (((j, at_j), at_x), known) is_in
                  (weaken-HasResult where_is w m batch indexed (b && is_ok) false done k c p.results
                    (λ o. cc) h)))
      ]
    where
      After : Bool → Progress → Type 0
      After o q =
          let (is_ok', p') = wait_for_completion w m rpcs o q in
          HasResult where_is batch w (b && is_ok') true k c p'.results

  abbrev AreInBatch : ClientGroups → Type 0
  AreInBatch = All (λ g. All (OfClient g.0) g.1)

  and_true : (b : Bool) → (b && true) ≡ true → b ≡ true
  and_true b h = ground arith

  wait_for_clients-keeps :
      (done : Bool) (k : ℕ) (c : BatchCall) (groups : ClientGroups) (all_ok : Bool) (p : Progress)
      → get_elem? batch k ≡ some c
      → AreInBatch groups
      → HasResult where_is batch w all_ok done k c p.results
      → let (all_ok', p') = wait_for_clients w m groups all_ok p in
        HasResult where_is batch w all_ok' done k c p'.results
  unfolding wait_for_clients
  wait_for_clients-keeps done k c [] all_ok p at_k known h = h
  wait_for_clients-keeps done k c ((i, rpcs) ∷ groups) all_ok p at_k (here, known) h =
      let (is_ok, p') = wait_for_completion w m rpcs true p in
      wait_for_clients-keeps done k c groups (all_ok && is_ok) p' at_k known (
        wait_for_completion-keeps i all_ok done k c rpcs true p at_k here (
          weaken-HasResult where_is w m batch indexed all_ok (all_ok && true) done k c p.results
            (and_true all_ok) h))

  -- Every call that a client got has a result that it may get, and no error if all is well.
  pub wait_for_clients-Answered :
      (done : Bool) (k : ℕ) (c : BatchCall) (groups : ClientGroups) (all_ok : Bool) (p : Progress)
      → get_elem? batch k ≡ some c
      → AreInBatch groups
      → InGroups c groups
      → HasResult where_is batch w all_ok done k c p.results
      → let (all_ok', p') = wait_for_clients w m groups all_ok p in
        HasResult where_is batch w all_ok' true k c p'.results
  unfolding wait_for_clients
  wait_for_clients-Answered done k c [] all_ok p at_k known is_in h = absurd is_in
  wait_for_clients-Answered done k c ((i, rpcs) ∷ groups) all_ok p at_k (here, known) (inl first)
        h =
      let (is_ok, p') = wait_for_completion w m rpcs true p in
      wait_for_clients-keeps true k c groups (all_ok && is_ok) p' at_k known (
        wait_for_completion-Answered i all_ok done k c rpcs true p at_k here first (
          weaken-HasResult where_is w m batch indexed all_ok (all_ok && true) done k c p.results
            (and_true all_ok) h))
  wait_for_clients-Answered done k c ((i, rpcs) ∷ groups) all_ok p at_k (here, known) (inr later)
        h =
      let (is_ok, p') = wait_for_completion w m rpcs true p in
      wait_for_clients-Answered done k c groups (all_ok && is_ok) p' at_k known later (
        wait_for_completion-keeps i all_ok done k c rpcs true p at_k here (
          weaken-HasResult where_is w m batch indexed all_ok (all_ok && true) done k c p.results
            (and_true all_ok) h))
