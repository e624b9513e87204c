-- ===== src/Batch/Slots.antt =====
-- rpc.go (SendBatch): the whole of a batch.
use gohbase.Prelude.{
  ℕ, zero, suc, ◌≡◌, refl, sym, ◌∙◌, inl, inr, true, false, ◌&&◌, none, some, List, [], ◌∷◌, arith,
  Bool-cases, length, get_elem?, All,
}
use gohbase.Prelude.Permuted.{Permuted, All-Permuted}
use gohbase.Batch.{
  BatchCall, CallResult, Results, validate, Located, ClientGroups, Found, find_clients, Waits,
  Progress, send_to, send_found, send_valid, send_batch,
}
use gohbase.Batch.Validity.{
  is_valid, is_valid-all_ok, HasError, validate-HasError, validate-AreIndexed,
}
use gohbase.Batch.Results.{Answered, InBatch}
use gohbase.Batch.Waiting.{wait_for_clients-Answered}
use gohbase.Batch.Groups.{group_of, calls_of, are_located, AreApart}
use gohbase.Batch.Grouping.{
  IsHere, find_clients-group_of, find_clients-is_ok, find_clients-res, find_clients-HasError,
  find_clients-AreApart, find_clients-All, find_clients-finds, AreApart-Permuted, group_of-Permuted,
  InGroups-Permuted,
}

-- Where a list of results as long as the batch has a result for each place.
get_elem?-total :
    (batch : List BatchCall) (res : Results) (k : ℕ) (c : BatchCall)
    → All HasError res
    → length res ≡ length batch
    → get_elem? batch k ≡ some c
    → (r : CallResult) × (get_elem? res k ≡ some r)
get_elem?-total [] res k c errors size at = cc
get_elem?-total (x ∷ batch) [] k c errors size at = ground (arith, size)
get_elem?-total (x ∷ batch) (r ∷ res) zero c errors size at = (r, refl)
get_elem?-total (x ∷ batch) (r ∷ res) (suc k) c (_, errors) size at =
    get_elem?-total batch res k c errors (ground (arith, size)) at

All-places : (batch : List BatchCall) → All (InBatch batch) batch
All-places batch = go batch (λ k c at. (k, at))
  where
    go :
        (cs : List BatchCall)
        → ((k : ℕ) (c : BatchCall) → get_elem? cs k ≡ some c → InBatch batch c)
        → All (InBatch batch) cs
    go [] f = tt
    go (c ∷ cs) f = (f 0 c refl, go cs (λ k. f (suc k)))

module _ (where_is : BatchCall → Located) (order : ClientGroups → ClientGroups) (w : Waits) where
  -- Where all calls are valid and have clients, SendBatch is the loop over the clients.
  send_batch-sends :
      (c : BatchCall) (cs : List BatchCall)
      → is_valid (c ∷ cs) ≡ true
      → are_located where_is (c ∷ cs) ≡ true
      → let v = validate c.table 0 [] (c ∷ cs) in
        let f =
          find_clients where_is 0 (c ∷ cs) (record { groups = []; res = v.res; is_ok = true }) in
        send_batch where_is order w (c ∷ cs) ≡ send_to w v.rpc_to_res (order f.groups) v.res
  unfolding send_batch send_valid send_found
  send_batch-sends c cs valid located =
      let all_valid = is_valid-all_ok c cs ∙ valid in
      let v = validate c.table 0 [] (c ∷ cs) in
      let f : Found = record { groups = []; res = v.res; is_ok = true } in
      ground (
        arith,
        all_valid,
        find_clients-is_ok where_is 0 (c ∷ cs) f,
        find_clients-res where_is 0 (c ∷ cs) f located,
        located,
      )

  -- A batch whose calls are distinct, for one table and batchable, and have clients: each client is
  -- sent its calls once, in the order of the batch, in whatever order the clients are visited. The
  -- i'th result is what the i'th call's channel gave to the first loop of waitForCompletion, or, only
  -- where that loop found the end of the context at a call of the same client, what the channel gave
  -- to the second loop, or the context's error where it then had nothing; no result has an error if
  -- SendBatch says that all is well.
  pub send_batch-Answered :
      (batch : List BatchCall)
      → ((groups : ClientGroups) → Permuted groups (order groups))
      → is_valid batch ≡ true
      → are_located where_is batch ≡ true
      → let o = send_batch where_is order w batch in
        ((k : ℕ) → group_of k o.queued ≡ calls_of where_is k batch)
        × AreApart o.queued
        × ((k : ℕ) (c : BatchCall)
            → get_elem? batch k ≡ some c
            → (r : CallResult) × (get_elem? o.results k ≡ some r)
              × Answered where_is batch w c r
              × (o.all_ok ≡ true → r.error ≡ none))
  unfolding send_batch group_of calls_of send_to
  send_batch-Answered [] permutes valid located = ((λ k. refl), tt, (λ k c at. cc))
  send_batch-Answered (c ∷ cs) permutes valid located =
      let v = validate c.table 0 [] (c ∷ cs) in
      let f : Found = record { groups = []; res = v.res; is_ok = true } in
      let found = find_clients where_is 0 (c ∷ cs) f in
      let start : Progress = record { results = v.res; handled = [] } in
      let apart = find_clients-AreApart where_is 0 (c ∷ cs) f tt in
      let visited = permutes found.groups in
      let indexed = validate-AreIndexed c cs (is_valid-all_ok c cs ∙ valid) in
      let known =
        All-Permuted (λ g. All (IsHere where_is (InBatch (c ∷ cs)) g.0) g.1) visited
          (find_clients-All where_is (InBatch (c ∷ cs)) 0 (c ∷ cs) f (All-places (c ∷ cs)) tt) in
      let (errors, size) = validate-HasError c.table 0 [] (c ∷ cs) in
      let sent = send_batch-sends c cs valid located in
      rw sent (
        (λ k.
            sym (group_of-Permuted k visited apart)
            ∙ find_clients-group_of where_is k 0 (c ∷ cs) f),
        AreApart-Permuted visited apart,
        (λ k x at.
            let (r, there) = get_elem?-total (c ∷ cs) v.res k x errors size at in
            let (r', there', answered, clean) =
              wait_for_clients-Answered where_is w v.rpc_to_res (c ∷ cs) indexed false k x
                (order found.groups) true start at known
                (InGroups-Permuted x visited
                  (find_clients-finds where_is 0 (c ∷ cs) f k x located at))
                (r, there, (λ d. cc), (λ d. cc)) in
            (r', there', answered refl, clean refl)),
      )

  -- A batch in which a call is there twice, is for another table than the first one, is not batchable
  -- or has no client: nothing is sent, SendBatch says that not all is well, and there is a result with an
  -- error and no message for each call.
  pub send_batch-refused :
      (batch : List BatchCall)
      → (is_valid batch && are_located where_is batch) ≡ false
      → let o = send_batch where_is order w batch in
        (o.queued ≡ [])
        × (o.all_ok ≡ false)
        × All HasError o.results
        × (length o.results ≡ length batch)
  unfolding send_batch send_valid send_found are_located is_valid
  send_batch-refused [] bad = cc
  send_batch-refused (c ∷ cs) bad =
      let v = validate c.table 0 [] (c ∷ cs) in
      let f : Found = record { groups = []; res = v.res; is_ok = true } in
      let (errors, size) = validate-HasError c.table 0 [] (c ∷ cs) in
      elim (Bool-cases v.all_ok) [
        | inr invalid ↦ rw invalid (refl, refl, errors, size)
        | inl fine ↦
            let (errors', size') = find_clients-HasError where_is 0 (c ∷ cs) f (errors, size) in
            let lost : (find_clients where_is 0 (c ∷ cs) f).is_ok ≡ false =
              find_clients-is_ok where_is 0 (c ∷ cs) f
              ∙ ground (arith, bad, sym (is_valid-all_ok c cs) ∙ fine) in
            rw (fine, lost) (refl, refl, errors', size')
      ]
