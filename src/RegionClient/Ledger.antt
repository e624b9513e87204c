-- ===== src/RegionClient/Ledger.antt =====
-- Which calls wait, which have a result, and which are refused, when a call is sent.
use gohbase.Prelude.{
  All-map, Pairwise, ℕ, ◌+◌, ◌%◌, ◌^◌, ◌≤◌, ◌<◌, ◌≡◌, refl, sym, ap, subst, ◌∙◌, inl, inr, Bool,
  true, false, Option, none, some, List, [], ◌∷◌, ◌++◌, map, append-nil, arith, ◌==◌, ==_iff,
  Bool-cases, All,
}
use gohbase.Prelude.Permuted.{
  Permuted, cons, swap, trans, Permuted-refl, Permuted-sym, Permuted-middle,
}
use gohbase.RegionClient.{
  Rpc, Sent, Returned, find_rpc, delete_rpc, Client, register_rpc, unregister_rpc, fail_sent_rpcs,
  fail, fail_if_server, try_send,
}
use gohbase.RegionClient.Exceptions.{
  RpcError, server_error, retryable_error, not_serving_region_error, plain_error,
}

module _ {Message : Type 0} where
  abbrev pub rpcs : Sent Message → List (Rpc Message)
  rpcs = map (λ e. e.1)

  abbrev pub receivers : Returned Message → List (Rpc Message)
  receivers = map (λ r. r.0)

  -- The calls that wait have distinct numbers, the last of which is the client's.
  abbrev pub AreNumbered : Client Message → Type 0
  AreNumbered c = All (λ e. e.0 ≤ c.id) c.sent × Pairwise (λ e e'. e'.0 < e.0) c.sent

  All-delete_rpc {κ} :
      (P : ℕ × Rpc Message → Type κ) (id : ℕ) (sent : Sent Message)
      → All P sent
      → All P (delete_rpc Message id sent)
  unfolding delete_rpc
  All-delete_rpc P id [] h = tt
  All-delete_rpc P id ((i, rpc) ∷ sent) (hi, h) = elim (Bool-cases (i == id)) [
    | inl same ↦ simp same (All-delete_rpc P id sent h)
    | inr other ↦ simp other (hi, All-delete_rpc P id sent h)
  ]

  Pairwise-delete_rpc {κ} :
      (R : ℕ × Rpc Message → ℕ × Rpc Message → Type κ) (id : ℕ) (sent : Sent Message)
      → Pairwise R sent
      → Pairwise R (delete_rpc Message id sent)
  unfolding delete_rpc
  Pairwise-delete_rpc R id [] h = tt
  Pairwise-delete_rpc R id ((i, rpc) ∷ sent) (hi, h) = elim (Bool-cases (i == id)) [
    | inl same ↦ simp same (Pairwise-delete_rpc R id sent h)
    | inr other ↦
        simp other (All-delete_rpc (R (i, rpc)) id sent hi, Pairwise-delete_rpc R id sent h)
  ]

  delete_rpc-fresh :
      (id : ℕ) (sent : Sent Message) → All (λ e. e.0 < id) sent → delete_rpc Message id sent ≡ sent
  unfolding delete_rpc
  delete_rpc-fresh id [] h = refl
  delete_rpc-fresh id ((i, rpc) ∷ sent) (hi, h) = ground (arith, hi, delete_rpc-fresh id sent h)

  pub delete_rpc-found :
      (id : ℕ) (sent : Sent Message) (rpc : Rpc Message)
      → Pairwise (λ e e'. e'.0 < e.0) sent
      → find_rpc Message id sent ≡ some rpc
      → Permuted (rpcs sent) (rpc ∷ rpcs (delete_rpc Message id sent))
  unfolding delete_rpc find_rpc
  delete_rpc-found id [] rpc h found = absurd (ground (arith, found))
  delete_rpc-found id ((i, r) ∷ sent) rpc (each, h) found = elim (Bool-cases (i == id)) [
    | inl same ↦
        let number : i ≡ id = (==_iff i id).0 same in
        let receiver : r ≡ rpc = ground (arith, found, same) in
        let left : delete_rpc Message id ((i, r) ∷ sent) ≡ sent = ground (
          arith,
          same,
          delete_rpc-fresh id sent (subst (λ n. All (λ e. e.0 < n) sent) number each),
        ) in
        subst (Permuted (r ∷ rpcs sent))
          (ap (λ s. r ∷ rpcs s) (sym left)
            ∙ ap (λ x. x ∷ rpcs (delete_rpc Message id ((i, r) ∷ sent))) receiver)
          (Permuted-refl (r ∷ rpcs sent))
    | inr other ↦
        let found' : find_rpc Message id sent ≡ some rpc = ground (arith, found, other) in
        let left : delete_rpc Message id ((i, r) ∷ sent) ≡ (i, r) ∷ delete_rpc Message id sent =
          ground (arith, other) in
        subst (λ s. Permuted (r ∷ rpcs sent) (rpc ∷ rpcs s)) (sym left)
          (trans (cons r (delete_rpc-found id sent rpc h found')) (swap r rpc _))
  ]

  pub delete_rpc-missing :
      (id : ℕ) (sent : Sent Message)
      → find_rpc Message id sent ≡ none
      → delete_rpc Message id sent ≡ sent
  unfolding delete_rpc find_rpc
  delete_rpc-missing id [] missing = refl
  delete_rpc-missing id ((i, r) ∷ sent) missing =
      ground (arith, missing, delete_rpc-missing id sent)

  receivers-fail_sent_rpcs :
      (sent : Sent Message) → receivers (fail_sent_rpcs Message sent) ≡ rpcs sent
  unfolding fail_sent_rpcs
  receivers-fail_sent_rpcs [] = refl
  receivers-fail_sent_rpcs ((i, rpc) ∷ sent) = ap (◌∷◌ rpc) (receivers-fail_sent_rpcs sent)

  pub delete_rpc-AreNumbered :
      (id : ℕ) (c : Client Message)
      → AreNumbered c
      → AreNumbered (record c { sent = delete_rpc Message id c.sent })
  delete_rpc-AreNumbered id c (below, descending) = (
    All-delete_rpc (λ e. e.0 ≤ c.id) id c.sent below,
    Pairwise-delete_rpc (λ e e'. e'.0 < e.0) id c.sent descending,
  )

  -- After trySend, each call that waited before, and the new one, waits, has got a result, or is the
  -- new one whose error trySend returns.
  abbrev pub refused : Rpc Message → Option RpcError → List (Rpc Message)
  refused rpc none = []
  refused rpc (some e) = rpc ∷ []

  register_rpc-eq :
      (rpc : Rpc Message) (c : Client Message)
      → c.id + 1 < 2 ^ 32
      → AreNumbered c
      → ((register_rpc Message rpc c).0 ≡ c.id + 1)
        × ((register_rpc Message rpc c).1
            ≡ record c { id = c.id + 1; sent = (c.id + 1, rpc) ∷ c.sent })
  unfolding register_rpc
  register_rpc-eq rpc c short (below, descending) =
      let next : (c.id + 1) % 2 ^ 32 ≡ c.id + 1 = omega (arith, short) in
      let fresh : All (λ e. e.0 < c.id + 1) c.sent =
        All-map (λ e le. omega (arith, le)) c.sent below in
      let same : delete_rpc Message ((c.id + 1) % 2 ^ 32) c.sent ≡ c.sent =
        ap (λ n. delete_rpc Message n c.sent) next ∙ delete_rpc-fresh (c.id + 1) c.sent fresh in
      (next, λ i. record c { id = next i; sent = (next i, rpc) ∷ same i })

  abbrev pub Accounts :
      Rpc Message → Client Message → Client Message × (Returned Message × Option RpcError) → Type 0
  Accounts rpc c (c', (returned, e)) =
      AreNumbered c'
      × (c'.id ≡ c.id + 1)
      × Permuted (rpc ∷ rpcs c.sent) (rpcs c'.sent ++ (receivers returned ++ refused rpc e))

  module _ (rpc : Rpc Message) (c : Client Message) (short : c.id + 1 < 2 ^ 32)
      (numbered : AreNumbered c) where
    fresh : All (λ e. e.0 < c.id + 1) c.sent
    fresh = All-map (λ e le. omega (arith, le)) c.sent numbered.0

    abbrev registered : Client Message
    registered = record c { id = c.id + 1; sent = (c.id + 1, rpc) ∷ c.sent }

    register_rpc-registered : register_rpc Message rpc c ≡ (c.id + 1, registered)
    register_rpc-registered =
        let (number, client) = register_rpc-eq rpc c short numbered in λ i. (number i, client i)

    kept-Accounts : Accounts rpc c (registered, ([], none))
    kept-Accounts = (
      ((omega arith, All-map (λ e lt. omega (arith, lt)) c.sent fresh), (fresh, numbered.1)),
      refl,
      subst (Permuted (rpc ∷ rpcs c.sent)) (sym (append-nil (rpc ∷ rpcs c.sent)))
          (Permuted-refl (rpc ∷ rpcs c.sent)),
    )

    undone-Accounts : (e : RpcError) → Accounts rpc c (record c { id = c.id + 1 }, ([], some e))
    undone-Accounts e = (
      (All-map (λ e lt. omega (arith, lt)) c.sent fresh, numbered.1),
      refl,
      Permuted-sym (
          subst (λ s. Permuted (rpcs c.sent ++ (rpc ∷ [])) (rpc ∷ s)) (append-nil (rpcs c.sent))
            (Permuted-middle rpc (rpcs c.sent) [])),
    )

    failed-Accounts : Accounts rpc c (
      record c { id = c.id + 1; sent = []; is_closed = true },
      (fail_sent_rpcs Message registered.sent, none),
    )
    failed-Accounts = (
      (tt, tt),
      refl,
      subst (Permuted (rpc ∷ rpcs c.sent))
          (sym (
            append-nil (receivers (fail_sent_rpcs Message registered.sent))
            ∙ receivers-fail_sent_rpcs registered.sent))
          (Permuted-refl (rpc ∷ rpcs c.sent)),
    )

    unregister_rpc-registered :
        unregister_rpc Message (c.id + 1) registered ≡ (some rpc, record c { id = c.id + 1 })
    unfolding unregister_rpc find_rpc delete_rpc
    unregister_rpc-registered =
        let here : (c.id + 1 == c.id + 1) ≡ true = ground arith in
        let left : delete_rpc Message (c.id + 1) c.sent ≡ c.sent =
          delete_rpc-fresh (c.id + 1) c.sent fresh in
        ground (arith, here, left)

    abbrev outcome_of :
        RpcError
        → Option (Rpc Message) × Client Message
        → Returned Message
        → Client Message × (Returned Message × Option RpcError)
    outcome_of e (found, c') returned =
        (c', (returned, elim found [ some r ↦ some e | none ↦ none ]))

    refused-Accounts :
        (e : RpcError)
        → Accounts rpc c (
            outcome_of e
              (unregister_rpc Message (register_rpc Message rpc c).0 (register_rpc Message rpc c).1)
              [])
    refused-Accounts e =
        subst (λ p. Accounts rpc c (outcome_of e (unregister_rpc Message p.0 p.1) []))
          (sym register_rpc-registered)
          (subst (λ u. Accounts rpc c (outcome_of e u [])) (sym unregister_rpc-registered)
            (undone-Accounts e))

    closed-Accounts :
        (e : RpcError) (closed : Bool)
        → c.is_closed ≡ closed
        → Accounts rpc c (
            outcome_of e
              (unregister_rpc Message (c.id + 1) (fail Message registered).0)
              (fail Message registered).1)
    unfolding fail unregister_rpc find_rpc delete_rpc
    closed-Accounts e true closed =
        let failed : fail Message registered ≡ (registered, []) = ground (arith, closed) in
        subst (λ f. Accounts rpc c (outcome_of e (unregister_rpc Message (c.id + 1) f.0) f.1))
          (sym failed)
          (subst (λ u. Accounts rpc c (outcome_of e u [])) (sym unregister_rpc-registered)
            (undone-Accounts e))
    closed-Accounts e false open_yet =
        let failed : fail Message registered ≡ (
          record c { id = c.id + 1; sent = []; is_closed = true },
          fail_sent_rpcs Message registered.sent,
        ) =
          ground (arith, open_yet) in
        subst (λ f. Accounts rpc c (outcome_of e (unregister_rpc Message (c.id + 1) f.0) f.1))
          (sym failed) failed-Accounts

    -- trySend keeps account of the calls: each call that waited before, and the new one, waits, has
    -- got a result, or is the new one, whose error trySend returns; in the end, all of them are
    -- counted once. The calls are fewer than 2 ^ 32, and those that wait have distinct numbers, none
    -- above the client's.
    pub try_send-Accounts :
        (outcome : Option RpcError) → Accounts rpc c (try_send Message rpc outcome c)
    unfolding try_send fail_if_server
    try_send-Accounts none =
        subst (λ p. Accounts rpc c (p.1, ([], none))) (sym register_rpc-registered) kept-Accounts
    try_send-Accounts (some (retryable_error cause)) = refused-Accounts (retryable_error cause)
    try_send-Accounts (some (not_serving_region_error cause)) =
        refused-Accounts (not_serving_region_error cause)
    try_send-Accounts (some (plain_error cause)) = refused-Accounts (plain_error cause)
    try_send-Accounts (some (server_error cause)) =
        subst
          (λ p. Accounts rpc c (
            outcome_of (server_error cause) (unregister_rpc Message p.0 (fail Message p.1).0)
              (fail Message p.1).1))
          (sym register_rpc-registered) (closed-Accounts (server_error cause) c.is_closed refl)
