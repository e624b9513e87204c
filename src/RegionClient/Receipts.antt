-- ===== src/RegionClient/Receipts.antt =====
-- What becomes of the calls that wait when a response is received.
use gohbase.Prelude.{
  ℕ, ◌≡◌, refl, sym, subst, inl, inr, true, Option, none, some, List, [], ◌∷◌, ◌++◌, append-nil,
  Bool-cases, Option-cases, All, Result, ok, err, panics,
}
use gohbase.Prelude.Permuted.{Permuted, trans, Permuted-refl, Permuted-sym, Permuted-middle}
use gohbase.Bytes.{Bytes}
use gohbase.Compressor.{Codec}
use gohbase.RegionClient.{
  Wire, Rpc, find_rpc, delete_rpc, Client, unregister_rpc, Received, deliver, receive,
  receive_named, receive_header, read_response, Header,
}
use gohbase.RegionClient.Exceptions.{
  missing_call_id, bad_header, unread, unexpected_call_id, RpcError, server_error,
}
use gohbase.RegionClient.Ledger.{
  rpcs, receivers, AreNumbered, delete_rpc-found, delete_rpc-missing, delete_rpc-AreNumbered,
}

-- A property of a result, if there is one.
abbrev pub Yields : {A : Type 0} → (A → Type 0) → Result (Unit {0}) A → Type 0
Yields P (ok a) = P a
Yields P (err e) = Unit {0}
Yields P panics = Unit {0}

module _ {Message : Type 0} where
  -- What receive leaves of the calls that wait.
  abbrev pub Keeps : Client Message → Received Message → Type 0
  Keeps c r =
      AreNumbered r.client
      × (r.client.id ≡ c.id)
      × ((given_up : List (Rpc Message)) × All (λ rpc. rpc.is_done ≡ true) given_up
          × Permuted (rpcs c.sent) (rpcs r.client.sent ++ (receivers r.returned ++ given_up)))

  fails-Keeps :
      (c : Client Message) (e : Option RpcError) (rest : Bytes)
      → AreNumbered c
      → Keeps c (record { client = c; returned = []; error = e; rest = rest })
  fails-Keeps c e rest numbered = (
    numbered,
    refl,
    (
      [],
      tt,
      subst (Permuted (rpcs c.sent)) (sym (append-nil (rpcs c.sent))) (Permuted-refl (rpcs c.sent)),
    ),
  )

  deliver-Keeps :
      (c : Client Message) (id : ℕ) (rpc : Rpc Message) (answered : Result RpcError Message)
      (rest : Bytes)
      → AreNumbered c
      → find_rpc Message id c.sent ≡ some rpc
      → Yields (Keeps c) (
          deliver Message (record c { sent = delete_rpc Message id c.sent }) true rpc answered rest)
  unfolding deliver
  deliver-Keeps c id rpc answered rest numbered found =
      let left = rpcs (delete_rpc Message id c.sent) in
      let one_less : Permuted (rpcs c.sent) (left ++ (rpc ∷ [])) =
        trans (delete_rpc-found id c.sent rpc numbered.1 found) (
          Permuted-sym (
            subst (λ s. Permuted (left ++ (rpc ∷ [])) (rpc ∷ s)) (append-nil left)
              (Permuted-middle rpc left []))) in
      elim (Bool-cases rpc.is_done) [
        | inl done ↦
            rw done (delete_rpc-AreNumbered id c numbered, refl, (rpc ∷ [], (done, tt), one_less))
        | inr waits ↦
            rw waits (
              answered_one answered
                (delete_rpc-AreNumbered id c numbered, refl, ([], tt, one_less)))
      ]
    where
      answered_one :
          (answered : Result RpcError Message)
          → AreNumbered (record c { sent = delete_rpc Message id c.sent })
            × (c.id ≡ c.id)
            × ((given_up : List (Rpc Message)) × All (λ rpc. rpc.is_done ≡ true) given_up
                × Permuted (rpcs c.sent) (rpcs (delete_rpc Message id c.sent) ++ (rpc ∷ given_up)))
          → Yields (Keeps c) (elim answered [
            | ok msg ↦ ok (record {
              client = record c { sent = delete_rpc Message id c.sent };
              returned = (rpc, ok msg) ∷ [];
              error = none;
              rest = rest;
            })
            | err e ↦ ok (record {
              client = record c { sent = delete_rpc Message id c.sent };
              returned = (rpc, err e) ∷ [];
              error = some e;
              rest = rest;
            })
            | panics ↦ panics
          ])
      answered_one (ok msg) kept = kept
      answered_one (err e) kept = kept
      answered_one panics kept = tt

  receive_named-Keeps :
      (wire : Wire) (codec : Option Codec) (spare : Bytes) (c : Client Message) (b rest : Bytes)
      (header_len : ℕ) (header : Header) (id : Option ℕ)
      → AreNumbered c
      → Yields (Keeps c) (receive_named Message wire codec spare true c b rest header_len header id)
  unfolding receive_named unregister_rpc
  receive_named-Keeps wire codec spare c b rest header_len header none numbered =
      fails-Keeps c (some (server_error missing_call_id)) rest numbered
  receive_named-Keeps wire codec spare c b rest header_len header (some id) numbered =
      elim (Option-cases (find_rpc Message id c.sent)) [
        | inl missing ↦
            let same : c ≡ record c { sent = delete_rpc Message id c.sent } =
              λ i. record c { sent = sym (delete_rpc-missing id c.sent missing) i } in
            rw (missing, receive_named)
              (subst
                (λ c'. Keeps c (record {
                  client = c';
                  returned = [];
                  error = some (server_error (unexpected_call_id id));
                  rest = rest;
                }))
                same (fails-Keeps c (some (server_error (unexpected_call_id id))) rest numbered))
        | inr (rpc, found) ↦
            rw (found, receive_named) (deliver-Keeps c id rpc _ rest numbered found)
      ]

  receive_header-Keeps :
      (wire : Wire) (codec : Option Codec) (spare : Bytes) (c : Client Message) (b rest : Bytes)
      (frame : Option (Bytes × ℕ))
      → AreNumbered c
      → Yields (Keeps c) (receive_header Message wire codec spare true c b rest frame)
  unfolding receive_header
  receive_header-Keeps wire codec spare c b rest none numbered =
      fails-Keeps c (some (server_error bad_header)) rest numbered
  receive_header-Keeps wire codec spare c b rest (some (header_bytes, header_len)) numbered =
      elim (Option-cases (wire.unmarshal_header header_bytes)) [
        | inl garbled ↦
            rw (garbled, receive_header)
              (fails-Keeps c (some (server_error bad_header)) rest numbered)
        | inr (header, decoded) ↦
            rw (decoded, receive_header)
              (receive_named-Keeps wire codec spare c b rest header_len header header.call_id
                numbered)
      ]

  -- receive keeps account of the calls: where it does not panic, each call that waited before waits,
  -- has got a result, or has a context that is done; in the end, all of them are counted once. The
  -- deadline can be set, and the calls that wait have distinct numbers, none above the client's.
  pub receive-Keeps :
      (wire : Wire) (codec : Option Codec) (spare stream : Bytes) (c : Client Message)
      → AreNumbered c
      → Yields (Keeps c) (receive Message wire codec spare true c stream)
  unfolding receive
  receive-Keeps wire codec spare stream c numbered = elim (Option-cases (read_response stream)) [
    | inl short ↦ rw (short, receive) (fails-Keeps c (some (server_error unread)) [] numbered)
    | inr ((b, rest), found) ↦
        rw (found, receive)
          (receive_header-Keeps wire codec spare c b rest (wire.consume_bytes b) numbered)
  ]
