-- ===== src/Multi/Answers.antt =====
-- region/multi.go (returnResults): the results of one region, and the calls that they are for.
use gohbase.Prelude.{
  ℕ, suc, ◌+◌, ◌%◌, ◌^◌, ◌<◌, ◌≡◌, refl, sym, ap, subst, ◌∙◌, ◌≢◌, inl, inr, Bool, Option, none,
  some, List, [], ◌∷◌, ◌++◌, map, append_assoc, arith, ◌==◌, ==_iff, Bool-cases, Option-cases,
  length, get_elem?, All, length-append, ok, Result, err, panics, ◌>>=◌,
}
use gohbase.Bytes.{Bytes}
use gohbase.Multi.{
  Message, unsupported_response, Call, Action, RegionAction, encode_call, Exception, ActionResult,
  RegionResult, RpcResult, response_message, from_exception, send_all, get, answer_call,
  answer_calls, Sent, failure,
}
use gohbase.Prelude.Permuted.{Permuted, Permuted-sym, All-Permuted, map-Permuted}
use gohbase.Multi.Groups.{Entry, live, mark, action_of, members}

-- A server: an exception for a whole region, or for each action an exception or a result, in an
-- order of its own.
pub record Server : Type 0 where
  pub region_exception : ℕ → Option Exception
  pub act : ℕ → Message → Option Exception × Option Bytes
  pub arrange : ℕ → List ActionResult → List ActionResult

pub serve_action : Server → ℕ → Action → ActionResult
serve_action s r a = record {
  index = a.index;
  exception = (s.act r a.message).0;
  result = (s.act r a.message).1;
}

unfoldable pub serve_region : Server → RegionAction → RegionResult
serve_region s a = elim (s.region_exception a.region) [
  | some e ↦ record { exception = some e; results = [] }
  | none ↦ record {
    exception = none;
    results = s.arrange a.region (map (serve_action s a.region) a.actions);
  }
]

-- The server has one result for each action of a region.
abbrev pub AnswersEach : Server → Type 0
AnswersEach s = (r : ℕ) (rs : List ActionResult) → Permuted rs (s.arrange r rs)

-- What a call is to get.
pub expected : Server → Bool → Call → ℕ × RpcResult
expected s is_cb c = elim (s.region_exception c.region) [
  | some e ↦ (c.id, from_exception e)
  | none ↦ elim ((s.act c.region (encode_call is_cb c).0).0) [
    | some e ↦ (c.id, from_exception e)
    | none ↦ (c.id, response_message c.response (s.act c.region (encode_call is_cb c).0).1)
  ]
]

get_elem?-middle :
    (before : List (Option Call)) (x : Option Call) (rest : List (Option Call))
    → get_elem? (before ++ (x ∷ rest)) (length before) ≡ some x
get_elem?-middle [] x rest = refl
get_elem?-middle (y ∷ before) x rest = get_elem?-middle before x rest

get-at :
    (calls : List (Option Call)) (i : ℕ) (c : Call)
    → get_elem? calls i ≡ some (some c)
    → i + 1 < 2 ^ 32
    → get calls ((i + 1) % 2 ^ 32) ≡ ok c
unfolding get
get-at calls i c at short =
    let e : (i + 1) % 2 ^ 32 ≡ suc i = omega arith in rw e (ground (arith, at))

-- What a result is turned into.
dispatch : List (Option Call) → ActionResult → Result (Unit {0}) (ℕ × RpcResult)
dispatch calls a = get calls a.index >>= λ c. answer_call c a

answer_or : Result (Unit {0}) (ℕ × RpcResult) → ℕ × RpcResult
answer_or (ok x) = x
answer_or (err e) = (0, failure 0)
answer_or panics = (0, failure 0)

module _ (s : Server) (is_cb : Bool) where
  abbrev pub wanted : Entry → ℕ × RpcResult
  wanted x = expected s is_cb x.1

  -- Where an entry is found in a batch, and what its call can take.
  abbrev pub IsAt : List (Option Call) → Entry → Type 0
  IsAt calls x =
      (get_elem? calls x.0 ≡ some (some x.1))
      × (x.0 + 1 < 2 ^ 32)
      × (x.1.response ≢ unsupported_response)

  pub live-IsAt :
      (i : ℕ) (before : List (Option Call)) (cs : List Call) (calls : List (Option Call))
      → i ≡ length before
      → calls ≡ before ++ map mark cs
      → i + length cs < 2 ^ 32
      → All (λ c. c.response ≢ unsupported_response) cs
      → All (IsAt calls) (live i cs)
  unfolding live
  live-IsAt i before [] calls len whole short fine = tt
  live-IsAt i before (c ∷ cs) calls len whole short (fine, all_fine) =
      let rest : All (IsAt calls) (live (suc i) cs) =
        live-IsAt (suc i) (before ++ (mark c ∷ [])) cs calls
          (omega (arith, length-append before (mark c ∷ [])))
          (whole ∙ sym (append_assoc before (mark c ∷ []) (map mark cs))) (omega arith) all_fine in
      elim (Bool-cases c.expired) [
        | inl gone ↦ simp gone rest
        | inr alive ↦
            let at : get_elem? calls i ≡ some (some c) =
              ground (arith, get_elem?-middle before (mark c) (map mark cs)) in
            simp alive ((at, omega arith, fine), rest)
      ]

  pub members-All :
      (P : Entry → Type 0) (r : ℕ) (xs : List Entry)
      → All P xs
      → All (λ x. P x × (x.1.region ≡ r)) (members r xs)
  unfolding members
  members-All P r [] h = tt
  members-All P r (x ∷ xs) (here, there) = elim (Bool-cases (x.1.region == r)) [
    | inl same ↦
        let e : x.1.region ≡ r = ground arith in simp same ((here, e), members-All P r xs there)
    | inr other ↦ simp other (members-All P r xs there)
  ]

  answer_call-expected :
      (c : Call) (i : ℕ)
      → s.region_exception c.region ≡ none
      → c.response ≢ unsupported_response
      → answer_call c (serve_action s c.region (action_of is_cb (i, c))) ≡ ok (expected s is_cb c)
  unfolding answer_call serve_action action_of expected
  answer_call-expected c i fine supported =
      elim (Option-cases ((s.act c.region (encode_call is_cb c).0).0)) [
        | inl ok_action ↦ ground arith
        | inr (e, bad_action) ↦ ground arith
      ]

  -- What the call that a result is for gets, wherever the result comes.
  IsAnswer : List (Option Call) → ActionResult → Type 0
  IsAnswer calls a = dispatch calls a ≡ ok (answer_or (dispatch calls a))

  answer_calls-IsAnswer :
      (calls : List (Option Call)) (rs : List ActionResult)
      → All (IsAnswer calls) rs
      → answer_calls calls rs ≡ ok (map (λ a. answer_or (dispatch calls a)) rs)
  unfolding answer_calls dispatch IsAnswer
  answer_calls-IsAnswer calls [] h = refl
  answer_calls-IsAnswer calls (a ∷ rs) (here, there) =
      ground (arith, here, answer_calls-IsAnswer calls rs there)

  served-IsAnswer :
      (calls : List (Option Call)) (r : ℕ) (xs : List Entry)
      → s.region_exception r ≡ none
      → All (λ x. IsAt calls x × (x.1.region ≡ r)) xs
      → All (IsAnswer calls) (map (serve_action s r) (map (action_of is_cb) xs))
        × (map
              (λ a. answer_or (dispatch calls a))
              (map (serve_action s r) (map (action_of is_cb) xs))
            ≡ map wanted xs)
  unfolding dispatch IsAnswer answer_or
  served-IsAnswer calls r [] fine h = (tt, refl)
  served-IsAnswer calls r ((i, c) ∷ xs) fine (((at, short, supported), same), there) =
      let found : get calls (serve_action s r (action_of is_cb (i, c))).index ≡ ok c =
        unfold serve_action action_of in get-at calls i c at short in
      let answer : answer_call c (serve_action s r (action_of is_cb (i, c))) ≡ ok (wanted (i, c)) =
        subst (λ r. answer_call c (serve_action s r (action_of is_cb (i, c))) ≡ ok (wanted (i, c)))
          same (answer_call-expected c i (ap s.region_exception same ∙ fine) supported) in
      let (rest, values) = served-IsAnswer calls r xs fine there in
      rw (found, answer, values) ((refl, rest), refl)

  -- The results of a region, in whatever order they come.
  pub answer_calls-wanted :
      (calls : List (Option Call)) (r : ℕ) (xs : List Entry)
      → AnswersEach s
      → s.region_exception r ≡ none
      → All (λ x. IsAt calls x × (x.1.region ≡ r)) xs
      → (sent : Sent) × (answer_calls calls
            (s.arrange r (map (serve_action s r) (map (action_of is_cb) xs)))
          ≡ ok sent)
        × Permuted sent (map wanted xs)
  answer_calls-wanted calls r xs each fine h =
      let served = map (serve_action s r) (map (action_of is_cb) xs) in
      let (answers, values) = served-IsAnswer calls r xs fine h in
      (
        map (λ a. answer_or (dispatch calls a)) (s.arrange r served),
        answer_calls-IsAnswer calls (s.arrange r served)
            (All-Permuted (IsAnswer calls) (each r served) answers),
        subst (Permuted (map (λ a. answer_or (dispatch calls a)) (s.arrange r served))) values
            (map-Permuted (λ a. answer_or (dispatch calls a)) (Permuted-sym (each r served))),
      )

  pub send_all-wanted :
      (r i : ℕ) (e : Exception) (cs : List Call)
      → s.region_exception r ≡ some e
      → send_all (λ c. c.region == r) (from_exception e) (map mark cs)
        ≡ map wanted (members r (live i cs))
  unfolding send_all members live expected
  send_all-wanted r i e [] failed_region = refl
  send_all-wanted r i e (c ∷ cs) failed_region =
      let rest = send_all-wanted r (suc i) e cs failed_region in
      elim (Bool-cases c.expired) [
        | inl gone ↦ simp gone rest
        | inr alive ↦ elim (Bool-cases (c.region == r)) [
          | inl same ↦
              let e₁ : s.region_exception c.region ≡ some e =
                ap s.region_exception ((==_iff c.region r).0 same) ∙ failed_region in
              ground (arith, rest)
          | inr other ↦ ground (arith, rest)
        ]
      ]
