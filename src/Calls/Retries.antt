-- ===== src/Calls/Retries.antt =====
-- rpc.go (SendRPC): what a call comes to over all its tries.
use gohbase.Prelude.{
  ℕ, zero, suc, ◌≡◌, refl, sym, ap, subst, ◌∙◌, ◌⊎◌, inl, inr, Bool, true, false, Option, none,
  some, List, [], ◌∷◌, arith, if◌then◌else◌, Option-cases,
}
use gohbase.Backoff.{sleep_and_increase_backoff}
use gohbase.RegionClient.Exceptions.{
  RpcError, server_error, retryable_error, not_serving_region_error, plain_error,
}
use gohbase.Establish.{RegionAction}
use gohbase.Calls.{
  CallError, Searched, in_cache, found, overtaken, failed_search, Got, got, not_got, on_search,
  on_got, after_first_wait, or_choose, get_region_for_rpc, max_find_region_tries, Wait, released,
  ended_context, ended_client, ChoiceRound, after_wait, or_again, without_client, with_region,
  choose_once, context_error, failed, Chosen, chosen, refused, again, choose, Reply, answered,
  ended, Try, returns, Sending, retry, on_answer, on_choice, send_rpc,
}

-- A result that SendRPC may return: no error of a class after which it tries again.
unfoldable pub is_final : Option CallError → Bool
is_final (some (failed (plain_error cause))) = true
is_final (some (failed (server_error cause))) = false
is_final (some (failed (retryable_error cause))) = false
is_final (some (failed (not_serving_region_error cause))) = false
is_final e = true

-- What one try of a call gives to its caller: the error of the search for a client, the result on the
-- call's channel, or the error of a context that ended.
pub data Gives (t : Try) (msg : Option ℕ) (e : Option CallError) : Type 0 where
  no_client :
      (c : CallError) → (choose t.turns).1 ≡ refused c → msg ≡ none → e ≡ some c → Gives t msg e
  result : t.answer ≡ answered msg none → e ≡ none → Gives t msg e
  error : (c : RpcError) → t.answer ≡ answered msg (some c) → e ≡ some (failed c) → Gives t msg e
  ended_wait : t.answer ≡ ended → msg ≡ none → e ≡ some context_error → Gives t msg e
  ended_sleep :
      (c : RpcError)
      → t.answer ≡ answered msg (some c)
      → t.ended_sleep ≡ true
      → e ≡ some context_error
      → Gives t msg e

abbrev pub SomeGives : List Try → Option ℕ → Option CallError → Type 0
SomeGives [] msg e = ⊥
SomeGives (t ∷ tries) msg e = Gives t msg e ⊎ SomeGives tries msg e

-- The errors of the search for a client are final.
abbrev IsFinalGot : Got → Type 0
IsFinalGot (got r) = Unit {0}
IsFinalGot (not_got e) = is_final (some e) ≡ true

abbrev IsFinalChoice : Chosen → Type 0
IsFinalChoice (chosen r k) = Unit {0}
IsFinalChoice (refused e) = is_final (some e) ≡ true
IsFinalChoice again = Unit {0}

on_search-final :
    (s : Searched) (rest : List RegionAction × Got)
    → IsFinalGot rest.1
    → IsFinalGot (on_search s rest).1
unfolding on_search is_final
on_search-final (in_cache r) rest h = tt
on_search-final (found r overlaps) rest h = tt
on_search-final (overtaken r) rest h = h
on_search-final (failed_search e) rest h = refl

get_region_for_rpc-final :
    (n i : ℕ) (search : ℕ → Searched) → IsFinalGot (get_region_for_rpc n i search).1
unfolding get_region_for_rpc is_final
get_region_for_rpc-final zero i search = refl
get_region_for_rpc-final (suc n) i search =
    on_search-final (search i) (get_region_for_rpc n (suc i) search)
      (get_region_for_rpc-final n (suc i) search)

or_again-final : (r : ℕ) (o : Option ℕ) → IsFinalChoice (or_again r o)
or_again-final r none = tt
or_again-final r (some k) = tt

if-final :
    (b : Bool) (x y : Chosen)
    → IsFinalChoice x
    → IsFinalChoice y
    → IsFinalChoice (if b then x else y)
if-final true x y hx hy = hx
if-final false x y hx hy = hy

after_wait-final :
    (w : Option Wait) (next : Chosen) → IsFinalChoice next → IsFinalChoice (after_wait w next)
unfolding is_final
after_wait-final none next h = h
after_wait-final (some released) next h = h
after_wait-final (some ended_context) next h = refl
after_wait-final (some ended_client) next h = refl

with_region-final : (r : ℕ) (t : ChoiceRound) (o : Option ℕ) → IsFinalChoice (with_region r t o).1
unfolding with_region without_client
with_region-final r t none =
    after_wait-final t.waited_again (if t.is_dead then again else or_again r t.client_again)
      (if-final t.is_dead again (or_again r t.client_again) tt (or_again-final r t.client_again))
with_region-final r t (some k) = tt

on_got-final : (t : ChoiceRound) (g : Got) → IsFinalGot g → IsFinalChoice (on_got t g).1
unfolding on_got after_first_wait is_final
on_got-final t (not_got e) h = h
on_got-final t (got r) h = by_wait t.waited
  where
    by_wait : (w : Option Wait) → IsFinalChoice (after_first_wait r t w).1
    by_wait none = with_region-final r t t.client
    by_wait (some released) = with_region-final r t t.client
    by_wait (some ended_context) = refl
    by_wait (some ended_client) = refl

or_choose-final :
    (once rest : List RegionAction × Chosen)
    → IsFinalChoice once.1
    → IsFinalChoice rest.1
    → IsFinalChoice (or_choose once rest).1
unfolding or_choose
or_choose-final (actions, again) rest h k = k
or_choose-final (actions, chosen r c) rest h k = tt
or_choose-final (actions, refused e) rest h k = h

choose-final : (turns : List ChoiceRound) → IsFinalChoice (choose turns).1
unfolding choose choose_once
choose-final [] = tt
choose-final (t ∷ turns) =
    or_choose-final (choose_once t) (choose turns)
      (on_got-final t _ (get_region_for_rpc-final max_find_region_tries 0 t.search))
      (choose-final turns)

sleep-none :
    (backoff : ℕ) (done : Bool) → sleep_and_increase_backoff done backoff ≡ none → done ≡ true
unfolding sleep_and_increase_backoff
sleep-none backoff done h = ground (arith, h)

returns-injective :
    {m msg : Option ℕ} {c e : Option CallError} → returns m c ≡ returns msg e → (m ≡ msg) × (c ≡ e)
returns-injective h = (ground (arith, h), ground (arith, h))

module _ (admin : ℕ) (t : Try) (next : ℕ → Sending) (Later : Type 0) (msg : Option ℕ)
    (e : Option CallError)
    (later : (b : ℕ) → (next b).1 ≡ returns msg e → (is_final e ≡ true) × Later) where
  retry-Gives :
      (backoff : ℕ) (m : Option ℕ) (c : RpcError)
      → t.answer ≡ answered m (some c)
      → (retry t backoff m c next).1 ≡ returns msg e
      → (is_final e ≡ true) × (Gives t msg e ⊎ Later)
  unfolding retry is_final
  retry-Gives backoff m (server_error cause) at h =
      let (final, given) = later backoff h in (final, inr given)
  retry-Gives backoff m (not_serving_region_error cause) at h =
      let (final, given) = later backoff h in (final, inr given)
  retry-Gives backoff m (plain_error cause) at h =
      let (same, err_same) = returns-injective h in
      (
        subst (λ x. is_final x ≡ true) err_same refl,
        inl (
            error (plain_error cause) (at ∙ ap (λ x. answered x (some (plain_error cause))) same)
              (sym err_same)),
      )
  retry-Gives backoff m (retryable_error cause) at h =
      elim (Option-cases (sleep_and_increase_backoff t.ended_sleep backoff)) [
        | inr (backoff', e') ↦
            let (final, given) = later backoff' (sym (slept backoff' e') ∙ h) in (final, inr given)
        | inl e' ↦
            let (same, err_same) = returns-injective (sym (rw (e', retry) refl) ∙ h) in
            (
              subst (λ x. is_final x ≡ true) err_same refl,
              inl (
                  ended_sleep (retryable_error cause)
                    (at ∙ ap (λ x. answered x (some (retryable_error cause))) same)
                    (sleep-none backoff t.ended_sleep e') (sym err_same)),
            )
      ]
    where
      slept :
          (b : ℕ)
          → sleep_and_increase_backoff t.ended_sleep backoff ≡ some b
          → (retry t backoff m (retryable_error cause) next).1 ≡ (next b).1
      slept b e' = rw (e', retry) refl

  on_answer-Gives :
      (r backoff : ℕ) (a : Reply)
      → t.answer ≡ a
      → (on_answer admin r t backoff a next).1 ≡ returns msg e
      → (is_final e ≡ true) × (Gives t msg e ⊎ Later)
  unfolding on_answer is_final
  on_answer-Gives r backoff ended at h =
      let (same, err_same) = returns-injective h in
      (subst (λ x. is_final x ≡ true) err_same refl, inl (ended_wait at (sym same) (sym err_same)))
  on_answer-Gives r backoff (answered m none) at h =
      let (same, err_same) = returns-injective h in
      (
        subst (λ x. is_final x ≡ true) err_same refl,
        inl (result (at ∙ ap (λ x. answered x none) same) (sym err_same)),
      )
  on_answer-Gives r backoff (answered m (some c)) at h = retry-Gives backoff m c at h

  on_choice-Gives :
      (backoff : ℕ) (choice : Chosen)
      → (choose t.turns).1 ≡ choice
      → (on_choice admin t backoff choice next).1 ≡ returns msg e
      → (is_final e ≡ true) × (Gives t msg e ⊎ Later)
  unfolding on_choice on_answer is_final
  on_choice-Gives backoff again at h = cc
  on_choice-Gives backoff (refused c) at h =
      let (same, err_same) = returns-injective h in
      (
        subst (λ x. is_final x ≡ true) err_same (subst IsFinalChoice at (choose-final t.turns)),
        inl (no_client c at (sym same) (sym err_same)),
      )
  on_choice-Gives backoff (chosen r k) at h = on_answer-Gives r backoff t.answer refl h

-- What SendRPC returns, if it does: the result of one of its tries, the error with which it looked for a
-- client, or the error of a context that ended; and never an error of the classes after which it tries
-- again, ServerError, NotServingRegionError and RetryableError.
pub send_rpc-Gives :
    (admin : ℕ) (tries : List Try) (backoff : ℕ) (msg : Option ℕ) (e : Option CallError)
    → (send_rpc admin tries backoff).1 ≡ returns msg e
    → (is_final e ≡ true) × SomeGives tries msg e
unfolding send_rpc
send_rpc-Gives admin [] backoff msg e h = cc
send_rpc-Gives admin (t ∷ tries) backoff msg e h =
    on_choice-Gives admin t (send_rpc admin tries) (SomeGives tries msg e) msg e
      (λ b. send_rpc-Gives admin tries b msg e) backoff (choose t.turns).1 refl h
