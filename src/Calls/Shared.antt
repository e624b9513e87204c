-- ===== src/Calls/Shared.antt =====
-- rpc.go (SendRPC): the actions on regions that are shared with other goroutines.
use gohbase.Prelude.{
  ℕ, zero, suc, inl, inr, Bool, true, false, Option, none, some, List, [], ◌∷◌, ◌==◌, if◌then◌else◌,
  Option-cases,
}
use gohbase.Backoff.{sleep_and_increase_backoff}
use gohbase.RegionClient.Exceptions.{
  RpcError, server_error, retryable_error, not_serving_region_error, plain_error,
}
use gohbase.Establish.{RegionAction, client_down, mark_and_reestablish, find_region}
use gohbase.Establish.Harmless.{
  IsHarmless, nothing-IsHarmless, append-IsHarmless, client_down-IsHarmless,
  mark_and_reestablish-IsHarmless, find_region-IsHarmless,
}
use gohbase.Calls.{
  Searched, in_cache, found, overtaken, failed_search, Got, got, not_got, on_search,
  get_region_for_rpc, max_find_region_tries, Wait, released, ended_context, ended_client,
  ChoiceRound, without_client, with_region, after_first_wait, on_got, choose_once, Chosen, chosen,
  refused, again, or_choose, choose, Reply, answered, ended, Try, handle_error, Sending, retry,
  on_answer, on_choice, send_rpc,
}

on_search-IsHarmless :
    (s : Searched) (rest : List RegionAction × Got)
    → IsHarmless rest.0
    → IsHarmless (on_search s rest).0
unfolding on_search
on_search-IsHarmless (in_cache r) rest h = nothing-IsHarmless
on_search-IsHarmless (found r overlaps) rest h = find_region-IsHarmless r true overlaps
on_search-IsHarmless (overtaken r) rest h =
    append-IsHarmless (find_region r false []) rest.0 (find_region-IsHarmless r false []) h
on_search-IsHarmless (failed_search e) rest h = nothing-IsHarmless

get_region_for_rpc-IsHarmless :
    (n i : ℕ) (search : ℕ → Searched) → IsHarmless (get_region_for_rpc n i search).0
unfolding get_region_for_rpc
get_region_for_rpc-IsHarmless zero i search = nothing-IsHarmless
get_region_for_rpc-IsHarmless (suc n) i search =
    on_search-IsHarmless (search i) (get_region_for_rpc n (suc i) search)
      (get_region_for_rpc-IsHarmless n (suc i) search)

with_region-IsHarmless : (r : ℕ) (t : ChoiceRound) (o : Option ℕ) → IsHarmless (with_region r t o).0
unfolding with_region without_client
with_region-IsHarmless r t none = mark_and_reestablish-IsHarmless r t.marked
with_region-IsHarmless r t (some k) = nothing-IsHarmless

after_first_wait-IsHarmless :
    (r : ℕ) (t : ChoiceRound) (w : Option Wait) → IsHarmless (after_first_wait r t w).0
unfolding after_first_wait
after_first_wait-IsHarmless r t none = with_region-IsHarmless r t t.client
after_first_wait-IsHarmless r t (some released) = with_region-IsHarmless r t t.client
after_first_wait-IsHarmless r t (some ended_context) = nothing-IsHarmless
after_first_wait-IsHarmless r t (some ended_client) = nothing-IsHarmless

on_got-IsHarmless : (t : ChoiceRound) (g : Got) → IsHarmless (on_got t g).0
unfolding on_got
on_got-IsHarmless t (not_got e) = nothing-IsHarmless
on_got-IsHarmless t (got r) = after_first_wait-IsHarmless r t t.waited

or_choose-IsHarmless :
    (once rest : List RegionAction × Chosen)
    → IsHarmless once.0
    → IsHarmless rest.0
    → IsHarmless (or_choose once rest).0
unfolding or_choose
or_choose-IsHarmless (actions, again) rest h k = append-IsHarmless actions rest.0 h k
or_choose-IsHarmless (actions, chosen r c) rest h k = h
or_choose-IsHarmless (actions, refused e) rest h k = h

choose-IsHarmless : (turns : List ChoiceRound) → IsHarmless (choose turns).0
unfolding choose choose_once
choose-IsHarmless [] = nothing-IsHarmless
choose-IsHarmless (t ∷ turns) =
    or_choose-IsHarmless (choose_once t) (choose turns)
      (append-IsHarmless (get_region_for_rpc max_find_region_tries 0 t.search).0 (on_got t _).0
        (get_region_for_rpc-IsHarmless max_find_region_tries 0 t.search) (on_got-IsHarmless t _))
      (choose-IsHarmless turns)

if-IsHarmless :
    (b : Bool) (xs ys : List RegionAction)
    → IsHarmless xs
    → IsHarmless ys
    → IsHarmless (if b then xs else ys)
if-IsHarmless true xs ys hx hy = hx
if-IsHarmless false xs ys hx hy = hy

handle_error-IsHarmless :
    (admin r : ℕ) (t : Try) (e : RpcError) → IsHarmless (handle_error admin r t e)
unfolding handle_error
handle_error-IsHarmless admin r t (not_serving_region_error cause) =
    mark_and_reestablish-IsHarmless r t.marked
handle_error-IsHarmless admin r t (server_error cause) =
    if-IsHarmless (r == admin) (mark_and_reestablish r t.marked) (client_down r t.marked t.down)
      (mark_and_reestablish-IsHarmless r t.marked) (client_down-IsHarmless r t.marked t.down)
handle_error-IsHarmless admin r t (retryable_error cause) = nothing-IsHarmless
handle_error-IsHarmless admin r t (plain_error cause) = nothing-IsHarmless

module _ (admin : ℕ) (t : Try) (next : ℕ → Sending) (later : (b : ℕ) → IsHarmless (next b).0) where
  retry-IsHarmless :
      (backoff : ℕ) (msg : Option ℕ) (e : RpcError) → IsHarmless (retry t backoff msg e next).0
  unfolding retry
  retry-IsHarmless backoff msg (server_error cause) = later backoff
  retry-IsHarmless backoff msg (not_serving_region_error cause) = later backoff
  retry-IsHarmless backoff msg (plain_error cause) = nothing-IsHarmless
  retry-IsHarmless backoff msg (retryable_error cause) =
      elim (Option-cases (sleep_and_increase_backoff t.ended_sleep backoff)) [
        | inl e ↦ rw (e, retry) nothing-IsHarmless
        | inr (backoff', e) ↦ rw (e, retry) (later backoff')
      ]

  on_answer-IsHarmless :
      (r backoff : ℕ) (a : Reply) → IsHarmless (on_answer admin r t backoff a next).0
  unfolding on_answer
  on_answer-IsHarmless r backoff ended = nothing-IsHarmless
  on_answer-IsHarmless r backoff (answered msg none) = nothing-IsHarmless
  on_answer-IsHarmless r backoff (answered msg (some e)) =
      append-IsHarmless (handle_error admin r t e) (retry t backoff msg e next).0
        (handle_error-IsHarmless admin r t e) (retry-IsHarmless backoff msg e)

  on_choice-IsHarmless :
      (backoff : ℕ) (choice : Chosen) → IsHarmless (on_choice admin t backoff choice next).0
  unfolding on_choice
  on_choice-IsHarmless backoff again = nothing-IsHarmless
  on_choice-IsHarmless backoff (refused e) = nothing-IsHarmless
  on_choice-IsHarmless backoff (chosen r k) = on_answer-IsHarmless r backoff t.answer

pub send_rpc-IsHarmless :
    (admin : ℕ) (tries : List Try) (backoff : ℕ) → IsHarmless (send_rpc admin tries backoff).0
unfolding send_rpc
send_rpc-IsHarmless admin [] backoff = nothing-IsHarmless
send_rpc-IsHarmless admin (t ∷ tries) backoff =
    append-IsHarmless (choose t.turns).0
      (on_choice admin t backoff (choose t.turns).1 (send_rpc admin tries)).0
      (choose-IsHarmless t.turns)
      (on_choice-IsHarmless admin t (send_rpc admin tries) (send_rpc-IsHarmless admin tries) backoff
        (choose t.turns).1)
