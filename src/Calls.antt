-- ===== src/Calls.antt =====
-- rpc.go (SendRPC, getRegionForRpc, getRegionAndClientForRPC, sendBlocking, sendRPCToRegionClient,
-- handleResultError): how one call is sent, and sent again. What the lookups, the channels and the region's fields
-- give in each try is an argument; what is done to shared regions is recorded as in Establish.
pub mod Retries
pub mod Shared
mod Examples
use gohbase.Prelude.{
  ℕ, zero, suc, ◌+◌, Bool, true, false, Option, none, some, List, [], ◌∷◌, ◌++◌, ◌==◌,
  if◌then◌else◌,
}
use gohbase.Backoff.{sleep_and_increase_backoff}
use gohbase.RegionClient.Exceptions.{
  RpcError, server_error, retryable_error, not_serving_region_error, plain_error,
}
use gohbase.Establish.{RegionAction, client_down, mark_and_reestablish, find_region}

pub data CallError : Type 0 where
  cannot_find_region context_error client_closed : CallError
  lookup_failed : ℕ → CallError
  failed : RpcError → CallError

-- One try to find the region of a call: it is in the cache, or findRegion puts it there and replaces
-- the regions that overlap, or it finds that the cache has a region by then, or it fails.
pub data Searched : Type 0 where
  in_cache : ℕ → Searched
  found : ℕ → List ℕ → Searched
  overtaken : ℕ → Searched
  failed_search : ℕ → Searched

abbrev pub max_find_region_tries : ℕ
max_find_region_tries = 10

pub data Got : Type 0 where
  got : ℕ → Got
  not_got : CallError → Got

-- What a search gives; `rest` are the tries that follow.
pub on_search : Searched → List RegionAction × Got → List RegionAction × Got
on_search (in_cache r) rest = ([], got r)
on_search (found r overlaps) rest = (find_region r true overlaps, got r)
on_search (overtaken r) rest = (find_region r false [] ++ rest.0, rest.1)
on_search (failed_search e) rest = ([], not_got (lookup_failed e))

pub get_region_for_rpc : ℕ → ℕ → (ℕ → Searched) → List RegionAction × Got
get_region_for_rpc zero i search = ([], not_got cannot_find_region)
get_region_for_rpc (suc n) i search =
    let rest = get_region_for_rpc n (suc i) search in on_search (search i) rest

-- How the wait for an unavailable region ends.
pub data Wait : Type 0 where
  released ended_context ended_client : Wait

-- One round of getRegionAndClientForRPC: the waits are none where the region has no channel.
pub record ChoiceRound : Type 0 where
  pub search : ℕ → Searched
  pub waited : Option Wait
  pub client : Option ℕ
  pub marked : Bool
  pub waited_again : Option Wait
  pub is_dead : Bool
  pub client_again : Option ℕ

pub data Chosen : Type 0 where
  chosen : ℕ → ℕ → Chosen
  refused : CallError → Chosen
  again : Chosen

abbrev pub after_wait : Option Wait → Chosen → Chosen
after_wait none next = next
after_wait (some released) next = next
after_wait (some ended_context) next = refused context_error
after_wait (some ended_client) next = refused client_closed

abbrev pub or_again : ℕ → Option ℕ → Chosen
or_again r none = again
or_again r (some k) = chosen r k

-- A region without a client is marked, and waited for.
pub without_client : ℕ → ChoiceRound → List RegionAction × Chosen
without_client r t = (
  mark_and_reestablish r t.marked,
  after_wait t.waited_again (if t.is_dead then again else or_again r t.client_again),
)

pub with_region : ℕ → ChoiceRound → Option ℕ → List RegionAction × Chosen
with_region r t none = without_client r t
with_region r t (some k) = ([], chosen r k)

pub after_first_wait : ℕ → ChoiceRound → Option Wait → List RegionAction × Chosen
after_first_wait r t none = with_region r t t.client
after_first_wait r t (some released) = with_region r t t.client
after_first_wait r t (some ended_context) = ([], refused context_error)
after_first_wait r t (some ended_client) = ([], refused client_closed)

pub on_got : ChoiceRound → Got → List RegionAction × Chosen
on_got t (not_got e) = ([], refused e)
on_got t (got r) = after_first_wait r t t.waited

pub choose_once : ChoiceRound → List RegionAction × Chosen
choose_once t =
    let (actions, result) = get_region_for_rpc max_find_region_tries 0 t.search in
    (actions ++ (on_got t result).0, (on_got t result).1)

-- The next rounds follow only where a round says so.
pub or_choose : List RegionAction × Chosen → List RegionAction × Chosen → List RegionAction × Chosen
or_choose (actions, again) rest = (actions ++ rest.0, rest.1)
or_choose (actions, chosen r k) rest = (actions, chosen r k)
or_choose (actions, refused e) rest = (actions, refused e)

-- getRegionAndClientForRPC; `again` where it waits for its next round.
pub choose : List ChoiceRound → List RegionAction × Chosen
choose [] = ([], again)
choose (t ∷ turns) = let rest = choose turns in or_choose (choose_once t) rest

-- What sendBlocking gives: the result on the channel, with its message and error, or the end of the
-- context.
pub data Reply : Type 0 where
  answered : Option ℕ → Option RpcError → Reply
  ended : Reply

-- One round of SendRPC; `marked` and `down` are what clientDown and MarkUnavailable return to it.
pub record Try : Type 0 where
  pub turns : List ChoiceRound
  pub answer : Reply
  pub marked : Bool
  pub down : List (ℕ × Bool)
  pub ended_sleep : Bool

-- The actions of handleResultError.
pub handle_error : ℕ → ℕ → Try → RpcError → List RegionAction
handle_error admin r t (not_serving_region_error cause) = mark_and_reestablish r t.marked
handle_error admin r t (server_error cause) =
    if r == admin then mark_and_reestablish r t.marked else client_down r t.marked t.down
handle_error admin r t (retryable_error cause) = []
handle_error admin r t (plain_error cause) = []

pub data Returns : Type 0 where
  returns : Option ℕ → Option CallError → Returns
  -- SendRPC waits in its next round
  waits : Returns

abbrev pub Sending : Type 0
Sending = List RegionAction × Returns

-- The switch over the error's class; `next` is the next round for a backoff.
pub retry : Try → ℕ → Option ℕ → RpcError → (ℕ → Sending) → Sending
retry t backoff msg (retryable_error cause) next =
    elim (sleep_and_increase_backoff t.ended_sleep backoff) [
      | none ↦ ([], returns msg (some context_error))
      | some backoff' ↦ next backoff'
    ]
retry t backoff msg (server_error cause) next = next backoff
retry t backoff msg (not_serving_region_error cause) next = next backoff
retry t backoff msg (plain_error cause) next = ([], returns msg (some (failed (plain_error cause))))

abbrev pub then_do : List RegionAction → Sending → Sending
then_do actions s = (actions ++ s.0, s.1)

pub on_answer : ℕ → ℕ → Try → ℕ → Reply → (ℕ → Sending) → Sending
on_answer admin r t backoff ended next = ([], returns none (some context_error))
on_answer admin r t backoff (answered msg none) next = ([], returns msg none)
on_answer admin r t backoff (answered msg (some e)) next =
    then_do (handle_error admin r t e) (retry t backoff msg e next)

pub on_choice : ℕ → Try → ℕ → Chosen → (ℕ → Sending) → Sending
on_choice admin t backoff again next = ([], waits)
on_choice admin t backoff (refused e) next = ([], returns none (some e))
on_choice admin t backoff (chosen r k) next = on_answer admin r t backoff t.answer next

pub send_rpc : ℕ → List Try → ℕ → Sending
send_rpc admin [] backoff = ([], waits)
send_rpc admin (t ∷ tries) backoff =
    let (actions, choice) = choose t.turns in
    then_do actions (on_choice admin t backoff choice (send_rpc admin tries))
