-- ===== src/Calls/Examples.antt =====
-- A call whose region has no client at first, whose first try meets a busy server, and whose second
-- one succeeds.
use gohbase.Prelude.{ℕ, ◌≡◌, refl, ap, true, false, Option, none, some, List, [], ◌∷◌}
use gohbase.Backoff.{backoff_start, sleep_and_increase_backoff}
use gohbase.RegionClient.Exceptions.{retryable_error, bad_response}
use gohbase.Establish.{mark_and_reestablish}
use gohbase.Calls.{
  in_cache, released, ChoiceRound, Reply, answered, Try, returns, send_rpc, choose, choose_once,
  get_region_for_rpc, on_search, on_got, after_first_wait, with_region, without_client, or_choose,
  on_choice, on_answer, handle_error, retry,
}
use gohbase.Calls.Retries.{is_final, SomeGives, send_rpc-Gives}

abbrev turn : Option ℕ → ChoiceRound
turn client = record {
  search = λ i. in_cache 5;
  waited = none;
  client = client;
  marked = true;
  waited_again = some released;
  is_dead = false;
  client_again = some 9;
}

abbrev try_with : Option ℕ → Reply → Try
try_with client answer = record {
  turns = turn client ∷ [];
  answer = answer;
  marked = false;
  down = [];
  ended_sleep = false;
}

abbrev tries : List Try
tries =
    try_with none (answered none (some (retryable_error bad_response)))
    ∷ try_with (some 9) (answered (some 1) none)
    ∷ []

-- The region is marked and reestablished, and the message of the second try is returned.
second_try : send_rpc 0 tries backoff_start ≡ (mark_and_reestablish 5 true, returns (some 1) none)
unfolding send_rpc choose choose_once get_region_for_rpc on_search on_got after_first_wait
    with_region without_client or_choose on_choice on_answer handle_error retry
    sleep_and_increase_backoff mark_and_reestablish
second_try = refl

send_rpc-Gives_example : (is_final none ≡ true) × SomeGives tries (some 1) none
send_rpc-Gives_example =
    send_rpc-Gives 0 tries backoff_start (some 1) none (ap (λ s. s.1) second_try)
