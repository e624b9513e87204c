-- ===== src/Batch/Examples.antt =====
-- Batches of three calls at two clients, one of which is canceled.
use gohbase.Prelude.{
  ℕ, ◌≡◌, refl, true, false, none, some, List, [], ◌∷◌, ◌==◌, if◌then◌else◌, length, get_elem?, All,
}
use gohbase.Prelude.Permuted.{Permuted, swap, Permuted-refl}
use gohbase.Bytes.Compare.{equal}
use gohbase.Batch.{
  BatchCall, CallResult, Located, client, ClientGroups, received, canceled, Waits, send_batch,
  validate, send_valid, send_found, send_to, find_clients, group_call, wait_for_clients,
  wait_for_completion, wait_late, store_late, store_result, update_at, index_of, lookup_index,
  check_call, note_error,
}
use gohbase.Batch.Validity.{is_valid, are_distinct, are_batchable, has_pointer, HasError}
use gohbase.Batch.Results.{Answered}
use gohbase.Batch.Groups.{group_of, calls_of, are_located, AreApart}
use gohbase.Batch.Slots.{send_batch-Answered, send_batch-refused}

abbrev call : ℕ → BatchCall
call p = record { pointer = p; table = b't' ∷ []; batchable = true; is_admin = false }

abbrev calls : List BatchCall
calls = call 7 ∷ call 8 ∷ call 9 ∷ []

-- The call 8 is at the client 2, the others at the client 1.
abbrev where_is : BatchCall → Located
where_is c = if c.pointer == 8 then client 2 else client 1

abbrev result : ℕ → CallResult
result n = record { msg = some n; error = none }

-- The second client's call has its result only when its context ends.
abbrev waits : Waits
waits = record {
  first = λ c. if c.pointer == 8 then canceled else received (result c.pointer);
  late = λ c. some (result c.pointer);
}

abbrev reversed : ClientGroups → ClientGroups
reversed [] = []
reversed (g ∷ []) = g ∷ []
reversed (g ∷ h ∷ gs) = h ∷ g ∷ gs

reversed-Permuted : (gs : ClientGroups) → Permuted gs (reversed gs)
reversed-Permuted [] = Permuted-refl []
reversed-Permuted (g ∷ []) = Permuted-refl (g ∷ [])
reversed-Permuted (g ∷ h ∷ gs) = swap g h gs

send_batch-Answered_example :
    let o = send_batch where_is reversed waits calls in
    ((k : ℕ) → group_of k o.queued ≡ calls_of where_is k calls)
    × AreApart o.queued
    × ((k : ℕ) (c : BatchCall)
        → get_elem? calls k ≡ some c
        → (r : CallResult) × (get_elem? o.results k ≡ some r)
          × Answered where_is calls waits c r
          × (o.all_ok ≡ true → r.error ≡ none))
unfolding is_valid are_distinct are_batchable has_pointer equal are_located
send_batch-Answered_example =
    send_batch-Answered where_is reversed waits calls reversed-Permuted refl refl

-- The end of a context that comes with all the results: no call has failed, and yet SendBatch says
-- that not all is well.
not_all_ok :
    let o = send_batch where_is reversed waits calls in
    (o.results ≡ result 7 ∷ result 8 ∷ result 9 ∷ []) × (o.all_ok ≡ false)
unfolding send_batch validate send_valid send_found send_to find_clients group_call wait_for_clients
    wait_for_completion wait_late store_late store_result update_at index_of lookup_index check_call
    equal note_error
not_all_ok = (refl, refl)

-- A call that is there twice.
send_batch-refused_example :
    let o = send_batch where_is reversed waits (call 7 ∷ calls) in
    (o.queued ≡ []) × (o.all_ok ≡ false) × All HasError o.results × (length o.results ≡ 4)
unfolding is_valid are_distinct has_pointer
send_batch-refused_example = send_batch-refused where_is reversed waits (call 7 ∷ calls) refl
