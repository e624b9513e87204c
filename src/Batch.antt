-- ===== src/Batch.antt =====
-- rpc.go (SendBatch, findClients, waitForCompletion, handleResultError): how a batch of calls is
-- checked, sent to region clients, and waited for. Calls, clients and messages are pointers, which are
-- numbers. What getRegionAndClientForRPC returns for a call, the order in which Go visits the map of
-- clients, and what is read from the channels of results are arguments.
pub mod Validity
pub mod Results
pub mod Groups
pub mod Grouping
pub mod Waiting
pub mod Slots
mod Examples
use gohbase.Prelude.{
  ℕ, zero, suc, ◌+◌, Bool, true, false, ◌&&◌, not, Option, none, some, List, [], ◌∷◌, ◌++◌, ◌==◌,
  if◌then◌else◌,
}
use gohbase.Bytes.{Bytes}
use gohbase.Bytes.Compare.{equal}
use gohbase.RegionClient.Exceptions.{
  RpcError, server_error, retryable_error, not_serving_region_error, plain_error,
}

-- Whether the call is Batchable and does not skip the batch, and whether its region is the client's
-- admin region.
pub record BatchCall : Type 0 where
  pub pointer : ℕ
  pub table : Bytes
  pub batchable : Bool
  pub is_admin : Bool

pub data BatchError : Type 0 where
  not_executed not_batchable context_error : BatchError
  duplicate : ℕ → BatchError
  multiple_tables : Bytes → Bytes → BatchError
  -- what getRegionAndClientForRPC failed with
  no_client : ℕ → BatchError
  failed : RpcError → BatchError

-- hrpc.RPCResult.
pub record CallResult : Type 0 where
  pub msg : Option ℕ
  pub error : Option BatchError

abbrev pub Results : Type 0
Results = List CallResult

abbrev pub failed_with : BatchError → CallResult
failed_with e = record { msg = none; error = some e }

-- The map from calls to the indexes of their results.
abbrev pub Indexes : Type 0
Indexes = List (ℕ × ℕ)

unfoldable pub lookup_index : ℕ → Indexes → Option ℕ
lookup_index p [] = none
lookup_index p ((q, i) ∷ m) = if q == p then some i else lookup_index p m

-- A key that is missing reads as 0.
pub index_of : BatchCall → Indexes → ℕ
index_of c m = elim (lookup_index c.pointer m) [ none ↦ 0 | some i ↦ i ]

pub check_call : Bytes → BatchCall → Option BatchError
check_call table c =
    if not (equal c.table table)
    then some (multiple_tables table c.table)
    else if not c.batchable
    then some not_batchable
    else none

pub record Validated : Type 0 where
  pub res : Results
  pub all_ok : Bool
  pub rpc_to_res : Indexes

abbrev pub refuse : BatchError → Validated → Validated
refuse e v = record v { res = failed_with e ∷ v.res; all_ok = false }

abbrev pub accept : Option BatchError → Validated → Validated
accept none v = record v { res = failed_with not_executed ∷ v.res }
accept (some e) v = refuse e v

-- The loop over the batch from the call at `i` on, which makes the results one by one.
pub validate : Bytes → ℕ → Indexes → List BatchCall → Validated
validate table i m [] = record { res = []; all_ok = true; rpc_to_res = m }
validate table i m (c ∷ batch) = elim (lookup_index c.pointer m) [
  | some j ↦ refuse (duplicate j) (validate table (suc i) m batch)
  | none ↦ accept (check_call table c) (validate table (suc i) ((c.pointer, i) ∷ m) batch)
]

pub update_at : ℕ → (CallResult → CallResult) → Results → Results
update_at i f [] = []
update_at zero f (r ∷ res) = f r ∷ res
update_at (suc i) f (r ∷ res) = r ∷ update_at i f res

abbrev pub with_error : BatchError → CallResult → CallResult
with_error e r = record r { error = some e }

-- What getRegionAndClientForRPC returns: a client or an error.
pub data Located : Type 0 where
  client : ℕ → Located
  nowhere : ℕ → Located

abbrev pub ClientGroups : Type 0
ClientGroups = List (ℕ × List BatchCall)

pub group_call : ℕ → BatchCall → ClientGroups → ClientGroups
group_call k c [] = (k, c ∷ []) ∷ []
group_call k c ((j, cs) ∷ groups) =
    let rest = group_call k c groups in
    if j == k then (j, cs ++ (c ∷ [])) ∷ groups else (j, cs) ∷ rest

pub record Found : Type 0 where
  pub groups : ClientGroups
  pub res : Results
  pub is_ok : Bool

abbrev pub locate : ℕ → BatchCall → Located → Found → Found
locate i c (client k) f = record f { groups = group_call k c f.groups }
locate i c (nowhere e) f = record f {
  res = update_at i (with_error (no_client e)) f.res;
  is_ok = false;
}

pub find_clients : (BatchCall → Located) → ℕ → List BatchCall → Found → Found
find_clients where_is i [] f = f
find_clients where_is i (c ∷ batch) f =
    find_clients where_is (suc i) batch (locate i c (where_is c) f)

-- What handleResultError does: it marks the region as unavailable and reestablishes it, or takes
-- the client down with all its regions.
pub data Handling : Type 0 where
  region_unavailable client_down : Handling

pub handle_result_error : Bool → BatchError → Option Handling
handle_result_error is_admin (failed (not_serving_region_error cause)) = some region_unavailable
handle_result_error is_admin (failed (server_error cause)) =
    some (if is_admin then region_unavailable else client_down)
handle_result_error is_admin (failed (retryable_error cause)) = none
handle_result_error is_admin (failed (plain_error cause)) = none
handle_result_error is_admin not_executed = none
handle_result_error is_admin not_batchable = none
handle_result_error is_admin context_error = none
handle_result_error is_admin (duplicate j) = none
handle_result_error is_admin (multiple_tables a b) = none
handle_result_error is_admin (no_client e) = none

-- What the select of the first loop finds for a call, its result or the end of the context.
pub data Waited : Type 0 where
  received : CallResult → Waited
  canceled : Waited

-- What is read for each call: by the first loop, and without blocking after the context's end.
pub record Waits : Type 0 where
  pub first : BatchCall → Waited
  pub late : BatchCall → Option CallResult

-- The results, and what was done about their errors, the last one first.
pub record Progress : Type 0 where
  pub results : Results
  pub handled : List (BatchCall × Handling)

pub note_error :
    BatchCall → Option BatchError → List (BatchCall × Handling) → List (BatchCall × Handling)
note_error c none handled = handled
note_error c (some e) handled = elim (handle_result_error c.is_admin e) [
  | none ↦ handled
  | some h ↦ (c, h) ∷ handled
]

pub store_result : Indexes → BatchCall → CallResult → Progress → Progress
store_result m c r p = record {
  results = update_at (index_of c m) (λ _. r) p.results;
  handled = note_error c r.error p.handled;
}

pub store_late : Indexes → BatchCall → Option CallResult → Progress → Progress
store_late m c (some r) p = store_result m c r p
store_late m c none p = record p {
  results = update_at (index_of c m) (with_error context_error) p.results;
}

abbrev pub is_none : Option BatchError → Bool
is_none none = true
is_none (some e) = false

-- The loop that does not block.
pub wait_late : Waits → Indexes → List BatchCall → Progress → Progress
wait_late w m [] p = p
wait_late w m (c ∷ rpcs) p = wait_late w m rpcs (store_late m c (w.late c) p)

-- waitForCompletion from one call of a client on; `is_ok` is what the calls before it gave.
pub wait_for_completion : Waits → Indexes → List BatchCall → Bool → Progress → Bool × Progress
wait_for_completion w m [] is_ok p = (is_ok, p)
wait_for_completion w m (c ∷ rpcs) is_ok p = elim (w.first c) [
  | received r ↦ wait_for_completion w m rpcs (is_ok && is_none r.error) (store_result m c r p)
  | canceled ↦ (false, wait_late w m (c ∷ rpcs) p)
]

-- The loop over the clients. `all_ok` is what those before gave.
pub wait_for_clients : Waits → Indexes → ClientGroups → Bool → Progress → Bool × Progress
wait_for_clients w m [] all_ok p = (all_ok, p)
wait_for_clients w m ((k, rpcs) ∷ groups) all_ok p =
    let (is_ok, p') = wait_for_completion w m rpcs true p in
    wait_for_clients w m groups (all_ok && is_ok) p'

-- What SendBatch returns, what it has queued at each client, and what it did about errors.
pub record BatchOutcome : Type 0 where
  pub results : Results
  pub all_ok : Bool
  pub queued : ClientGroups
  pub handled : List (BatchCall × Handling)

abbrev pub nothing_queued : Results → BatchOutcome
nothing_queued res = record { results = res; all_ok = false; queued = []; handled = [] }

pub send_to : Waits → Indexes → ClientGroups → Results → BatchOutcome
send_to w m groups res =
    let (all_ok, p) = wait_for_clients w m groups true (record { results = res; handled = [] }) in
    record { results = p.results; all_ok = all_ok; queued = groups; handled = p.handled }

pub send_found : (ClientGroups → ClientGroups) → Waits → Indexes → Found → BatchOutcome
send_found order w m f =
    if not f.is_ok then nothing_queued f.res else send_to w m (order f.groups) f.res

pub send_valid :
    (BatchCall → Located)
    → (ClientGroups → ClientGroups)
    → Waits
    → List BatchCall
    → Validated
    → BatchOutcome
send_valid where_is order w batch v =
    if not v.all_ok
    then nothing_queued v.res
    else send_found order w v.rpc_to_res
        (find_clients where_is 0 batch (record { groups = []; res = v.res; is_ok = true }))

pub send_batch :
    (BatchCall → Located) → (ClientGroups → ClientGroups) → Waits → List BatchCall → BatchOutcome
send_batch where_is order w [] = record { results = []; all_ok = true; queued = []; handled = [] }
send_batch where_is order w (c ∷ batch) =
    send_valid where_is order w (c ∷ batch) (validate c.table 0 [] (c ∷ batch))
