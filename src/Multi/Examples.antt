-- ===== src/Multi/Examples.antt =====
-- The theorem on batches, applied to calls of two regions of which one has expired.
use gohbase.Prelude.{
  ℕ, ◌≡◌, Bool, true, false, Option, none, some, List, [], ◌∷◌, map, arith, ◌==◌, if◌then◌else◌,
  All, ok,
}
use gohbase.Prelude.Permuted.{Permuted, swap, Permuted-refl}
use gohbase.Bytes.{Bytes}
use gohbase.Multi.{
  Call, Multi, Message, get_request, mutate_request, unsupported_request, get_response,
  mutate_response, Groups, Exception, RegionAction, Sent, to_proto, add, new_multi, return_results,
  ActionResult, answered, failed, failure, free, encode_call,
}
use gohbase.Multi.Groups.{IsBatchable}
use gohbase.Multi.Answers.{Server, AnswersEach, serve_region, expected}
use gohbase.Multi.Delivery.{unexpired, return_results-Permuted}

-- Go visits the first two regions in the reverse order.
abbrev order : Groups → Groups
order [] = []
order (g ∷ []) = g ∷ []
order (g ∷ h ∷ gs) = h ∷ g ∷ gs

order-Permuted : (gs : Groups) → Permuted gs (order gs)
order-Permuted [] = Permuted-refl []
order-Permuted (g ∷ []) = Permuted-refl (g ∷ [])
order-Permuted (g ∷ h ∷ gs) = swap g h gs

abbrev get_call : ℕ → ℕ → Bool → Call
get_call id region expired = record {
  id = id;
  region = region;
  expired = expired;
  to_proto = get_request (b'g' ∷ []);
  serialized = none;
  response = get_response;
}

abbrev put_call : ℕ → ℕ → Call
put_call id region = record {
  id = id;
  region = region;
  expired = false;
  to_proto = mutate_request (b'p' ∷ []);
  serialized = some (mutate_request (b'm' ∷ []), (1 ∷ 2 ∷ []) ∷ [], 2);
  response = mutate_response;
}

abbrev calls : List Call
calls = get_call 11 1 false ∷ put_call 12 2 ∷ get_call 13 1 true ∷ put_call 14 1 ∷ []

-- The second region has an exception, and a get of the first one has a result.
abbrev exceptional : ℕ → Option Exception
exceptional r = if r == 2 then some (record { class = b'E' ∷ []; stack = [] }) else none

abbrev outcome : ℕ → Message → Option Exception × Option Bytes
outcome r (get_request b) = (none, some b)
outcome r (mutate_request b) = (some (record { class = b'F' ∷ []; stack = [] }), none)
outcome r unsupported_request = (none, none)

-- The first two results of a region come in the reverse order.
abbrev backwards : List ActionResult → List ActionResult
backwards [] = []
backwards (a ∷ []) = a ∷ []
backwards (a ∷ b ∷ rs) = b ∷ a ∷ rs

abbrev server : Server
server = record { region_exception = exceptional; act = outcome; arrange = λ r rs. backwards rs }

server-AnswersEach : AnswersEach server
server-AnswersEach r [] = Permuted-refl []
server-AnswersEach r (a ∷ []) = Permuted-refl (a ∷ [])
server-AnswersEach r (a ∷ b ∷ rs) = swap a b rs

calls-IsBatchable : All (IsBatchable true) calls
unfolding encode_call
calls-IsBatchable = (λ h. cc, (λ h. cc, (λ h. cc, (λ h. cc, tt))))

return_results-Permuted_example :
    (actions : List RegionAction) × (cbs' : List Bytes) × (size : ℕ) × (m : Multi) × (sent : Sent)
    × (to_proto order true (add calls (new_multi 4)).0 [] ≡ ok (actions, cbs', size, m))
    × (return_results m (answered (map (serve_region server) actions)) ≡ ok (sent, free m))
    × Permuted sent (map (expected server true) (unexpired calls))
    × ((e : ℕ)
        → return_results m (failed e) ≡ ok (map (λ c. (c.id, failure e)) (unexpired calls), free m))
return_results-Permuted_example =
    return_results-Permuted server true calls order 4 [] order-Permuted server-AnswersEach
      calls-IsBatchable (λ h. cc, (λ h. cc, (λ h. cc, (λ h. cc, tt)))) (omega arith)
