-- ===== src/Multi.antt =====
-- region/multi.go: calls batched into one request, grouped by their regions, and the results given
-- back to the calls. A call's region is known by its address, as the source compares it, and its
-- result channel by the call's number; a body of a message is opaque. Go's order of a map's entries
-- is an argument of toProto.
pub mod Answers
pub mod Regions
pub mod Delivery
mod Examples
pub mod Groups
use gohbase.Prelude.{
  ℕ, zero, suc, ◌+◌, ◌%◌, ◌^◌, Bool, true, Option, none, some, List, [], ◌∷◌, ◌++◌, map, leb, ◌==◌,
  if◌then◌else◌, length, get_elem?, concat, Result, ok, panics, ◌>>=◌, ◌>>◌,
}
use gohbase.Bytes.{Bytes}

-- What a call's ToProto or SerializeCellBlocks makes, by the cases that toProto tells apart.
pub data Message : Type 0 where
  get_request mutate_request : Bytes → Message
  unsupported_request : Message

-- What a call's NewResponse makes.
pub data Response : Type 0 where
  get_response mutate_response unsupported_response : Response

pub record Call : Type 0 where
  pub id : ℕ
  pub region : ℕ
  -- whether its context has an error
  pub expired : Bool
  pub to_proto : Message
  -- what SerializeCellBlocks makes: the message, the cellblocks that it appends, and their size
  pub serialized : Option (Message × List Bytes × ℕ)
  pub response : Response

pub record Multi : Type 0 where
  pub size : ℕ
  pub calls : List (Option Call)
  pub regions : List ℕ

-- pb.Action.
pub record Action : Type 0 where
  pub index : ℕ
  pub message : Message

pub record Actions : Type 0 where
  pub pbs : List Action
  pub cellblocks : List Bytes

abbrev pub Groups : Type 0
Groups = List (ℕ × Actions)

-- pb.RegionAction, with the region whose name it holds.
pub record RegionAction : Type 0 where
  pub region : ℕ
  pub actions : List Action

pub new_multi : ℕ → Multi
new_multi queue_size = record { size = queue_size; calls = []; regions = [] }

-- Whether the batch is full comes with the batch.
pub add : List Call → Multi → Multi × Bool
add calls m =
    let calls' = m.calls ++ map some calls in
    (record m { calls = calls' }, leb m.size (length calls'))

-- A call's message, its cellblocks, and their size.
pub encode_call : Bool → Call → Message × List Bytes × ℕ
encode_call is_cellblocks c = elim c.serialized [
  | none ↦ (c.to_proto, [], 0)
  | some made ↦ if is_cellblocks then made else (c.to_proto, [], 0)
]

-- actionsPerReg, with the region's new action and cellblocks.
pub add_action : ℕ → Action → List Bytes → Groups → Groups
add_action r a cbs [] = (r, record { pbs = a ∷ []; cellblocks = cbs }) ∷ []
add_action r a cbs ((r', acts) ∷ more) =
    let rest = add_action r a cbs more in
    if r' == r
    then (r', record { pbs = acts.pbs ++ (a ∷ []); cellblocks = acts.cellblocks ++ cbs }) ∷ more
    else (r', acts) ∷ rest

abbrev pub Collected : Type 0
Collected = Result (Unit {0}) (Groups × ℕ × List (Option Call))

abbrev pub keep : Option Call → Groups × ℕ × List (Option Call) → Collected
keep c (groups, size, calls) = ok (groups, size, c ∷ calls)

pub add_call :
    (Groups → ℕ → Collected) → ℕ → Call → Message × List Bytes × ℕ → Groups → ℕ → Collected
add_call again i c (unsupported_request, cbs, sz) groups size = panics
add_call again i c (get_request b, cbs, sz) groups size =
    again
      (add_action c.region (record { index = (i + 1) % 2 ^ 32; message = get_request b }) cbs
        groups)
      ((size + sz) % 2 ^ 32)
    >>= keep (some c)
add_call again i c (mutate_request b, cbs, sz) groups size =
    again
      (add_action c.region (record { index = (i + 1) % 2 ^ 32; message = mutate_request b }) cbs
        groups)
      ((size + sz) % 2 ^ 32)
    >>= keep (some c)

-- The loop of toProto over the calls from index `i`; an expired call becomes nil, and a nil call
-- makes it panic.
pub collect : Bool → ℕ → List (Option Call) → Groups → ℕ → Collected
collect is_cellblocks i [] groups size = ok (groups, size, [])
collect is_cellblocks i (none ∷ calls) groups size = panics
collect is_cellblocks i (some c ∷ calls) groups size =
    let again = collect is_cellblocks (suc i) calls in
    if c.expired
    then (again groups size >>= keep none)
    else add_call again i c (encode_call is_cellblocks c) groups size

abbrev pub region_action : ℕ × Actions → RegionAction
region_action (r, acts) = record { region = r; actions = acts.pbs }

pub to_proto :
    (Groups → Groups)
    → Bool
    → Multi
    → List Bytes
    → Result (Unit {0}) (List RegionAction × List Bytes × ℕ × Multi)
to_proto order is_cellblocks m cbs = do
  (groups, size, calls) ← collect is_cellblocks 0 m.calls [] 0
  let ordered = order groups
  ok (
    map region_action ordered,
    cbs ++ concat (map (λ g. g.1.cellblocks) ordered),
    size,
    record m { calls = calls; regions = map (λ g. g.0) ordered },
  )

-- pb.NameBytesPair, the Java exception.
pub record Exception : Type 0 where
  pub class : Bytes
  pub stack : Bytes

pub record ActionResult : Type 0 where
  pub index : ℕ
  pub exception : Option Exception
  pub result : Option Bytes

pub record RegionResult : Type 0 where
  pub exception : Option Exception
  pub results : List ActionResult

-- A response, or the error of the whole batch.
pub data Reply : Type 0 where
  answered : List RegionResult → Reply
  failed : ℕ → Reply

-- What a call's channel gets: its response, the error that exceptionToError makes, or the error of
-- the whole batch.
pub data RpcResult : Type 0 where
  response_message : Response → Option Bytes → RpcResult
  from_exception : Exception → RpcResult
  failure : ℕ → RpcResult

abbrev pub Sent : Type 0
Sent = List (ℕ × RpcResult)

-- The same result for every call that passes the test.
pub send_all : (Call → Bool) → RpcResult → List (Option Call) → Sent
send_all test r [] = []
send_all test r (none ∷ calls) = send_all test r calls
send_all test r (some c ∷ calls) =
    let rest = send_all test r calls in if test c then (c.id, r) ∷ rest else rest

-- `get`, and the use of what it returns: a nil call makes that panic.
pub get : List (Option Call) → ℕ → Result (Unit {0}) Call
get calls zero = panics
get calls (suc i) = elim (get_elem? calls i) [
  | none ↦ panics
  | some none ↦ panics
  | some (some c) ↦ ok c
]

pub answer_call : Call → ActionResult → Result (Unit {0}) (ℕ × RpcResult)
answer_call c a = elim a.exception [
  | some e ↦ ok (c.id, from_exception e)
  | none ↦ elim c.response [
    | unsupported_response ↦ panics
    | get_response ↦ ok (c.id, response_message get_response a.result)
    | mutate_response ↦ ok (c.id, response_message mutate_response a.result)
  ]
]

pub answer_calls : List (Option Call) → List ActionResult → Result (Unit {0}) Sent
answer_calls calls [] = ok []
answer_calls calls (a ∷ more) = do
  c ← get calls a.index
  s ← answer_call c a
  rest ← answer_calls calls more
  ok (s ∷ rest)

-- The results of one region; `reg` is what `m.regions` has for it.
pub answer_region : List (Option Call) → Option ℕ → RegionResult → Result (Unit {0}) Sent
answer_region calls reg rar = elim rar.exception [
  | some e ↦ elim reg [
    | none ↦ panics
    | some r ↦ ok (send_all (λ c. c.region == r) (from_exception e) calls)
  ]
  | none ↦ answer_calls calls rar.results
]

abbrev pub head : List ℕ → Option ℕ
head [] = none
head (r ∷ rs) = some r

abbrev pub tail : List ℕ → List ℕ
tail [] = []
tail (r ∷ rs) = rs

pub answer_regions : List (Option Call) → List ℕ → List RegionResult → Result (Unit {0}) Sent
answer_regions calls regions [] = ok []
answer_regions calls regions (rar ∷ more) = do
  sent ← answer_region calls (head regions) rar
  rest ← answer_regions calls (tail regions) more
  ok (sent ++ rest)

-- freeMulti.
pub free : Multi → Multi
free m = record { size = 0; calls = []; regions = [] }

-- What is sent to the calls, in order, and the batch that goes back to the pool.
pub return_results : Multi → Reply → Result (Unit {0}) (Sent × Multi)
return_results m (failed e) = ok (send_all (λ c. true) (failure e) m.calls, free m)
return_results m (answered rars) = do
  sent ← answer_regions m.calls m.regions rars
  ok (sent, free m)
