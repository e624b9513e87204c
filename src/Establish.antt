-- ===== src/Establish.antt =====
-- rpc.go (establishRegion, lookupRegion, isRegionEstablished, clientDown): how a region that is not
-- available gets a client again. Regions and clients are pointers, which are numbers. A run is given
-- what the calls of each round return, and records what it does to the regions and caches that it
-- shares with other goroutines, in order; log.Fatal ends it.
pub mod Ownership
pub mod Released
pub mod Harmless
pub mod System
pub mod Holders
pub mod Interleaved
mod Examples
use gohbase.Prelude.{
  ℕ, ◌+◌, Bool, true, false, not, Option, none, some, List, [], ◌∷◌, ◌++◌, ◌==◌, if◌then◌else◌,
}
use gohbase.Bytes.{Bytes}
use gohbase.Bytes.Compare.{equal}
use gohbase.Backoff.{backoff_start, sleep_and_increase_backoff}
use gohbase.RegionClient.Exceptions.{
  RpcError, server_error, retryable_error, not_serving_region_error, plain_error,
}

-- A region, by its pointer.
pub record Reg : Type 0 where
  pub pointer : ℕ
  pub name : Bytes

-- What one try of lookupRegion gives, in ZooKeeper or in the meta table.
pub data Attempt : Type 0 where
  found : Reg → Bytes → Attempt
  not_found client_closed failed_lookup : Attempt

pub data Lookup : Type 0 where
  looked_up : Reg → Bytes → Lookup
  no_table closed_client context_ended : Lookup
  -- the next try has not returned
  looking : Lookup

-- Each try comes with whether the context ends while the client waits after it.
pub lookup_region : ℕ → List (Attempt × Bool) → Lookup
lookup_region backoff [] = looking
lookup_region backoff ((found reg addr, done) ∷ tries) = looked_up reg addr
lookup_region backoff ((not_found, done) ∷ tries) = no_table
lookup_region backoff ((client_closed, done) ∷ tries) = closed_client
lookup_region backoff ((failed_lookup, done) ∷ tries) =
    elim (sleep_and_increase_backoff done backoff) [
      | none ↦ context_ended
      | some backoff' ↦ lookup_region backoff' tries
    ]

pub data Dialed : Type 0 where
  connected canceled_dial failed_dial : Dialed

-- What the calls of one round return.
pub record Round : Type 0 where
  -- whether the region's context ends while the round waits
  pub is_dead : Bool
  pub tries : List (Attempt × Bool)
  -- whether the region's context has an error after the lookup
  pub is_dead_after : Bool
  -- what put returns for the region that was looked up
  pub overlaps : List ℕ
  pub replaced : Bool
  pub client : ℕ
  pub dialed : Dialed
  -- the error of the probe's result
  pub probed : Option RpcError
  -- what MarkUnavailable returns to clientDown for the region, and the other regions of the client
  -- with what it returns for them
  pub marked : Bool
  pub down : List (ℕ × Bool)

pub data RegionAction : Type 0 where
  mark_available hand_over del_region del_client put_region : ℕ → RegionAction
  -- with what MarkUnavailable returned
  mark_unavailable : ℕ → Bool → RegionAction
  set_client : ℕ → Option ℕ → RegionAction
  put_client : Bytes → ℕ → ℕ → RegionAction
  dial : ℕ → RegionAction

pub data Ending : Type 0 where
  -- the region has this client
  established : ℕ → ℕ → Ending
  dead no_region not_replaced : Ending
  -- the client is closed; or the run waits for the next round
  closed unfinished : ℕ → Ending
  fatal : Ending

pub record Run : Type 0 where
  pub actions : List RegionAction
  pub ending : Ending

abbrev pub ends : List RegionAction → Ending → Run
ends actions ending = record { actions = actions; ending = ending }

pub prepend : List RegionAction → Run → Run
prepend actions run = record run { actions = actions ++ run.actions }

-- isRegionEstablished, of the error of the probe's result.
pub is_region_established : Option RpcError → Option RpcError
is_region_established none = none
is_region_established (some (server_error cause)) = some (server_error cause)
is_region_established (some (retryable_error cause)) = some (retryable_error cause)
is_region_established (some (not_serving_region_error cause)) =
    some (not_serving_region_error cause)
is_region_established (some (plain_error cause)) = none

-- A region that is marked here gets a goroutine that reestablishes it.
pub take_down : ℕ × Bool → List RegionAction
take_down (r, false) = mark_unavailable r false ∷ []
take_down (r, true) = mark_unavailable r true ∷ set_client r none ∷ hand_over r ∷ []

pub take_down_others : ℕ → List (ℕ × Bool) → List RegionAction
take_down_others reg [] = []
take_down_others reg ((r, marked) ∷ down) =
    let rest = take_down_others reg down in if r == reg then rest else take_down (r, marked) ++ rest

unfoldable pub client_down : ℕ → Bool → List (ℕ × Bool) → List RegionAction
unfolding take_down take_down_others
client_down reg marked down = take_down (reg, marked) ++ take_down_others reg down

abbrev pub down_if_server : RpcError → List RegionAction → List RegionAction
down_if_server (server_error cause) actions = actions
down_if_server (retryable_error cause) actions = []
down_if_server (not_serving_region_error cause) actions = []
down_if_server (plain_error cause) actions = []

-- The region gets the client and is available.
abbrev pub settle_with : ℕ → ℕ → Run
settle_with reg client =
    ends (set_client reg (some client) ∷ mark_available reg ∷ []) (established reg client)

-- The probe of a region, unless it is the admin region, and what follows.
pub probe : Bool → Round → Run → ℕ → Run
probe true round again reg = settle_with reg round.client
probe false round again reg = elim (is_region_established round.probed) [
  | none ↦ settle_with reg round.client
  | some e ↦ prepend (down_if_server e (client_down reg round.marked round.down)) again
]

-- What follows Dial.
pub on_dial : Dialed → Bool → Round → Run → ℕ → Run
on_dial connected is_admin round again reg = probe is_admin round again reg
on_dial canceled_dial is_admin round again reg = ends (mark_available reg ∷ []) dead
on_dial failed_dial is_admin round again reg =
    prepend (client_down reg round.marked round.down) again

-- The part of a round from the address on; `again` are the rounds that follow.
pub connect : ℕ → Round → (Reg → Run) → Reg → Bytes → Run
connect admin round again reg addr =
    let is_admin = reg.pointer == admin in
    prepend
      ((if is_admin then [] else put_client addr reg.pointer round.client ∷ [])
        ++ (dial round.client ∷ []))
      (on_dial round.dialed is_admin round (again reg) reg.pointer)

pub del_clients : List ℕ → List RegionAction
del_clients [] = []
del_clients (r ∷ rs) = del_client r ∷ del_clients rs

-- A region of another name was looked up. It is new, so that marking it as unavailable returns true.
pub replace : ℕ → Round → (Reg → Run) → Reg → Reg → Bytes → Run
replace admin round again original reg addr =
    prepend (mark_unavailable reg.pointer true ∷ put_region reg.pointer ∷ []) (
      if not round.replaced
      then ends (mark_available reg.pointer ∷ mark_available original.pointer ∷ []) not_replaced
      else prepend (del_clients round.overlaps ++ (mark_available original.pointer ∷ []))
          (connect admin round again reg addr))

abbrev pub unless_dead : Bool → ℕ → Run → Run
unless_dead is_dead reg run = if is_dead then ends (mark_available reg ∷ []) dead else run

-- What follows the lookup of the region.
pub look_up : ℕ → Round → (Reg → Run) → Reg → Lookup → Run
look_up admin round again reg no_table =
    ends (del_region reg.pointer ∷ del_client reg.pointer ∷ mark_available reg.pointer ∷ [])
      no_region
look_up admin round again reg closed_client =
    unless_dead round.is_dead_after reg.pointer (ends [] (closed reg.pointer))
look_up admin round again reg context_ended =
    unless_dead round.is_dead_after reg.pointer (ends [] fatal)
look_up admin round again reg looking = ends [] (unfinished reg.pointer)
look_up admin round again reg (looked_up new addr) = unless_dead round.is_dead_after reg.pointer (
    if not (equal new.name reg.name)
    then replace admin round again reg new addr
    else connect admin round again reg addr)

-- A round behind its wait. The address is empty where it has to be looked up.
pub resolve : ℕ → Round → (Reg → Run) → Reg → Bytes → Run
resolve admin round again reg [] =
    look_up admin round again reg (lookup_region backoff_start round.tries)
resolve admin round again reg (a ∷ addr) = connect admin round again reg (a ∷ addr)

pub establish_region : ℕ → List Round → ℕ → Reg → Bytes → Run
establish_region admin [] backoff reg addr = ends [] (unfinished reg.pointer)
establish_region admin (round ∷ rounds) backoff reg addr =
    elim (sleep_and_increase_backoff round.is_dead backoff) [
      | none ↦ ends (mark_available reg.pointer ∷ []) dead
      | some backoff' ↦
          resolve admin round (λ next. establish_region admin rounds backoff' next []) reg addr
    ]

-- The goroutine that is started for a region that was marked; `is_closed` says whether the client is
-- closed by then.
pub reestablish_region : Bool → ℕ → List Round → Reg → Run
reestablish_region true admin rounds reg = ends [] (closed reg.pointer)
reestablish_region false admin rounds reg = establish_region admin rounds 0 reg []

-- What other goroutines do to regions. A region that handleResultError or getRegionAndClientForRPC
-- marks gets a goroutine that reestablishes it.
unfoldable pub mark_and_reestablish : ℕ → Bool → List RegionAction
mark_and_reestablish reg false = mark_unavailable reg false ∷ []
mark_and_reestablish reg true = mark_unavailable reg true ∷ hand_over reg ∷ []

-- findRegion behind a lookup that returned a region other than the client's own two: the region is
-- new, so that marking it as unavailable returns true.
pub find_region : ℕ → Bool → List ℕ → List RegionAction
find_region reg replaced overlaps =
    mark_unavailable reg true
    ∷ put_region reg
    ∷ (if not replaced then [] else del_clients overlaps ++ (hand_over reg ∷ []))

-- closeAll, over the regions of all clients with what MarkUnavailable returns for them.
pub close_all : List (ℕ × Bool) → List RegionAction
close_all [] = []
close_all ((reg, marked) ∷ regions) =
    mark_unavailable reg marked ∷ set_client reg none ∷ close_all regions
