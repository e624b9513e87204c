-- ===== src/Establish/Examples.antt =====
-- A region that is looked up under another name while it is reestablished, and the first steps of a
-- system in which a client goes down.
use gohbase.Prelude.{ℕ, ◌≡◌, refl, ◌≢◌, true, false, none, List, [], ◌∷◌, All}
use gohbase.Bytes.Compare.{equal}
use gohbase.Backoff.{sleep_and_increase_backoff}
use gohbase.Availability
use gohbase.Availability.{Info, new_info}
use gohbase.Establish.{
  Reg, found, failed_lookup, lookup_region, Round, connected, RegionAction, mark_unavailable,
  client_down, establish_region, resolve, look_up, replace, connect, on_dial, probe, settle_with,
  is_region_established, prepend, established,
}
use gohbase.Establish.Released.{Releases, StaysDone, establish_region-Releases}
use gohbase.Establish.System.{
  perform, System, took_down, begins, ReachableSystem, start, step, total, holders,
}
use gohbase.Establish.Interleaved.{ReachableSystem-safe}

abbrev old : Reg
old = record { pointer = 5; name = 1 ∷ [] }

abbrev new : Reg
new = record { pointer = 6; name = 2 ∷ [] }

-- The lookup fails once; then the region is found under another name, and its client accepts it.
abbrev first_round : Round
first_round = record {
  is_dead = false;
  tries = (failed_lookup, false) ∷ (found new (1 ∷ []), false) ∷ [];
  is_dead_after = false;
  overlaps = 5 ∷ [];
  replaced = true;
  client = 9;
  dialed = connected;
  probed = none;
  marked = false;
  down = [];
}

stays : All StaysDone (first_round ∷ [])
unfolding lookup_region sleep_and_increase_backoff
stays = ((λ e. cc), tt)

establish_region-Releases_example :
    Releases (5 ∷ []) (establish_region 0 (first_round ∷ []) 0 old [])
establish_region-Releases_example = establish_region-Releases 0 (first_round ∷ []) 0 old [] stays

ends_established : (establish_region 0 (first_round ∷ []) 0 old []).ending ≡ established 6 9
unfolding establish_region sleep_and_increase_backoff resolve look_up lookup_region replace connect
    on_dial probe settle_with is_region_established prepend equal
ends_established = refl

-- A goroutine has begun to take down the client of the regions 5 and 7.
abbrev actions : List RegionAction
actions = client_down 5 true ((7, true) ∷ [])

abbrev system : System
system = record { infos = λ r. new_info; threads = ([], actions) ∷ [] }

system-Reachable : ReachableSystem system
system-Reachable = step start (begins actions (took_down 5 true ((7, true) ∷ []) refl) refl refl)

ReachableSystem-safe_example :
    (perform (mark_unavailable 5 true) system.infos ≢ none)
    × ((q : ℕ) → total q system.threads ≡ holders (system.infos q))
unfolding client_down Availability.mark_unavailable new_info
ReachableSystem-safe_example =
    ReachableSystem-safe [] [] [] (mark_unavailable 5 true) _ system-Reachable refl refl
