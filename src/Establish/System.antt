-- ===== src/Establish/System.antt =====
-- Goroutines that mark regions and reestablish them, in any interleaving, on the regions of
-- Availability. What a goroutine holds is kept beside it; it has no influence on what happens.
use gohbase.Prelude.{
  ℕ, suc, ◌+◌, ◌≡◌, ◌≢◌, ◌⊎◌, Bool, Option, none, some, List, [], ◌∷◌, ◌++◌, ◌==◌, if◌then◌else◌,
  All, ok, err, panics,
}
use gohbase.Bytes.{Bytes}
use gohbase.Availability
use gohbase.Availability.{Info, new_info, is_unavailable}
use gohbase.Establish.{
  Reg, Round, mark_and_reestablish, close_all, RegionAction, mark_available, hand_over, del_region,
  del_client, put_region, mark_unavailable, set_client, put_client, dial, client_down, Run,
  establish_region, reestablish_region,
}
use gohbase.Establish.Ownership.{act, settle}
use gohbase.Calls.{Try, send_rpc}
use gohbase.Establish.Released.{StaysDone}

abbrev pub Infos : Type 0
Infos = ℕ → Info

abbrev pub set_info : Infos → ℕ → Info → Infos
set_info infos r i q = if r == q then i else infos q

-- `none` is a panic: a channel that is nil is closed.
unfoldable pub perform : RegionAction → Infos → Option Infos
perform (mark_available r) infos = elim (Availability.mark_available (infos r)) [
  | none ↦ none
  | some i ↦ some (set_info infos r i)
]
perform (mark_unavailable r b) infos =
    some (set_info infos r (Availability.mark_unavailable (infos r)).1)
perform (hand_over r) infos = some infos
perform (del_region r) infos = some infos
perform (del_client r) infos = some infos
perform (put_region r) infos = some infos
perform (set_client r c) infos = some infos
perform (put_client addr r c) infos = some infos
perform (dial c) infos = some infos

-- What MarkUnavailable is recorded to return is what it returns.
abbrev pub Happens : RegionAction → Infos → Type 0
Happens (mark_unavailable r b) infos = (Availability.mark_unavailable (infos r)).0 ≡ b
Happens _ infos = Unit {0}

abbrev pub Thread : Type 0
Thread = List ℕ × List RegionAction

pub record System : Type 0 where
  pub infos : Infos
  pub threads : List Thread

-- What a goroutine holds after an action.
unfoldable pub keeps : RegionAction → List ℕ → List ℕ
keeps a owned = elim (act a owned) [ ok owned' ↦ owned' | err e ↦ owned | panics ↦ owned ]

-- The goroutine that is started for a region: findRegion knows the address, the others do not.
abbrev pub IsStarted : Reg → Run → Type 0
IsStarted reg run =
    (admin : ℕ) × (rounds : List Round) × All StaysDone rounds
    × (((addr : Bytes) × (run ≡ establish_region admin rounds 0 reg addr))
        ⊎ ((is_closed : Bool) × (run ≡ reestablish_region is_closed admin rounds reg)))

-- What an action starts.
abbrev pub Starts : RegionAction → List Thread → Type 0
Starts (hand_over r) new =
    (reg : Reg) × (run : Run) × (reg.pointer ≡ r)
    × IsStarted reg run
    × (new ≡ (r ∷ [], run.actions) ∷ [])
Starts _ new = new ≡ []

-- Goroutines that begin: one that calls SendRPC; one in SendBatch that handles the error of a call,
-- for which it takes a client down or marks one region; one that closes the client.
pub data Begin (actions : List RegionAction) : Type 0 where
  sends :
      (admin : ℕ) (tries : List Try) (backoff : ℕ)
      → actions ≡ (send_rpc admin tries backoff).0
      → Begin actions
  took_down :
      (reg : ℕ) (marked : Bool) (down : List (ℕ × Bool))
      → actions ≡ client_down reg marked down
      → Begin actions
  marked_one : (reg : ℕ) (marked : Bool) → actions ≡ mark_and_reestablish reg marked → Begin actions
  closed_all : (regions : List (ℕ × Bool)) → actions ≡ close_all regions → Begin actions

pub data SystemStep : System → System → Type 0 where
  -- one goroutine takes its next action
  acts :
      {s s' : System} (before after new : List Thread) (owned : List ℕ) (a : RegionAction)
      (rest : List RegionAction)
      → s.threads ≡ before ++ ((owned, a ∷ rest) ∷ after)
      → Happens a s.infos
      → perform a s.infos ≡ some s'.infos
      → Starts a new
      → s'.threads ≡ new ++ (before ++ ((keeps a owned, rest) ∷ after))
      → SystemStep s s'
  -- a goroutine begins
  begins :
      {s s' : System} (actions : List RegionAction)
      → Begin actions
      → s'.infos ≡ s.infos
      → s'.threads ≡ ([], actions) ∷ s.threads
      → SystemStep s s'

pub data ReachableSystem : System → Type 0 where
  start : ReachableSystem (record { infos = λ r. new_info; threads = [] })
  step : {s s' : System} → ReachableSystem s → SystemStep s s' → ReachableSystem s'

unfoldable pub count : ℕ → List ℕ → ℕ
count r [] = 0
count r (x ∷ xs) = if x == r then suc (count r xs) else count r xs

unfoldable pub total : ℕ → List Thread → ℕ
total r [] = 0
total r ((owned, actions) ∷ threads) = count r owned + total r threads

-- How many goroutines have to make the region available again.
abbrev pub holders : Info → ℕ
holders i = elim i.available [ none ↦ 0 | some ch ↦ 1 ]

-- A goroutine that marks nothing as available that it does not hold.
abbrev pub IsSafe : Thread → Type 0
IsSafe t = settle t.1 t.0 ≢ panics
