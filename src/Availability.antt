-- ===== src/Availability.antt =====
-- region/info.go (IsUnavailable, AvailabilityChan, MarkUnavailable, MarkAvailable): whether a region
-- is available, and the channels on which callers wait until it is. Channels are numbered in the
-- order in which they are made. Each operation holds the region's lock, so that operations of
-- several goroutines are one sequence.
pub mod Channels
mod Examples
use gohbase.Prelude.{ℕ, zero, suc, ◌≡◌, Bool, true, false, Option, none, some, List, [], ◌∷◌}

pub record Info : Type 0 where
  pub available : Option ℕ
  -- how many channels have been made, and those that have been closed, the last one first
  pub made : ℕ
  pub closed : List ℕ

unfoldable pub new_info : Info
new_info = record { available = none; made = 0; closed = [] }

unfoldable pub is_unavailable : Info → Bool
is_unavailable i = elim i.available [ none ↦ false | some ch ↦ true ]

unfoldable pub mark_unavailable : Info → Bool × Info
mark_unavailable i = elim i.available [
  | none ↦ (true, record i { available = some i.made; made = suc i.made })
  | some ch ↦ (false, i)
]

-- Closing a nil channel panics.
unfoldable pub mark_available : Info → Option Info
mark_available i = elim i.available [
  | none ↦ none
  | some ch ↦ some (record i { available = none; closed = ch ∷ i.closed })
]

-- The steps that goroutines take: a region may be marked as unavailable at any time, and as
-- available again where that does not panic.
pub data Step : Info → Info → Type 0 where
  unavailable : (i : Info) → Step i (mark_unavailable i).1
  available_again : (i i' : Info) → mark_available i ≡ some i' → Step i i'

pub data Reachable : Info → Type 0 where
  start : Reachable new_info
  step : {i i' : Info} → Reachable i → Step i i' → Reachable i'

-- The channels below `n`, the last one first.
pub channels_below : ℕ → List ℕ
channels_below zero = []
channels_below (suc n) = n ∷ channels_below n
