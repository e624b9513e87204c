-- ===== src/Availability/Channels.antt =====
-- The channels that a region hands out, over all its operations.
use gohbase.Prelude.{ℕ, suc, ◌≡◌, refl, ap, subst, Option, none, some, List, ◌∷◌, arith}
use gohbase.Availability.{
  Info, new_info, mark_unavailable, mark_available, Step, unavailable, available_again, Reachable,
  start, step, channels_below,
}

-- All channels but the one in use are closed, each once.
abbrev pub AllClosed : Info → Type 0
AllClosed i = elim i.available [
  | none ↦ i.closed ≡ channels_below i.made
  | some ch ↦ (i.made ≡ suc ch) × (i.closed ≡ channels_below ch)
]

abbrev state : Option ℕ → ℕ → List ℕ → Info
state available made closed = record { available = available; made = made; closed = closed }

mark_unavailable-AllClosed :
    (available : Option ℕ) (made : ℕ) (closed : List ℕ)
    → AllClosed (state available made closed)
    → AllClosed (mark_unavailable (state available made closed)).1
unfolding mark_unavailable
mark_unavailable-AllClosed none made closed h = (refl, h)
mark_unavailable-AllClosed (some ch) made closed h = h

mark_available-AllClosed :
    (available : Option ℕ) (made : ℕ) (closed : List ℕ) (i : Info)
    → mark_available (state available made closed) ≡ some i
    → AllClosed (state available made closed)
    → AllClosed i
unfolding mark_available
mark_available-AllClosed none made closed i ran h = absurd (ground arith)
mark_available-AllClosed (some ch) made closed i ran (last, rest) =
    let e : record { available = none; made = made; closed = ch ∷ closed } ≡ i = ground arith in
    subst AllClosed e (unfold channels_below in rw last (ap (◌∷◌ ch) rest))

Step-AllClosed : {i i' : Info} → Step i i' → AllClosed i → AllClosed i'
Step-AllClosed (unavailable i) h = mark_unavailable-AllClosed i.available i.made i.closed h
Step-AllClosed (available_again i i' ran) h =
    mark_available-AllClosed i.available i.made i.closed i' ran h

-- In every state that a region reaches, the channels that were made are closed exactly once, but
-- for the one that callers wait on while the region is unavailable, which is the last one made.
pub Reachable-AllClosed : {i : Info} → Reachable i → AllClosed i
Reachable-AllClosed start = unfold new_info channels_below in refl
Reachable-AllClosed (step r s) = Step-AllClosed s (Reachable-AllClosed r)
