-- ===== src/Establish/Ownership.antt =====
-- Who has to make a region available again: the goroutine whose MarkUnavailable returned true, until
-- it calls MarkAvailable or starts another goroutine that reestablishes the region.
use gohbase.Prelude.{
  ℕ, ◌≡◌, refl, ◌∙◌, ◌⊎◌, inl, inr, Bool, true, false, ◌||◌, List, [], ◌∷◌, ◌++◌, arith, ◌==◌,
  if◌then◌else◌, Bool-cases, Result, ok, err, panics, ◌>>=◌,
}
use gohbase.Establish.{
  RegionAction, mark_available, hand_over, del_region, del_client, put_region, mark_unavailable,
  set_client, put_client, dial, take_down, take_down_others, client_down, Ending, established, dead,
  no_region, not_replaced, closed, unfinished, fatal, del_clients,
}

unfoldable pub holds : ℕ → List ℕ → Bool
holds r [] = false
holds r (x ∷ owned) = x == r || holds r owned

unfoldable pub release : ℕ → List ℕ → List ℕ
release r [] = []
release r (x ∷ owned) = if x == r then owned else x ∷ release r owned

-- A region that the goroutine does not hold may be available, so that marking it so may panic.
abbrev give_up : ℕ → List ℕ → Result (Unit {0}) (List ℕ)
give_up r owned = if holds r owned then ok (release r owned) else panics

-- What an action makes of the regions that a goroutine holds. The error says that the action does not
-- happen: MarkUnavailable returns false for a region that is unavailable.
unfoldable pub act : RegionAction → List ℕ → Result (Unit {0}) (List ℕ)
act (mark_available r) owned = give_up r owned
act (hand_over r) owned = give_up r owned
act (mark_unavailable r true) owned = if holds r owned then err tt else ok (r ∷ owned)
act (mark_unavailable r false) owned = ok owned
act (del_region r) owned = ok owned
act (del_client r) owned = ok owned
act (put_region r) owned = ok owned
act (set_client r c) owned = ok owned
act (put_client addr r c) owned = ok owned
act (dial c) owned = ok owned

unfoldable pub settle : List RegionAction → List ℕ → Result (Unit {0}) (List ℕ)
settle [] owned = ok owned
settle (a ∷ actions) owned = act a owned >>= settle actions

-- What a run still holds at its end.
unfoldable pub left : Ending → List ℕ
left (established r c) = []
left dead = []
left no_region = []
left not_replaced = []
left (closed r) = r ∷ []
left (unfinished r) = r ∷ []
left fatal = []

-- The actions happen and leave these regions to the goroutine, or cannot all happen.
abbrev pub Leaves : List ℕ → Result (Unit {0}) (List ℕ) → Type 0
Leaves owned r = (r ≡ ok owned) ⊎ (r ≡ err tt)

pub Result-cases :
    (r : Result (Unit {0}) (List ℕ))
    → ((owned : List ℕ) × (r ≡ ok owned)) ⊎ (r ≡ err tt) ⊎ (r ≡ panics)
Result-cases (ok owned) = inl (owned, refl)
Result-cases (err tt) = inr (inl refl)
Result-cases panics = inr (inr refl)

pub settle-append :
    (xs ys : List RegionAction) (owned : List ℕ)
    → settle (xs ++ ys) owned ≡ (settle xs owned >>= settle ys)
unfolding settle
settle-append [] ys owned = refl
settle-append (x ∷ xs) ys owned = elim (Result-cases (act x owned)) [
  | inl (next, e) ↦ rw e (settle-append xs ys next)
  | inr (inl e) ↦ rw e refl
  | inr (inr e) ↦ rw e refl
]

pub Leaves-append :
    (xs ys : List RegionAction) (owned between last : List ℕ)
    → Leaves between (settle xs owned)
    → Leaves last (settle ys between)
    → Leaves last (settle (xs ++ ys) owned)
Leaves-append xs ys owned between last (inl e) h = rw (settle-append xs ys owned, e, ◌>>=◌) h
Leaves-append xs ys owned between last (inr e) h =
    inr (settle-append xs ys owned ∙ rw (e, ◌>>=◌) refl)

-- To take a region down is to mark it and hand it over, or nothing.
take_down-Leaves :
    (r : ℕ) (marked : Bool) (owned : List ℕ) → Leaves owned (settle (take_down (r, marked)) owned)
unfolding take_down settle act holds release
take_down-Leaves r false owned = inl refl
take_down-Leaves r true owned = elim (Bool-cases (holds r owned)) [
  | inl e ↦ inr (ground (arith, e))
  | inr e ↦ inl (ground (arith, e))
]

take_down_others-Leaves :
    (reg : ℕ) (down : List (ℕ × Bool)) (owned : List ℕ)
    → Leaves owned (settle (take_down_others reg down) owned)
unfolding take_down_others settle
take_down_others-Leaves reg [] owned = inl refl
take_down_others-Leaves reg ((r, marked) ∷ down) owned = elim (Bool-cases (r == reg)) [
  | inl e ↦ rw e (take_down_others-Leaves reg down owned)
  | inr e ↦ rw e (
      Leaves-append (take_down (r, marked)) (take_down_others reg down) owned owned owned
        (take_down-Leaves r marked owned) (take_down_others-Leaves reg down owned))
]

-- clientDown leaves a goroutine with the regions that it had.
pub client_down-Leaves :
    (reg : ℕ) (marked : Bool) (down : List (ℕ × Bool)) (owned : List ℕ)
    → Leaves owned (settle (client_down reg marked down) owned)
unfolding client_down
client_down-Leaves reg marked down owned =
    Leaves-append (take_down (reg, marked)) (take_down_others reg down) owned owned owned
      (take_down-Leaves reg marked owned) (take_down_others-Leaves reg down owned)

pub del_clients-Leaves : (rs owned : List ℕ) → Leaves owned (settle (del_clients rs) owned)
unfolding del_clients settle act
del_clients-Leaves [] owned = inl refl
del_clients-Leaves (r ∷ rs) owned = del_clients-Leaves rs owned
