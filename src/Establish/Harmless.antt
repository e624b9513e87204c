-- ===== src/Establish/Harmless.antt =====
-- rpc.go: what goroutines do to regions that they do not hold.
use gohbase.Prelude.{
  ℕ, refl, ◌≢◌, inl, inr, Bool, true, false, List, [], ◌∷◌, ◌++◌, arith, Result, ok, err, panics,
  ◌>>=◌,
}
use gohbase.Establish.{
  RegionAction, hand_over, client_down, mark_and_reestablish, find_region, close_all, del_clients,
}
use gohbase.Establish.Ownership.{
  holds, release, act, settle, Leaves, settle-append, Leaves-append, client_down-Leaves,
  del_clients-Leaves,
}

-- Whatever a goroutine holds, it does not give up what it does not hold.
abbrev pub IsHarmless : List RegionAction → Type 0
IsHarmless actions = (owned : List ℕ) → settle actions owned ≢ panics

pub Leaves-ne-panics : (last : List ℕ) (r : Result (Unit {0}) (List ℕ)) → Leaves last r → r ≢ panics
Leaves-ne-panics last r (inl e) = λ p. ground (arith, e, p)
Leaves-ne-panics last r (inr e) = λ p. ground (arith, e, p)

pub nothing-IsHarmless : IsHarmless []
unfolding settle
nothing-IsHarmless owned = λ e. cc

>>=-ne-panics :
    (r : Result (Unit {0}) (List ℕ)) (f : List ℕ → Result (Unit {0}) (List ℕ))
    → r ≢ panics
    → ((owned : List ℕ) → f owned ≢ panics)
    → (r >>= f) ≢ panics
>>=-ne-panics (ok owned) f h k = k owned
>>=-ne-panics (err e) f h k = λ p. cc
>>=-ne-panics panics f h k = λ p. h refl

pub append-IsHarmless :
    (xs ys : List RegionAction) → IsHarmless xs → IsHarmless ys → IsHarmless (xs ++ ys)
append-IsHarmless xs ys hx hy owned =
    rw (settle-append xs ys owned) (>>=-ne-panics (settle xs owned) (settle ys) (hx owned) hy)

pub client_down-IsHarmless :
    (reg : ℕ) (marked : Bool) (down : List (ℕ × Bool)) → IsHarmless (client_down reg marked down)
client_down-IsHarmless reg marked down owned =
    Leaves-ne-panics owned (settle (client_down reg marked down) owned)
      (client_down-Leaves reg marked down owned)

pub mark_and_reestablish-IsHarmless :
    (reg : ℕ) (marked : Bool) → IsHarmless (mark_and_reestablish reg marked)
unfolding mark_and_reestablish settle act holds release
mark_and_reestablish-IsHarmless reg false owned = λ e. cc
mark_and_reestablish-IsHarmless reg true owned = ground arith

pub find_region-IsHarmless :
    (reg : ℕ) (replaced : Bool) (overlaps : List ℕ) → IsHarmless (find_region reg replaced overlaps)
unfolding find_region settle act holds release
find_region-IsHarmless reg false overlaps owned = ground arith
find_region-IsHarmless reg true overlaps owned =
    let rest =
      Leaves-ne-panics owned (settle (del_clients overlaps ++ (hand_over reg ∷ [])) (reg ∷ owned)) (
        Leaves-append (del_clients overlaps) (hand_over reg ∷ []) (reg ∷ owned) (reg ∷ owned) owned
          (del_clients-Leaves overlaps (reg ∷ owned)) (inl (ground arith))) in
    ground (arith, rest)

pub close_all-IsHarmless : (regions : List (ℕ × Bool)) → IsHarmless (close_all regions)
unfolding close_all settle act
close_all-IsHarmless [] owned = λ e. cc
close_all-IsHarmless ((reg, true) ∷ regions) owned =
    ground (arith, close_all-IsHarmless regions owned, close_all-IsHarmless regions (reg ∷ owned))
close_all-IsHarmless ((reg, false) ∷ regions) owned = close_all-IsHarmless regions owned
