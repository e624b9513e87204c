-- ===== src/Establish/Holders.antt =====
-- One action of a goroutine, and the count of the goroutines that hold a region.
use gohbase.Prelude.{
  ℕ, ◌+◌, ◌≤◌, ◌≡◌, refl, ap, ◌≢◌, inl, inr, true, false, Option, none, some, List, [], ◌∷◌, ◌++◌,
  arith, ◌==◌, if◌then◌else◌, err, panics, ◌>>=◌,
}
use gohbase.Availability
use gohbase.Availability.{Info, new_info, is_unavailable}
use gohbase.Establish.{
  RegionAction, mark_available, hand_over, del_region, del_client, put_region, mark_unavailable,
  set_client, put_client, dial,
}
use gohbase.Establish.Ownership.{holds, release, act, settle, Result-cases}
use gohbase.Establish.System.{Infos, perform, Happens, Thread, keeps, count, total, holders, IsSafe}

holds-count : (r : ℕ) (owned : List ℕ) → holds r owned ≡ true → 1 ≤ count r owned
unfolding holds count
holds-count r [] h = cc
holds-count r (x ∷ owned) h = ground (arith, holds-count r owned)

count-release :
    (q r : ℕ) (owned : List ℕ)
    → holds r owned ≡ true
    → count q (release r owned) + (if r == q then 1 else 0) ≡ count q owned
unfolding holds count release
count-release q r [] h = cc
count-release q r (x ∷ owned) h = ground (arith, count-release q r owned)

pub total-append : (q : ℕ) (xs ys : List Thread) → total q (xs ++ ys) ≡ total q xs + total q ys
unfolding total
total-append q [] ys = omega arith
total-append q ((owned, actions) ∷ xs) ys = omega (arith, total-append q xs ys)

-- What an action gives to the goroutine that it starts.
abbrev pub given : RegionAction → ℕ → ℕ
given (hand_over r) q = if r == q then 1 else 0
given _ q = 0

abbrev pub at_region : ℕ → Option Infos → Option Info
at_region q none = none
at_region q (some infos) = some (infos q)

module _ (infos : Infos) (others : ℕ → ℕ) (owned : List ℕ)
    (counted : (q : ℕ) → count q owned + others q ≡ holders (infos q)) where
  pub perform-ne-none :
      (a : RegionAction) → act a owned ≢ panics → Happens a infos → perform a infos ≢ none
  unfolding perform act Availability.mark_available
  perform-ne-none (mark_available r) safe happens =
      ground (arith, safe, counted r, holds-count r owned)
  perform-ne-none (mark_unavailable r b) safe happens = λ e. cc
  perform-ne-none (hand_over r) safe happens = λ e. cc
  perform-ne-none (del_region r) safe happens = λ e. cc
  perform-ne-none (del_client r) safe happens = λ e. cc
  perform-ne-none (put_region r) safe happens = λ e. cc
  perform-ne-none (set_client r c) safe happens = λ e. cc
  perform-ne-none (put_client addr r c) safe happens = λ e. cc
  perform-ne-none (dial c) safe happens = λ e. cc

  pub at :
      (q : ℕ) {o : Option Infos} {infos' : Infos}
      → o ≡ some infos'
      → at_region q o ≡ some (infos' q)
  at q done = ap (at_region q) done

  pub keeps-counted :
      (a : RegionAction) {infos' : Infos}
      → act a owned ≢ panics
      → Happens a infos
      → perform a infos ≡ some infos'
      → (q : ℕ) → count q (keeps a owned) + given a q + others q ≡ holders (infos' q)
  unfolding perform act keeps holds count Availability.mark_available Availability.mark_unavailable
  keeps-counted (mark_available r) safe happens done q =
      ground
        (arith, safe, happens, counted q, at q done, holds-count r owned, count-release q r owned)
  keeps-counted (mark_unavailable r true) safe happens done q =
      ground (arith, safe, happens, counted q, counted r, at q done, holds-count r owned)
  keeps-counted (mark_unavailable r false) safe happens done q =
      ground (arith, safe, happens, counted q, at q done)
  keeps-counted (hand_over r) safe happens done q =
      ground (arith, safe, counted q, at q done, count-release q r owned)
  keeps-counted (del_region r) safe happens done q = ground (arith, counted q, at q done)
  keeps-counted (del_client r) safe happens done q = ground (arith, counted q, at q done)
  keeps-counted (put_region r) safe happens done q = ground (arith, counted q, at q done)
  keeps-counted (set_client r c) safe happens done q = ground (arith, counted q, at q done)
  keeps-counted (put_client addr r c) safe happens done q = ground (arith, counted q, at q done)
  keeps-counted (dial c) safe happens done q = ground (arith, counted q, at q done)

  pub act-ne-err : (a : RegionAction) → Happens a infos → act a owned ≢ err tt
  unfolding act Availability.mark_unavailable
  act-ne-err (mark_available r) happens = ground arith
  act-ne-err (mark_unavailable r true) happens =
      ground (arith, happens, counted r, holds-count r owned)
  act-ne-err (mark_unavailable r false) happens = λ e. cc
  act-ne-err (hand_over r) happens = ground arith
  act-ne-err (del_region r) happens = λ e. cc
  act-ne-err (del_client r) happens = λ e. cc
  act-ne-err (put_region r) happens = λ e. cc
  act-ne-err (set_client r c) happens = λ e. cc
  act-ne-err (put_client addr r c) happens = λ e. cc
  act-ne-err (dial c) happens = λ e. cc

-- A goroutine stays safe after an action that happens.
pub keeps-IsSafe :
    (a : RegionAction) (rest : List RegionAction) (owned : List ℕ)
    → act a owned ≢ err tt
    → IsSafe (owned, a ∷ rest)
    → (act a owned ≢ panics) × IsSafe (keeps a owned, rest)
unfolding settle keeps
keeps-IsSafe a rest owned no_err safe = elim (Result-cases (act a owned)) [
  | inl (next, e) ↦ ((λ p. ground (arith, e, p)), (λ p. safe (ground (arith, e, p))))
  | inr (inl e) ↦ absurd (no_err e)
  | inr (inr e) ↦ absurd (safe (rw (e, ◌>>=◌) refl))
]
