-- ===== src/RegionCache/Listed.antt =====
-- The cache as a list of entries: what put is to do to it, and the place of a name in it.
use gohbase.Prelude.{
  not, ℕ, leb, ◌&&◌, All-map, ◌≤◌, ◌≡◌, refl, sym, subst, inl, inr, Bool, true, false, Option, none,
  some, List, [], ◌∷◌, ◌++◌, arith, if◌then◌else◌, Bool-cases, All,
}
use Prim.Native.Nat.{Ordering}
use gohbase.Prelude.Int.{sign}
use gohbase.Bytes.{Bytes}
use gohbase.Bytes.Compare.{equal, equal_iff}
use gohbase.Region.{Region}
use gohbase.RegionName.{compare_names}
use gohbase.RegionCache.{Entry, any_younger}
use gohbase.RegionCache.Overlapping.{overlapping}
use gohbase.RegionCache.Sorted.{Below, Compares-unique, keep}
use gohbase.RegionCache.Laws.{Compares, Splits}

-- What is stored under a name, by a look at each entry.
unfoldable pub find_named : Bytes → List Entry → Option Region
find_named name [] = none
find_named name (e ∷ es) = if equal e.0 name then some e.1 else find_named name es

-- An entry added where its name belongs.
unfoldable pub insert_entry : Entry → List Entry → List Entry
insert_entry n [] = n ∷ []
insert_entry n (e ∷ es) = elim (compare_names n.0 e.0) [
  | none ↦ n ∷ e ∷ es
  | some d ↦ elim (sign d) [ Ordering.gt ↦ e ∷ insert_entry n es | _ ↦ n ∷ e ∷ es ]
]

-- Whether no region has a greater id.
unfoldable pub ids_up_to : ℕ → List Region → Bool
ids_up_to id [] = true
ids_up_to id (o ∷ os) = leb o.id id && ids_up_to id os

-- The cache as a list: what becomes of it when a region is put, which overlaps are reported, and
-- whether the region replaced them.
unfoldable pub put_entries : Region → List Entry → List Entry × (List Region × Bool)
put_entries reg es = elim (find_named reg.name es) [
  | some v ↦ (es, (v ∷ [], false))
  | none ↦
      if ids_up_to reg.id (overlapping reg es)
      then (insert_entry (reg.name, reg) (keep reg es), (overlapping reg es, true))
      else (es, (overlapping reg es, false))
]

pub any_younger-ids_up_to :
    (reg : Region) (os : List Region) → any_younger reg os ≡ not (ids_up_to reg.id os)
unfolding any_younger ids_up_to
any_younger-ids_up_to reg [] = refl
any_younger-ids_up_to reg (o ∷ os) = ground (arith, any_younger-ids_up_to reg os)

pub ids_up_to-All : (id : ℕ) (os : List Region) → ids_up_to id os ≡ true → All (λ o. o.id ≤ id) os
unfolding ids_up_to
ids_up_to-All id [] h = tt
ids_up_to-All id (o ∷ os) h = (ground arith, ids_up_to-All id os (ground arith))

pub distinct : (a b : Bytes) → Below a b → equal a b ≡ false
distinct a b (lt, gt) = elim (Bool-cases (equal a b)) [
  | inl same ↦
      let e : a ≡ b = (equal_iff a b).0 same in
      absurd (
        ground (
          arith,
          Compares-unique a b Ordering.lt Ordering.gt lt (
              subst (λ u. Compares u b Ordering.gt) (sym e)
                (subst (λ u. Compares b u Ordering.gt) e gt)),
        ))
  | inr other ↦ other
]

pub distinct_flip : (a b : Bytes) → Below a b → equal b a ≡ false
distinct_flip a b below =
    ground (arith, distinct a b below, (equal_iff a b).1, (equal_iff b a).0, λ (e : b ≡ a). sym e)

pub find_named-absent :
    (name : Bytes) (before after : List Entry)
    → All (λ e. Below e.0 name) before
    → All (λ e. Below name e.0) after
    → find_named name (before ++ after) ≡ none
unfolding find_named
find_named-absent name [] [] behind ahead = refl
find_named-absent name [] (e ∷ after) behind (a, ahead) =
    ground (arith, distinct_flip name e.0 a, find_named-absent name [] after tt ahead)
find_named-absent name (e ∷ before) after (b, behind) ahead =
    ground (arith, distinct e.0 name b, find_named-absent name before after behind ahead)

pub find_named-present :
    (name : Bytes) (before : List Entry) (v : Region) (after : List Entry)
    → All (λ e. Below e.0 name) before
    → find_named name (before ++ ((name, v) ∷ after)) ≡ some v
unfolding find_named
find_named-present name [] v after behind = ground (arith, (equal_iff name name).1 refl)
find_named-present name (e ∷ before) v after (b, behind) =
    ground (arith, distinct e.0 name b, find_named-present name before v after behind)

pub insert_entry-between :
    (n : Entry) (before after : List Entry)
    → All (λ e. Below e.0 n.0) before
    → All (λ e. Below n.0 e.0) after
    → insert_entry n (before ++ after) ≡ before ++ (n ∷ after)
unfolding insert_entry
insert_entry-between n [] [] behind ahead = refl
insert_entry-between n [] (e ∷ after) behind (((d, ran, s), _), ahead) = ground (arith, ran, s)
insert_entry-between n (e ∷ before) after ((_, (d, ran, s)), behind) ahead =
    ground (arith, ran, s, insert_entry-between n before after behind ahead)

pub splits :
    (key : Bytes) (before after : List Entry)
    → All (λ e. Below e.0 key) before
    → All (λ e. Below key e.0) after
    → Splits key before after
splits key before after behind ahead =
    (All-map (λ e b. b.1) before behind, All-map (λ e b. b.0) after ahead)
