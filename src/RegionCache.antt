-- ===== src/RegionCache.antt =====
-- caches.go (keyRegionCache: get, getOverlaps, put, del) and rpc.go (getRegionFromCache). The tree
-- of modernc.org/b and its enumerators are parameters; the lock makes each operation one step.
pub mod Entries
pub mod Place
pub mod Lookup
pub mod Tables
pub mod Overlapping
pub mod Overlaps
pub mod Names
pub mod Sorted
pub mod Listed
pub mod Put
pub mod Del
mod ListTree
mod Examples
pub mod Laws
use gohbase.Prelude.{
  ℕ, zero, suc, Bool, true, false, ◌&&◌, ◌||◌, not, Option, none, some, List, [], ◌∷◌, ltb, ◌==◌,
  if◌then◌else◌, length, Result, ok, err, panics, ◌>>=◌, ◌>>◌, or_panic,
}
use gohbase.Bytes.{Bytes}
use gohbase.Bytes.Compare.{equal, bytes_le}
use gohbase.Region.{Region, create_region_search_key, fully_qualified_table, is_region_overlap}

abbrev pub Entry : Type 0
Entry = Bytes × Region

-- b.Tree: `find` is what Put hands to its updater, and `set` what Put does where the updater says
-- so. An enumerator's step is `none` at io.EOF.
pub record Tree : Type 1 where
  pub Root : Type 0
  pub Enumerator : Type 0
  pub len : Root → ℕ
  pub find : Root → Bytes → Option Region
  pub set : Root → Bytes → Region → Root
  pub delete : Root → Bytes → Root × Bool
  pub seek : Root → Bytes → Enumerator × Bool
  pub seek_first : Root → Option Enumerator
  pub prev : Enumerator → Option Entry × Enumerator
  pub next : Enumerator → Option Entry × Enumerator

-- log.Fatalf ends the program, which is a panic of the model.
abbrev fatal_if : Bool → Result (Unit {0}) (Unit {0})
fatal_if found = if found then panics else ok tt

-- The checks of the region that getRegionFromCache found.
pub checked : Bytes → Bytes → Option Entry → Option Region
checked table key none = none
checked table key (some (_, reg)) =
    if not (equal (fully_qualified_table reg) table)
    then none
    else if not (length reg.stop_key == 0) && bytes_le reg.stop_key key
    then none
    else some reg

abbrev pub meta_table_name : Bytes
meta_table_name = b'h' ∷ b'b' ∷ b'a' ∷ b's' ∷ b'e' ∷ b':' ∷ b'm' ∷ b'e' ∷ b't' ∷ b'a' ∷ []

-- What a client is made with: whether it talks to the master, and its two fixed regions.
pub record Client : Type 0 where
  pub is_master : Bool
  pub admin_region_info : Region
  pub meta_region_info : Region

-- The loop that looks for a region that is younger than the new one.
unfoldable pub any_younger : Region → List Region → Bool
any_younger reg [] = false
any_younger reg (o ∷ os) = ltb reg.id o.id || any_younger reg os

module _ (tree : Tree) where
  open tree use {Root, Enumerator, len, find, set, delete, seek, seek_first, prev, next}

  pub get : Root → Bytes → Result (Unit {0}) (Option Entry)
  get t key = let (e, found) = seek t key in fatal_if found >> ok (prev e).0

  pub get_region_from_cache : Client → Root → Bytes → Bytes → Result (Unit {0}) (Option Region)
  get_region_from_cache c t table key =
      let cached : Result (Unit {0}) (Option Region) = (do
        region_name ← or_panic (create_region_search_key table key)
        found ← get t region_name
        ok (checked table key found)) in
      if c.is_master
      then ok (some c.admin_region_info)
      else if equal table meta_table_name
      then ok (some c.meta_region_info)
      else cached

  -- The loop that appends overlapping regions. `fuel` bounds the entries that are left.
  pub overlaps_loop : ℕ → Region → Option Entry × Enumerator → Result (Unit {0}) (List Region)
  overlaps_loop zero reg step = err tt
  overlaps_loop (suc fuel) reg (none, e) = ok []
  overlaps_loop (suc fuel) reg (some (k, v), e) =
      let more : Result (Unit {0}) (List Region) =
        (overlaps_loop fuel reg (next e) >>= λ vs. ok (v ∷ vs)) in
      if is_region_overlap v reg then more else ok []

  -- What follows the first region that is looked at.
  pub first_overlap : ℕ → Region → Option Entry × Enumerator → Result (Unit {0}) (List Region)
  first_overlap fuel reg (none, e) = panics
  first_overlap fuel reg (some (k, v), e) =
      overlaps_loop fuel reg (next e) >>= λ vs. ok (if is_region_overlap v reg then v ∷ vs else vs)

  -- Where the enumerator stands after Prev and Next, or before the first entry.
  pub reposition : Root → Option Entry × Enumerator → Result (Unit {0}) Enumerator
  reposition t (some entry, e) = ok e
  reposition t (none, e) = or_panic (seek_first t)

  pub get_overlaps : Root → Region → Result (Unit {0}) (List Region)
  get_overlaps t reg =
      let search : Result (Unit {0}) (List Region) = (do
        key ← or_panic (create_region_search_key (fully_qualified_table reg) reg.start_key)
        fatal_if (seek t key).1
        e ← reposition t (next (prev (seek t key).0).1)
        first_overlap (suc (len t)) reg (next e)) in
      if len t == 0 then ok [] else search

  -- What put leaves behind: the tree, what it returns, and the regions that it marks as dead.
  pub record Placed : Type 0 where
    pub root : Root
    pub overlaps : List Region
    pub replaced : Bool
    pub dead : List Region

  pub delete_all : Root → List Region → Root
  delete_all t [] = t
  delete_all t (o ∷ os) = delete_all (delete t o.name).0 os

  pub put : Root → Region → Result (Unit {0}) Placed
  put t reg = elim (find t reg.name) [
    | some v ↦ ok (record { root = t; overlaps = v ∷ []; replaced = false; dead = [] })
    | none ↦ (do
      os ← get_overlaps t reg
      ok (
          if any_younger reg os
          then record { root = t; overlaps = os; replaced = false; dead = [] }
          else record {
            root = delete_all (set t reg.name reg) os;
            overlaps = os;
            replaced = true;
            dead = os;
          }))
  ]

  -- The tree, whether the region was in it, and the region that is marked as dead.
  pub del : Root → Region → Root × (Bool × Region)
  del t reg = ((delete t reg.name).0, ((delete t reg.name).1, reg))
