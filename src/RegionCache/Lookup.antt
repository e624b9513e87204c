-- ===== src/RegionCache/Lookup.antt =====
-- rpc.go (getRegionFromCache): the lookup of a row over a list of regions.
use gohbase.Prelude.{
  All-map, ◌+◌, ◌≤◌, ◌≡◌, refl, sym, ap, subst, ◌∙◌, ◌≢◌, inl, inr, Bool, false, ◌&&◌, ◌||◌, Option,
  none, some, List, [], ◌∷◌, arith, ◌==◌, if◌then◌else◌, length, All, ok,
}
use Prim.Native.Nat.{Ordering}
use gohbase.Bytes.{Bytes}
use gohbase.Bytes.Compare.{
  compare_bytes, compare_bytes-flip, equal, equal_iff, bytes_le, bytes_lt, bytes_le_trans,
}
use gohbase.RegionName.{comma}
use gohbase.RegionName.Order.{Lacks, region_name, compare_bytes_refl}
use gohbase.Region.{Region, fully_qualified_table, colon, max_int16}
use gohbase.Region.SearchKey.{search_key-region_name}
use gohbase.Region.Overlap.{empty_iff}
use gohbase.RegionCache.{Entry, Tree, Client, meta_table_name, checked, get, get_region_from_cache}
use gohbase.RegionCache.Entries.{AreEntries, Before, unwind, position}
use gohbase.RegionCache.Place.{Place-of, AreDisjoint-unwind}
use gohbase.RegionCache.Laws.{TreeLaws, Stands, seek-Place}

-- The region belongs to the table and its range holds the key.
unfoldable pub holds : Bytes → Bytes → Region → Bool
holds table key reg =
    equal (fully_qualified_table reg) table
    && (bytes_le reg.start_key key && (length reg.stop_key == 0 || bytes_lt key reg.stop_key))

-- A linear search of the entries.
unfoldable pub find_holding : Bytes → Bytes → List Entry → Option Region
find_holding table key [] = none
find_holding table key (e ∷ es) =
    if holds table key e.1 then some e.1 else find_holding table key es

holds-ahead :
    (table key : Bytes) (reg : Region)
    → position table key reg ≡ Ordering.lt
    → holds table key reg ≡ false
unfolding position holds
holds-ahead table key reg at = ground (
  arith,
  at,
  (equal_iff (fully_qualified_table reg) table).0,
  compare_bytes_refl table,
  compare_bytes-flip key reg.start_key,
)

-- What ends before a region that the search stands behind does not hold the key.
holds-behind :
    (table key : Bytes) (reg next : Region)
    → Before reg next
    → position table key next ≡ Ordering.gt
    → holds table key reg ≡ false
unfolding position holds
holds-behind table key reg next (inl lt) at = ground (
  arith,
  lt,
  at,
  (equal_iff (fully_qualified_table reg) table).0,
  compare_bytes-flip table (fully_qualified_table next),
  compare_bytes-flip (fully_qualified_table reg) (fully_qualified_table next),
)
holds-behind table key reg next (inr (same, ended, le)) at =
    let same_table : fully_qualified_table reg ≡ table
        → compare_bytes table (fully_qualified_table next) ≡ Ordering.eq =
      λ h.
        subst (λ u. compare_bytes table u ≡ Ordering.eq) (sym h ∙ same)
          (compare_bytes_refl table) in
    ground (
      arith,
      at,
      ended,
      le,
      same_table,
      (equal_iff (fully_qualified_table reg) table).0,
      (empty_iff reg.stop_key).0,
      bytes_le_trans reg.stop_key next.start_key key le,
      compare_bytes-flip key next.start_key,
      compare_bytes-flip key reg.stop_key,
    )

find-unwind :
    (table key : Bytes) (before after : List Entry)
    → All (λ e. holds table key e.1 ≡ false) before
    → find_holding table key (unwind before after) ≡ find_holding table key after
unfolding find_holding
find-unwind table key [] after h = refl
find-unwind table key (e ∷ before) after (he, h) =
    find-unwind table key before (e ∷ after) h ∙ rw he

find-none :
    (table key : Bytes) (after : List Entry)
    → All (λ e. holds table key e.1 ≡ false) after
    → find_holding table key after ≡ none
unfolding find_holding
find-none table key [] h = refl
find-none table key (e ∷ after) (he, h) = rw he (find-none table key after h)

checked-holds :
    (table key k : Bytes) (reg : Region)
    → position table key reg ≡ Ordering.gt
    → checked table key (some (k, reg)) ≡ (if holds table key reg then some reg else none)
unfolding checked holds position
checked-holds table key k reg at = ground (
  arith,
  at,
  (equal_iff (fully_qualified_table reg) table).0,
  compare_bytes_refl table,
  compare_bytes-flip key reg.start_key,
  compare_bytes-flip key reg.stop_key,
)

module _ (tree : Tree) (laws : TreeLaws tree) where
  open tree use {Root, Enumerator, len, seek, seek_first, prev, next}
  open laws use {entries, seek_entries}

  checked-entries :
      (table key : Bytes) (before after : List Entry) (e : Enumerator)
      → AreEntries (unwind before after)
      → All (λ e. position table key e.1 ≡ Ordering.gt) before
      → All (λ e. position table key e.1 ≡ Ordering.lt) after
      → Stands tree e before after
      → checked table key (prev e).0 ≡ find_holding table key (unwind before after)
  unfolding Stands checked find_holding
  checked-entries table key [] after e cached behind ahead stands =
      ap (checked table key) stands.0
      ∙ sym (find-none table key after (All-map (λ e'. holds-ahead table key e'.1) after ahead))
  checked-entries table key (x ∷ before) after e (named, disjoint) (gt, behind) ahead stands =
      ap (checked table key) (stands-prev before stands)
      ∙ checked-holds table key x.0 x.1 gt
      ∙ ap (λ o. if holds table key x.1 then some x.1 else o)
          (sym (find-none table key after (All-map (λ e'. holds-ahead table key e'.1) after ahead)))
      ∙ unfold find_holding in
        sym (
          find-unwind table key before (x ∷ after) (
            All-map (λ y b. holds-behind table key y.1 x.1 b.0 gt) before
              (AreDisjoint-unwind before (x ∷ after) disjoint).0))
    where
      stands-prev : (before : List Entry) → Stands tree e (x ∷ before) after → (prev e).0 ≡ some x
      stands-prev [] stands = stands.0
      stands-prev (w ∷ before) stands = stands.0

  -- For a client of region servers, a table other than the meta table, and a row key that is not so
  -- long that the search key is shortened, getRegionFromCache ends without a panic and returns what
  -- a linear search of the cached regions finds: the region of this table whose range holds the
  -- row, or nil where there is none. The cached regions are stored under their names, in order, and
  -- do not overlap; the table's name holds no comma.
  pub get_region_from_cache-find_holding :
      (c : Client) (t : Root) (table key : Bytes)
      → c.is_master ≡ false
      → table ≢ meta_table_name
      → Lacks comma table
      → length table + length key + 3 ≤ max_int16
      → AreEntries (entries t)
      → get_region_from_cache tree c t table key ≡ ok (find_holding table key (entries t))
  unfolding get_region_from_cache get
  get_region_from_cache-find_holding c t table key not_master not_meta lacks short cached =
      let place = Place-of table key (entries t) cached in
      let searched = region_name table key (colon ∷ []) in
      let (missed, stands) = seek-Place tree laws t table key lacks short cached.0 place in
      let found : checked table key (prev (seek t searched).0).0
          ≡ find_holding table key (entries t) =
        checked-entries table key place.before place.after (seek t searched).0
          (subst AreEntries place.split cached) place.behind place.ahead stands
        ∙ ap (find_holding table key) (sym place.split) in
      ground (
        arith,
        not_master,
        not_meta,
        (equal_iff table meta_table_name).0,
        search_key-region_name table key short,
        missed,
        found,
      )
