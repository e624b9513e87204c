-- ===== src/RegionCache/Entries.antt =====
-- The regions that the cache holds, in the order of their names, and where a search key stands
-- among them.
use gohbase.Prelude.{
  Pairwise, ℕ, ◌+◌, ◌≤◌, ◌<◌, ◌≡◌, ap, ◌∙◌, ◌≢◌, ◌⊎◌, inl, inr, true, some, List, [], ◌∷◌, arith,
  length, All,
}
use Prim.Native.Nat.{Ordering}
use gohbase.Prelude.Int.{ℤ, sign}
use gohbase.Bytes.{Bytes}
use gohbase.Bytes.Compare.{compare_bytes, bytes_le, bytes_lt, bytes_le_lt_trans, bytes_lt_le_trans}
use gohbase.RegionName.{comma, compare_names}
use gohbase.RegionName.Order.{Lacks, region_name, then_by, compare_names-lex}
use gohbase.Region.{Region, fully_qualified_table, colon, max_int16, bytes_of}
use gohbase.Region.Overlap.{IsRange}
use gohbase.Region.SearchKey.{colon-ne-comma, colon_above}
use gohbase.RegionCache.{Entry}

-- A region as HBase makes it: its name is `table,start_key,code`, where the code starts with a
-- digit, names hold no separators, and its range is not empty.
pub record IsNamed (reg : Region) : Type 0 where
  pub digit : ℕ
  pub code : Bytes
  pub is_name : reg.name ≡ region_name (fully_qualified_table reg) reg.start_key (digit ∷ code)
  pub lacks_comma : Lacks comma (fully_qualified_table reg)
  pub code_lacks_comma : Lacks comma (digit ∷ code)
  pub below_colon : digit < colon
  pub is_range : IsRange reg
  pub namespace_set : reg.namespace ≢ some []
  pub namespace_lacks_colon : Lacks colon (bytes_of reg.namespace)
  pub table_lacks_colon : Lacks colon reg.table

-- Region a ends before region b starts, or its table stands before that of b.
abbrev pub Before : Region → Region → Type 0
Before a b =
    (bytes_lt (fully_qualified_table a) (fully_qualified_table b) ≡ true)
    ⊎ ((fully_qualified_table a ≡ fully_qualified_table b)
        × (a.stop_key ≢ [])
        × (bytes_le a.stop_key b.start_key ≡ true))

-- Regions in order, none of which overlaps another.
abbrev pub AreDisjoint : List Entry → Type 0
AreDisjoint = Pairwise (λ e e'. Before e.1 e'.1)

-- Each entry is stored under its region's name.
abbrev pub IsEntry : Entry → Type 0
IsEntry e = (e.0 ≡ e.1.name) × IsNamed e.1

abbrev pub AreEntries : List Entry → Type 0
AreEntries es = All IsEntry es × AreDisjoint es

-- The entries before a place, the closest one first, and those behind it.
abbrev pub unwind : List Entry → List Entry → List Entry
unwind [] after = after
unwind (e ∷ before) after = unwind before (e ∷ after)

-- Where a search for a table and a key stands from a region: behind it or before it.
unfoldable pub position : Bytes → Bytes → Region → Ordering
position table key reg =
    then_by (compare_bytes table (fully_qualified_table reg))
      (then_by (compare_bytes key reg.start_key) Ordering.gt)

pub position-cases :
    (table key : Bytes) (reg : Region)
    → (position table key reg ≡ Ordering.gt) ⊎ (position table key reg ≡ Ordering.lt)
unfolding position
position-cases table key reg = ground arith

-- A region that stands behind another one that the search stands before is behind it, too.
pub position-Before :
    (table key : Bytes) (a b : Region)
    → IsRange a
    → Before a b
    → position table key a ≡ Ordering.lt
    → position table key b ≡ Ordering.lt
unfolding position
position-Before table key a b (inl open_end) (inr (same, ended, le)) at_a = absurd (ended open_end)
position-Before table key a b (inr range) (inr (same, ended, le)) at_a =
    let behind : bytes_lt key a.start_key ≡ true → bytes_lt key b.start_key ≡ true = λ h.
      bytes_lt_le_trans key a.stop_key b.start_key
        (bytes_lt_le_trans key a.start_key a.stop_key h (ground (arith, range))) le in
    ground (arith, behind, same)
position-Before table key a b range (inl lt) at_a = ground (
  arith,
  bytes_lt_le_trans table (fully_qualified_table a) (fully_qualified_table b),
  bytes_le_lt_trans table (fully_qualified_table a) (fully_qualified_table b),
  lt,
)

-- The search key compares with the name of a region as their positions say.
pub search-position :
    (table key : Bytes) (reg : Region)
    → Lacks comma table
    → length table + length key + 3 ≤ max_int16
    → IsNamed reg
    → (d : ℤ) × (compare_names (region_name table key (colon ∷ [])) reg.name ≡ some d)
      × (sign d ≡ position table key reg)
unfolding position
search-position table key reg lt short h =
    let (d, ran, ordered) =
      compare_names-lex table key (colon ∷ []) (fully_qualified_table reg) reg.start_key
        (h.digit ∷ h.code) lt (colon-ne-comma, tt) h.lacks_comma h.code_lacks_comma in
    (
      d,
      ap (compare_names (region_name table key (colon ∷ []))) h.is_name ∙ ran,
      ground (arith, ordered, colon_above h.digit h.code h.below_colon),
    )
