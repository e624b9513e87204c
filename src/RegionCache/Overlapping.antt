-- ===== src/RegionCache/Overlapping.antt =====
-- Which entries overlap a region, and where they stand.
use gohbase.Prelude.{
  ◌≡◌, refl, sym, subst, ◌∙◌, ◌≢◌, inl, inr, true, false, List, [], ◌∷◌, arith, if◌then◌else◌,
  Bool-cases, All,
}
use Prim.Native.Nat.{Ordering}
use gohbase.Bytes.{Bytes}
use gohbase.Bytes.Compare.{
  compare_bytes, compare_bytes-flip, equal, equal_iff, bytes_le, bytes_lt, bytes_le_lt_trans,
  bytes_lt_le_trans, bytes_le_trans,
}
use gohbase.RegionName.Order.{compare_bytes_refl}
use gohbase.Region.{Region, fully_qualified_table, is_region_overlap}
use gohbase.Region.Overlap.{IsRange}
use gohbase.RegionCache.{Entry}
use gohbase.RegionCache.Entries.{IsNamed, IsEntry, AreEntries, Before, unwind, position}
use gohbase.RegionCache.Tables.{
  fully_qualified_table-SameTable, overlap-other_table, overlap-ends_before, overlap-starts_behind,
  starts_behind,
}

-- The regions of a list of entries that overlap a region, by a test of each of them.
unfoldable pub overlapping : Region → List Entry → List Region
overlapping reg [] = []
overlapping reg (e ∷ es) =
    if is_region_overlap e.1 reg then e.1 ∷ overlapping reg es else overlapping reg es

position-Le :
    (table key : Bytes) (reg : Region)
    → position table key reg ≡ Ordering.gt
    → (fully_qualified_table reg ≡ table → bytes_le reg.start_key key ≡ true)
      × (bytes_le (fully_qualified_table reg) table ≡ true)
unfolding position
position-Le table key reg at = ground (
  arith,
  at,
  compare_bytes_refl table,
  compare_bytes-flip table (fully_qualified_table reg),
  compare_bytes-flip key reg.start_key,
)

position-Lt :
    (table key : Bytes) (reg : Region)
    → position table key reg ≡ Ordering.lt
    → (fully_qualified_table reg ≡ table → bytes_lt key reg.start_key ≡ true)
      × (bytes_le table (fully_qualified_table reg) ≡ true)
unfolding position
position-Lt table key reg at = ground (
  arith,
  at,
  compare_bytes_refl table,
  compare_bytes-flip table (fully_qualified_table reg),
  compare_bytes-flip key reg.start_key,
)

bytes_lt_irrefl : (a b : Bytes) → a ≡ b → bytes_lt a b ≢ true
bytes_lt_irrefl a b e h =
    let same : compare_bytes a b ≡ Ordering.eq =
      subst (λ u. compare_bytes a u ≡ Ordering.eq) e (compare_bytes_refl a) in
    ground (arith, same, h)

module _ (reg : Region) (h : IsNamed reg) where
  -- What ends before a region that the search stands behind does not overlap.
  pub overlap-behind :
      (y x : Region)
      → IsNamed y
      → Before y x
      → position (fully_qualified_table reg) reg.start_key x ≡ Ordering.gt
      → is_region_overlap y reg ≡ false
  overlap-behind y x hy (inl lt) at = overlap-other_table y reg hy h (λ e.
      bytes_lt_irrefl (fully_qualified_table y) (fully_qualified_table reg) e (
        bytes_lt_le_trans (fully_qualified_table y) (fully_qualified_table x)
          (fully_qualified_table reg) lt
          (position-Le (fully_qualified_table reg) reg.start_key x at).1))
  overlap-behind y x hy (inr (same, ended, le)) at =
      elim (Bool-cases (equal (fully_qualified_table y) (fully_qualified_table reg))) [
        | inl alike ↦ overlap-ends_before y reg ended (
            bytes_le_trans y.stop_key x.start_key reg.start_key le (
              (position-Le (fully_qualified_table reg) reg.start_key x at).0
                (sym same ∙ (equal_iff _ _).0 alike)))
        | inr other ↦
            overlap-other_table y reg hy h (λ e. ground (arith, other, (equal_iff _ _).1 e))
      ]

  -- Once a region that the search stands before does not overlap, none behind it does.
  overlap-ahead :
      (a b : Region)
      → IsNamed a
      → IsNamed b
      → Before a b
      → position (fully_qualified_table reg) reg.start_key a ≡ Ordering.lt
      → is_region_overlap a reg ≡ false
      → is_region_overlap b reg ≡ false
  overlap-ahead a b ha hb before at apart =
      elim (Bool-cases (equal (fully_qualified_table b) (fully_qualified_table reg))) [
        | inl alike ↦ same_table ((equal_iff _ _).0 alike) before ha.is_range
        | inr other ↦
            overlap-other_table b reg hb h (λ e. ground (arith, other, (equal_iff _ _).1 e))
      ]
    where
      same_table :
          fully_qualified_table b ≡ fully_qualified_table reg
          → Before a b
          → IsRange a
          → is_region_overlap b reg ≡ false
      same_table e (inl lt) range = absurd (
          bytes_lt_irrefl (fully_qualified_table reg) (fully_qualified_table b) (sym e) (
            bytes_le_lt_trans (fully_qualified_table reg) (fully_qualified_table a)
              (fully_qualified_table b)
              (position-Lt (fully_qualified_table reg) reg.start_key a at).1 lt))
      same_table e (inr (same, ended, le)) (inl open_end) = absurd (ended open_end)
      same_table e (inr (same, ended, le)) (inr range) =
          let from : bytes_lt reg.start_key a.start_key ≡ true =
            (position-Lt (fully_qualified_table reg) reg.start_key a at).0 (same ∙ e) in
          let range_le : bytes_le a.start_key a.stop_key ≡ true = ground (arith, range) in
          let (closed, behind) =
            starts_behind a reg (fully_qualified_table-SameTable a reg ha h (same ∙ e))
              (inr (bytes_lt_le_trans reg.start_key a.start_key a.stop_key from range_le)) apart in
          overlap-starts_behind b reg closed (
            bytes_le_trans reg.stop_key a.start_key b.start_key behind
              (bytes_le_trans a.start_key a.stop_key b.start_key range_le le))

-- Once an entry does not overlap, none behind it does.
abbrev pub Downward : Region → List Entry → Type 0
Downward reg [] = Unit {0}
Downward reg (x ∷ xs) =
    (is_region_overlap x.1 reg ≡ false → All (λ y. is_region_overlap y.1 reg ≡ false) xs)
    × Downward reg xs

pub overlapping-none :
    (reg : Region) (xs : List Entry)
    → All (λ y. is_region_overlap y.1 reg ≡ false) xs
    → overlapping reg xs ≡ []
unfolding overlapping
overlapping-none reg [] h = refl
overlapping-none reg (x ∷ xs) (hx, h) = rw hx (overlapping-none reg xs h)

pub overlapping-unwind :
    (reg : Region) (before after : List Entry)
    → All (λ y. is_region_overlap y.1 reg ≡ false) before
    → overlapping reg (unwind before after) ≡ overlapping reg after
unfolding overlapping
overlapping-unwind reg [] after h = refl
overlapping-unwind reg (x ∷ before) after (hx, h) =
    overlapping-unwind reg before (x ∷ after) h ∙ rw hx

module _ (reg : Region) (h : IsNamed reg) where
  pub ahead-Downward :
      (es : List Entry)
      → AreEntries es
      → All (λ e. position (fully_qualified_table reg) reg.start_key e.1 ≡ Ordering.lt) es
      → Downward reg es
  ahead-Downward [] cached ahead = tt
  ahead-Downward (e ∷ es) ((he, named), (each, disjoint)) (at, ahead) =
      (λ apart. none_of es named each apart, ahead-Downward es (named, disjoint) ahead)
    where
      none_of :
          (ys : List Entry)
          → All IsEntry ys
          → All (λ y. Before e.1 y.1) ys
          → is_region_overlap e.1 reg ≡ false
          → All (λ y. is_region_overlap y.1 reg ≡ false) ys
      none_of [] named each apart = tt
      none_of (y ∷ ys) (hy, named) (before, each) apart =
          (overlap-ahead reg h e.1 y.1 he.1 hy.1 before at apart, none_of ys named each apart)
