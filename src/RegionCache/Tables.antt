-- ===== src/RegionCache/Tables.antt =====
-- When isRegionOverlap denies an overlap, for regions as HBase makes them.
use gohbase.Prelude.{
  ℕ, ◌≡◌, refl, sym, ap, ◌≢◌, ◌⊎◌, inl, inr, true, false, ◌||◌, Option, none, some, [], ◌∷◌, ◌++◌,
  arith, ◌==◌, Bool-cases, length,
}
use gohbase.Bytes.{Bytes}
use gohbase.Bytes.Compare.{compare_bytes-flip, equal_iff, bytes_le, bytes_lt}
use gohbase.RegionName.Order.{Lacks}
use gohbase.Region.{Region, fully_qualified_table, colon, is_region_overlap, bytes_of}
use gohbase.Region.Overlap.{empty_iff, SameTable}
use gohbase.RegionCache.Entries.{IsNamed}

separated :
    (c : ℕ) (a a' b b' : Bytes)
    → Lacks c a
    → Lacks c a'
    → a ++ (c ∷ b) ≡ a' ++ (c ∷ b')
    → (a ≡ a') × (b ≡ b')
separated c [] [] b b' h h' e = ground arith
separated c [] (y ∷ a') b b' h (hy, h') e = absurd (ground arith)
separated c (x ∷ a) [] b b' (hx, h) h' e = absurd (ground arith)
separated c (x ∷ a) (y ∷ a') b b' (hx, h) (hy, h') e = ground (arith, separated c a a' b b' h h')

lacking : (c : ℕ) (a b b' : Bytes) → Lacks c b' → a ++ (c ∷ b) ≢ b'
lacking c [] b [] h e = ground arith
lacking c (x ∷ a) b [] h e = ground arith
lacking c [] b (y ∷ b') (hy, h) e = ground arith
lacking c (x ∷ a) b (y ∷ b') (hy, h) e = lacking c a b b' h (ground arith)

-- Namespace and table are read off from the qualified name.
pub fully_qualified_table-SameTable :
    (a b : Region)
    → IsNamed a
    → IsNamed b
    → fully_qualified_table a ≡ fully_qualified_table b
    → SameTable a b
unfolding fully_qualified_table
fully_qualified_table-SameTable a b ha hb e =
    by_namespaces a.namespace b.namespace ha.namespace_lacks_colon hb.namespace_lacks_colon e
  where
    by_namespaces :
        (n n' : Option Bytes)
        → Lacks colon (bytes_of n)
        → Lacks colon (bytes_of n')
        → (elim n [ none ↦ a.table | some m ↦ m ++ (colon ∷ a.table) ])
          ≡ (elim n' [ none ↦ b.table | some m ↦ m ++ (colon ∷ b.table) ])
        → (bytes_of n ≡ bytes_of n') × (a.table ≡ b.table)
    by_namespaces none none h h' e = (refl, e)
    by_namespaces none (some m) h h' e =
        absurd (lacking colon m b.table a.table ha.table_lacks_colon (sym e))
    by_namespaces (some m) none h h' e =
        absurd (lacking colon m a.table b.table hb.table_lacks_colon e)
    by_namespaces (some m) (some m') h h' e = separated colon m m' a.table b.table h h' e

SameTable-fully_qualified_table :
    (a b : Region)
    → IsNamed a
    → IsNamed b
    → SameTable a b
    → fully_qualified_table a ≡ fully_qualified_table b
unfolding fully_qualified_table
SameTable-fully_qualified_table a b ha hb (same_ns, same_table) =
    by_namespaces a.namespace b.namespace ha.namespace_set hb.namespace_set same_ns
  where
    by_namespaces :
        (n n' : Option Bytes)
        → n ≢ some []
        → n' ≢ some []
        → bytes_of n ≡ bytes_of n'
        → (elim n [ none ↦ a.table | some m ↦ m ++ (colon ∷ a.table) ])
          ≡ (elim n' [ none ↦ b.table | some m ↦ m ++ (colon ∷ b.table) ])
    by_namespaces none none h h' e = same_table
    by_namespaces none (some m) h h' e = absurd (h' (ap some (sym e)))
    by_namespaces (some m) none h h' e = absurd (h (ap some e))
    by_namespaces (some m) (some m') h h' e = ground (arith, e, same_table)

overlap-SameTable : (a b : Region) → is_region_overlap a b ≡ true → SameTable a b
unfolding is_region_overlap
overlap-SameTable a b h = (
  (equal_iff (bytes_of a.namespace) (bytes_of b.namespace)).0 (ground arith),
  (equal_iff a.table b.table).0 (ground arith),
)

-- Regions of different tables do not overlap.
pub overlap-other_table :
    (a b : Region)
    → IsNamed a
    → IsNamed b
    → fully_qualified_table a ≢ fully_qualified_table b
    → is_region_overlap a b ≡ false
overlap-other_table a b ha hb ne = elim (Bool-cases (is_region_overlap a b)) [
  | inl shares ↦
      absurd (ne (SameTable-fully_qualified_table a b ha hb (overlap-SameTable a b shares)))
  | inr apart ↦ apart
]

pub overlap-ends_before :
    (a b : Region)
    → a.stop_key ≢ []
    → bytes_le a.stop_key b.start_key ≡ true
    → is_region_overlap a b ≡ false
unfolding is_region_overlap
overlap-ends_before a b ended le = ground (arith, ended, le, (empty_iff a.stop_key).0)

pub overlap-starts_behind :
    (a b : Region)
    → b.stop_key ≢ []
    → bytes_le b.stop_key a.start_key ≡ true
    → is_region_overlap a b ≡ false
unfolding is_region_overlap
overlap-starts_behind a b ended le =
    ground (arith, ended, le, (empty_iff b.stop_key).0, compare_bytes-flip a.start_key b.stop_key)

-- A region of the same table that ends behind the start of another one and does not overlap it
-- stands behind its end.
pub starts_behind :
    (a b : Region)
    → SameTable a b
    → (a.stop_key ≡ []) ⊎ (bytes_lt b.start_key a.stop_key ≡ true)
    → is_region_overlap a b ≡ false
    → (b.stop_key ≢ []) × (bytes_le b.stop_key a.start_key ≡ true)
unfolding is_region_overlap
starts_behind a b (same_ns, same_table) ends apart =
    let closed : ((length b.stop_key == 0 || bytes_lt a.start_key b.stop_key) ≡ false) = ground (
      arith,
      apart,
      (equal_iff (bytes_of a.namespace) (bytes_of b.namespace)).1 same_ns,
      (equal_iff a.table b.table).1 same_table,
      (empty_iff a.stop_key).1,
      ends,
      compare_bytes-flip a.stop_key b.start_key,
    ) in
    (
      λ e. ground (arith, closed, (empty_iff b.stop_key).1 e),
      ground (arith, closed, compare_bytes-flip a.start_key b.stop_key),
    )
