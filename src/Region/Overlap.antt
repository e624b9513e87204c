-- ===== src/Region/Overlap.antt =====
-- caches.go (isRegionOverlap): the keys of two regions.
use gohbase.Prelude.{◌≡◌, refl, ◌↔◌, ◌⊎◌, inl, inr, true, [], ◌∷◌, arith, ◌==◌, Bool-cases, length}
use gohbase.Bytes.{Bytes}
use gohbase.Bytes.Compare.{
  bytes_le_refl, bytes_lt, bytes_le, equal, equal_iff, bytes_le_lt_trans, compare_bytes-flip,
}
use gohbase.Region.{Region, is_region_overlap, bytes_of}

-- The keys of a region: from its start key to before its stop key, or without an end.
abbrev pub Holds : Region → Bytes → Type 0
Holds reg key =
    (bytes_le reg.start_key key ≡ true) × ((reg.stop_key ≡ []) ⊎ (bytes_lt key reg.stop_key ≡ true))

-- Regions of the same table.
abbrev pub SameTable : Region → Region → Type 0
SameTable a b = (bytes_of a.namespace ≡ bytes_of b.namespace) × (a.table ≡ b.table)

-- A region's range is not empty: it holds its own start key.
abbrev pub IsRange : Region → Type 0
IsRange reg = (reg.stop_key ≡ []) ⊎ (bytes_lt reg.start_key reg.stop_key ≡ true)

pub empty_iff : (b : Bytes) → ((length b == 0) ≡ true) ↔ (b ≡ [])
empty_iff [] = (λ _. refl, λ _. refl)
empty_iff (x ∷ b) = (λ h. absurd (ground arith), λ h. cc)

-- Two regions overlap, as isRegionOverlap says, exactly when they belong to the same table and
-- some key lies in both; the regions' own ranges are not empty.
pub is_region_overlap_iff :
    (a b : Region)
    → IsRange a
    → IsRange b
    → (is_region_overlap a b ≡ true) ↔ (SameTable a b × ((key : Bytes) × Holds a key × Holds b key))
unfolding is_region_overlap
is_region_overlap_iff a b ra rb = (to, from)
  where
    to : is_region_overlap a b ≡ true → SameTable a b × ((key : Bytes) × Holds a key × Holds b key)
    to h =
        let same_namespace : equal (bytes_of a.namespace) (bytes_of b.namespace) ≡ true =
          ground arith in
        let same_table : equal a.table b.table ≡ true = ground arith in
        let same : SameTable a b =
          ((equal_iff _ _).0 same_namespace, (equal_iff _ _).0 same_table) in
        let before_b : (b.stop_key ≡ []) ⊎ (bytes_lt a.start_key b.stop_key ≡ true) =
          ground (arith, (empty_iff b.stop_key).0) in
        let before_a : (a.stop_key ≡ []) ⊎ (bytes_lt b.start_key a.stop_key ≡ true) =
          ground (arith, (empty_iff a.stop_key).0, compare_bytes-flip a.stop_key b.start_key) in
        elim (Bool-cases (bytes_le a.start_key b.start_key)) [
          | inl le ↦ (same, (b.start_key, (le, before_a), (bytes_le_refl b.start_key, rb)))
          | inr gt ↦ (
            same,
            (
              a.start_key,
              (bytes_le_refl a.start_key, ra),
              (ground (arith, compare_bytes-flip a.start_key b.start_key), before_b),
            ),
          )
        ]

    from :
        SameTable a b × ((key : Bytes) × Holds a key × Holds b key) → is_region_overlap a b ≡ true
    from (same, (key, ha, hb)) = ground (
      arith,
      (equal_iff (bytes_of a.namespace) (bytes_of b.namespace)).1 same.0,
      (equal_iff a.table b.table).1 same.1,
      (empty_iff a.stop_key).1,
      (empty_iff b.stop_key).1,
      bytes_le_lt_trans a.start_key key b.stop_key ha.0,
      bytes_le_lt_trans b.start_key key a.stop_key hb.0,
      compare_bytes-flip a.stop_key b.start_key,
    )
