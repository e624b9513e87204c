-- ===== src/Region/SearchKey.antt =====
-- Where the key that getRegionFromCache looks for stands among the names of regions.
use gohbase.Prelude.{
  ℕ, zero, suc, ◌+◌, ◌-◌, ◌≤◌, ◌<◌, ◌≡◌, refl, ap, ◌≢◌, some, [], ◌∷◌, ◌++◌, arith, ltb,
  if◌then◌else◌, length, length-append,
}
use Prim.Native.Nat.{Ordering}
use gohbase.Prelude.Int.{ℤ, sign}
use gohbase.Bytes.{Bytes}
use gohbase.Bytes.Compare.{compare_bytes, bytes_le, compare_bytes-flip}
use gohbase.RegionName.{comma, compare_names}
use gohbase.RegionName.Order.{Lacks, region_name, compare_names-lex, compare_bytes_refl}
use gohbase.Region.{create_region_search_key, colon, max_int16, take}

take_all : (n : ℕ) (b : Bytes) → n ≡ length b → take n b ≡ b
unfolding take
take_all zero [] h = refl
take_all zero (x ∷ b) h = absurd (omega arith)
take_all (suc n) [] h = absurd (omega arith)
take_all (suc n) (x ∷ b) h = ap (◌∷◌ x) (take_all n b (omega arith))

length-take-le : (n : ℕ) (b : Bytes) → length (take n b) ≤ n
unfolding take
length-take-le zero b = omega arith
length-take-le (suc n) [] = omega arith
length-take-le (suc n) (x ∷ b) = omega (arith, length-take-le n b)

-- A search key is never longer than the longest row key that HBase takes.
search_key-le-max_int16 :
    (table key : Bytes) {k : Bytes}
    → create_region_search_key table key ≡ some k
    → length k ≤ max_int16
unfolding create_region_search_key
search_key-le-max_int16 table key {k} h =
    let room = max_int16 - length table - 3 in
    let keylen = if ltb (length key) room then length key else room in
    let shape : k ≡ table ++ (comma ∷ (take keylen key ++ (comma ∷ colon ∷ []))) = ground arith in
    let fits : length table + 3 ≤ max_int16 = ground arith in
    let keylen-le : keylen ≤ room = ground arith in
    omega (
      arith,
      ap length shape,
      length-append table (comma ∷ (take keylen key ++ (comma ∷ colon ∷ []))),
      length-append (take keylen key) (comma ∷ colon ∷ []),
      length-take-le keylen key,
    )

pub search_key-region_name :
    (table key : Bytes)
    → length table + length key + 3 ≤ max_int16
    → create_region_search_key table key ≡ some (region_name table key (colon ∷ []))
unfolding create_region_search_key region_name
search_key-region_name table key short =
    let room = max_int16 - length table - 3 in
    let keylen = if ltb (length key) room then length key else room in
    let whole : keylen ≡ length key = ground arith in ground (arith, take_all keylen key whole)

pub colon-ne-comma : colon ≢ comma
colon-ne-comma = omega arith

pub colon_above :
    (digit : ℕ) (code : Bytes)
    → digit < colon
    → compare_bytes (colon ∷ []) (digit ∷ code) ≡ Ordering.gt
unfolding compare_bytes
colon_above digit code below = ground arith

-- The search key for a table and a row key is never equal to the name of a region of that table,
-- whose start code begins with a byte below ':', such as a digit; it stands behind that name if
-- the region starts at or before the row key, and before it otherwise. The table's name and the
-- code hold no comma, and the three together fit a row key.
pub search_key-order :
    (table key start : Bytes) (digit : ℕ) (code : Bytes)
    → Lacks comma table
    → Lacks comma (digit ∷ code)
    → digit < colon
    → length table + length key + 3 ≤ max_int16
    → (searched : Bytes) × (d : ℤ) × (create_region_search_key table key ≡ some searched)
      × (compare_names searched (region_name table start (digit ∷ code)) ≡ some d)
      × (sign d ≡ (if bytes_le start key then Ordering.gt else Ordering.lt))
search_key-order table key start digit code lt lc below short =
    let (d, ran, ordered) =
      compare_names-lex table key (colon ∷ []) table start (digit ∷ code) lt (colon-ne-comma, tt) lt
        lc in
    (
      region_name table key (colon ∷ []),
      d,
      search_key-region_name table key short,
      ran,
      ground (
        arith,
        ordered,
        compare_bytes_refl table,
        compare_bytes-flip key start,
        colon_above digit code below,
      ),
    )
