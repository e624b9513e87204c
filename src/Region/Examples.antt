-- ===== src/Region/Examples.antt =====
-- The theorems on regions and their names, applied to the regions of a small table.
use gohbase.Prelude.{◌≡◌, refl, ◌↔◌, inl, inr, true, some, [], ◌∷◌, arith, if◌then◌else◌}
use Prim.Native.Nat.{Ordering}
use gohbase.Prelude.Int.{ℤ, sign}
use gohbase.Bytes.{Bytes}
use gohbase.Bytes.Compare.{compare_bytes, bytes_lt, bytes_le}
use gohbase.RegionName.{comma, compare_names}
use gohbase.RegionName.Order.{region_name, Lacks, Ordered, compare_names-lex}
use gohbase.Region.{Region, take, create_region_search_key, is_region_overlap}
use gohbase.Region.SearchKey.{search_key-order}
use gohbase.Region.Overlap.{Holds, SameTable, is_region_overlap_iff}

abbrev table : Bytes
table = b't' ∷ b'1' ∷ []

abbrev other_table : Bytes
other_table = b't' ∷ []

-- A row key that holds a comma.
abbrev row : Bytes
row = b'a' ∷ comma ∷ b'b' ∷ []

abbrev code : Bytes
code = b'4' ∷ b'2' ∷ []

table-Lacks : Lacks comma table
table-Lacks = (omega arith, (omega arith, tt))

other_table-Lacks : Lacks comma other_table
other_table-Lacks = (omega arith, tt)

code-Lacks : Lacks comma code
code-Lacks = (omega arith, (omega arith, tt))

compare_names-lex_example : Ordered table row code other_table [] code
compare_names-lex_example =
    compare_names-lex table row code other_table [] code table-Lacks code-Lacks other_table-Lacks
      code-Lacks

search_key-order_example :
    (searched : Bytes) × (d : ℤ) × (create_region_search_key table row ≡ some searched)
    × (compare_names searched (region_name table (b'a' ∷ []) code) ≡ some d)
    × (sign d ≡ (if bytes_le (b'a' ∷ []) row then Ordering.gt else Ordering.lt))
search_key-order_example =
    search_key-order table row (b'a' ∷ []) b'4' (b'2' ∷ []) table-Lacks code-Lacks (omega arith)
      (omega arith)

search_key :
    create_region_search_key other_table (b'k' ∷ [])
    ≡ some (b't' ∷ comma ∷ b'k' ∷ comma ∷ b':' ∷ [])
unfolding create_region_search_key take
search_key = refl

abbrev part : Bytes → Bytes → Region
part start stop = record {
  id = 1;
  namespace = some (b'n' ∷ []);
  table = table;
  name = region_name table start code;
  start_key = start;
  stop_key = stop;
}

abbrev lower : Region
lower = part [] row

abbrev upper : Region
upper = part (b'a' ∷ []) []

below : bytes_lt [] row ≡ true
unfolding compare_bytes
below = refl

is_region_overlap_iff_example :
    (is_region_overlap lower upper ≡ true)
    ↔ (SameTable lower upper × ((key : Bytes) × Holds lower key × Holds upper key))
is_region_overlap_iff_example = is_region_overlap_iff lower upper (inr below) (inl refl)
