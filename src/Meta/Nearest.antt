-- ===== src/Meta/Nearest.antt =====
-- rpc.go (metaLookup): the scan of the meta table, and the checks of the region of its row.
use gohbase.Prelude.{
  ℕ, ◌+◌, ◌≤◌, ◌≡◌, refl, sym, ◌∙◌, ◌≢◌, inl, inr, true, false, Option, some, List, [], ◌∷◌, arith,
  if◌then◌else◌, length, ok, err, ◌>>=◌,
}
use gohbase.Prelude.Int.{pos}
use Prim.Native.Nat.{Ordering}
use gohbase.Bytes.{Bytes}
use gohbase.Bytes.Compare.{equal, equal_iff, compare_bytes-flip}
use gohbase.Cellblock.{Cell}
use gohbase.RegionName.{comma, compare_names}
use gohbase.RegionName.Order.{Lacks, region_name, compare_bytes_refl}
use gohbase.Region.{Region, colon, max_int16, fully_qualified_table}
use gohbase.Region.SearchKey.{search_key-region_name}
use gohbase.RegionCache.{meta_table_name}
use gohbase.RegionCache.Entries.{IsNamed, position, position-cases, search-position}
use gohbase.RegionCache.Lookup.{holds}
use gohbase.Options.{new_base_query, ScanCall, apply_options, apply_option, with_scan, with_query}
use gohbase.Requests.{new_scan_range, base_scan, default_scan, as_scan}
use gohbase.Proto.{ScanRequest, scan_to_proto}
use gohbase.Proto.Decode.{ScanMeaning, opens, meant, read_scan, read_scan-scan_to_proto}
use gohbase.Scan.{Scan, ScanResponse, RowResult, Answer, reply, open_scanner}
use gohbase.Scanner.{Scanner}
use gohbase.Scanner.Single.{next-single}
use gohbase.Meta.{
  info_family, RegionInfo, wrong_table, wrong_region, meta_scan, query_of, row_of, scan_first,
  check_region, parse_row, meta_lookup,
}
use gohbase.Meta.Rows.{MetaRow, cells_of, parse_region_info-cells_of}

-- The scan that is sent for a table and a key.
abbrev IsMetaScan : Bytes → Bytes → Scan → Type 0
IsMetaScan table key q =
    (q.start_row ≡ region_name table key (colon ∷ []))
    × (q.stop_row ≡ table)
    × (q.reversed ≡ true)
    × (q.is_closing ≡ true)
    × (q.allow_partial_results ≡ false)

scan_of : Bytes → Bytes → ScanCall
unfolding default_scan
scan_of table key =
    let s = default_scan meta_table_name in
    record s {
      query = record s.query { families = (info_family, []) ∷ [] };
      start_row = region_name table key (colon ∷ []);
      stop_row = table;
      key = region_name table key (colon ∷ []);
      reversed = true;
      close_scanner = true;
      number_of_rows = 1;
    }

-- The scan as a server understands it: backwards, of the regions' family, for one row, with the
-- scanner closed afterwards.
abbrev pub asked : Bytes → Bytes → ScanMeaning
asked table key = record {
  query = record new_base_query { families = (info_family, []) ∷ [] };
  start_row = region_name table key (colon ∷ []);
  stop_row = table;
  max_result_size = 2097152;
  number_of_rows = 1;
  reversed = true;
  close_scanner = true;
}

-- The call is for the meta table, and a server that reads its message understands this scan.
abbrev pub AsksFor : Bytes → Bytes → Bytes → ScanCall → Type 0
AsksFor region table key rpc =
    (rpc.table ≡ meta_table_name)
    × (rpc.key ≡ region_name table key (colon ∷ []))
    × ((r : ScanRequest) × (scan_to_proto region rpc ≡ ok r)
        × (read_scan r ≡ opens (asked table key))
        × (r.region ≡ region))

scan_of-AsksFor : (region table key : Bytes) → AsksFor region table key (scan_of table key)
unfolding scan_of default_scan meant
scan_of-AsksFor region table key =
    let (r, made, same, named) = read_scan-scan_to_proto region (scan_of table key) tt in
    (refl, refl, (r, made, same ∙ ground arith, named))

meta_scan-IsMetaScan :
    (table key : Bytes)
    → length table + length key + 3 ≤ max_int16
    → (rpc : ScanCall) × (meta_scan table key ≡ ok rpc)
      × IsMetaScan table key (query_of rpc)
      × ((region : Bytes) → AsksFor region table key rpc)
unfolding scan_of meta_scan new_scan_range base_scan default_scan as_scan apply_options apply_option
    query_of with_scan with_query
meta_scan-IsMetaScan table key short = (
  scan_of table key,
  rw (search_key-region_name table key short, meta_scan) refl,
  (refl, refl, refl, refl, refl),
  (λ region. scan_of-AsksFor region table key),
)

-- What the region server of meta answers: one row, which is whole.
abbrev pub IsRow : List Cell → ScanResponse → Type 0
IsRow cells resp =
    (r : RowResult) × (resp.results ≡ r ∷ []) × (r.cells ≡ cells) × (r.partial ≡ false)

scan_first-IsRow :
    (table key : Bytes) (q : Scan) (cells : List Cell) (resp : ScanResponse) (home : Region)
    (answers : List Answer)
    → IsMetaScan table key q
    → IsRow cells resp
    → (s : Scanner) × (scan_first false q (reply resp home ∷ answers) ≡ ok (cells, s))
      × (s.sent ≡ open_scanner (region_name table key (colon ∷ [])) table ∷ [])
unfolding scan_first row_of
scan_first-IsRow table key q cells resp home answers (start, stop, _, closing, whole)
      (r, one, is_cells, complete) =
    let (s, ran, sent) = next-single q r resp home answers closing whole one complete in
    (s, rw (ran, scan_first) (ground (arith, is_cells)), sent ∙ rw (start, stop) refl)

-- A region that the search stands behind holds the key unless a check of metaLookup finds otherwise.
check_region-holds :
    (table key : Bytes) (reg : Region)
    → position table key reg ≡ Ordering.gt
    → check_region table key reg ≡ (
        if holds table key reg
        then ok tt
        else if equal table (fully_qualified_table reg)
        then err wrong_region
        else err wrong_table)
unfolding check_region holds position
check_region-holds table key reg at = ground (
  arith,
  at,
  (equal_iff table (fully_qualified_table reg)).0,
  (equal_iff (fully_qualified_table reg) table).0,
  (equal_iff table (fully_qualified_table reg)).1,
  (equal_iff (fully_qualified_table reg) table).1,
  compare_bytes_refl table,
  compare_bytes-flip key reg.start_key,
  compare_bytes-flip key reg.stop_key,
)

behind-position :
    (table key : Bytes) (reg : Region) (n : ℕ)
    → Lacks comma table
    → length table + length key + 3 ≤ max_int16
    → IsNamed reg
    → compare_names (region_name table key (colon ∷ [])) reg.name ≡ some (pos n)
    → position table key reg ≡ Ordering.gt
behind-position table key reg n lacks short named behind =
    let (d, ran, at) = search-position table key reg lacks short named in
    elim (position-cases table key reg) [
      | inl gt ↦ gt
      | inr lt ↦
          let same : some d ≡ some (pos n) = sym ran ∙ behind in
          absurd (ground (arith, same, at, lt))
    ]

module _ (unmarshal : Bytes → Option RegionInfo) (spare : Cell → Bytes) where
  -- metaLookup makes one call, for the meta table, which a server understands as a scan backwards from
  -- the search key of the row down to the table's name, of the family of the regions, for one row, and
  -- after which the scanner is closed; Next sends one request for it. Where it is answered with the row of a region whose name does not come behind the search key, by
  -- Compare, the region is returned with its address if it belongs to the table and its range holds
  -- the key, and an error otherwise. The table's name holds no comma, the search key is not
  -- shortened, the row is one that HBase writes for an online region, and the context is not done.
  pub meta_lookup-holds :
      (table key : Bytes) (reg : Region) (addr : Bytes) (row : MetaRow unmarshal reg addr) (n : ℕ)
      (resp : ScanResponse) (home : Region) (answers : List Answer)
      → Lacks comma table
      → length table + length key + 3 ≤ max_int16
      → IsNamed reg
      → compare_names (region_name table key (colon ∷ [])) reg.name ≡ some (pos n)
      → addr ≢ []
      → IsRow (cells_of row) resp
      → (rpc : ScanCall) × (s : Scanner) × (meta_scan table key ≡ ok rpc)
        × ((region : Bytes) → AsksFor region table key rpc)
        × (scan_first false (query_of rpc) (reply resp home ∷ answers) ≡ ok (cells_of row, s))
        × (s.sent ≡ open_scanner (region_name table key (colon ∷ [])) table ∷ [])
        × (meta_lookup unmarshal spare false (reply resp home ∷ answers) table key ≡ (
            if holds table key reg
            then ok ((reg, addr), s)
            else if equal table (fully_qualified_table reg)
            then err wrong_region
            else err wrong_table))
  unfolding meta_lookup parse_row
  meta_lookup-holds table key reg addr row n resp home answers lacks short named behind set is_row =
      let (rpc, made, query, asks) = meta_scan-IsMetaScan table key short in
      let (s, ran, sent) =
        scan_first-IsRow table key (query_of rpc) (cells_of row) resp home answers query is_row in
      let parsed = parse_region_info-cells_of unmarshal spare reg addr row set in
      let checks =
        check_region-holds table key reg
          (behind-position table key reg n lacks short named behind) in
      (rpc, s, made, asks, ran, sent, rw (made, ◌>>=◌, ran, parsed, checks) (ground arith))
