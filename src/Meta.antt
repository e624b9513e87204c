-- ===== src/Meta.antt =====
-- region/info.go (infoFromCell, ParseRegionInfo) and rpc.go (metaLookup): what the rows of the meta
-- table say of a region. proto.Unmarshal of a region's message is a parameter: it fails where a
-- field that is required is missing.
pub mod Rows
pub mod Nearest
mod Examples
use gohbase.Prelude.{
  ◌>>=◌, ◌>>◌, ℕ, ◌+◌, Bool, ◌&&◌, not, Option, none, some, List, [], ◌∷◌, ◌++◌, ◌==◌,
  if◌then◌else◌, length, Result, ok, err, panics, ◌>>=◌, ◌>>◌, guard, or_panic, or_err,
}
use gohbase.Bytes.{Bytes}
use gohbase.Bytes.BigEndian.{next_uint32}
use gohbase.Bytes.Slices.{cut}
use gohbase.Bytes.Compare.{equal, bytes_le}
use gohbase.Cellblock.{Cell}
use gohbase.Region.{Region, create_region_search_key, fully_qualified_table}
use gohbase.RegionCache.{meta_table_name}
use gohbase.Options.{ScanCall, families, reversed, close_scanner, number_of_rows, OptionError}
use gohbase.Requests.{new_scan_range}
use gohbase.Scan.{Scan, ScanError, eof, context_done, failure, Answer}
use gohbase.Scanner.{Scanner, Returned, new_scanner, next}

-- pb.RegionInfo, the fields that are read. The table's name is required, with both its parts; a
-- start or end key that is not set reads as an empty one, and an offline flag as false.
pub record RegionInfo : Type 0 where
  pub region_id : ℕ
  pub namespace : Bytes
  pub qualifier : Bytes
  pub start_key : Bytes
  pub end_key : Bytes
  pub offline : Bool

pub data MetaError : Type 0 where
  empty_value invalid_magic undecodable no_region no_address : MetaError
  unsupported_version : ℕ → MetaError
  offline_region : Bytes → MetaError

abbrev pub default_namespace : Bytes
default_namespace = b'd' ∷ b'e' ∷ b'f' ∷ b'a' ∷ b'u' ∷ b'l' ∷ b't' ∷ []

abbrev pub pbuf_magic : ℕ
pbuf_magic = 1346524486

-- The first byte of a value.
pub check_version : Bytes → Result MetaError (Unit {0})
check_version [] = err empty_value
check_version (v ∷ rest) = guard (v == b'P') (unsupported_version v)

-- NewInfo of a message and of the row that it stands in.
unfoldable pub info_of : Bytes → RegionInfo → Region
info_of row reg_info = record {
  id = reg_info.region_id;
  namespace = if equal reg_info.namespace default_namespace then none else some reg_info.namespace;
  table = reg_info.qualifier;
  name = row;
  start_key = reg_info.start_key;
  stop_key = reg_info.end_key;
}

-- `spare` is what stands behind the value, up to its capacity.
unfoldable pub info_from_cell : (Bytes → Option RegionInfo) → Bytes → Cell → Result MetaError Region
unfolding check_version
info_from_cell unmarshal spare cell = do
  check_version cell.value
  (magic, _) ← or_panic (next_uint32 (cell.value ++ spare))
  guard (magic == pbuf_magic) invalid_magic
  (_, message) ← or_panic (cut 4 cell.value)
  reg_info ← or_err (unmarshal message) undecodable
  guard (not reg_info.offline) (offline_region cell.row)
  ok (info_of cell.row reg_info)

abbrev pub regioninfo : Bytes
regioninfo = b'r' ∷ b'e' ∷ b'g' ∷ b'i' ∷ b'o' ∷ b'n' ∷ b'i' ∷ b'n' ∷ b'f' ∷ b'o' ∷ []

abbrev pub server_qualifier : Bytes
server_qualifier = b's' ∷ b'e' ∷ b'r' ∷ b'v' ∷ b'e' ∷ b'r' ∷ []

module _ (unmarshal : Bytes → Option RegionInfo) (spare : Cell → Bytes) where
  -- One round of the loop over the cells, on the region and the address that were found.
  unfoldable pub read_cell : Cell → Option Region × Bytes → Result MetaError (Option Region × Bytes)
  read_cell cell (reg, addr) =
      if equal cell.qualifier regioninfo
      then (info_from_cell unmarshal (spare cell) cell >>= λ found. ok (some found, addr))
      else if equal cell.qualifier server_qualifier
      then ok (reg, if length cell.value == 0 then addr else cell.value)
      else ok (reg, addr)

  unfoldable pub read_row :
      List Cell → Option Region × Bytes → Result MetaError (Option Region × Bytes)
  read_row [] found = ok found
  read_row (cell ∷ cells) found = read_cell cell found >>= read_row cells

  pub parse_region_info : List Cell → Result MetaError (Region × Bytes)
  parse_region_info cells = do
    (reg, addr) ← read_row cells (none, [])
    reg' ← or_err reg no_region
    guard (not (length addr == 0)) no_address
    ok (reg', addr)

pub data LookupError : Type 0 where
  table_not_found wrong_table wrong_region : LookupError
  bad_option : OptionError → LookupError
  not_scanned : ScanError → LookupError
  bad_row : MetaError → LookupError
  -- the scanner waits for one more answer
  not_answered : LookupError

abbrev pub info_family : Bytes
info_family = b'i' ∷ b'n' ∷ b'f' ∷ b'o' ∷ []

-- The scan that looks for the region of a row.
pub meta_scan : Bytes → Bytes → Result LookupError ScanCall
meta_scan table key = do
  meta_key ← or_panic (create_region_search_key table key)
  elim (new_scan_range meta_table_name meta_key table
      (families ((info_family, []) ∷ []) ∷ reversed ∷ close_scanner ∷ number_of_rows 1 ∷ [])) [
        | ok rpc ↦ ok rpc
        | err e ↦ err (bad_option e)
        | panics ↦ panics
      ]

-- What the scanner reads of the scan.
pub query_of : ScanCall → Scan
query_of rpc = record {
  start_row = rpc.start_row;
  stop_row = rpc.stop_row;
  reversed = rpc.reversed;
  is_closing = rpc.close_scanner;
  allow_partial_results = rpc.allow_partial_results;
}

-- The cells of the row that Next returns.
pub row_of : Returned → Result LookupError (List Cell)
row_of returned = elim returned.error [
  | some eof ↦ err table_not_found
  | some context_done ↦ err (not_scanned context_done)
  | some (failure e) ↦ err (not_scanned (failure e))
  | none ↦ elim returned.result [ none ↦ panics | some row ↦ ok row.cells ]
]

pub scan_first : Bool → Scan → List Answer → Result LookupError (List Cell × Scanner)
scan_first done query answers = elim (next query done (new_scanner query) answers) [
  | ok (returned, scanner, unused) ↦ (row_of returned >>= λ cells. ok (cells, scanner))
  | err stuck ↦ err not_answered
  | panics ↦ panics
]

-- The two checks of the region that meta returned.
pub check_region : Bytes → Bytes → Region → Result LookupError (Unit {0})
check_region table key reg =
    if not (equal table (fully_qualified_table reg))
    then err wrong_table
    else if not (length reg.stop_key == 0) && bytes_le reg.stop_key key
    then err wrong_region
    else ok tt

module _ (unmarshal : Bytes → Option RegionInfo) (spare : Cell → Bytes) where
  pub parse_row : List Cell → Result LookupError (Region × Bytes)
  parse_row cells = elim (parse_region_info unmarshal spare cells) [
    | ok found ↦ ok found
    | err e ↦ err (bad_row e)
    | panics ↦ panics
  ]

  -- `done` says whether the context is done, `answers` what SendRPC returns to the scanner. The
  -- region, its address, and the scanner that is left are returned.
  pub meta_lookup :
      Bool → List Answer → Bytes → Bytes → Result LookupError ((Region × Bytes) × Scanner)
  meta_lookup done answers table key = do
    rpc ← meta_scan table key
    (cells, scanner) ← scan_first done (query_of rpc) answers
    found ← parse_row cells
    check_region table key found.0
    ok (found, scanner)
