-- ===== src/Meta/Examples.antt =====
-- A row of the meta table with the cells that HBase writes, and a lookup that finds it.
use gohbase.Prelude.{◌≡◌, refl, inl, false, Option, none, some, [], ◌∷◌, arith, if◌then◌else◌, ok}
use gohbase.Bytes.{Bytes}
use gohbase.Bytes.Compare.{compare_bytes, equal}
use gohbase.Cellblock.{Cell}
use gohbase.RegionName.{
  compare_names, table_loop, find_comma_from_end, comma_below, drop, difference, compare_keys,
}
use gohbase.RegionName.Order.{region_name}
use gohbase.Region.{Region, fully_qualified_table, colon}
use gohbase.RegionCache.Entries.{IsNamed}
use gohbase.RegionCache.Lookup.{holds}
use gohbase.Options.{ScanCall}
use gohbase.Scan.{ScanResponse, reply, open_scanner}
use gohbase.Scanner.{Scanner}
use gohbase.Meta.{
  RegionInfo, regioninfo, server_qualifier, info_family, parse_region_info, meta_lookup, meta_scan,
  scan_first, query_of,
}
use gohbase.Meta.Rows.{MetaRow, cells_of, message_of, pbuf, parse_region_info-cells_of}
use gohbase.Meta.Nearest.{AsksFor, meta_lookup-holds}

abbrev table : Bytes
table = b't' ∷ []

abbrev second_half : Region
second_half = record {
  id = 1;
  namespace = none;
  table = table;
  name = b't' ∷ b',' ∷ b'm' ∷ b',' ∷ b'1' ∷ [];
  start_key = b'm' ∷ [];
  stop_key = [];
}

-- A format in which the message of this region is one byte.
abbrev unmarshal : Bytes → Option RegionInfo
unmarshal b = if equal b (1 ∷ []) then some (message_of second_half) else none

abbrev spare : Cell → Bytes
spare cell = []

abbrev cell : Bytes → Bytes → Cell
cell qualifier value = record {
  row = second_half.name;
  family = info_family;
  qualifier = qualifier;
  timestamp = 1;
  value = value;
  cell_type = 4;
}

abbrev addr : Bytes
addr = b'h' ∷ b':' ∷ b'1' ∷ []

row : MetaRow unmarshal second_half addr
unfolding equal
row = record {
  before = [];
  info = cell regioninfo (pbuf (1 ∷ []));
  between = [];
  address = cell server_qualifier addr;
  after = cell (b's' ∷ b'n' ∷ []) addr ∷ [];
  message = 1 ∷ [];
  others = (tt, tt, ((λ e. ground (arith, e), λ e. ground (arith, e)), tt));
  is_info = (refl, refl, refl);
  is_message = refl;
  is_address = (refl, refl);
  namespace_kept = λ e. ground (arith, e);
}

parse_region_info-cells_of_example :
    parse_region_info unmarshal spare (cells_of row) ≡ ok (second_half, addr)
parse_region_info-cells_of_example =
    parse_region_info-cells_of unmarshal spare second_half addr row (λ e. ground (arith, e))

named : IsNamed second_half
unfolding fully_qualified_table region_name
named = record {
  digit = b'1';
  code = [];
  is_name = refl;
  lacks_comma = (omega arith, tt);
  code_lacks_comma = (omega arith, tt);
  below_colon = omega arith;
  is_range = inl refl;
  namespace_set = λ e. ground (arith, e);
  namespace_lacks_colon = tt;
  table_lacks_colon = (omega arith, tt);
}

abbrev resp : ScanResponse
resp = record {
  results = record { cells = cells_of row; partial = false; stale = false } ∷ [];
  scanner_id = some 5;
  more_results = none;
  more_results_in_region = false;
}

meta_lookup-holds_example :
    (rpc : ScanCall) × (s : Scanner) × (meta_scan table (b'q' ∷ []) ≡ ok rpc)
    × ((region : Bytes) → AsksFor region table (b'q' ∷ []) rpc)
    × (scan_first false (query_of rpc) (reply resp second_half ∷ []) ≡ ok (cells_of row, s))
    × (s.sent ≡ open_scanner (region_name table (b'q' ∷ []) (colon ∷ [])) table ∷ [])
    × (meta_lookup unmarshal spare false (reply resp second_half ∷ []) table (b'q' ∷ [])
        ≡ ok ((second_half, addr), s))
unfolding holds compare_bytes equal fully_qualified_table region_name compare_names table_loop
    find_comma_from_end comma_below drop difference compare_keys
meta_lookup-holds_example =
    meta_lookup-holds unmarshal spare table (b'q' ∷ []) second_half addr row _ resp second_half []
      (omega arith, tt) (omega arith) named refl (λ e. ground (arith, e)) (_, refl, refl, refl)
