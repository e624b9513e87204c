-- ===== src/Proto/Examples.antt =====
-- The theorems on the messages of requests, applied to concrete requests.
use gohbase.Prelude.{
  refl, inl, inl, ◌++◌, List, ◌<◌, arith, All, ℕ, length, ◌-◌, ◌^◌, ◌≡◌, true, false, none, some,
  [], ◌∷◌, ok,
}
use gohbase.Bytes.{Bytes}
use gohbase.Prelude.Permuted.{Permuted}
use gohbase.Bytes.BigEndian.{put_uint16, put_uint32, put_uint64}
use gohbase.Cellblock.{Cell, deserialize_cell_blocks}
use gohbase.Cellblock.Encode.{Fits, block}
use gohbase.Cellblock.RoundTrip.{blocks}
use gohbase.Mutate.Described.{families_cells, described, timestamp_meant}
use gohbase.Mutate.Reordered.{exchanged}
use gohbase.Mutate.{Values, values_to_cellblocks, Mutate, delete, max_timestamp}
use gohbase.Options.{ScanCall, GetCall, new_base_query, timeline_consistency}
use gohbase.Proto.{
  ScanRequest, scan_to_proto, GetRequest, get_to_proto, values_to_proto, proto_timestamp,
}
use gohbase.Proto.Decode.{
  read_scan, meant, read_query, or_default, read_scan-scan_to_proto, read_query-get_to_proto,
}
use gohbase.Proto.SameCells.{column_cells, column_cells-values_to_proto}

abbrev region : Bytes
region = b't' ∷ b',' ∷ b',' ∷ b'1' ∷ []

abbrev scan : ScanCall
scan = record {
  table = b't' ∷ [];
  key = b'a' ∷ [];
  start_row = b'a' ∷ [];
  stop_row = b'm' ∷ [];
  query = record new_base_query {
    families = (b'f' ∷ [], []) ∷ [];
    max_versions = 3;
    consistency = timeline_consistency;
  };
  scanner_id = 2 ^ 64 - 1;
  max_result_size = 2097152;
  number_of_rows = 100;
  reversed = true;
  close_scanner = false;
  allow_partial_results = false;
}

read_scan-scan_to_proto_example :
    (r : ScanRequest) × (scan_to_proto region scan ≡ ok r)
    × (read_scan r ≡ meant scan)
    × (r.region ≡ region)
read_scan-scan_to_proto_example = read_scan-scan_to_proto region scan tt

abbrev get : GetCall
get = record {
  table = b't' ∷ [];
  key = b'a' ∷ [];
  query = scan.query;
  exists_only = true;
  skip_batch = false;
}

read_query-get_to_proto_example :
    (r : GetRequest) × (get_to_proto region get ≡ ok r)
    × (r.region ≡ region)
    × (r.row ≡ get.key)
    × (read_query r.fields ≡ get.query)
    × (or_default false r.existence_only ≡ true)
read_query-get_to_proto_example = read_query-get_to_proto region get tt

-- A deletion of a whole family and of one column of another.
abbrev deletion : Mutate
deletion = record {
  key = b'r' ∷ [];
  mutation_type = delete;
  values = (b'f' ∷ [], none) ∷ (b'g' ∷ [], some ((b'q' ∷ [], []) ∷ [])) ∷ [];
  timestamp = max_timestamp;
  delete_one_version = true;
}

abbrev visited_again : Values
visited_again = (b'g' ∷ [], some ((b'q' ∷ [], []) ∷ [])) ∷ (b'f' ∷ [], none) ∷ []

deletion-Fits : All Fits (families_cells deletion deletion.values)
unfolding families_cells described timestamp_meant
deletion-Fits = (
  record {
    row_fits = omega arith;
    family_fits = omega arith;
    timestamp_fits = omega arith;
    block_fits = omega arith;
  },
  (
    record {
      row_fits = omega arith;
      family_fits = omega arith;
      timestamp_fits = omega arith;
      block_fits = omega arith;
    },
    tt,
  ),
)

deletion-short : length (blocks (families_cells deletion deletion.values)) < 2 ^ 32
unfolding families_cells described timestamp_meant blocks block put_uint16 put_uint32 put_uint64
deletion-short = omega arith

column_cells-values_to_proto_example :
    (cbs : Bytes) × (count : ℕ) × (size : ℕ) × (cells : List Cell) × (values_to_cellblocks deletion
      ≡ ok (cbs, count, size))
    × (deserialize_cell_blocks (cbs ++ []) [] count ≡ ok (cells, size))
    × Permuted cells (
        column_cells deletion.key
          (values_to_proto delete true (proto_timestamp deletion) visited_again))
column_cells-values_to_proto_example =
    column_cells-values_to_proto deletion visited_again [] [] (exchanged _ _ [])
      (inl refl, (inl refl, tt)) deletion-Fits deletion-short
