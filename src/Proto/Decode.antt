-- ===== src/Proto/Decode.antt =====
-- Reading the messages of scans and gets, with HBase's default for each field that is not set.
use gohbase.Prelude.{
  ℕ, ◌-◌, ◌^◌, ◌≡◌, refl, ap, inl, inr, Bool, true, false, not, Option, none, some, List, [], ◌∷◌,
  arith, ◌==◌, if◌then◌else◌, Bool-cases, ok,
}
use gohbase.Bytes.{Bytes}
use gohbase.Mutate.{max_timestamp}
use gohbase.Options.{
  max_int32, Consistency, default_consistency, strong_consistency, timeline_consistency,
  invalid_consistency, BaseQuery, ScanCall, GetCall,
}
use gohbase.Proto.{
  PbConsistency, strong, timeline, consistency_to_proto, Column, families_to_column, QueryFields,
  unless, consistency_field, fields_of, scan_request, query_fields, PbScan, ScanRequest, pb_scan,
  scan_to_proto, GetRequest, get_to_proto,
}

abbrev pub or_default {ℓ} : {A : Type ℓ} → A → Option A → A
or_default d none = d
or_default d (some a) = a

pub read_columns : List Column → List (Bytes × List Bytes)
read_columns [] = []
read_columns (c ∷ cs) = (c.family, c.qualifiers) ∷ read_columns cs

abbrev pub read_consistency : Option PbConsistency → Consistency
read_consistency none = default_consistency
read_consistency (some strong) = strong_consistency
read_consistency (some timeline) = timeline_consistency

pub read_query : QueryFields → BaseQuery
read_query f = record {
  families = read_columns f.columns;
  filter = f.filter;
  from_timestamp = or_default 0 f.from;
  to_timestamp = or_default max_timestamp f.to;
  max_versions = or_default 1 f.max_versions;
  store_limit = or_default max_int32 f.store_limit;
  store_offset = or_default 0 f.store_offset;
  cache_blocks = or_default true f.cache_blocks;
  consistency = read_consistency f.consistency;
}

-- A scan, as its first request to a region says it.
pub record ScanMeaning : Type 0 where
  pub query : BaseQuery
  pub start_row : Bytes
  pub stop_row : Bytes
  pub max_result_size : ℕ
  pub number_of_rows : ℕ
  pub reversed : Bool
  pub close_scanner : Bool

-- What a region server makes of a request: a scan that is opened, or an open scanner to go on with.
pub data Understood : Type 0 where
  opens : ScanMeaning → Understood
  continues : ℕ → ℕ → Bool → Understood
  unclear : Understood

pub read_scan : ScanRequest → Understood
read_scan r = elim r.scanner_id [
  | some id ↦ continues id r.number_of_rows r.close_scanner
  | none ↦ elim r.scan [
    | none ↦ unclear
    | some p ↦ opens (record {
      query = read_query p.fields;
      start_row = p.start_row;
      stop_row = p.stop_row;
      max_result_size = p.max_result_size;
      number_of_rows = r.number_of_rows;
      reversed = or_default false p.reversed;
      close_scanner = r.close_scanner;
    })
  ]
]

-- What the caller meant.
unfoldable pub meant : ScanCall → Understood
meant s =
    if not (s.scanner_id == 2 ^ 64 - 1)
    then continues s.scanner_id s.number_of_rows s.close_scanner
    else opens (record {
      query = s.query;
      start_row = s.start_row;
      stop_row = s.stop_row;
      max_result_size = s.max_result_size;
      number_of_rows = s.number_of_rows;
      reversed = s.reversed;
      close_scanner = s.close_scanner;
    })

abbrev pub IsKnown : Consistency → Type 0
IsKnown (invalid_consistency n) = ⊥
IsKnown default_consistency = Unit {0}
IsKnown strong_consistency = Unit {0}
IsKnown timeline_consistency = Unit {0}

read_columns-families_to_column :
    (fs : List (Bytes × List Bytes)) → read_columns (families_to_column fs) ≡ fs
unfolding read_columns families_to_column
read_columns-families_to_column [] = refl
read_columns-families_to_column ((f, qs) ∷ fs) =
    ap (◌∷◌ (f, qs)) (read_columns-families_to_column fs)

read_number : (n d : ℕ) → or_default d (unless (n == d) n) ≡ n
read_number n d = ground arith

consistency_field-read :
    (c : Consistency)
    → IsKnown c
    → (f : Option PbConsistency) × (consistency_field c ≡ ok f) × (read_consistency f ≡ c)
unfolding consistency_field consistency_to_proto
consistency_field-read default_consistency h = (none, refl, refl)
consistency_field-read strong_consistency h = (some strong, refl, refl)
consistency_field-read timeline_consistency h = (some timeline, refl, refl)
consistency_field-read (invalid_consistency n) h = absurd h

read_flag : (b d : Bool) → or_default d (unless (not b) b) ≡ (if b then true else d)
read_flag true d = refl
read_flag false d = refl

read_query-fields_of :
    (q : BaseQuery) (c : Option PbConsistency)
    → read_consistency c ≡ q.consistency
    → read_query (fields_of q c) ≡ q
unfolding fields_of read_query
read_query-fields_of q c same = ground (
  arith,
  read_columns-families_to_column q.families,
  read_number q.from_timestamp 0,
  read_number q.to_timestamp max_timestamp,
  read_number q.max_versions 1,
  read_number q.store_limit max_int32,
  read_number q.store_offset 0,
)

query_fields-read :
    (q : BaseQuery)
    → IsKnown q.consistency
    → (f : QueryFields) × (query_fields q ≡ ok f) × (read_query f ≡ q)
unfolding query_fields
query_fields-read q known =
    let (c, made, same) = consistency_field-read q.consistency known in
    (fields_of q c, ground (arith, made), read_query-fields_of q c same)

-- A region server that reads the message of a scan, with HBase's default for each field that is not
-- set, understands the scan that the caller meant: its query, rows, sizes and direction, or the
-- scanner that it goes on with. The scan's consistency is one of the three that the package names.
pub read_scan-scan_to_proto :
    (region : Bytes) (s : ScanCall)
    → IsKnown s.query.consistency
    → (r : ScanRequest) × (scan_to_proto region s ≡ ok r)
      × (read_scan r ≡ meant s)
      × (r.region ≡ region)
unfolding scan_to_proto pb_scan read_scan meant
read_scan-scan_to_proto region s known = elim (Bool-cases (s.scanner_id == 2 ^ 64 - 1)) [
  | inr open_one ↦
      (scan_request region s (some s.scanner_id) none, ground (arith), ground (arith), refl)
  | inl fresh ↦
      let (f, made, same) = query_fields-read s.query known in
      let p : PbScan = record {
        fields = f;
        start_row = s.start_row;
        stop_row = s.stop_row;
        max_result_size = s.max_result_size;
        reversed = unless (not s.reversed) s.reversed;
      } in
      (
        scan_request region s none (some p),
        ground (arith, made),
        ground (arith, same, read_flag s.reversed false),
        refl,
      )
]

-- The message of a get, read in this way, holds the get's row, its query, and whether only the
-- existence of the row is asked for.
pub read_query-get_to_proto :
    (region : Bytes) (g : GetCall)
    → IsKnown g.query.consistency
    → (r : GetRequest) × (get_to_proto region g ≡ ok r)
      × (r.region ≡ region)
      × (r.row ≡ g.key)
      × (read_query r.fields ≡ g.query)
      × (or_default false r.existence_only ≡ g.exists_only)
unfolding get_to_proto
read_query-get_to_proto region g known =
    let (f, made, same) = query_fields-read g.query known in
    (
      record {
        region = region;
        row = g.key;
        fields = f;
        existence_only = unless (not g.exists_only) true;
      },
      ground (arith, made),
      refl,
      refl,
      same,
      ground arith,
    )
