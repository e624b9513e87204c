-- ===== src/Options.antt =====
-- hrpc/query.go, hrpc/scan.go, hrpc/get.go, hrpc/mutate.go and hrpc/call.go: the requests that a
-- caller makes, and the options that change them. An option is one that the package makes; what
-- ConstructPBFilter returns for a filter is an argument of `filters`. A time.Time or time.Duration
-- is its number of nanoseconds, which is not negative. Contexts and result channels are left out.
pub mod Validity
use gohbase.Prelude.{
  ◌>>=◌, ◌>>◌, ℕ, ◌-◌, ◌/◌, ◌^◌, Bool, true, Option, none, some, List, [], ◌∷◌, ltb, leb, ◌==◌,
  if◌then◌else◌, Result, ok, err,
}
use gohbase.Prelude.Int.{ℤ, pos, negsuc}
use gohbase.Bytes.{Bytes}
use gohbase.Bytes.BigEndian.{put_uint64}
use gohbase.Mutate.{Mutate, max_timestamp}

abbrev pub max_int32 : ℕ
max_int32 = 2 ^ 31 - 1

-- hrpc.ConsistencyType; the type is an int, so that other values exist.
pub data Consistency : Type 0 where
  default_consistency strong_consistency timeline_consistency : Consistency
  invalid_consistency : ℕ → Consistency

abbrev pub Families : Type 0
Families = List (Bytes × List Bytes)

-- hrpc.baseQuery.
pub record BaseQuery : Type 0 where
  pub families : Families
  pub filter : Option Bytes
  pub from_timestamp : ℕ
  pub to_timestamp : ℕ
  pub max_versions : ℕ
  pub store_limit : ℕ
  pub store_offset : ℕ
  pub cache_blocks : Bool
  pub consistency : Consistency

abbrev pub new_base_query : BaseQuery
new_base_query = record {
  families = [];
  filter = none;
  from_timestamp = 0;
  to_timestamp = max_timestamp;
  max_versions = 1;
  store_limit = max_int32;
  store_offset = 0;
  cache_blocks = true;
  consistency = default_consistency;
}

-- hrpc.Scan, hrpc.Get and hrpc.Mutate.
pub record ScanCall : Type 0 where
  pub table : Bytes
  pub key : Bytes
  pub start_row : Bytes
  pub stop_row : Bytes
  pub query : BaseQuery
  pub scanner_id : ℕ
  pub max_result_size : ℕ
  pub number_of_rows : ℕ
  pub reversed : Bool
  pub close_scanner : Bool
  pub allow_partial_results : Bool

pub record GetCall : Type 0 where
  pub table : Bytes
  pub key : Bytes
  pub query : BaseQuery
  pub exists_only : Bool
  pub skip_batch : Bool

pub record MutateCall : Type 0 where
  pub table : Bytes
  pub mutation : Mutate
  pub ttl : Bytes
  pub durability : ℕ
  pub skip_batch : Bool

pub data Request : Type 0 where
  scan : ScanCall → Request
  get : GetCall → Request
  mutate : MutateCall → Request
  -- a request of another type
  other : Request

pub data CallOption : Type 0 where
  families : Families → CallOption
  filters : Option Bytes → CallOption
  time_range : ℕ → ℕ → CallOption
  time_range_uint64 : ℕ → ℕ → CallOption
  max_versions max_results_per_column_family result_offset : ℕ → CallOption
  cache_blocks : Bool → CallOption
  consistency : Consistency → CallOption
  scanner_id : ℕ → CallOption
  close_scanner : CallOption
  max_result_size number_of_rows : ℕ → CallOption
  allow_partial_results reversed : CallOption
  ttl timestamp timestamp_uint64 : ℕ → CallOption
  durability : ℤ → CallOption
  delete_one_version skip_batch : CallOption

pub data OptionError : Type 0 where
  -- the request is of a type that does not take the option
  wrong_request : OptionError
  filter_refused : OptionError
  empty_time_range : OptionError
  too_large : ℕ → OptionError
  zero_result_size : OptionError
  invalid_durability : OptionError
  delete_one_version_of_row : OptionError

-- The options of Scan and Get, the requests that have query options.
unfoldable pub with_query :
    (BaseQuery → Result OptionError BaseQuery) → Request → Result OptionError Request
with_query change (scan s) = do q ← change s.query; ok (scan (record s { query = q }))
with_query change (get g) = do q ← change g.query; ok (get (record g { query = q }))
with_query change (mutate m) = err wrong_request
with_query change other = err wrong_request

unfoldable pub with_scan :
    (ScanCall → Result OptionError ScanCall) → Request → Result OptionError Request
with_scan change (scan s) = do s' ← change s; ok (scan s')
with_scan change (get g) = err wrong_request
with_scan change (mutate m) = err wrong_request
with_scan change other = err wrong_request

pub with_mutate :
    (MutateCall → Result OptionError MutateCall) → Request → Result OptionError Request
with_mutate change (mutate m) = do m' ← change m; ok (mutate m')
with_mutate change (scan s) = err wrong_request
with_mutate change (get g) = err wrong_request
with_mutate change other = err wrong_request

pub set_time_range : ℕ → ℕ → BaseQuery → Result OptionError BaseQuery
set_time_range from to q =
    if leb to from
    then err empty_time_range
    else ok (record q { from_timestamp = from; to_timestamp = to })

-- The checks against math.MaxInt32.
pub checked : ℕ → BaseQuery → Result OptionError BaseQuery
checked n q = if ltb max_int32 n then err (too_large n) else ok q

pub set_skip_batch : Request → Result OptionError Request
set_skip_batch (get g) = ok (get (record g { skip_batch = true }))
set_skip_batch (mutate m) = ok (mutate (record m { skip_batch = true }))
set_skip_batch (scan s) = err wrong_request
set_skip_batch other = err wrong_request

abbrev set_filter : Option Bytes → BaseQuery → Result OptionError BaseQuery
set_filter none q = err filter_refused
set_filter (some f) q = ok (record q { filter = some f })

abbrev set_timestamp : ℕ → MutateCall → Result OptionError MutateCall
set_timestamp ts m = ok (record m { mutation = record m.mutation { timestamp = ts } })

abbrev set_durability : ℤ → MutateCall → Result OptionError MutateCall
set_durability (negsuc n) m = err invalid_durability
set_durability (pos d) m =
    if ltb 4 d then err invalid_durability else ok (record m { durability = d })

abbrev pub apply_families : Families → Request → Result OptionError Request
apply_families f = with_query (λ q. ok (record q { families = f }))

abbrev pub apply_filters : Option Bytes → Request → Result OptionError Request
apply_filters f = with_query (set_filter f)

abbrev pub apply_time_range : ℕ → ℕ → Request → Result OptionError Request
apply_time_range from to = with_query (set_time_range (from / 10 ^ 6) (to / 10 ^ 6))

abbrev pub apply_time_range_uint64 : ℕ → ℕ → Request → Result OptionError Request
apply_time_range_uint64 from to = with_query (set_time_range from to)

abbrev pub apply_max_versions : ℕ → Request → Result OptionError Request
apply_max_versions n = with_query (λ q. checked n (record q { max_versions = n }))

abbrev pub apply_max_results_per_column_family : ℕ → Request → Result OptionError Request
apply_max_results_per_column_family n = with_query (λ q. checked n (record q { store_limit = n }))

abbrev pub apply_result_offset : ℕ → Request → Result OptionError Request
apply_result_offset n = with_query (λ q. checked n (record q { store_offset = n }))

abbrev pub apply_cache_blocks : Bool → Request → Result OptionError Request
apply_cache_blocks b = with_query (λ q. ok (record q { cache_blocks = b }))

abbrev pub apply_consistency : Consistency → Request → Result OptionError Request
apply_consistency c = with_query (λ q. ok (record q { consistency = c }))

abbrev pub apply_scanner_id : ℕ → Request → Result OptionError Request
apply_scanner_id id = with_scan (λ s. ok (record s { scanner_id = id }))

abbrev pub apply_close_scanner : Request → Result OptionError Request
apply_close_scanner = with_scan (λ s. ok (record s { close_scanner = true }))

abbrev pub apply_max_result_size : ℕ → Request → Result OptionError Request
apply_max_result_size n =
    with_scan (λ s. if n == 0 then err zero_result_size else ok (record s { max_result_size = n }))

abbrev pub apply_number_of_rows : ℕ → Request → Result OptionError Request
apply_number_of_rows n = with_scan (λ s. ok (record s { number_of_rows = n }))

abbrev pub apply_allow_partial_results : Request → Result OptionError Request
apply_allow_partial_results = with_scan (λ s. ok (record s { allow_partial_results = true }))

abbrev pub apply_reversed : Request → Result OptionError Request
apply_reversed = with_scan (λ s. ok (record s { reversed = true }))

abbrev pub apply_ttl : ℕ → Request → Result OptionError Request
apply_ttl t = with_mutate (λ m. ok (record m { ttl = put_uint64 (t / 10 ^ 6) }))

abbrev pub apply_timestamp : ℕ → Request → Result OptionError Request
apply_timestamp ts = with_mutate (set_timestamp (ts / 10 ^ 6))

abbrev pub apply_timestamp_uint64 : ℕ → Request → Result OptionError Request
apply_timestamp_uint64 ts = with_mutate (set_timestamp ts)

abbrev pub apply_durability : ℤ → Request → Result OptionError Request
apply_durability d = with_mutate (set_durability d)

abbrev pub apply_delete_one_version : Request → Result OptionError Request
apply_delete_one_version =
    with_mutate (λ m. ok (record m { mutation = record m.mutation { delete_one_version = true } }))

unfoldable pub apply_option : CallOption → Request → Result OptionError Request
apply_option (families f) = apply_families f
apply_option (filters f) = apply_filters f
apply_option (time_range from to) = apply_time_range from to
apply_option (time_range_uint64 from to) = apply_time_range_uint64 from to
apply_option (max_versions n) = apply_max_versions n
apply_option (max_results_per_column_family n) = apply_max_results_per_column_family n
apply_option (result_offset n) = apply_result_offset n
apply_option (cache_blocks b) = apply_cache_blocks b
apply_option (consistency c) = apply_consistency c
apply_option (scanner_id id) = apply_scanner_id id
apply_option close_scanner = apply_close_scanner
apply_option (max_result_size n) = apply_max_result_size n
apply_option (number_of_rows n) = apply_number_of_rows n
apply_option allow_partial_results = apply_allow_partial_results
apply_option reversed = apply_reversed
apply_option (ttl t) = apply_ttl t
apply_option (timestamp ts) = apply_timestamp ts
apply_option (timestamp_uint64 ts) = apply_timestamp_uint64 ts
apply_option (durability d) = apply_durability d
apply_option delete_one_version = apply_delete_one_version
apply_option skip_batch = set_skip_batch

unfoldable pub apply_options : Request → List CallOption → Result OptionError Request
apply_options r [] = ok r
apply_options r (o ∷ options) = do r' ← apply_option o r; apply_options r' options
