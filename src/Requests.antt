-- ===== src/Requests.antt =====
-- hrpc/scan.go, hrpc/get.go and hrpc/mutate.go: how scans, gets and mutations are made of their
-- arguments and options. The variants that take strings are the same functions.
pub mod Made
mod Examples
use gohbase.Prelude.{
  ℕ, ◌-◌, ◌^◌, false, ◌&&◌, some, List, [], ◌∷◌, ◌==◌, if◌then◌else◌, length, Result, ok, err,
  panics, ◌>>=◌, ◌>>◌,
}
use gohbase.Bytes.{Bytes}
use gohbase.Bytes.BigEndian.{put_uint64}
use gohbase.Mutate.{MutationType, append, increment, put, delete, Values, max_timestamp}
use gohbase.Options.{
  max_int32, new_base_query, ScanCall, GetCall, MutateCall, Request, scan, get, mutate, other,
  CallOption, OptionError, delete_one_version_of_row, apply_options,
}

-- DefaultMaxResultSize; DefaultNumberOfRows is max_int32.
abbrev pub default_max_result_size : ℕ
default_max_result_size = 2097152

-- The request behind a pointer that the options have changed.
unfoldable pub as_scan : Request → Result OptionError ScanCall
as_scan (scan s) = ok s
as_scan (get g) = panics
as_scan (mutate m) = panics
as_scan other = panics

pub as_get : Request → Result OptionError GetCall
as_get (get g) = ok g
as_get (scan s) = panics
as_get (mutate m) = panics
as_get other = panics

pub as_mutate : Request → Result OptionError MutateCall
as_mutate (mutate m) = ok m
as_mutate (scan s) = panics
as_mutate (get g) = panics
as_mutate other = panics

unfoldable pub default_scan : Bytes → ScanCall
default_scan table = record {
  table = table;
  key = [];
  start_row = [];
  stop_row = [];
  query = new_base_query;
  scanner_id = 2 ^ 64 - 1;
  max_result_size = default_max_result_size;
  number_of_rows = max_int32;
  reversed = false;
  close_scanner = false;
  allow_partial_results = false;
}

unfoldable pub base_scan : Bytes → List CallOption → Result OptionError ScanCall
base_scan table options = apply_options (scan (default_scan table)) options >>= as_scan

unfoldable pub new_scan_range :
    Bytes → Bytes → Bytes → List CallOption → Result OptionError ScanCall
new_scan_range table start_row stop_row options = do
  s ← base_scan table options
  ok (record s { start_row = start_row; stop_row = stop_row; key = start_row })

pub default_get : Bytes → Bytes → GetCall
default_get table key = record {
  table = table;
  key = key;
  query = new_base_query;
  exists_only = false;
  skip_batch = false;
}

pub base_get : Bytes → Bytes → List CallOption → Result OptionError GetCall
base_get table key options = apply_options (get (default_get table key)) options >>= as_get

-- The mutation type that is not filled in is zero, which is `append`.
pub default_mutate : Bytes → Bytes → Values → MutateCall
default_mutate table key values = record {
  table = table;
  mutation = record {
    key = key;
    mutation_type = append;
    values = values;
    timestamp = max_timestamp;
    delete_one_version = false;
  };
  ttl = [];
  durability = 0;
  skip_batch = false;
}

pub base_mutate : Bytes → Bytes → Values → List CallOption → Result OptionError MutateCall
base_mutate table key values options =
    apply_options (mutate (default_mutate table key values)) options >>= as_mutate

abbrev pub of_type : MutationType → MutateCall → MutateCall
of_type typ m = record m { mutation = record m.mutation { mutation_type = typ } }

pub new_put : Bytes → Bytes → Values → List CallOption → Result OptionError MutateCall
new_put table key values options = do m ← base_mutate table key values options; ok (of_type put m)

pub new_app : Bytes → Bytes → Values → List CallOption → Result OptionError MutateCall
new_app table key values options = do
  m ← base_mutate table key values options
  ok (of_type append m)

pub new_inc : Bytes → Bytes → Values → List CallOption → Result OptionError MutateCall
new_inc table key values options = do
  m ← base_mutate table key values options
  ok (of_type increment m)

-- The amount is an int64, given by its 64 bits.
pub new_inc_single :
    Bytes → Bytes → Bytes → Bytes → ℕ → List CallOption → Result OptionError MutateCall
new_inc_single table key family qualifier amount options =
    new_inc table key ((family, some ((qualifier, put_uint64 amount) ∷ [])) ∷ []) options

pub deletion_of : MutateCall → Result OptionError MutateCall
deletion_of m =
    if length m.mutation.values == 0 && m.mutation.delete_one_version
    then err delete_one_version_of_row
    else ok (of_type delete m)

pub new_del : Bytes → Bytes → Values → List CallOption → Result OptionError MutateCall
new_del table key values options = base_mutate table key values options >>= deletion_of
