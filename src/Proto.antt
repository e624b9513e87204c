-- ===== src/Proto.antt =====
-- ToProto of hrpc/scan.go, hrpc/get.go and hrpc/mutate.go: the protobuf messages of requests. A
-- field that is not set is `none`. The name of the request's region is an argument.
pub mod Decode
pub mod SameCells
mod Examples
use gohbase.Prelude.{
  ℕ, ◌+◌, ◌-◌, ◌^◌, Bool, true, not, Option, none, some, List, [], ◌∷◌, ◌++◌, ltb, ◌==◌,
  if◌then◌else◌, length, Result, ok, panics, ◌>>=◌, ◌>>◌,
}
use gohbase.Bytes.{Bytes}
use gohbase.Mutate.{
  MutationType, is_delete, Qualifiers, Values, entries, or_empty_qualifier, Mutate, max_timestamp,
  values_to_cellblocks,
}
use gohbase.Options.{
  max_int32, Consistency, default_consistency, strong_consistency, timeline_consistency,
  invalid_consistency, BaseQuery, ScanCall, GetCall, MutateCall,
}

pub data PbConsistency : Type 0 where
  strong timeline : PbConsistency

pub consistency_to_proto : Consistency → Result (Unit {0}) PbConsistency
consistency_to_proto timeline_consistency = ok timeline
consistency_to_proto strong_consistency = ok strong
consistency_to_proto default_consistency = panics
consistency_to_proto (invalid_consistency n) = panics

pub record Column : Type 0 where
  pub family : Bytes
  pub qualifiers : List Bytes

pub families_to_column : List (Bytes × List Bytes) → List Column
families_to_column [] = []
families_to_column ((family, qualifiers) ∷ more) =
    record { family = family; qualifiers = qualifiers } ∷ families_to_column more

-- The fields that pb.Scan and pb.Get share.
pub record QueryFields : Type 0 where
  pub columns : List Column
  pub from : Option ℕ
  pub to : Option ℕ
  pub max_versions : Option ℕ
  pub store_limit : Option ℕ
  pub store_offset : Option ℕ
  pub cache_blocks : Option Bool
  pub consistency : Option PbConsistency
  pub filter : Option Bytes

abbrev pub unless {ℓ} : {A : Type ℓ} → Bool → A → Option A
unless test a = if test then none else some a

pub consistency_field : Consistency → Result (Unit {0}) (Option PbConsistency)
consistency_field default_consistency = ok none
consistency_field strong_consistency = do c ← consistency_to_proto strong_consistency; ok (some c)
consistency_field timeline_consistency = do
  c ← consistency_to_proto timeline_consistency
  ok (some c)
consistency_field (invalid_consistency n) = do
  c ← consistency_to_proto (invalid_consistency n)
  ok (some c)

pub fields_of : BaseQuery → Option PbConsistency → QueryFields
fields_of q c = record {
  columns = families_to_column q.families;
  from = unless (q.from_timestamp == 0) q.from_timestamp;
  to = unless (q.to_timestamp == max_timestamp) q.to_timestamp;
  max_versions = unless (q.max_versions == 1) q.max_versions;
  store_limit = unless (q.store_limit == max_int32) q.store_limit;
  store_offset = unless (q.store_offset == 0) q.store_offset;
  cache_blocks = unless q.cache_blocks q.cache_blocks;
  consistency = c;
  filter = q.filter;
}

pub query_fields : BaseQuery → Result (Unit {0}) QueryFields
query_fields q = do c ← consistency_field q.consistency; ok (fields_of q c)

pub record PbScan : Type 0 where
  pub fields : QueryFields
  pub start_row : Bytes
  pub stop_row : Bytes
  pub max_result_size : ℕ
  pub reversed : Option Bool

-- pb.ScanRequest.
pub record ScanRequest : Type 0 where
  pub region : Bytes
  pub close_scanner : Bool
  pub number_of_rows : ℕ
  pub client_handles_partials : Bool
  pub client_handles_heartbeats : Bool
  pub scanner_id : Option ℕ
  pub scan : Option PbScan

abbrev pub scan_request : Bytes → ScanCall → Option ℕ → Option PbScan → ScanRequest
scan_request region s id scan = record {
  region = region;
  close_scanner = s.close_scanner;
  number_of_rows = s.number_of_rows;
  client_handles_partials = true;
  client_handles_heartbeats = true;
  scanner_id = id;
  scan = scan;
}

pub pb_scan : ScanCall → Result (Unit {0}) PbScan
pb_scan s = do
  fields ← query_fields s.query
  ok (record {
    fields = fields;
    start_row = s.start_row;
    stop_row = s.stop_row;
    max_result_size = s.max_result_size;
    reversed = unless (not s.reversed) s.reversed;
  })

-- A request that goes on with a scanner names it, and nothing else of the scan.
pub scan_to_proto : Bytes → ScanCall → Result (Unit {0}) ScanRequest
scan_to_proto region s =
    if not (s.scanner_id == 2 ^ 64 - 1)
    then ok (scan_request region s (some s.scanner_id) none)
    else (pb_scan s >>= (λ p. ok (scan_request region s none (some p))))

-- pb.GetRequest.
pub record GetRequest : Type 0 where
  pub region : Bytes
  pub row : Bytes
  pub fields : QueryFields
  pub existence_only : Option Bool

pub get_to_proto : Bytes → GetCall → Result (Unit {0}) GetRequest
get_to_proto region g = do
  fields ← query_fields g.query
  ok (record {
    region = region;
    row = g.key;
    fields = fields;
    existence_only = unless (not g.exists_only) true;
  })

-- pb.MutationProto_DeleteType.
pub data DeleteType : Type 0 where
  delete_one_version delete_multiple_versions delete_family delete_family_version : DeleteType

pub record QualifierValue : Type 0 where
  pub qualifier : Bytes
  pub value : Bytes
  pub timestamp : Option ℕ
  pub delete_type : Option DeleteType

pub record ColumnValue : Type 0 where
  pub family : Bytes
  pub values : List QualifierValue

-- The delete type of a family's values, and the qualifiers that the loop visits.
pub column_delete_type : MutationType → Bool → Option Qualifiers → Option DeleteType × Qualifiers
column_delete_type typ one v =
    if is_delete typ
    then (if length (entries v) == 0
        then (some (if one then delete_family_version else delete_family), or_empty_qualifier v)
        else (some (if one then delete_one_version else delete_multiple_versions), entries v))
    else (none, entries v)

pub qualifier_values : Option ℕ → Option DeleteType → Qualifiers → List QualifierValue
qualifier_values ts dt [] = []
qualifier_values ts dt ((k1, v1) ∷ more) =
    record { qualifier = k1; value = v1; timestamp = ts; delete_type = dt }
    ∷ qualifier_values ts dt more

pub values_to_proto : MutationType → Bool → Option ℕ → Values → List ColumnValue
values_to_proto typ one ts [] = []
values_to_proto typ one ts ((k, v) ∷ more) =
    let (dt, qualifiers) = column_delete_type typ one v in
    record { family = k; values = qualifier_values ts dt qualifiers }
    ∷ values_to_proto typ one ts more

-- pb.MutateRequest with its pb.MutationProto. The durability is an index of `durabilities`.
pub record MutateRequest : Type 0 where
  pub region : Bytes
  pub row : Bytes
  pub mutate_type : MutationType
  pub durability : ℕ
  pub timestamp : Option ℕ
  pub associated_cell_count : Option ℕ
  pub column_values : List ColumnValue
  pub ttl : Option Bytes

pub proto_timestamp : Mutate → Option ℕ
proto_timestamp m = unless (m.timestamp == max_timestamp) m.timestamp

abbrev pub mutate_request : Bytes → MutateCall → Option ℕ → List ColumnValue → MutateRequest
unfolding proto_timestamp
mutate_request region m count columns = record {
  region = region;
  row = m.mutation.key;
  mutate_type = m.mutation.mutation_type;
  durability = m.durability;
  timestamp = proto_timestamp m.mutation;
  associated_cell_count = count;
  column_values = columns;
  ttl = unless (length m.ttl == 0) m.ttl;
}

-- The request, the buffers with its cellblocks, and their size. The panics are those of an index
-- out of range and of valuesToCellblocks.
pub mutate_to_proto :
    Bool → List Bytes → Bytes → MutateCall → Result (Unit {0}) (MutateRequest × List Bytes × ℕ)
unfolding mutate_request
mutate_to_proto is_cellblocks cbs region m =
    if ltb 4 m.durability
    then panics
    else if is_cellblocks
    then (values_to_cellblocks m.mutation >>= λ (cellblocks, count, size). ok (
      mutate_request region m (some count) [],
      if ltb 0 size then cbs ++ (cellblocks ∷ []) else cbs,
      size,
    ))
    else ok (
      mutate_request region m none (
          values_to_proto m.mutation.mutation_type m.mutation.delete_one_version
            (proto_timestamp m.mutation) m.mutation.values),
      cbs,
      0,
    )
