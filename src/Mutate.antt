-- ===== src/Mutate.antt =====
-- hrpc/mutate.go: a mutation's values as cellblocks and as protobuf column values. A Go map is the
-- list of its entries in the order in which `range` visits them; a nil map of qualifiers is `none`.
-- A family, a qualifier and a value are lists of bytes.
pub mod Described
pub mod Reordered
pub mod Written
pub mod Measured
pub mod Cells
mod Examples
use gohbase.Prelude.{
  ℕ, ◌+◌, ◌-◌, ◌%◌, ◌^◌, Bool, true, false, Option, none, some, List, [], ◌∷◌, ◌==◌, if◌then◌else◌,
  length, Result, ok, panics,
}
use gohbase.Bytes.{Bytes}
use gohbase.Cellblock.{append_cellblock, cellblock_len}

-- pb.MutationProto_MutationType.
pub data MutationType : Type 0 where
  append increment put delete : MutationType

abbrev pub is_delete : MutationType → Bool
is_delete delete = true
is_delete append = false
is_delete increment = false
is_delete put = false

abbrev pub put_type : ℕ
put_type = 4

abbrev pub delete_type : ℕ
delete_type = 8

abbrev pub delete_family_version_type : ℕ
delete_family_version_type = 10

abbrev pub delete_column_type : ℕ
delete_column_type = 12

abbrev pub delete_family_type : ℕ
delete_family_type = 14

-- hrpc.MaxTimestamp, and Java's Long.MAX_VALUE.
abbrev pub max_timestamp : ℕ
max_timestamp = 2 ^ 64 - 1

abbrev pub max_int64 : ℕ
max_int64 = 2 ^ 63 - 1

abbrev pub Qualifiers : Type 0
Qualifiers = List (Bytes × Bytes)

abbrev pub Values : Type 0
Values = List (Bytes × Option Qualifiers)

-- The fields of Mutate that the values' encodings read.
pub record Mutate : Type 0 where
  pub key : Bytes
  pub mutation_type : MutationType
  pub values : Values
  pub timestamp : ℕ
  pub delete_one_version : Bool

unfoldable pub empty_qualifier : Qualifiers
empty_qualifier = ([], []) ∷ []

abbrev pub or_empty_qualifier : Option Qualifiers → Qualifiers
unfolding empty_qualifier
or_empty_qualifier none = empty_qualifier
or_empty_qualifier (some v) = v

-- The length of a map, nil or not.
abbrev pub entries : Option Qualifiers → Qualifiers
entries none = []
entries (some v) = v

-- The first loop of valuesToCellblocks: the length of the cells of one family.
pub qualifiers_len : Bytes → Bytes → Qualifiers → ℕ
qualifiers_len key family [] = 0
qualifiers_len key family ((k1, v1) ∷ more) =
    cellblock_len (length key) (length family) (length k1) (length v1)
    + qualifiers_len key family more

-- `cbsLen` and `count`.
pub measure : Bytes → Values → ℕ × ℕ
measure key [] = (0, 0)
measure key ((family, v) ∷ more) =
    let (cbs_len, count) = measure key more in
    (
      qualifiers_len key family (or_empty_qualifier v) + cbs_len,
      length (or_empty_qualifier v) + count,
    )

-- The type byte of a family's cells, and the qualifiers that the second loop visits: only a
-- delete turns a nil map into the empty qualifier.
unfoldable pub family_cells : MutationType → Bool → Option Qualifiers → ℕ × Qualifiers
family_cells typ delete_one_version v =
    if is_delete typ
    then (if length (entries v) == 0
        then (
          if delete_one_version then delete_family_version_type else delete_family_type,
          or_empty_qualifier v,
        )
        else (if delete_one_version then delete_type else delete_column_type, entries v))
    else (put_type, entries v)

pub append_qualifiers : Bytes → Bytes → ℕ → ℕ → Qualifiers → Bytes → Bytes
append_qualifiers key family ts mt [] cbs = cbs
append_qualifiers key family ts mt ((k1, v1) ∷ more) cbs =
    append_qualifiers key family ts mt more (append_cellblock key family k1 v1 ts mt cbs)

-- The second loop.
pub append_families : Mutate → ℕ → Values → Bytes → Bytes
append_families m ts [] cbs = cbs
append_families m ts ((family, v) ∷ more) cbs =
    let (mt, qualifiers) = family_cells m.mutation_type m.delete_one_version v in
    append_families m ts more (append_qualifiers m.key family ts mt qualifiers cbs)

unfoldable pub cell_timestamp : Mutate → ℕ
cell_timestamp m = if m.timestamp == max_timestamp then max_int64 else m.timestamp

-- The cellblocks, `int32(count)` as its 32 bits, and their length as a uint32. The panic is the
-- source's "cellblocks len mismatch".
pub values_to_cellblocks : Mutate → Result (Unit {0}) (Bytes × ℕ × ℕ)
values_to_cellblocks m =
    let (cbs_len, count) = measure m.key m.values in
    let cbs = append_families m (cell_timestamp m) m.values [] in
    if length m.values == 0
    then ok ([], 0, 0)
    else if length cbs == cbs_len
    then ok (cbs, count % 2 ^ 32, length cbs % 2 ^ 32)
    else panics
