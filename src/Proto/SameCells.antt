-- ===== src/Proto/SameCells.antt =====
-- The two encodings of a mutation's values, as protobuf column values and as cellblocks.
use gohbase.Prelude.{
  true, false, subst, sym, All, ok, ◌<◌, ◌^◌, ℕ, ◌≡◌, refl, Bool, Option, none, some, List, [], ◌∷◌,
  ◌++◌, arith, length,
}
use gohbase.Bytes.{Bytes}
use gohbase.Cellblock.{Cell, deserialize_cell_blocks}
use gohbase.Mutate.{
  MutationType, Qualifiers, Values, Mutate, max_int64, put_type, delete_type,
  delete_family_version_type, delete_column_type, delete_family_type, append, increment, put,
  delete, values_to_cellblocks, empty_qualifier,
}
use gohbase.Mutate.Described.{qualifier_cells, families_cells, described, timestamp_meant}
use gohbase.Mutate.Reordered.{SameMap, families_cells-Permuted}
use gohbase.Mutate.Measured.{SettledValues}
use gohbase.Mutate.Cells.{deserialize-values_to_cellblocks}
use gohbase.Prelude.Permuted.{Permuted}
use gohbase.Cellblock.Encode.{Fits}
use gohbase.Cellblock.RoundTrip.{blocks}
use gohbase.Proto.{
  DeleteType, delete_one_version, delete_multiple_versions, delete_family, delete_family_version,
  QualifierValue, ColumnValue, qualifier_values, values_to_proto, proto_timestamp,
  column_delete_type,
}

-- HBase's cell type for a delete type, and for a value that is no delete.
abbrev pub cell_type_of : Option DeleteType → ℕ
cell_type_of none = put_type
cell_type_of (some delete_one_version) = delete_type
cell_type_of (some delete_multiple_versions) = delete_column_type
cell_type_of (some delete_family) = delete_family_type
cell_type_of (some delete_family_version) = delete_family_version_type

-- A value with no timestamp gets HBase's latest timestamp.
abbrev pub timestamp_of : Option ℕ → ℕ
timestamp_of none = max_int64
timestamp_of (some ts) = ts

pub value_cells : Bytes → Bytes → List QualifierValue → List Cell
value_cells row family [] = []
value_cells row family (q ∷ qs) =
    record {
      row = row;
      family = family;
      qualifier = q.qualifier;
      timestamp = timestamp_of q.timestamp;
      value = q.value;
      cell_type = cell_type_of q.delete_type;
    }
    ∷ value_cells row family qs

-- The cells that a region server makes of column values.
pub column_cells : Bytes → List ColumnValue → List Cell
column_cells row [] = []
column_cells row (c ∷ cs) = value_cells row c.family c.values ++ column_cells row cs

value_cells-qualifier_values :
    (row family : Bytes) (ts : Option ℕ) (dt : Option DeleteType) (qs : Qualifiers)
    → value_cells row family (qualifier_values ts dt qs)
      ≡ qualifier_cells row family (timestamp_of ts) (cell_type_of dt) qs
unfolding value_cells qualifier_values
value_cells-qualifier_values row family ts dt [] = refl
value_cells-qualifier_values row family ts dt ((k, v) ∷ qs) =
    rw (value_cells-qualifier_values row family ts dt qs) refl

column_delete_type-described :
    (typ : MutationType) (one : Bool) (v : Option Qualifiers)
    → (cell_type_of (column_delete_type typ one v).0 ≡ (described typ one v).0)
      × ((column_delete_type typ one v).1 ≡ (described typ one v).1)
unfolding column_delete_type described empty_qualifier
column_delete_type-described delete true none = (refl, refl)
column_delete_type-described delete true (some []) = (refl, refl)
column_delete_type-described delete true (some (q ∷ qs)) = (ground arith, ground arith)
column_delete_type-described delete false none = (refl, refl)
column_delete_type-described delete false (some []) = (refl, refl)
column_delete_type-described delete false (some (q ∷ qs)) = (ground arith, ground arith)
column_delete_type-described put one none = (refl, refl)
column_delete_type-described put one (some qs) = (refl, refl)
column_delete_type-described append one none = (refl, refl)
column_delete_type-described append one (some qs) = (refl, refl)
column_delete_type-described increment one none = (refl, refl)
column_delete_type-described increment one (some qs) = (refl, refl)

timestamp_of-proto_timestamp :
    (m : Mutate) → timestamp_of (proto_timestamp m) ≡ timestamp_meant m.timestamp
unfolding proto_timestamp timestamp_meant
timestamp_of-proto_timestamp m = ground arith

column_cells-families :
    (m : Mutate) (vs : Values)
    → column_cells m.key
        (values_to_proto m.mutation_type m.delete_one_version (proto_timestamp m) vs)
      ≡ families_cells m vs
unfolding column_cells values_to_proto families_cells
column_cells-families m [] = refl
column_cells-families m ((k, v) ∷ vs) =
    let (types, qualifiers) = column_delete_type-described m.mutation_type m.delete_one_version v in
    simp (
      value_cells-qualifier_values,
      types,
      qualifiers,
      timestamp_of-proto_timestamp m,
      column_cells-families m vs,
    )

-- The two encodings of a mutation's values agree: the cells that deserializeCellBlocks reads from
-- what valuesToCellblocks returns are those that a region server makes of the column values of
-- valuesToProto, with the timestamp that toProto passes, up to their order, since Go may visit the
-- maps of the mutation in another order each time. The mutation is a delete or no family's map of
-- qualifiers is nil, every cell fits its fields, and the blocks together are below 2 ^ 32 bytes.
pub column_cells-values_to_proto :
    (m : Mutate) (vs : Values) (rest spare : Bytes)
    → SameMap m.values vs
    → SettledValues m.mutation_type m.values
    → All Fits (families_cells m m.values)
    → length (blocks (families_cells m m.values)) < 2 ^ 32
    → (cbs : Bytes) × (count : ℕ) × (size : ℕ) × (cells : List Cell) × (values_to_cellblocks m
        ≡ ok (cbs, count, size))
      × (deserialize_cell_blocks (cbs ++ rest) spare count ≡ ok (cells, size))
      × Permuted cells (
          column_cells m.key
            (values_to_proto m.mutation_type m.delete_one_version (proto_timestamp m) vs))
column_cells-values_to_proto m vs rest spare same settled fits short =
    let (cbs, count, size, made, decoded, _) =
      deserialize-values_to_cellblocks m rest spare settled fits short in
    (
      cbs,
      count,
      size,
      families_cells m m.values,
      made,
      decoded,
      subst (Permuted (families_cells m m.values)) (sym (column_cells-families m vs))
          (families_cells-Permuted m same),
    )
