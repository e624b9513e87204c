-- ===== src/Mutate/Cells.antt =====
-- What valuesToCellblocks makes of a mutation's cells.
use gohbase.Prelude.{
  ℕ, ◌%◌, ◌^◌, ◌≤◌, ◌<◌, ◌≡◌, refl, ◌∙◌, inl, inr, true, false, List, [], ◌∷◌, ◌++◌, arith, ◌==◌,
  Bool-cases, length, All, length-append, ok, panics,
}
use gohbase.Bytes.{Bytes}
use gohbase.Cellblock.{Cell, deserialize_cell_blocks}
use gohbase.Cellblock.Encode.{Fits, block, length-block}
use gohbase.Cellblock.RoundTrip.{blocks, deserialize-blocks}
use gohbase.Mutate.Described.{families_cells}
use gohbase.Mutate.{
  Mutate, is_delete, Values, measure, append_families, cell_timestamp, values_to_cellblocks,
}
use gohbase.Mutate.Written.{append_families-blocks}
use gohbase.Mutate.Measured.{
  SettledValues, HasNil, measure-append_families, measure-families_cells, append_families-lt,
}

no_values :
    (m : Mutate) (ts : ℕ) (vs : Values)
    → (length vs == 0) ≡ true
    → (append_families m ts vs [] ≡ []) × ((measure m.key vs).1 ≡ 0)
unfolding append_families measure
no_values m ts [] e = (refl, refl)
no_values m ts (v ∷ vs) e = absurd (ground arith)

some_values : (vs : Values) → HasNil vs → (length vs == 0) ≡ false
some_values [] nil = absurd nil
some_values (v ∷ vs) nil = ground arith

length-le-blocks : (cs : List Cell) → length cs ≤ length (blocks cs)
unfolding blocks
length-le-blocks [] = omega arith
length-le-blocks (c ∷ cs) =
    omega (arith, length-append (block c) (blocks cs), length-block c, length-le-blocks cs)

values_to_cellblocks-settled :
    (m : Mutate)
    → SettledValues m.mutation_type m.values
    → values_to_cellblocks m
      ≡ ok (
        append_families m (cell_timestamp m) m.values [],
        (measure m.key m.values).1 % 2 ^ 32,
        length (append_families m (cell_timestamp m) m.values []) % 2 ^ 32,
      )
unfolding values_to_cellblocks
values_to_cellblocks-settled m settled = elim (Bool-cases (length m.values == 0)) [
  | inl e ↦ ground (arith, no_values m (cell_timestamp m) m.values e)
  | inr e ↦ ground (arith, measure-append_families m (cell_timestamp m) m.values [] settled)
]

-- The cellblocks of a mutation are made, and read back as its cells: where the mutation is a
-- delete or no family's map of qualifiers is nil, where every cell fits its fields and the blocks
-- together are below 2 ^ 32 bytes, valuesToCellblocks returns the blocks with their number and
-- length, and deserializeCellBlocks turns them into the mutation's cells, in order: those that
-- `described` lists by HBase's codes of cell types, with the greatest int64 as the timestamp where
-- none is set.
pub deserialize-values_to_cellblocks :
    (m : Mutate) (rest spare : Bytes)
    → SettledValues m.mutation_type m.values
    → All Fits (families_cells m m.values)
    → length (blocks (families_cells m m.values)) < 2 ^ 32
    → (cbs : Bytes) × (count : ℕ) × (size : ℕ) × (values_to_cellblocks m ≡ ok (cbs, count, size))
      × (deserialize_cell_blocks (cbs ++ rest) spare count ≡ ok (families_cells m m.values, size))
      × (size ≡ length cbs)
deserialize-values_to_cellblocks m rest spare settled fits short =
    let cells = families_cells m m.values in
    let written : append_families m (cell_timestamp m) m.values [] ≡ blocks cells =
      append_families-blocks m m.values [] fits in
    let count_eq : (measure m.key m.values).1 % 2 ^ 32 ≡ length cells =
      omega (arith, measure-families_cells m m.values settled, length-le-blocks cells) in
    let size_eq : length (blocks cells) % 2 ^ 32 ≡ length (blocks cells) = omega arith in
    (
      blocks cells,
      length cells,
      length (blocks cells),
      values_to_cellblocks-settled m settled ∙ rw (written, count_eq, size_eq),
      deserialize-blocks cells rest spare fits short,
      refl,
    )

-- A nil map of qualifiers in a mutation that is no delete makes valuesToCellblocks panic: the
-- first loop counts an empty qualifier for it, and the second loop writes none.
pub values_to_cellblocks-panics :
    (m : Mutate)
    → is_delete m.mutation_type ≡ false
    → HasNil m.values
    → values_to_cellblocks m ≡ panics
unfolding values_to_cellblocks
values_to_cellblocks-panics m put nil =
    ground
      (arith, some_values m.values nil, append_families-lt m (cell_timestamp m) m.values [] put nil)
