-- ===== src/Responses/AddedCells.antt =====
-- The cells of a get's or a mutation's result, in the blocks that follow the response.
use gohbase.Prelude.{
  ◌^◌, ◌<◌, ◌≡◌, refl, ap, ◌∙◌, Option, none, some, List, [], ◌∷◌, ◌++◌, arith, length, All, ok,
}
use gohbase.Bytes.{Bytes}
use gohbase.Cellblock.{Cell, deserialize_cell_blocks}
use gohbase.Cellblock.Encode.{Fits}
use gohbase.Cellblock.RoundTrip.{blocks, deserialize-blocks}
use gohbase.Responses.{RowCells, result_deserialize_cell_blocks}

-- The result tells how many cells follow it.
abbrev pub Announces : Option RowCells → List Cell → Type 0
Announces none cs = cs ≡ []
Announces (some own) cs = own.associated_cell_count ≡ length cs

abbrev pub with_cells : Option RowCells → List Cell → Option RowCells
with_cells none cs = none
with_cells (some own) cs = some (record own { cells = own.cells ++ cs })

-- The cells that follow a get's or a mutation's response as blocks are added behind those that its
-- result has already, and all their bytes are read, if the result tells their number; a response
-- without a result reads nothing. The cells fit their fields, and the blocks are below 2 ^ 32 bytes.
pub result_deserialize-blocks :
    (r : Option RowCells) (cs : List Cell) (rest spare : Bytes)
    → All Fits cs
    → length (blocks cs) < 2 ^ 32
    → Announces r cs
    → result_deserialize_cell_blocks r (blocks cs ++ rest) spare
      ≡ ok (with_cells r cs, length (blocks cs))
unfolding result_deserialize_cell_blocks blocks
result_deserialize-blocks none [] rest spare fits short count = refl
result_deserialize-blocks none (c ∷ cs) rest spare fits short count = absurd (ground (arith, count))
result_deserialize-blocks (some own) cs rest spare fits short count =
    let read : deserialize_cell_blocks (blocks cs ++ rest) spare own.associated_cell_count
        ≡ ok (cs, length (blocks cs)) =
      ap (deserialize_cell_blocks (blocks cs ++ rest) spare) count
      ∙ deserialize-blocks cs rest spare fits short in
    rw read refl
