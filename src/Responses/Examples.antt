-- ===== src/Responses/Examples.antt =====
-- The theorem on the cells of responses, applied to concrete results.
use gohbase.Prelude.{
  ℕ, ◌^◌, ◌<◌, ◌≡◌, refl, true, false, some, List, [], ◌∷◌, ◌++◌, map, arith, length, All, ok,
}
use gohbase.Bytes.BigEndian.{put_uint16, put_uint32, put_uint64}
use gohbase.Cellblock.{Cell}
use gohbase.Cellblock.Encode.{Fits, block}
use gohbase.Cellblock.RoundTrip.{blocks}
use gohbase.Responses.{
  RowCells, result_deserialize_cell_blocks, CellResult, scan_deserialize_cell_blocks,
}
use gohbase.Responses.AddedCells.{with_cells, result_deserialize-blocks}
use gohbase.Responses.ScanCells.{all_cells, scan_deserialize-blocks}

abbrev cell : ℕ → Cell
cell qualifier = record {
  row = b'r' ∷ [];
  family = b'f' ∷ [];
  qualifier = qualifier ∷ [];
  timestamp = 1000;
  value = b'v' ∷ [];
  cell_type = 4;
}

cell-Fits : (qualifier : ℕ) → Fits (cell qualifier)
cell-Fits qualifier = record {
  row_fits = omega arith;
  family_fits = omega arith;
  timestamp_fits = omega arith;
  block_fits = omega arith;
}

-- A result of two cells, one without cells, and a partial one of one cell.
abbrev results : List CellResult
results =
    record { cells = cell 1 ∷ cell 2 ∷ []; partial = false }
    ∷ record { cells = []; partial = false }
    ∷ record { cells = cell 3 ∷ []; partial = true }
    ∷ []

results-Fits : All Fits (all_cells results)
unfolding all_cells
results-Fits = (cell-Fits 1, (cell-Fits 2, (cell-Fits 3, tt)))

results-short : length (blocks (all_cells results)) < 2 ^ 32
unfolding all_cells blocks block put_uint16 put_uint32 put_uint64
results-short = omega arith

scan_deserialize-blocks_example :
    scan_deserialize_cell_blocks
      (2 ∷ 0 ∷ 1 ∷ [])
      (false ∷ false ∷ true ∷ [])
      (blocks (all_cells results) ++ (7 ∷ []))
      []
    ≡ ok (map (λ r. some r) results, length (blocks (all_cells results)))
scan_deserialize-blocks_example =
    scan_deserialize-blocks results (7 ∷ []) [] results-Fits results-short

-- A result with one cell of its own, and two more behind it.
abbrev own : RowCells
own = record { cells = cell 9 ∷ []; associated_cell_count = 2 }

added-short : length (blocks (cell 1 ∷ cell 2 ∷ [])) < 2 ^ 32
unfolding blocks block put_uint16 put_uint32 put_uint64
added-short = omega arith

result_deserialize-blocks_example :
    result_deserialize_cell_blocks (some own) (blocks (cell 1 ∷ cell 2 ∷ []) ++ (7 ∷ [])) []
    ≡ ok (with_cells (some own) (cell 1 ∷ cell 2 ∷ []), length (blocks (cell 1 ∷ cell 2 ∷ [])))
result_deserialize-blocks_example =
    result_deserialize-blocks (some own) (cell 1 ∷ cell 2 ∷ []) (7 ∷ []) []
      (cell-Fits 1, (cell-Fits 2, tt)) added-short refl
