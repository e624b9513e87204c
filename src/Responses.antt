-- ===== src/Responses.antt =====
-- DeserializeCellBlocks of hrpc/scan.go, hrpc/get.go and hrpc/mutate.go: the cells that follow a
-- response, given to its results.
pub mod ScanCells
pub mod AddedCells
mod Examples
use gohbase.Prelude.{
  ℕ, ◌+◌, ◌%◌, ◌^◌, Bool, Option, none, some, List, [], ◌∷◌, ◌++◌, map, Result, ok, panics, ◌>>=◌,
  ◌>>◌, or_panic,
}
use gohbase.Bytes.{Bytes}
use gohbase.Bytes.Slices.{cut}
use gohbase.Cellblock.{Cell, Error, deserialize_cell_blocks}

-- A result with its partial flag; `none` is a result that the loop has not reached.
pub record CellResult : Type 0 where
  pub cells : List Cell
  pub partial : Bool

abbrev pub Deserialized : Type 0
Deserialized = Result (ℕ × Error) (List (Option CellResult) × ℕ)

-- What is done with the cells of one result, where `partials` are the flags from its index on.
abbrev pub store : (List Bool → ℕ → Deserialized) → List Bool → ℕ → List Cell × ℕ → Deserialized
store again [] read_len (cells, l) = panics
store again (p ∷ partials) read_len (cells, l) =
    again partials ((read_len + l) % 2 ^ 32) >>= λ (results, read_len').
    ok (some (record { cells = cells; partial = p }) ∷ results, read_len')

-- The loop over the numbers of cells.
pub scan_loop : List ℕ → Bytes → Bytes → List Bool → ℕ → Deserialized
scan_loop [] b spare partials read_len = ok (map (λ p. none) partials, read_len)
scan_loop (num_cells ∷ more) b spare partials read_len = do
  (_, unread) ← or_panic (cut read_len b)
  got ← deserialize_cell_blocks unread spare num_cells
  store (scan_loop more b spare) partials read_len got

pub scan_deserialize_cell_blocks : List ℕ → List Bool → Bytes → Bytes → Deserialized
scan_deserialize_cell_blocks cells_per_result partials b spare =
    scan_loop cells_per_result b spare partials 0

-- The result of a get or of a mutation: the cells that it has, and the number of cells that follow.
pub record RowCells : Type 0 where
  pub cells : List Cell
  pub associated_cell_count : ℕ

pub result_deserialize_cell_blocks :
    Option RowCells → Bytes → Bytes → Result (ℕ × Error) (Option RowCells × ℕ)
result_deserialize_cell_blocks none b spare = ok (none, 0)
result_deserialize_cell_blocks (some r) b spare = do
  (cells, read_len) ← deserialize_cell_blocks b spare r.associated_cell_count
  ok (some (record r { cells = r.cells ++ cells }), read_len)
