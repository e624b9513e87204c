-- ===== src/Responses/ScanCells.antt =====
-- The cells of a scan's results, in the blocks that follow the response.
use gohbase.Prelude.{
  ℕ, ◌+◌, ◌%◌, ◌^◌, ◌<◌, ◌≡◌, refl, sym, ap, ◌∙◌, some, List, [], ◌∷◌, ◌++◌, map, append_assoc,
  arith, length, All, length-append, All-append_left, All-append_right, ok,
}
use gohbase.Bytes.{Bytes}
use gohbase.Bytes.Slices.{cut, cut-append}
use gohbase.Cellblock.{Cell, deserialize_cell_blocks}
use gohbase.Cellblock.Encode.{Fits, block}
use gohbase.Cellblock.RoundTrip.{blocks, deserialize-blocks}
use gohbase.Responses.{CellResult, scan_loop, scan_deserialize_cell_blocks}

unfoldable pub all_cells : List CellResult → List Cell
all_cells [] = []
all_cells (r ∷ rs) = r.cells ++ all_cells rs

blocks-append : (cs ds : List Cell) → blocks (cs ++ ds) ≡ blocks cs ++ blocks ds
unfolding blocks
blocks-append [] ds = refl
blocks-append (c ∷ cs) ds =
    ap (◌++◌ (block c)) (blocks-append cs ds) ∙ sym (append_assoc (block c) (blocks cs) (blocks ds))

scan_loop-blocks :
    (rs : List CellResult) (before rest spare : Bytes)
    → All Fits (all_cells rs)
    → length before + length (blocks (all_cells rs)) < 2 ^ 32
    → scan_loop
        (map (λ r. length r.cells) rs)
        (before ++ (blocks (all_cells rs) ++ rest))
        spare
        (map (λ r. r.partial) rs)
        (length before)
      ≡ ok (map (λ r. some r) rs, length before + length (blocks (all_cells rs)))
unfolding scan_loop all_cells
scan_loop-blocks [] before rest spare fits short =
    let e : length before ≡ length before + length (blocks []) = unfold blocks in omega arith in
    ap (λ (n : ℕ). ok ([], n)) e
scan_loop-blocks (r ∷ rs) before rest spare fits short =
    let own = blocks r.cells in
    let later = blocks (all_cells rs) in
    let parts : blocks (r.cells ++ all_cells rs) ≡ own ++ later =
      blocks-append r.cells (all_cells rs) in
    let total : length (blocks (r.cells ++ all_cells rs)) ≡ length own + length later =
      ap length parts ∙ length-append own later in
    let unread : cut (length before) (before ++ (blocks (r.cells ++ all_cells rs) ++ rest))
        ≡ some (before, own ++ (later ++ rest)) =
      rw (parts, append_assoc own later rest) (cut-append before (own ++ (later ++ rest))) in
    let got : deserialize_cell_blocks (own ++ (later ++ rest)) spare (length r.cells)
        ≡ ok (r.cells, length own) =
      deserialize-blocks r.cells (later ++ rest) spare
        (All-append_left Fits r.cells (all_cells rs) fits) (omega arith) in
    let shift : (before ++ own) ++ (later ++ rest)
        ≡ before ++ (blocks (r.cells ++ all_cells rs) ++ rest) =
      append_assoc before own (later ++ rest)
      ∙ ap (◌++◌ before) (sym (append_assoc own later rest) ∙ ap (λ bs. bs ++ rest) (sym parts)) in
    let sum : length (before ++ own) ≡ (length before + length own) % 2 ^ 32 =
      length-append before own ∙ omega arith in
    let again =
      scan_loop-blocks rs (before ++ own) rest spare
        (All-append_right Fits r.cells (all_cells rs) fits)
        (omega (arith, length-append before own)) in
    let again' = rw (shift, sum) at again in
    let total_read : (length before + length own) % 2 ^ 32 + length later
        ≡ length before + length (blocks (r.cells ++ all_cells rs)) =
      omega arith in
    rw (unread, got, again') (ap (λ (n : ℕ). ok (some r ∷ map (λ r. some r) rs, n)) total_read)

-- The cells of a scan's results, written one behind the other as blocks, are read back as those
-- results with their partial flags, to the last byte of the blocks. The cells fit their fields, and
-- the blocks together are below 2 ^ 32 bytes.
pub scan_deserialize-blocks :
    (rs : List CellResult) (rest spare : Bytes)
    → All Fits (all_cells rs)
    → length (blocks (all_cells rs)) < 2 ^ 32
    → scan_deserialize_cell_blocks
        (map (λ r. length r.cells) rs)
        (map (λ r. r.partial) rs)
        (blocks (all_cells rs) ++ rest)
        spare
      ≡ ok (map (λ r. some r) rs, length (blocks (all_cells rs)))
unfolding scan_deserialize_cell_blocks
scan_deserialize-blocks rs rest spare fits short =
    scan_loop-blocks rs [] rest spare fits (omega arith)
    ∙ ap (λ (n : ℕ). ok (map (λ r. some r) rs, n)) (omega arith)
