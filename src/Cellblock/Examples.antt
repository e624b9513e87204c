-- ===== src/Cellblock/Examples.antt =====
-- The theorems on cellblocks, applied to concrete blocks.
use gohbase.Prelude.{◌≤◌, ◌≡◌, refl, [], ◌∷◌, ◌++◌, arith, length, All, ok}
use gohbase.Bytes.{Bytes, IsByte}
use gohbase.Bytes.BigEndian.{
  put_uint16, put_uint32, put_uint64, next_byte, next_uint16, next_uint32, next_uint64,
}
use gohbase.Bytes.Slices.{cut}
use gohbase.Cellblock.{
  cell_body, cell_tail, cut, next_uint64, next_byte, next_uint16, next_uint32, cell_tail, cell_body,
  Cell, cell_from_cell_block, append_cellblock, cellblock_len, deserialize_cell_blocks,
}
use gohbase.Cellblock.Encode.{block, block, Fits}
use gohbase.Cellblock.RoundTrip.{from_cell_block-append, blocks, deserialize-blocks}
use gohbase.Cellblock.Sound.{from_cell_block_sound}

abbrev cell : Cell
cell = record {
  row = b'r' ∷ b'1' ∷ [];
  family = b'f' ∷ [];
  qualifier = b'q' ∷ [];
  timestamp = 1000;
  value = b'v' ∷ b'w' ∷ [];
  cell_type = 4;
}

cell-Fits : Fits cell
cell-Fits = record {
  row_fits = omega arith;
  family_fits = omega arith;
  timestamp_fits = omega arith;
  block_fits = omega arith;
}

abbrev cell_bytes : Bytes
cell_bytes =
    0 ∷ 0 ∷ 0 ∷ 26 ∷ 0 ∷ 0 ∷ 0 ∷ 16 ∷ 0 ∷ 0 ∷ 0 ∷ 2 ∷ 0 ∷ 2 ∷ b'r' ∷ b'1' ∷ 1 ∷ b'f' ∷ b'q' ∷ 0 ∷ 0
    ∷ 0 ∷ 0 ∷ 0 ∷ 0 ∷ 3 ∷ 232 ∷ 4 ∷ b'v' ∷ b'w' ∷ []

cell_bytes-read : cell_from_cell_block cell_bytes [] ≡ ok (cell, 30)
unfolding cell_from_cell_block cell_body cell_tail next_uint32 next_uint16 next_byte next_uint64 cut
cell_bytes-read = refl

from_cell_block-append_example :
    cell_from_cell_block
      (append_cellblock cell.row cell.family cell.qualifier cell.value cell.timestamp cell.cell_type
          []
        ++ (7 ∷ []))
      (9 ∷ [])
    ≡ ok (cell, cellblock_len 2 1 1 2)
from_cell_block-append_example = from_cell_block-append cell (7 ∷ []) (9 ∷ []) cell-Fits

cell_bytes-All-IsByte : All IsByte cell_bytes
cell_bytes-All-IsByte = ground arith

from_cell_block_sound_example :
    (after : Bytes) × (cell_bytes ++ []
      ≡ append_cellblock cell.row cell.family cell.qualifier cell.value cell.timestamp
          cell.cell_type []
        ++ after)
    × Fits cell
    × (30 ≡ cellblock_len 2 1 1 2)
    × (30 ≤ length cell_bytes)
from_cell_block_sound_example =
    from_cell_block_sound cell_bytes [] cell 30 cell_bytes-All-IsByte (omega arith) cell_bytes-read

deserialize-blocks_example :
    deserialize_cell_blocks (blocks (cell ∷ cell ∷ []) ++ []) [] 2
    ≡ ok (cell ∷ cell ∷ [], length (blocks (cell ∷ cell ∷ [])))
deserialize-blocks_example =
    deserialize-blocks (cell ∷ cell ∷ []) [] [] (cell-Fits, (cell-Fits, tt))
      (unfold blocks block put_uint16 put_uint32 put_uint64 in omega arith)
