-- ===== src/Cellblock/RoundTrip.antt =====
-- hrpc/call.go: blocks that appendCellblock wrote, given to the readers.
use gohbase.Prelude.{
  length-append, ap, ◌∙◌, ℕ, ◌^◌, [], ◌<◌, All, List, ◌+◌, ◌≡◌, ◌∷◌, ◌++◌, length, arith,
  append_assoc, ok,
}
use gohbase.Bytes.{Bytes}
use gohbase.Bytes.BigEndian.{
  put_uint16, put_uint32, put_uint64, next_byte, next_uint16-put, next_uint32-put, next_uint64-put,
}
use gohbase.Bytes.Slices.{cut-append}
use gohbase.Cellblock.{
  cell_tail, cellblock_len, append_cellblock, deserialize_cell_blocks, cell_from_cell_block,
  deserialize_loop, Cell, cell_body,
}
use gohbase.Cellblock.Encode.{
  length-block-cellblock_len, length-block, append_cellblock-block, block, Fits,
}

module _ (c : Cell) (fits : Fits c) (rest spare : Bytes) where
  -- What follows the key's length in a block.
  tail_onto : Bytes
  tail_onto =
      put_uint16 (length c.row)
      ++ (c.row
          ++ (length c.family
              ∷ (c.family
                  ++ (c.qualifier
                      ++ (put_uint64 c.timestamp ++ (c.cell_type ∷ (c.value ++ rest)))))))

  block_onto :
      block c ++ rest
      ≡ put_uint32 (8 + (12 + length c.row + length c.family + length c.qualifier) + length c.value)
        ++ (put_uint32 (12 + length c.row + length c.family + length c.qualifier)
            ++ (put_uint32 (length c.value) ++ tail_onto))
  unfolding block tail_onto
  block_onto = simp append_assoc

  body-tail :
      cell_body
        (8 + (12 + length c.row + length c.family + length c.qualifier) + length c.value)
        (put_uint32 (12 + length c.row + length c.family + length c.qualifier)
          ++ (put_uint32 (length c.value) ++ tail_onto))
        spare
      ≡ ok (c, 24 + length c.row + length c.family + length c.qualifier + length c.value)
  unfolding cell_body cell_tail tail_onto next_byte
  body-tail = ground (
    arith,
    next_uint32-put (12 + length c.row + length c.family + length c.qualifier)
        (put_uint32 (length c.value) ++ tail_onto) (omega arith),
    next_uint32-put (length c.value) tail_onto (omega arith),
    next_uint16-put (length c.row)
        (c.row
          ++ (length c.family
              ∷ (c.family
                  ++ (c.qualifier
                      ++ (put_uint64 c.timestamp ++ (c.cell_type ∷ (c.value ++ rest)))))))
        (omega arith),
    cut-append c.row (
        length c.family
        ∷ (c.family
            ++ (c.qualifier ++ (put_uint64 c.timestamp ++ (c.cell_type ∷ (c.value ++ rest)))))),
    cut-append c.family
        (c.qualifier ++ (put_uint64 c.timestamp ++ (c.cell_type ∷ (c.value ++ rest)))),
    cut-append c.qualifier (put_uint64 c.timestamp ++ (c.cell_type ∷ (c.value ++ rest))),
    next_uint64-put c.timestamp (c.cell_type ∷ (c.value ++ rest)) (omega arith),
    append_assoc c.value rest spare,
    cut-append c.value (rest ++ spare),
  )

-- Reading the block of a cell gives the cell and the length of its block, whatever follows it.
pub from_cell_block-block :
    (c : Cell) (rest spare : Bytes)
    → Fits c
    → cell_from_cell_block (block c ++ rest) spare ≡ ok (c, length (block c))
unfolding cell_from_cell_block
from_cell_block-block c rest spare fits = ground (
  arith,
  block_onto c fits rest spare,
  length-append (block c) rest,
  length-block c,
  next_uint32-put kv_len key_onto (omega arith),
  body-tail c fits rest spare,
)
  where
    kv_len : ℕ
    kv_len = 8 + (12 + length c.row + length c.family + length c.qualifier) + length c.value

    key_onto : Bytes
    key_onto =
        put_uint32 (12 + length c.row + length c.family + length c.qualifier)
        ++ (put_uint32 (length c.value) ++ tail_onto c fits rest spare)

-- Decoding inverts encoding: cellFromCellBlock reads back the cell that appendCellblock wrote,
-- with the number of bytes that cellblockLen announces, whatever bytes follow in the buffer or in
-- its spare capacity. The cell's lengths and its timestamp must fit their fields.
pub from_cell_block-append :
    (c : Cell) (rest spare : Bytes)
    → Fits c
    → cell_from_cell_block
        (append_cellblock c.row c.family c.qualifier c.value c.timestamp c.cell_type [] ++ rest)
        spare
      ≡ ok (c, cellblock_len (length c.row) (length c.family) (length c.qualifier) (length c.value))
from_cell_block-append c rest spare fits =
    rw (append_cellblock-block c [] fits, from_cell_block-block c rest spare fits)
      (ap (λ (n : ℕ). ok (c, n)) (length-block-cellblock_len c))

-- The blocks of several cells, one behind the other.
unfoldable pub blocks : List Cell → Bytes
blocks [] = []
blocks (c ∷ cs) = block c ++ blocks cs

deserialize_loop-blocks :
    (cs : List Cell) (before rest spare : Bytes)
    → All Fits cs
    → length before + length (blocks cs) < 2 ^ 32
    → deserialize_loop (length cs) (before ++ (blocks cs ++ rest)) spare (length before)
      ≡ ok (cs, length before + length (blocks cs))
unfolding deserialize_loop blocks
deserialize_loop-blocks [] before rest spare fits short = ap (λ (n : ℕ). ok ([], n)) (omega arith)
deserialize_loop-blocks (c ∷ cs) before rest spare (fit, fits) short = ground (
  arith,
  append_assoc (block c) (blocks cs) rest,
  cut-append before (block c ++ (blocks cs ++ rest)),
  from_cell_block-block c (blocks cs ++ rest) spare fit,
  length-append (block c) (blocks cs),
  length-append before (block c),
  append_assoc before (block c) (blocks cs ++ rest),
  deserialize_loop-blocks cs (before ++ block c) rest spare fits,
)

-- The blocks of a list of cells are read back as that list, to their last byte.
pub deserialize-blocks :
    (cs : List Cell) (rest spare : Bytes)
    → All Fits cs
    → length (blocks cs) < 2 ^ 32
    → deserialize_cell_blocks (blocks cs ++ rest) spare (length cs) ≡ ok (cs, length (blocks cs))
unfolding deserialize_cell_blocks
deserialize-blocks cs rest spare fits short =
    deserialize_loop-blocks cs [] rest spare fits (omega arith)
    ∙ ap (λ (n : ℕ). ok (cs, n)) (omega arith)
