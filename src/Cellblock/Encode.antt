-- ===== src/Cellblock/Encode.antt =====
-- What appendCellblock leaves in the buffer, in plain concatenation.
use gohbase.Prelude.{
  ℕ, ◌+◌, ◌%◌, ◌^◌, ◌<◌, ◌≡◌, refl, sym, ap, ◌∙◌, [], ◌∷◌, ◌++◌, List, length, replicate, concat,
  arith, append-nil, append_assoc, length-append,
}
use gohbase.Bytes.{Bytes}
use gohbase.Bytes.BigEndian.{put_uint16, put_uint32, put_uint64}
use gohbase.Bytes.Slices.{copy_at-replicate}
use gohbase.Cellblock.{
  Cursor, write, write_all, append_cellblock, cellblock_parts, cellblock_len, Cell,
}

-- The bytes of a cell, where its lengths fit the fields that hold them.
unfoldable pub block : Cell → Bytes
block c =
    put_uint32 (8 + (12 + length c.row + length c.family + length c.qualifier) + length c.value)
    ++ (put_uint32 (12 + length c.row + length c.family + length c.qualifier)
        ++ (put_uint32 (length c.value)
            ++ (put_uint16 (length c.row)
                ++ (c.row
                    ++ (length c.family
                        ∷ (c.family
                            ++ (c.qualifier
                                ++ (put_uint64 c.timestamp ++ (c.cell_type ∷ c.value)))))))))

-- The lengths and numbers of a cell fit the fields that hold them.
pub record Fits (c : Cell) : Type 0 where
  pub row_fits : length c.row < 2 ^ 16
  pub family_fits : length c.family < 2 ^ 8
  pub timestamp_fits : c.timestamp < 2 ^ 64
  pub block_fits :
      12 + (12 + length c.row + length c.family + length c.qualifier) + length c.value < 2 ^ 32

write-replicate :
    (s p : Bytes) (k : ℕ)
    → write s (length p, p ++ replicate (length s + k) 0)
      ≡ (length (p ++ s), (p ++ s) ++ replicate k 0)
unfolding write
write-replicate s p k = cc (length-append p s, copy_at-replicate p s k)

write_all-replicate :
    (ss : List Bytes) (p : Bytes)
    → (write_all ss (length p, p ++ replicate (length (concat ss)) 0)).1 ≡ p ++ concat ss
unfolding write_all
write_all-replicate [] p = refl
write_all-replicate (s ∷ ss) p =
    ap (λ (n : ℕ). (write_all ss (write s (length p, p ++ replicate n 0))).1)
      (length-append s (concat ss))
    ∙ ap (λ (at_s : Cursor). (write_all ss at_s).1) (write-replicate s p (length (concat ss)))
    ∙ write_all-replicate ss (p ++ s)
    ∙ append_assoc p s (concat ss)

module _ (c : Cell) where
  -- Every write lands in the room that was made for it.
  length-parts :
      length (concat (cellblock_parts c.row c.family c.qualifier c.value c.timestamp c.cell_type))
      ≡ cellblock_len (length c.row) (length c.family) (length c.qualifier) (length c.value)
  unfolding cellblock_parts cellblock_len put_uint16 put_uint32 put_uint64
  length-parts = simp (length-append, append-nil) (omega arith)

  concat-parts :
      Fits c
      → concat (cellblock_parts c.row c.family c.qualifier c.value c.timestamp c.cell_type)
        ≡ block c
  unfolding cellblock_parts block
  concat-parts fits =
      rw (total_fits, key_fits, value_fits, row_fits, family_fits, append-nil, block)
    where
      total_fits :
          (8
              + (2 + length c.row + 1 + length c.family + length c.qualifier + 8 + 1)
              + length c.value)
            % 2 ^ 32
          ≡ 8 + (12 + length c.row + length c.family + length c.qualifier) + length c.value
      total_fits = omega arith

      key_fits :
          (2 + length c.row + 1 + length c.family + length c.qualifier + 8 + 1) % 2 ^ 32
          ≡ 12 + length c.row + length c.family + length c.qualifier
      key_fits = omega arith

      value_fits : length c.value % 2 ^ 32 ≡ length c.value
      value_fits = omega arith

      row_fits : length c.row % 2 ^ 16 ≡ length c.row
      row_fits = omega arith

      family_fits : length c.family % 2 ^ 8 ≡ length c.family
      family_fits = omega arith

-- Every call extends the buffer by cellblockLen bytes, also where a length overflows its field.
pub length-append_cellblock :
    (c : Cell) (cbs : Bytes)
    → length (append_cellblock c.row c.family c.qualifier c.value c.timestamp c.cell_type cbs)
      ≡ length cbs
        + cellblock_len (length c.row) (length c.family) (length c.qualifier) (length c.value)
unfolding append_cellblock
length-append_cellblock c cbs =
    ap (λ (n : ℕ). length (write_all parts (length cbs, cbs ++ replicate n 0)).1)
      (sym (length-parts c))
    ∙ ap length (write_all-replicate parts cbs)
    ∙ length-append cbs (concat parts)
    ∙ ap (λ (n : ℕ). length cbs + n) (length-parts c)
  where
    parts : List Bytes
    parts = cellblock_parts c.row c.family c.qualifier c.value c.timestamp c.cell_type

-- The buffer is extended by the block of the cell.
pub append_cellblock-block :
    (c : Cell) (cbs : Bytes)
    → Fits c
    → append_cellblock c.row c.family c.qualifier c.value c.timestamp c.cell_type cbs
      ≡ cbs ++ block c
unfolding append_cellblock
append_cellblock-block c cbs fits =
    ap (λ (n : ℕ). (write_all parts (length cbs, cbs ++ replicate n 0)).1) (sym (length-parts c))
    ∙ write_all-replicate parts cbs
    ∙ ap (◌++◌ cbs) (concat-parts c fits)
  where
    parts : List Bytes
    parts = cellblock_parts c.row c.family c.qualifier c.value c.timestamp c.cell_type

pub length-block :
    (c : Cell)
    → length (block c) ≡ 24 + length c.row + length c.family + length c.qualifier + length c.value
unfolding block put_uint16 put_uint32 put_uint64
length-block c = simp length-append (omega arith)

pub length-block-cellblock_len :
    (c : Cell)
    → length (block c)
      ≡ cellblock_len (length c.row) (length c.family) (length c.qualifier) (length c.value)
unfolding cellblock_len
length-block-cellblock_len c = omega (arith, length-block c)
