-- ===== src/Cellblock.antt =====
-- hrpc/mutate.go (cellblockLen, appendCellblock) and hrpc/call.go (cellFromCellBlock,
-- deserializeCellBlocks): HBase cells as length-prefixed binary blocks.
-- A byte slice is a list of bytes; `int` is 64 bits wide, and no slice is longer than that, so a
-- sum of lengths does not wrap where the source computes it as an int.
mod Examples
pub mod Encode
pub mod RoundTrip
pub mod Sound
use gohbase.Prelude.{
  not, ℕ, zero, suc, ◌+◌, ◌-◌, ◌%◌, ◌^◌, [], ◌∷◌, ◌++◌, List, length, replicate, ltb, ◌==◌, Result,
  ok, err, panics, guard, or_panic, ◌>>=◌, ◌>>◌,
}
use gohbase.Bytes.{Bytes}
use gohbase.Bytes.BigEndian.{
  put_uint16, put_uint32, put_uint64, next_byte, next_uint16, next_uint32, next_uint64,
}
use gohbase.Bytes.Slices.{cut, copy_at}

-- pb.Cell, the fields that a cellblock holds.
pub record Cell : Type 0 where
  pub row : Bytes
  pub family : Bytes
  pub qualifier : Bytes
  pub timestamp : ℕ
  pub value : Bytes
  pub cell_type : ℕ

pub data Error : Type 0 where
  -- the buffer's length that was expected, and the one that was found
  too_small : ℕ → ℕ → Error
  -- the length that the header announces, and the one that its parts add up to
  lied : ℕ → ℕ → Error

unfoldable pub cellblock_len : ℕ → ℕ → ℕ → ℕ → ℕ
cellblock_len row_len family_len qualifier_len value_len =
    let key_length = 2 + row_len + 1 + family_len + qualifier_len + 8 + 1 in
    let key_value_length = 4 + 4 + key_length + value_len in 4 + key_value_length

-- A buffer and the position `i` of the next write: `i += copy(cbs[i:], src)`.
abbrev pub Cursor : Type 0
Cursor = ℕ × Bytes

pub write : Bytes → Cursor → Cursor
write src (i, buffer) = (i + length src, copy_at i src buffer)

pub write_all : List Bytes → Cursor → Cursor
write_all [] c = c
write_all (src ∷ more) c = write_all more (write src c)

-- What is written, in order: the header, the key, the value.
pub cellblock_parts : Bytes → Bytes → Bytes → Bytes → ℕ → ℕ → List Bytes
cellblock_parts row family qualifier value ts typ =
    let keylength = 2 + length row + 1 + length family + length qualifier + 8 + 1 in
    let valuelength = length value in
    let keyvaluelength = 4 + 4 + keylength + valuelength in
    put_uint32 (keyvaluelength % 2 ^ 32)
    ∷ put_uint32 (keylength % 2 ^ 32)
    ∷ put_uint32 (valuelength % 2 ^ 32)
    ∷ put_uint16 (length row % 2 ^ 16)
    ∷ row
    ∷ ((length family % 2 ^ 8) ∷ [])
    ∷ family
    ∷ qualifier
    ∷ put_uint64 ts
    ∷ (typ ∷ [])
    ∷ value
    ∷ []

pub append_cellblock : Bytes → Bytes → Bytes → Bytes → ℕ → ℕ → Bytes → Bytes
append_cellblock row family qualifier value ts typ cbs =
    let room = cellblock_len (length row) (length family) (length qualifier) (length value) in
    (write_all (cellblock_parts row family qualifier value ts typ)
      (length cbs, cbs ++ replicate room 0)).1

-- The cell at the front of `b`, and its length. The bytes `spare` lie between the slice's length
-- and its capacity: the last slice expression, `b[:valueLen]`, may reach into them, and every
-- other read is followed by one that panics beyond the length. `uint32` arithmetic wraps.
pub cell_tail : ℕ → Bytes → Bytes → ℕ → ℕ → Bytes → Bytes → Result Error (Cell × ℕ)
cell_tail kv_len key family qualifier_len value_len b spare = do
  (qualifier, b₁) ← or_panic (cut qualifier_len b)
  (timestamp, b₂) ← or_panic (next_uint64 b₁)
  (cell_type, b₃) ← or_panic (next_byte b₂)
  (value, _) ← or_panic (cut value_len (b₃ ++ spare))
  ok (
    record {
      row = key;
      family = family;
      qualifier = qualifier;
      timestamp = timestamp;
      value = value;
      cell_type = cell_type;
    },
    (kv_len + 4) % 2 ^ 32,
  )

pub cell_body : ℕ → Bytes → Bytes → Result Error (Cell × ℕ)
cell_body kv_len b spare = do
  (row_key_len, b₁) ← or_panic (next_uint32 b)
  (value_len, b₂) ← or_panic (next_uint32 b₁)
  (key_len, b₃) ← or_panic (next_uint16 b₂)
  (key, b₄) ← or_panic (cut key_len b₃)
  (family_len, b₅) ← or_panic (next_byte b₄)
  (family, b₆) ← or_panic (cut family_len b₅)
  let qualifier_len = (row_key_len + 2 ^ 32 - (key_len + family_len + 2 + 1 + 8 + 1)) % 2 ^ 32
  let total = (4 + 4 + 2 + key_len + 1 + family_len + qualifier_len + 8 + 1 + value_len) % 2 ^ 32
  guard (total == kv_len) (lied kv_len total)
  cell_tail kv_len key family qualifier_len value_len b₆ spare

pub cell_from_cell_block : Bytes → Bytes → Result Error (Cell × ℕ)
cell_from_cell_block b spare = do
  guard (not (ltb (length b) 4)) (too_small 4 (length b))
  (kv_len, rest) ← or_panic (next_uint32 b)
  guard (not (ltb (length b) (kv_len + 4))) (too_small (kv_len + 4) (length b))
  cell_body kv_len rest spare

-- An error comes with the number of bytes that had been read.
abbrev pub fail_at {ℓ} : {A : Type ℓ} → ℕ → Result Error A → Result (ℕ × Error) A
fail_at read_len (ok a) = ok a
fail_at read_len (err e) = err (read_len, e)
fail_at read_len panics = panics

-- The loop of deserializeCellBlocks, over the rounds left; `read_len` is a uint32.
pub deserialize_loop : ℕ → Bytes → Bytes → ℕ → Result (ℕ × Error) (List Cell × ℕ)
deserialize_loop zero b spare read_len = ok ([], read_len)
deserialize_loop (suc rounds) b spare read_len = do
  (_, unread) ← or_panic (cut read_len b)
  (c, l) ← fail_at read_len (cell_from_cell_block unread spare)
  (cells, read_len') ← deserialize_loop rounds b spare ((read_len + l) % 2 ^ 32)
  ok (c ∷ cells, read_len')

pub deserialize_cell_blocks : Bytes → Bytes → ℕ → Result (ℕ × Error) (List Cell × ℕ)
unfolding deserialize_loop
deserialize_cell_blocks b spare cells_len = deserialize_loop cells_len b spare 0
