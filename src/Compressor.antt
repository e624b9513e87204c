-- ===== src/Compressor.antt =====
-- region/compressor.go, compression/codec.go and compression/snappy/snappy.go: cellblocks in
-- compressed chunks. github.com/golang/snappy is a parameter. A buffer's capacity is not modelled:
-- growBuffer exposes bytes that are overwritten before they are read, and resizeBufferCap changes
-- the capacity alone.
pub mod Buffers
pub mod Chunks
mod Examples
pub mod RoundTrip
pub mod Fuel
pub mod Snappy
use gohbase.Prelude.{
  ℕ, zero, suc, ◌+◌, ◌-◌, ◌*◌, ◌/◌, ◌%◌, ◌^◌, not, Option, none, some, List, [], ◌∷◌, ◌++◌, ltb,
  ◌==◌, if◌then◌else◌, length, replicate, concat, Result, ok, err, guard, or_err, ◌>>=◌, ◌>>◌,
}
use gohbase.Bytes.{Bytes}
use gohbase.Bytes.BigEndian.{put_uint32, next_uint32}
use gohbase.Bytes.Slices.{cut, copy_at}
use gohbase.Compressor.Buffers.{read}

-- compression.Codec: `encode src dst` and `decode src dst` append to `dst`, and return the length
-- of what they appended.
pub record Codec : Type 0 where
  pub encode : Bytes → Bytes → Bytes × ℕ
  pub decode : Bytes → Bytes → Option (Bytes × ℕ)
  pub chunk_len : ℕ

-- The snappy codec over the third-party functions snappy.Encode and snappy.Decode.
abbrev pub snappy_chunk_len : ℕ
snappy_chunk_len = 256 * 1024 * 5 / 6 - 32

pub snappy_codec : (Bytes → Bytes) → (Bytes → Option Bytes) → Codec
snappy_codec snappy_encode snappy_decode = record {
  encode = λ src dst. (dst ++ snappy_encode src, length (snappy_encode src) % 2 ^ 32);
  decode = λ src dst. elim (snappy_decode src) [
    | none ↦ none
    | some chunk ↦ some (dst ++ chunk, length chunk % 2 ^ 32)
  ];
  chunk_len = snappy_chunk_len;
}

pub data Error : Type 0 where
  -- readN: the bytes wanted and found
  block_len_unread : ℕ → Error
  chunk_len_unread : ℕ → Error
  chunk_unread : ℕ → ℕ → Error
  decode_failed : Error
  -- the uncompressed length expected and found
  too_much : ℕ → ℕ → Error
  -- no value of the program: a loop's fuel was not enough
  out_of_fuel : Error

unfoldable pub min : ℕ → ℕ → ℕ
min x y = if ltb x y then x else y

unfoldable pub grow_buffer : Bytes → ℕ → Bytes
grow_buffer b sz = b ++ replicate sz 0

-- One chunk behind its length: the bytes for the length are made first and filled last.
unfoldable pub append_chunk : Codec → Bytes → Bytes → Bytes
unfolding grow_buffer
append_chunk codec chunk b =
    let (b', chunk_len) = codec.encode chunk (grow_buffer b 4) in
    copy_at (length b) (put_uint32 chunk_len) b'

-- The loop of compressCellblocks. `room` is the length of the uncompressed buffer, and
-- Buffers.Read returns io.EOF where it leaves no buffer.
unfoldable pub compress_loop : ℕ → Codec → ℕ → List Bytes → Bytes → Result Error Bytes
compress_loop zero codec room cbs b = err out_of_fuel
compress_loop (suc fuel) codec room cbs b =
    let (chunk, unread) = read room cbs in
    let again = compress_loop fuel codec room unread (append_chunk codec chunk b) in
    if length chunk == 0
    then ok b
    else (elim unread [ [] ↦ ok (append_chunk codec chunk b) | _ ∷ _ ↦ again ])

-- Each round but the last reads a byte at least.
unfoldable pub compress_cellblocks : Codec → List Bytes → ℕ → Result Error Bytes
compress_cellblocks codec cbs uncompressed_len =
    compress_loop (suc (length (concat cbs))) codec (min uncompressed_len codec.chunk_len) cbs
      (put_uint32 uncompressed_len)

pub read_n : Bytes → ℕ → Option (Bytes × Bytes)
read_n b n = cut n b

pub read_uint32 : Bytes → Option (ℕ × Bytes)
read_uint32 b = next_uint32 b

-- Reads and decodes chunks until the block is whole; returns what is left of `b`, the output, and
-- the number of uncompressed bytes, a uint32.
pub decompress_block : ℕ → Codec → Bytes → Bytes → ℕ → ℕ → Result Error (Bytes × Bytes × ℕ)
decompress_block zero codec b out so_far block_len = err out_of_fuel
decompress_block (suc fuel) codec b out so_far block_len =
    let chunk_step : Result Error (Bytes × Bytes × ℕ) = (do
      (compressed_len, b₁) ← or_err (read_uint32 b) (chunk_len_unread (length b))
      (compressed, b₂) ← or_err (read_n b₁ compressed_len) (chunk_unread compressed_len (length b₁))
      (out', chunk_len) ← or_err (codec.decode compressed out) decode_failed
      decompress_block fuel codec b₂ out' ((so_far + chunk_len) % 2 ^ 32) block_len) in
    if ltb so_far block_len then chunk_step else ok (b, out, so_far)

pub decompress_loop : ℕ → Codec → Bytes → Bytes → Result Error Bytes
decompress_loop fuel codec [] out = ok out
decompress_loop zero codec (x ∷ b) out = err out_of_fuel
decompress_loop (suc fuel) codec (x ∷ b) out = do
  (block_len, b₁) ← or_err (read_uint32 (x ∷ b)) (block_len_unread (length (x ∷ b)))
  (b₂, out', so_far) ← decompress_block (suc (length b₁)) codec b₁ out 0 block_len
  guard (not (ltb block_len so_far)) (too_much block_len so_far)
  decompress_loop fuel codec b₂ out'

-- Each round of either loop takes four bytes at least.
pub decompress_cellblocks : Codec → Bytes → Result Error Bytes
decompress_cellblocks codec b = decompress_loop (length b) codec b []
