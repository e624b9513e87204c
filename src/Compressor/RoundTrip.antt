-- ===== src/Compressor/RoundTrip.antt =====
-- region/compressor.go: decompression of what was compressed, and the fuel of its two loops.
use gohbase.Prelude.{
  ℕ, zero, suc, ◌+◌, ◌^◌, ◌≤◌, ◌<◌, ◌≡◌, sym, ap, ◌∙◌, List, [], ◌∷◌, ◌++◌, append-nil,
  append_assoc, arith, length, All, concat, length-append, ok,
}
use gohbase.Bytes.{Bytes}
use gohbase.Bytes.BigEndian.{put_uint32, next_uint32-put}
use gohbase.Bytes.Slices.{cut-append}
use gohbase.Compressor.{
  Codec, compress_cellblocks, decompress_block, decompress_loop, decompress_cellblocks, read_n,
  read_uint32,
}
use gohbase.Compressor.Chunks.{Lawful, frame, frames, IsChunk, compress_cellblocks-frames}

module _ {codec : Codec} (laws : Lawful codec) where
  -- The inner loop takes the frames of a block, and stops where the block is whole.
  block-frames :
      (srcs : List Bytes) (fuel : ℕ) (out : Bytes) (so_far block_len : ℕ)
      → All (IsChunk laws) srcs
      → so_far + length (concat srcs) ≡ block_len
      → block_len < 2 ^ 32
      → length srcs < fuel
      → decompress_block fuel codec (frames laws srcs) out so_far block_len
        ≡ ok ([], out ++ concat srcs, block_len)
  unfolding decompress_block read_n read_uint32 frames frame
  block-frames srcs zero out so_far block_len chunks total fits enough = absurd (omega arith)
  block-frames [] (suc fuel) out so_far block_len chunks total fits enough =
      ground (arith, append-nil out)
  block-frames (src ∷ srcs) (suc fuel) out so_far block_len ((pos, short), chunks) total fits
        enough =
      ground (
        arith,
        length-append src (concat srcs),
        laws.chunk_fits src short,
        append_assoc (put_uint32 (length (laws.chunk_of src))) (laws.chunk_of src)
            (frames laws srcs),
        next_uint32-put (length (laws.chunk_of src)) (laws.chunk_of src ++ frames laws srcs),
        cut-append (laws.chunk_of src) (frames laws srcs),
        laws.decode_eq src out short,
        append_assoc out src (concat srcs),
        block-frames srcs fuel (out ++ src) (so_far + length src) block_len chunks,
      )

  length-le-frames : (srcs : List Bytes) → length srcs ≤ length (frames laws srcs)
  unfolding frames frame put_uint32
  length-le-frames [] = omega arith
  length-le-frames (src ∷ srcs) =
      omega (arith, length-append (laws.chunk_of src) (frames laws srcs), length-le-frames srcs)

  loop-frames :
      (srcs : List Bytes)
      → All (IsChunk laws) srcs
      → length (concat srcs) < 2 ^ 32
      → decompress_cellblocks codec (put_uint32 (length (concat srcs)) ++ frames laws srcs)
        ≡ ok (concat srcs)
  unfolding decompress_cellblocks decompress_loop read_uint32 put_uint32
  loop-frames srcs chunks fits = ground (
    arith,
    next_uint32-put (length (concat srcs)) (frames laws srcs) fits,
    block-frames srcs (suc (length (frames laws srcs))) [] 0 (length (concat srcs)) chunks,
    length-le-frames srcs,
  )

  -- Compression never runs out of fuel, and decompressing its output gives back the cellblocks, for
  -- every codec that keeps the codec laws, every way in which the cellblocks are cut into buffers,
  -- and every total length below 2 ^ 32 that is passed as the uncompressed length.
  pub decompress-compress :
      (cbs : List Bytes)
      → length (concat cbs) < 2 ^ 32
      → (b : Bytes) × (compress_cellblocks codec cbs (length (concat cbs)) ≡ ok b)
        × (decompress_cellblocks codec b ≡ ok (concat cbs))
  decompress-compress cbs fits =
      let (srcs, ran, spelled, chunks) = compress_cellblocks-frames laws cbs in
      (
        put_uint32 (length (concat cbs)) ++ frames laws srcs,
        ran,
        ap (λ (n : ℕ). decompress_cellblocks codec (put_uint32 n ++ frames laws srcs))
              (ap length (sym spelled))
            ∙ loop-frames srcs chunks (rw spelled fits)
            ∙ ap ok spelled,
      )
