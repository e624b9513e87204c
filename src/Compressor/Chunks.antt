-- ===== src/Compressor/Chunks.antt =====
-- What compressCellblocks writes: the uncompressed length, and the chunks behind their lengths.
use gohbase.Prelude.{
  ℕ, zero, suc, ◌^◌, ◌≤◌, ◌<◌, ◌≡◌, refl, sym, ap, subst, ◌∙◌, some, List, [], ◌∷◌, ◌++◌,
  append-nil, append_assoc, arith, length, All, concat, length-append, ok,
}
use gohbase.Bytes.{Bytes}
use gohbase.Bytes.BigEndian.{put_uint32}
use gohbase.Bytes.Slices.{copy_at, copy_at-middle}
use gohbase.Compressor.{Codec, append_chunk, compress_loop, compress_cellblocks, min, grow_buffer}
use gohbase.Compressor.Buffers.{read, Reads, read-Reads}

-- What the compressor relies on in a codec: it appends a chunk that depends on the source alone,
-- and decoding that chunk appends the source, for every source up to the chunk length.
pub record Lawful (codec : Codec) : Type 0 where
  pub chunk_of : Bytes → Bytes
  pub encode_eq :
      (src dst : Bytes)
      → length src ≤ codec.chunk_len
      → codec.encode src dst ≡ (dst ++ chunk_of src, length (chunk_of src))
  pub decode_eq :
      (src dst : Bytes)
      → length src ≤ codec.chunk_len
      → codec.decode (chunk_of src) dst ≡ some (dst ++ src, length src)
  pub chunk_fits : (src : Bytes) → length src ≤ codec.chunk_len → length (chunk_of src) < 2 ^ 32
  pub chunk_len_pos : 0 < codec.chunk_len

nil_of_length : (b : Bytes) → length b ≡ 0 → b ≡ []
nil_of_length [] h = refl
nil_of_length (x ∷ b) h = absurd (omega arith)

module _ {codec : Codec} (laws : Lawful codec) where
  unfoldable pub frame : Bytes → Bytes
  frame src = put_uint32 (length (laws.chunk_of src)) ++ laws.chunk_of src

  unfoldable pub frames : List Bytes → Bytes
  frames [] = []
  frames (src ∷ srcs) = frame src ++ frames srcs

  -- A chunk that compress makes: not empty, and no longer than the codec takes.
  abbrev pub IsChunk : Bytes → Type 0
  IsChunk src = (0 < length src) × (length src ≤ codec.chunk_len)

  append_chunk-frame :
      (src b : Bytes) → length src ≤ codec.chunk_len → append_chunk codec src b ≡ b ++ frame src
  unfolding append_chunk frame
  append_chunk-frame src b short =
      rw (laws.encode_eq src (grow_buffer b 4) short, append_chunk)
        (ap (copy_at (length b) (put_uint32 (length (laws.chunk_of src))))
            (append_assoc b (0 ∷ 0 ∷ 0 ∷ 0 ∷ []) (laws.chunk_of src))
          ∙ copy_at-middle b (put_uint32 (length (laws.chunk_of src))) (0 ∷ 0 ∷ 0 ∷ 0 ∷ [])
              (laws.chunk_of src) (unfold put_uint32 in refl))

  -- What a run of the loop from `cbs` and `b` makes.
  Framed : ℕ → ℕ → List Bytes → Bytes → Type 0
  Framed fuel room cbs b =
      (srcs : List Bytes) × (compress_loop fuel codec room cbs b ≡ ok (b ++ frames srcs))
      × (concat srcs ≡ concat cbs)
      × All IsChunk srcs

  one_round :
      (fuel room : ℕ) (cbs : List Bytes) (b chunk : Bytes) (unread : List Bytes)
      → read room cbs ≡ (chunk, unread)
      → Reads room cbs chunk unread
      → room ≤ codec.chunk_len
      → length (concat cbs) < suc fuel
      → ((b' : Bytes) → length (concat unread) < fuel → Framed fuel room unread b')
      → Framed (suc fuel) room cbs b
  unfolding compress_loop frames Framed
  one_round fuel room cbs b [] unread e reads le short again =
      ([], ground (arith, append-nil b), sym (reads.at_end refl), tt)
  one_round fuel room cbs b (x ∷ chunk) [] e reads le short again = (
    (x ∷ chunk) ∷ [],
    ground (
      arith,
      append_chunk-frame (x ∷ chunk) b (omega (arith, reads.within)),
      append-nil (frame (x ∷ chunk)),
    ),
    reads.parts,
    ((omega arith, omega (arith, reads.within)), tt),
  )
  one_round fuel room cbs b (x ∷ chunk) (u ∷ us) e reads le short again =
      let (srcs, ran, spelled, chunks) =
        again (append_chunk codec (x ∷ chunk) b)
          (omega (arith, ap length reads.parts, length-append (x ∷ chunk) (concat (u ∷ us)))) in
      (
        (x ∷ chunk) ∷ srcs,
        ground (
          arith,
          ran,
          append_chunk-frame (x ∷ chunk) b (omega (arith, reads.within)),
          append_assoc b (frame (x ∷ chunk)) (frames srcs),
        ),
        ap (◌++◌ (x ∷ chunk)) spelled ∙ reads.parts,
        ((omega arith, omega (arith, reads.within)), chunks),
      )

  compress_loop-frames :
      (fuel room : ℕ) (cbs : List Bytes) (b : Bytes)
      → 0 < room
      → room ≤ codec.chunk_len
      → length (concat cbs) < fuel
      → Framed fuel room cbs b
  compress_loop-frames zero room cbs b pos le short = absurd (omega arith)
  compress_loop-frames (suc fuel) room cbs b pos le short =
      one_round fuel room cbs b _ _ refl (read-Reads room cbs pos) le short
        λ b' short'. compress_loop-frames fuel room (read room cbs).1 b' pos le short'

  empty_loop :
      (fuel : ℕ) (cbs : List Bytes) (b : Bytes) → concat cbs ≡ [] → Framed (suc fuel) 0 cbs b
  unfolding Framed compress_loop read frames
  empty_loop fuel cbs b none_left = ([], ap ok (sym (append-nil b)), sym none_left, tt)

  framed :
      (n room : ℕ) (cbs : List Bytes) (b : Bytes)
      → length (concat cbs) ≡ n
      → room ≡ min n codec.chunk_len
      → Framed (suc n) room cbs b
  unfolding min
  framed zero room cbs b total small =
      let no_room : room ≡ 0 = ground (arith, laws.chunk_len_pos) in
      subst (λ r. Framed 1 r cbs b) (sym no_room)
        (empty_loop 0 cbs b (nil_of_length (concat cbs) total))
  framed (suc n) room cbs b total small =
      compress_loop-frames (suc (suc n)) room cbs b (ground (arith, laws.chunk_len_pos))
        (ground arith) (omega arith)

  -- The output is the block's length and frames that hold the input.
  pub compress_cellblocks-frames :
      (cbs : List Bytes)
      → (srcs : List Bytes) × (compress_cellblocks codec cbs (length (concat cbs))
          ≡ ok (put_uint32 (length (concat cbs)) ++ frames srcs))
        × (concat srcs ≡ concat cbs)
        × All IsChunk srcs
  unfolding compress_cellblocks Framed
  compress_cellblocks-frames cbs =
      framed (length (concat cbs)) (min (length (concat cbs)) codec.chunk_len) cbs
        (put_uint32 (length (concat cbs))) refl refl
