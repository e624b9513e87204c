-- ===== src/Compressor/Snappy.antt =====
-- compression/snappy/snappy.go: the snappy codec and the compressor's laws.
use gohbase.Prelude.{
  ℕ, ◌+◌, ◌/◌, ◌^◌, ◌≤◌, ◌<◌, ◌≡◌, ap, Option, some, List, ◌++◌, arith, length, concat, ok,
}
use gohbase.Bytes.{Bytes}
use gohbase.Compressor.{snappy_codec, compress_cellblocks, decompress_cellblocks}
use gohbase.Compressor.Chunks.{Lawful}
use gohbase.Compressor.RoundTrip.{decompress-compress}

-- What github.com/golang/snappy documents: Decode inverts Encode, and Encode's output is no longer
-- than MaxEncodedLen, 32 + n + n / 6.
pub record SnappyLaws (encode : Bytes → Bytes) (decode : Bytes → Option Bytes) : Type 0 where
  pub inverse : (src : Bytes) → decode (encode src) ≡ some src
  pub max_encoded_len : (src : Bytes) → length (encode src) ≤ 32 + length src + length src / 6

module _ {encode : Bytes → Bytes} {decode : Bytes → Option Bytes}
    (laws : SnappyLaws encode decode) where
  pub snappy-Lawful : Lawful (snappy_codec encode decode)
  unfolding snappy_codec
  snappy-Lawful = record {
    chunk_of = encode;
    encode_eq = λ src dst short.
        ap (λ (n : ℕ). (dst ++ encode src, n)) (omega (arith, laws.max_encoded_len src));
    decode_eq =
        λ src dst short. rw (laws.inverse src) (ap (λ (n : ℕ). some (dst ++ src, n)) (omega arith));
    chunk_fits = λ src short. omega (arith, laws.max_encoded_len src);
    chunk_len_pos = omega arith;
  }

  -- With snappy the cellblocks of every request come back from their compressed form.
  pub snappy-decompress-compress :
      (cbs : List Bytes)
      → length (concat cbs) < 2 ^ 32
      → (b : Bytes) × (compress_cellblocks (snappy_codec encode decode) cbs (length (concat cbs))
          ≡ ok b)
        × (decompress_cellblocks (snappy_codec encode decode) b ≡ ok (concat cbs))
  snappy-decompress-compress = decompress-compress snappy-Lawful
