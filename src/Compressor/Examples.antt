-- ===== src/Compressor/Examples.antt =====
-- The theorems on compression, applied to a codec that stores its chunks as they are.
use gohbase.Prelude.{◌≡◌, refl, ◌≢◌, Option, some, List, [], ◌∷◌, ◌++◌, arith, length, ok, err}
use gohbase.Bytes.{Bytes}
use gohbase.Compressor.{
  Codec, snappy_codec, compress_cellblocks, decompress_cellblocks, out_of_fuel,
}
use gohbase.Compressor.Chunks.{Lawful}
use gohbase.Compressor.RoundTrip.{decompress-compress}
use gohbase.Compressor.Snappy.{SnappyLaws, snappy-decompress-compress}
use gohbase.Compressor.Fuel.{decompress_cellblocks-total}

-- A codec of chunks of two bytes.
abbrev stored : Codec
stored = record {
  encode = λ src dst. (dst ++ src, length src);
  decode = λ src dst. some (dst ++ src, length src);
  chunk_len = 2;
}

stored-Lawful : Lawful stored
stored-Lawful = record {
  chunk_of = λ src. src;
  encode_eq = λ src dst short. refl;
  decode_eq = λ src dst short. refl;
  chunk_fits = λ src short. omega arith;
  chunk_len_pos = omega arith;
}

abbrev buffers : List Bytes
buffers = (1 ∷ 2 ∷ 3 ∷ []) ∷ [] ∷ (4 ∷ 5 ∷ []) ∷ []

decompress-compress_example :
    (b : Bytes) × (compress_cellblocks stored buffers 5 ≡ ok b)
    × (decompress_cellblocks stored b ≡ ok (1 ∷ 2 ∷ 3 ∷ 4 ∷ 5 ∷ []))
decompress-compress_example = decompress-compress stored-Lawful buffers (omega arith)

decompress_cellblocks-total_example :
    decompress_cellblocks stored (0 ∷ 0 ∷ 0 ∷ 9 ∷ 0 ∷ 0 ∷ []) ≢ err out_of_fuel
decompress_cellblocks-total_example =
    decompress_cellblocks-total stored (0 ∷ 0 ∷ 0 ∷ 9 ∷ 0 ∷ 0 ∷ [])

abbrev encode : Bytes → Bytes
encode src = src

abbrev decode : Bytes → Option Bytes
decode chunk = some chunk

stored-SnappyLaws : SnappyLaws encode decode
stored-SnappyLaws = record { inverse = λ src. refl; max_encoded_len = λ src. omega arith }

snappy-decompress-compress_example :
    (b : Bytes) × (compress_cellblocks (snappy_codec encode decode) buffers 5 ≡ ok b)
    × (decompress_cellblocks (snappy_codec encode decode) b ≡ ok (1 ∷ 2 ∷ 3 ∷ 4 ∷ 5 ∷ []))
snappy-decompress-compress_example =
    snappy-decompress-compress stored-SnappyLaws buffers (omega arith)
