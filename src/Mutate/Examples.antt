-- ===== src/Mutate/Examples.antt =====
-- The theorems on cellblocks of mutations, applied to concrete mutations.
use gohbase.Prelude.{
  ℕ, ◌^◌, ◌<◌, ◌≡◌, refl, inl, false, none, some, [], ◌∷◌, ◌++◌, arith, length, All, ok, panics,
}
use gohbase.Bytes.{Bytes}
use gohbase.Bytes.BigEndian.{put_uint16, put_uint32, put_uint64}
use gohbase.Cellblock.{deserialize_cell_blocks}
use gohbase.Cellblock.Encode.{Fits, block}
use gohbase.Cellblock.RoundTrip.{blocks}
use gohbase.Mutate.{Mutate, delete, put, max_timestamp, values_to_cellblocks}
use gohbase.Mutate.Described.{families_cells, described, timestamp_meant}
use gohbase.Mutate.Measured.{SettledValues}
use gohbase.Mutate.Cells.{deserialize-values_to_cellblocks, values_to_cellblocks-panics}

-- A deletion of a whole family and of one column of another.
abbrev deletion : Mutate
deletion = record {
  key = b'r' ∷ [];
  mutation_type = delete;
  values = (b'f' ∷ [], none) ∷ (b'g' ∷ [], some ((b'q' ∷ [], []) ∷ [])) ∷ [];
  timestamp = max_timestamp;
  delete_one_version = false;
}

deletion-SettledValues : SettledValues deletion.mutation_type deletion.values
deletion-SettledValues = (inl refl, (inl refl, tt))

deletion-Fits : All Fits (families_cells deletion deletion.values)
unfolding families_cells described timestamp_meant
deletion-Fits = (
  record {
    row_fits = omega arith;
    family_fits = omega arith;
    timestamp_fits = omega arith;
    block_fits = omega arith;
  },
  (
    record {
      row_fits = omega arith;
      family_fits = omega arith;
      timestamp_fits = omega arith;
      block_fits = omega arith;
    },
    tt,
  ),
)

deletion-short : length (blocks (families_cells deletion deletion.values)) < 2 ^ 32
unfolding families_cells described timestamp_meant blocks block put_uint16 put_uint32 put_uint64
deletion-short = omega arith

deserialize-values_to_cellblocks_example :
    (cbs : Bytes) × (count : ℕ) × (size : ℕ) × (values_to_cellblocks deletion
      ≡ ok (cbs, count, size))
    × (deserialize_cell_blocks (cbs ++ []) [] count
        ≡ ok (families_cells deletion deletion.values, size))
    × (size ≡ length cbs)
deserialize-values_to_cellblocks_example =
    deserialize-values_to_cellblocks deletion [] [] deletion-SettledValues deletion-Fits
      deletion-short

abbrev insertion : Mutate
insertion = record deletion { mutation_type = put }

values_to_cellblocks-panics_example : values_to_cellblocks insertion ≡ panics
values_to_cellblocks-panics_example = values_to_cellblocks-panics insertion refl (inl refl)
