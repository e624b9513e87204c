-- ===== src/Compressor/Fuel.antt =====
-- region/compressor.go: the fuel of the loops of decompressCellblocks.
use gohbase.Prelude.{
  ℕ, zero, suc, ◌+◌, ◌≤◌, ◌<◌, ◌≡◌, ap, ◌≢◌, inl, inr, not, some, [], ◌∷◌, arith, ltb, Bool-cases,
  Option-cases, length, length-append, Result, ok, err, panics, ◌>>=◌, ◌>>◌, guard,
}
use gohbase.Bytes.{Bytes}
use gohbase.Bytes.BigEndian.{next_uint32}
use gohbase.Bytes.Slices.{cut, cut_sound}
use gohbase.Compressor.{
  Codec, Error, decompress_block, decompress_loop, decompress_cellblocks, read_n, read_uint32,
  out_of_fuel, too_much,
}

next_uint32-length :
    (b : Bytes) {v : ℕ} {rest : Bytes} → next_uint32 b ≡ some (v, rest) → length b ≡ 4 + length rest
unfolding next_uint32
next_uint32-length [] h = ground arith
next_uint32-length (x ∷ []) h = ground arith
next_uint32-length (x ∷ y ∷ []) h = ground arith
next_uint32-length (x ∷ y ∷ z ∷ []) h = ground arith
next_uint32-length (x ∷ y ∷ z ∷ w ∷ b) h = ground arith

-- The result of an inner loop, with what is left no longer than what there was.
abbrev Ends : ℕ → Result Error (Bytes × Bytes × ℕ) → Type 0
Ends n (ok (b, out, so_far)) = length b ≤ n
Ends n (err e) = e ≢ out_of_fuel
Ends n panics = ⊥

module _ (codec : Codec) where
  Ends-mono : (n m : ℕ) (r : Result Error (Bytes × Bytes × ℕ)) → n ≤ m → Ends n r → Ends m r
  Ends-mono n m (ok (b, out, so_far)) h e = omega arith
  Ends-mono n m (err x) h e = e
  Ends-mono n m panics h e = e

  block-Ends :
      (fuel : ℕ) (b out : Bytes) (so_far block_len : ℕ)
      → length b < fuel
      → Ends (length b) (decompress_block fuel codec b out so_far block_len)
  unfolding decompress_block read_n read_uint32
  block-Ends zero b out so_far block_len enough = absurd (omega arith)
  block-Ends (suc fuel) b out so_far block_len enough = elim (Bool-cases (ltb so_far block_len)) [
    | inr e ↦ rw e (omega arith)
    | inl e ↦ rw e (elim (Option-cases (next_uint32 b)) [
      | inl e₁ ↦ rw e₁ (λ h. cc)
      | inr ((compressed_len, b₁), e₁) ↦ rw e₁ (elim (Option-cases (cut compressed_len b₁)) [
        | inl e₂ ↦ rw e₂ (λ h. cc)
        | inr ((compressed, b₂), e₂) ↦ rw e₂ (elim (Option-cases (codec.decode compressed out)) [
          | inl e₃ ↦ rw e₃ (λ h. cc)
          | inr ((out', chunk_len), e₃) ↦
              let shorter : length b₂ < length b = omega (
                arith,
                next_uint32-length b e₁,
                ap length (cut_sound compressed_len b₁ e₂).0,
                length-append compressed b₂,
              ) in
              rw e₃ (
                Ends-mono (length b₂) (length b) _ (omega arith)
                  (block-Ends fuel b₂ out' _ block_len (omega arith)))
        ])
      ])
    ])
  ]

  loop-total :
      (fuel : ℕ) (b out : Bytes)
      → length b ≤ fuel
      → decompress_loop fuel codec b out ≢ err out_of_fuel
  unfolding decompress_loop read_uint32
  loop-total zero [] out enough = λ h. cc
  loop-total (suc fuel) [] out enough = λ h. cc
  loop-total zero (x ∷ b) out enough = absurd (omega arith)
  loop-total (suc fuel) (x ∷ b) out enough = elim (Option-cases (next_uint32 (x ∷ b))) [
    | inl e ↦ rw e (λ h. cc)
    | inr ((block_len, b₁), e) ↦ rw e (
        after_block block_len b₁ (decompress_block (suc (length b₁)) codec b₁ out 0 block_len)
          (block-Ends (suc (length b₁)) b₁ out 0 block_len (omega arith))
          (λ b₂ out' h. loop-total fuel b₂ out' (omega (arith, next_uint32-length (x ∷ b) e))))
  ]
    where
      after_block :
          (block_len : ℕ) (b₁ : Bytes) (r : Result Error (Bytes × Bytes × ℕ))
          → Ends (length b₁) r
          → ((b₂ out' : Bytes)
              → length b₂ ≤ length b₁
              → decompress_loop fuel codec b₂ out' ≢ err out_of_fuel)
          → (r >>= λ x.
              guard (not (ltb block_len x.2)) (too_much block_len x.2)
              >> decompress_loop fuel codec x.0 x.1)
            ≢ err out_of_fuel
      after_block block_len b₁ (ok (b₂, out', so_far)) ends next =
          elim (Bool-cases (ltb block_len so_far)) [
            | inl e ↦ rw e (λ h. cc)
            | inr e ↦ rw e (next b₂ out' ends)
          ]
      after_block block_len b₁ (err e) ends next = λ h. ends (cc)
      after_block block_len b₁ panics ends next = absurd ends

  -- decompressCellblocks ends on every input and for every codec: its loops never run out of fuel.
  pub decompress_cellblocks-total : (b : Bytes) → decompress_cellblocks codec b ≢ err out_of_fuel
  unfolding decompress_cellblocks
  decompress_cellblocks-total b = loop-total (length b) b [] (omega arith)
