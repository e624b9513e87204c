-- ===== src/Bytes/BigEndian.antt =====
-- binary.BigEndian: PutUint16, PutUint32, PutUint64 and the readers, which panic on a short slice.
use gohbase.Prelude.{
  ℕ, ◌+◌, ◌*◌, ◌/◌, ◌%◌, ◌^◌, ◌<◌, ◌≡◌, refl, ap, ◌∙◌, inl, inr, Option, none, some, [], ◌∷◌, ◌++◌,
  append_assoc, arith, Option-cases, length, All, All-append_right,
}
use gohbase.Bytes.{Bytes, IsByte}

unfoldable pub put_uint16 : ℕ → Bytes
put_uint16 v = (v / 2 ^ 8 % 256) ∷ (v % 256) ∷ []

unfoldable pub put_uint32 : ℕ → Bytes
put_uint32 v = (v / 2 ^ 24 % 256) ∷ (v / 2 ^ 16 % 256) ∷ (v / 2 ^ 8 % 256) ∷ (v % 256) ∷ []

unfoldable pub put_uint64 : ℕ → Bytes
put_uint64 v = put_uint32 (v / 2 ^ 32 % 2 ^ 32) ++ put_uint32 (v % 2 ^ 32)

put_uint64_words :
    (high low : ℕ)
    → high < 2 ^ 32
    → low < 2 ^ 32
    → put_uint64 (high * 2 ^ 32 + low) ≡ put_uint32 high ++ put_uint32 low
unfolding put_uint64
put_uint64_words high low h l = rw (high_word, low_word)
  where
    high_word : (high * 2 ^ 32 + low) / 2 ^ 32 % 2 ^ 32 ≡ high
    high_word = omega arith

    low_word : (high * 2 ^ 32 + low) % 2 ^ 32 ≡ low
    low_word = omega arith

-- The value at the front of a slice, and the slice behind it.
unfoldable pub next_byte : Bytes → Option (ℕ × Bytes)
next_byte [] = none
next_byte (a ∷ rest) = some (a, rest)

unfoldable pub next_uint16 : Bytes → Option (ℕ × Bytes)
next_uint16 (a ∷ b ∷ rest) = some (a * 2 ^ 8 + b, rest)
next_uint16 _ = none

unfoldable pub next_uint32 : Bytes → Option (ℕ × Bytes)
next_uint32 (a ∷ b ∷ c ∷ d ∷ rest) = some (a * 2 ^ 24 + b * 2 ^ 16 + c * 2 ^ 8 + d, rest)
next_uint32 _ = none

unfoldable pub next_uint64 : Bytes → Option (ℕ × Bytes)
next_uint64 b = elim (next_uint32 b) [
  | none ↦ none
  | some (high, rest) ↦ elim (next_uint32 rest) [
    | none ↦ none
    | some (low, rest') ↦ some (high * 2 ^ 32 + low, rest')
  ]
]

pub next_uint16-put :
    (v : ℕ) (rest : Bytes) → v < 2 ^ 16 → next_uint16 (put_uint16 v ++ rest) ≡ some (v, rest)
unfolding put_uint16 next_uint16
next_uint16-put v rest h = ap (λ (n : ℕ). some (n, rest)) (omega arith)

pub next_uint32-put :
    (v : ℕ) (rest : Bytes) → v < 2 ^ 32 → next_uint32 (put_uint32 v ++ rest) ≡ some (v, rest)
unfolding put_uint32 next_uint32
next_uint32-put v rest h = ap (λ (n : ℕ). some (n, rest)) (omega arith)

pub next_uint64-put :
    (v : ℕ) (rest : Bytes) → v < 2 ^ 64 → next_uint64 (put_uint64 v ++ rest) ≡ some (v, rest)
unfolding put_uint64 next_uint64 put_uint32 next_uint32
next_uint64-put v rest h = ap (λ (n : ℕ). some (n, rest)) (omega arith)

-- What a reader returns is a word, and its bytes are those that the writer puts.
pub next_uint16_sound :
    (b : Bytes) {v : ℕ} {rest : Bytes}
    → All IsByte b
    → next_uint16 b ≡ some (v, rest)
    → (b ≡ put_uint16 v ++ rest) × (v < 2 ^ 16)
unfolding put_uint16 next_uint16
next_uint16_sound [] bytes h = ground arith
next_uint16_sound (a ∷ []) bytes h = ground arith
next_uint16_sound (a ∷ b ∷ r) bytes h = ground arith

pub next_uint32_sound :
    (b : Bytes) {v : ℕ} {rest : Bytes}
    → All IsByte b
    → next_uint32 b ≡ some (v, rest)
    → (b ≡ put_uint32 v ++ rest) × (v < 2 ^ 32)
unfolding put_uint32 next_uint32
next_uint32_sound [] bytes h = ground arith
next_uint32_sound (a ∷ []) bytes h = ground arith
next_uint32_sound (a ∷ b ∷ []) bytes h = ground arith
next_uint32_sound (a ∷ b ∷ c ∷ []) bytes h = ground arith
next_uint32_sound (a ∷ b ∷ c ∷ d ∷ r) bytes h = ground arith

pub next_uint64_sound :
    (b : Bytes) {v : ℕ} {rest : Bytes}
    → All IsByte b
    → next_uint64 b ≡ some (v, rest)
    → (b ≡ put_uint64 v ++ rest) × (v < 2 ^ 64)
unfolding next_uint64
next_uint64_sound b {v} {rest} bytes h = elim (Option-cases (next_uint32 b)) [
  | inl e ↦ ground arith
  | inr ((high, r), e) ↦ elim (Option-cases (next_uint32 r)) [
    | inl e' ↦ ground arith
    | inr ((low, r'), e') ↦
        let (parts, high_lt) = next_uint32_sound b bytes e in
        let bytes' : All IsByte r =
          All-append_right IsByte (put_uint32 high) r (rw parts at bytes) in
        let (parts', low_lt) = next_uint32_sound r bytes' e' in
        let v_words : v ≡ high * 2 ^ 32 + low = ground arith in
        let rest_eq : rest ≡ r' = ground arith in
        (
          parts
              ∙ rw (v_words, put_uint64_words high low high_lt low_lt, append_assoc, rest_eq)
                  (ap (◌++◌ (put_uint32 high)) parts'),
          rw v_words (omega arith),
        )
  ]
]

pub length-put_uint64 : (v : ℕ) → length (put_uint64 v) ≡ 8
unfolding put_uint64 put_uint32
length-put_uint64 v = refl
