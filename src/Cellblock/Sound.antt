-- ===== src/Cellblock/Sound.antt =====
-- hrpc/call.go (cellFromCellBlock): which buffers are accepted.
use gohbase.Prelude.{
  ℕ, ◌+◌, ◌-◌, ◌%◌, ◌^◌, ◌≤◌, ◌<◌, ◌≡◌, sym, ap, ◌∙◌, inl, inr, some, [], ◌∷◌, ◌++◌, append_assoc,
  arith, Option-cases, length, All, length-append, All-append_right, ok,
}
use gohbase.Bytes.{Bytes, IsByte}
use gohbase.Bytes.BigEndian.{
  length-put_uint64, put_uint16, put_uint32, put_uint64, next_byte, next_uint16, next_uint32,
  next_uint64, next_uint64_sound, next_uint16_sound, next_uint32_sound,
}
use gohbase.Bytes.Slices.{cut, cut_sound}
use gohbase.Cellblock.{
  cellblock_len, append_cellblock, Cell, cell_tail, cell_body, cell_from_cell_block,
}
use gohbase.Cellblock.Encode.{
  length-block-cellblock_len, length-block, append_cellblock-block, block, Fits,
}

-- The qualifier and what follows it, as it was read.
record Tail (key family b spare : Bytes) (qualifier_len value_len : ℕ) (c : Cell) : Type 0 where
  after : Bytes
  parts : b ++ spare ≡ c.qualifier ++ (put_uint64 c.timestamp ++ (c.cell_type ∷ (c.value ++ after)))
  row_eq : c.row ≡ key
  family_eq : c.family ≡ family
  qualifier_length : length c.qualifier ≡ qualifier_len
  value_length : length c.value ≡ value_len
  timestamp_fits : c.timestamp < 2 ^ 64
  within : length c.qualifier + 9 ≤ length b

Tail-cell_tail :
    (kv_len : ℕ) (key family : Bytes) (qualifier_len value_len : ℕ) (b spare : Bytes) (c : Cell)
    (n : ℕ)
    → All IsByte b
    → cell_tail kv_len key family qualifier_len value_len b spare ≡ ok (c, n)
    → Tail key family b spare qualifier_len value_len c × (n ≡ (kv_len + 4) % 2 ^ 32)
unfolding cell_tail next_byte
Tail-cell_tail kv_len key family qualifier_len value_len b spare c n bytes h =
    elim (Option-cases (cut qualifier_len b)) [
      | inl e ↦ ground arith
      | inr ((qualifier, b₁), e₁) ↦ elim (Option-cases (next_uint64 b₁)) [
        | inl e ↦ ground arith
        | inr ((timestamp, b₂), e₂) ↦ split_type qualifier timestamp b₁ b₂ e₁ e₂
      ]
    ]
  where
    finish :
        (qualifier : Bytes) (timestamp typ : ℕ) (value after b₁ b₃ : Bytes)
        → cut qualifier_len b ≡ some (qualifier, b₁)
        → next_uint64 b₁ ≡ some (timestamp, typ ∷ b₃)
        → cut value_len (b₃ ++ spare) ≡ some (value, after)
        → Tail key family b spare qualifier_len value_len c × (n ≡ (kv_len + 4) % 2 ^ 32)
    finish qualifier timestamp typ value after b₁ b₃ e₁ e₂ e₃ =
        let (q_parts, q_length) = cut_sound qualifier_len b e₁ in
        let bytes' : All IsByte b₁ = All-append_right IsByte qualifier b₁ (rw q_parts at bytes) in
        let (t_parts, t_fits) = next_uint64_sound b₁ bytes' e₂ in
        let (v_parts, v_length) = cut_sound value_len (b₃ ++ spare) e₃ in
        let spelled : b ++ spare ≡ qualifier ++ (put_uint64 timestamp ++ (typ ∷ (value ++ after))) =
          rw (q_parts, t_parts, ← v_parts) (simp append_assoc) in
        let long : length qualifier + 9 ≤ length b = omega (
          arith,
          ap length q_parts,
          length-append qualifier b₁,
          ap length t_parts,
          length-append (put_uint64 timestamp) (typ ∷ b₃),
          length-put_uint64 timestamp,
        ) in
        (
          record {
            after = after;
            parts = ground arith;
            row_eq = ground arith;
            family_eq = ground arith;
            qualifier_length = ground arith;
            value_length = ground arith;
            timestamp_fits = ground arith;
            within = ground arith;
          },
          ground arith,
        )

    split_type :
        (qualifier : Bytes) (timestamp : ℕ) (b₁ b₂ : Bytes)
        → cut qualifier_len b ≡ some (qualifier, b₁)
        → next_uint64 b₁ ≡ some (timestamp, b₂)
        → Tail key family b spare qualifier_len value_len c × (n ≡ (kv_len + 4) % 2 ^ 32)
    split_type qualifier timestamp b₁ [] e₁ e₂ = ground arith
    split_type qualifier timestamp b₁ (typ ∷ b₃) e₁ e₂ =
        elim (Option-cases (cut value_len (b₃ ++ spare))) [
          | inl e ↦ ground arith
          | inr ((value, after), e₃) ↦ finish qualifier timestamp typ value after b₁ b₃ e₁ e₂ e₃
        ]

-- The header and the key in front of what is left.
key_onto : ℕ → ℕ → Bytes → Bytes → Bytes → Bytes
key_onto key_len value_len row family left =
    put_uint32 key_len
    ++ (put_uint32 value_len
        ++ (put_uint16 (length row) ++ (row ++ (length family ∷ (family ++ left)))))

key_onto-append :
    (key_len value_len : ℕ) (row family left spare : Bytes)
    → key_onto key_len value_len row family left ++ spare
      ≡ key_onto key_len value_len row family (left ++ spare)
unfolding key_onto
key_onto-append key_len value_len row family left spare = simp append_assoc

block-key_onto :
    (c : Cell) (after : Bytes)
    → block c ++ after
      ≡ put_uint32 (20 + length c.row + length c.family + length c.qualifier + length c.value)
        ++ key_onto
            (12 + length c.row + length c.family + length c.qualifier)
            (length c.value)
            c.row
            c.family
            (c.qualifier ++ (put_uint64 c.timestamp ++ (c.cell_type ∷ (c.value ++ after))))
unfolding block key_onto
block-key_onto c after =
    let total : 20 + length c.row + length c.family + length c.qualifier + length c.value
        ≡ 8 + (12 + length c.row + length c.family + length c.qualifier) + length c.value =
      omega arith in
    rw total (simp append_assoc)

-- The header and the key, as they were read, with what is left for the tail.
record Head (kv_len : ℕ) (b spare : Bytes) (c : Cell) (n : ℕ) : Type 0 where
  key_len : ℕ
  value_len : ℕ
  row : Bytes
  family : Bytes
  left : Bytes
  qualifier_len : ℕ
  parts : b ≡ key_onto key_len value_len row family left
  qualifier_eq :
      qualifier_len ≡ (key_len + 2 ^ 32 - (length row + length family + 2 + 1 + 8 + 1)) % 2 ^ 32
  total_eq : (20 + length row + length family + qualifier_len + value_len) % 2 ^ 32 ≡ kv_len
  key_fits : key_len < 2 ^ 32
  row_fits : length row < 2 ^ 16
  family_fits : length family < 2 ^ 8
  left_bytes : All IsByte left
  tail_ok : cell_tail kv_len row family qualifier_len value_len left spare ≡ ok (c, n)

module _ (kv_len : ℕ) (b spare : Bytes) (c : Cell) (n : ℕ) (bytes : All IsByte b) where
  finish-Head :
      (key_len value_len row_len family_len : ℕ) (b₁ b₂ b₃ row b₅ family b₆ : Bytes)
      → next_uint32 b ≡ some (key_len, b₁)
      → next_uint32 b₁ ≡ some (value_len, b₂)
      → next_uint16 b₂ ≡ some (row_len, b₃)
      → cut row_len b₃ ≡ some (row, family_len ∷ b₅)
      → cut family_len b₅ ≡ some (family, b₆)
      → cell_body kv_len b spare ≡ ok (c, n)
      → Head kv_len b spare c n
  unfolding cell_body next_byte key_onto
  finish-Head key_len value_len row_len family_len b₁ b₂ b₃ row b₅ family b₆ e₁ e₂ e₃ e₄ e₅ h =
      let (p₁, f₁) = next_uint32_sound b bytes e₁ in
      let y₁ : All IsByte b₁ = All-append_right IsByte (put_uint32 key_len) b₁ (rw p₁ at bytes) in
      let (p₂, f₂) = next_uint32_sound b₁ y₁ e₂ in
      let y₂ : All IsByte b₂ = All-append_right IsByte (put_uint32 value_len) b₂ (rw p₂ at y₁) in
      let (p₃, f₃) = next_uint16_sound b₂ y₂ e₃ in
      let y₃ : All IsByte b₃ = All-append_right IsByte (put_uint16 row_len) b₃ (rw p₃ at y₂) in
      let (p₄, f₄) = cut_sound row_len b₃ e₄ in
      let y₄ : All IsByte (family_len ∷ b₅) =
        All-append_right IsByte row (family_len ∷ b₅) (rw p₄ at y₃) in
      let (p₅, f₅) = cut_sound family_len b₅ e₅ in
      let y₅ : All IsByte b₆ = All-append_right IsByte family b₆ (rw p₅ at (y₄.1)) in
      record {
        key_len = key_len;
        value_len = value_len;
        row = row;
        family = family;
        left = b₆;
        qualifier_len = (key_len + 2 ^ 32 - (row_len + family_len + 2 + 1 + 8 + 1)) % 2 ^ 32;
        parts = rw (p₁, p₂, p₃, p₄, p₅, f₄, f₅);
        qualifier_eq = rw (f₄, f₅);
        total_eq = ground arith;
        key_fits = f₁;
        row_fits = omega arith;
        family_fits = rw f₅ (y₄.0);
        left_bytes = y₅;
        tail_ok = ground arith;
      }

  split_family :
      (key_len value_len row_len : ℕ) (b₁ b₂ b₃ row b₄ : Bytes)
      → next_uint32 b ≡ some (key_len, b₁)
      → next_uint32 b₁ ≡ some (value_len, b₂)
      → next_uint16 b₂ ≡ some (row_len, b₃)
      → cut row_len b₃ ≡ some (row, b₄)
      → cell_body kv_len b spare ≡ ok (c, n)
      → Head kv_len b spare c n
  unfolding cell_body next_byte
  split_family key_len value_len row_len b₁ b₂ b₃ row [] e₁ e₂ e₃ e₄ h = ground arith
  split_family key_len value_len row_len b₁ b₂ b₃ row (family_len ∷ b₅) e₁ e₂ e₃ e₄ h =
      elim (Option-cases (cut family_len b₅)) [
        | inl e ↦ ground arith
        | inr ((family, b₆), e₅) ↦
            finish-Head key_len value_len row_len family_len b₁ b₂ b₃ row b₅ family b₆ e₁ e₂ e₃ e₄
              e₅ h
      ]

  body-Head : cell_body kv_len b spare ≡ ok (c, n) → Head kv_len b spare c n
  unfolding cell_body
  body-Head h = elim (Option-cases (next_uint32 b)) [
    | inl e ↦ ground arith
    | inr ((key_len, b₁), e₁) ↦ elim (Option-cases (next_uint32 b₁)) [
      | inl e ↦ ground arith
      | inr ((value_len, b₂), e₂) ↦ elim (Option-cases (next_uint16 b₂)) [
        | inl e ↦ ground arith
        | inr ((row_len, b₃), e₃) ↦ elim (Option-cases (cut row_len b₃)) [
          | inl e ↦ ground arith
          | inr ((row, b₄), e₄) ↦
              split_family key_len value_len row_len b₁ b₂ b₃ row b₄ e₁ e₂ e₃ e₄ h
        ]
      ]
    ]
  ]

-- Where the buffer is shorter than 2 ^ 32 bytes no sum of the lengths has wrapped.
lengths_exact :
    (kv_len key_len r f q v left after lb ls : ℕ)
    → key_len < 2 ^ 32
    → q ≡ (key_len + 2 ^ 32 - (r + f + 2 + 1 + 8 + 1)) % 2 ^ 32
    → (20 + r + f + q + v) % 2 ^ 32 ≡ kv_len
    → r < 2 ^ 16
    → f < 2 ^ 8
    → lb ≡ 11 + r + f + left
    → left + ls ≡ q + (9 + (v + after))
    → 4 + lb + ls < 2 ^ 32
    → (kv_len ≡ 20 + r + f + q + v) × (key_len ≡ 12 + r + f + q)
lengths_exact kv_len key_len r f q v left after lb ls h₁ h₂ h₃ h₄ h₅ h₆ h₇ h₈ =
    (omega arith, omega arith)

module _ (kv_len : ℕ) (b spare : Bytes) (c : Cell) (n : ℕ) (head : Head kv_len b spare c n)
    (tail : Tail head.row head.family head.left spare head.qualifier_len head.value_len c)
    (short : 4 + length b + length spare < 2 ^ 32) where
  key_numbers :
      (kv_len ≡ 20 + length c.row + length c.family + length c.qualifier + length c.value)
      × (head.key_len ≡ 12 + length c.row + length c.family + length c.qualifier)
  key_numbers =
      rw (tail.row_eq, tail.family_eq, tail.qualifier_length, tail.value_length)
        (lengths_exact kv_len head.key_len (length head.row) (length head.family) head.qualifier_len
          head.value_len (length head.left) (length tail.after) (length b) (length spare)
          head.key_fits head.qualifier_eq head.total_eq head.row_fits head.family_fits head_length
          tail_length short)
    where
      head_length : length b ≡ 11 + length head.row + length head.family + length head.left
      head_length =
          ap length head.parts
          ∙ unfold key_onto put_uint32 put_uint16 in simp length-append (omega arith)

      tail_length :
          length head.left + length spare
          ≡ head.qualifier_len + (9 + (head.value_len + length tail.after))
      tail_length =
          sym (length-append head.left spare)
          ∙ ap length tail.parts
          ∙ rw (← tail.qualifier_length, ← tail.value_length)
              (simp (length-append, length-put_uint64) (omega arith))

  spelled : put_uint32 kv_len ++ (b ++ spare) ≡ block c ++ tail.after
  spelled = cc (
    head.parts,
    key_onto-append head.key_len head.value_len head.row head.family head.left spare,
    tail.parts,
    block-key_onto c tail.after,
    key_numbers.0,
    key_numbers.1,
    tail.row_eq,
    tail.family_eq,
    tail.value_length,
  )

  cell-Fits : kv_len ≤ length b → Fits c
  cell-Fits room = record {
    row_fits = rw tail.row_eq head.row_fits;
    family_fits = rw tail.family_eq head.family_fits;
    timestamp_fits = tail.timestamp_fits;
    block_fits = omega (arith, key_numbers.0);
  }

-- Decoding is sound: where cellFromCellBlock returns a cell and a length, the cell fits its fields,
-- the bytes at the front of the buffer are exactly its block as appendCellblock writes it, and the
-- length is that block's and lies within the buffer. The buffer's capacity is below 2 ^ 32 bytes.
pub from_cell_block_sound :
    (b spare : Bytes) (c : Cell) (n : ℕ)
    → All IsByte b
    → length b + length spare < 2 ^ 32
    → cell_from_cell_block b spare ≡ ok (c, n)
    → (after : Bytes) × (b ++ spare
        ≡ append_cellblock c.row c.family c.qualifier c.value c.timestamp c.cell_type [] ++ after)
      × Fits c
      × (n ≡ cellblock_len (length c.row) (length c.family) (length c.qualifier) (length c.value))
      × (n ≤ length b)
unfolding cell_from_cell_block
from_cell_block_sound b spare c n bytes short h = elim (Option-cases (next_uint32 b)) [
  | inl e ↦ ground arith
  | inr ((kv_len, rest), e) ↦
      let (parts, kv_fits) = next_uint32_sound b bytes e in
      let rest_bytes : All IsByte rest =
        All-append_right IsByte (put_uint32 kv_len) rest (rw parts at bytes) in
      let length_b : length b ≡ 4 + length rest =
        ap length parts ∙ unfold put_uint32 in omega arith in
      let room : kv_len ≤ length rest = ground arith in
      let body_ok : cell_body kv_len rest spare ≡ ok (c, n) = ground arith in
      let head : Head kv_len rest spare c n = body-Head kv_len rest spare c n rest_bytes body_ok in
      let (tail, n_eq) =
        Tail-cell_tail kv_len head.row head.family head.qualifier_len head.value_len head.left spare
          c n head.left_bytes head.tail_ok in
      let short' : 4 + length rest + length spare < 2 ^ 32 = omega arith in
      let fits : Fits c = cell-Fits kv_len rest spare c n head tail short' room in
      let numbers = key_numbers kv_len rest spare c n head tail short' in
      let n_length : n ≡ 4 + kv_len = omega arith in
      (
        tail.after,
        ap (λ (x : Bytes). x ++ spare) parts
            ∙ append_assoc (put_uint32 kv_len) rest spare
            ∙ spelled kv_len rest spare c n head tail short'
            ∙ ap (λ (x : Bytes). x ++ tail.after) (sym (append_cellblock-block c [] fits)),
        fits,
        omega (arith, numbers.0, length-block c, length-block-cellblock_len c),
        omega arith,
      )
]
