-- ===== src/Compressor/Buffers.antt =====
-- net.Buffers of the Go standard library: Read takes bytes from the front of a list of slices.
use gohbase.Prelude.{
  ℕ, zero, suc, ◌-◌, ◌≤◌, ◌<◌, ◌≡◌, refl, sym, ap, ◌∙◌, ◌≢◌, inl, inr, true, List, [], ◌∷◌, ◌++◌,
  append_assoc, arith, ltb, if◌then◌else◌, ltb→lt, tests, Bool-cases, length, concat, length-append,
}
use gohbase.Bytes.{Bytes}

-- The first `n` bytes and the others; all where there are fewer.
unfoldable pub split_at : ℕ → Bytes → Bytes × Bytes
split_at zero b = ([], b)
split_at (suc n) [] = ([], [])
split_at (suc n) (x ∷ b) = let (front, back) = split_at n b in (x ∷ front, back)

-- Buffers.consume drops the slices that are used up, the empty ones behind them too.
unfoldable pub skip_empty : List Bytes → List Bytes
skip_empty [] = []
skip_empty ([] ∷ bs) = skip_empty bs
skip_empty ((x ∷ b) ∷ bs) = (x ∷ b) ∷ bs

unfoldable pub read_loop : ℕ → List Bytes → Bytes × List Bytes
read_loop room [] = ([], [])
read_loop room (b ∷ bs) =
    let (more, unread) = read_loop (room - length b) bs in
    let (front, back) = split_at room b in
    if ltb room (length b) then (front, back ∷ bs) else (b ++ more, unread)

-- `Read(p)` with `len(p)` equal to `room`.
unfoldable pub read : ℕ → List Bytes → Bytes × List Bytes
unfolding read_loop split_at skip_empty
read zero bs = ([], bs)
read (suc room) bs = let (chunk, unread) = read_loop (suc room) bs in (chunk, skip_empty unread)

split_at-parts : (n : ℕ) (b : Bytes) → (split_at n b).0 ++ (split_at n b).1 ≡ b
unfolding split_at
split_at-parts zero b = refl
split_at-parts (suc n) [] = refl
split_at-parts (suc n) (x ∷ b) = ap (◌∷◌ x) (split_at-parts n b)

split_at-length : (n : ℕ) (b : Bytes) → n ≤ length b → length (split_at n b).0 ≡ n
unfolding split_at
split_at-length zero b h = refl
split_at-length (suc n) [] h = absurd (omega arith)
split_at-length (suc n) (x ∷ b) h = ap suc (split_at-length n b (omega arith))

concat-skip_empty : (bs : List Bytes) → concat (skip_empty bs) ≡ concat bs
unfolding skip_empty
concat-skip_empty [] = refl
concat-skip_empty ([] ∷ bs) = concat-skip_empty bs
concat-skip_empty ((x ∷ b) ∷ bs) = refl

-- What was read and what is left are the buffers' bytes.
read_loop-concat :
    (room : ℕ) (bs : List Bytes) → (read_loop room bs).0 ++ concat (read_loop room bs).1 ≡ concat bs
unfolding read_loop
read_loop-concat room [] = refl
read_loop-concat room (b ∷ bs) = elim (Bool-cases (ltb room (length b))) [
  | inl e ↦ rw e (
      sym (append_assoc (split_at room b).0 (split_at room b).1 (concat bs))
      ∙ ap (λ (x : Bytes). x ++ concat bs) (split_at-parts room b))
  | inr e ↦ rw e (
      append_assoc b (read_loop (room - length b) bs).0 _
      ∙ ap (◌++◌ b) (read_loop-concat (room - length b) bs))
]

read_loop-le : (room : ℕ) (bs : List Bytes) → length (read_loop room bs).0 ≤ room
unfolding read_loop
read_loop-le room [] = omega arith
read_loop-le room (b ∷ bs) = elim (Bool-cases (ltb room (length b))) [
  | inl e ↦ rw e (omega (tests, split_at-length room b (omega tests)))
  | inr e ↦ rw e (
      omega (
        tests,
        length-append b (read_loop (room - length b) bs).0,
        read_loop-le (room - length b) bs,
      ))
]

-- Nothing is read only where there is nothing.
read_loop-empty :
    (room : ℕ) (bs : List Bytes) → length (read_loop (suc room) bs).0 ≡ 0 → concat bs ≡ []
unfolding read_loop
read_loop-empty room [] h = refl
read_loop-empty room ([] ∷ bs) h =
    let all_room : suc room - 0 ≡ suc room = omega arith in
    let rest_empty : length (read_loop (suc room - 0) bs).0 ≡ 0 = ground arith in
    read_loop-empty room bs (ap (λ (n : ℕ). length (read_loop n bs).0) (sym all_room) ∙ rest_empty)
read_loop-empty room ((x ∷ b) ∷ bs) h = elim (Bool-cases (ltb (suc room) (suc (length b)))) [
  | inl e ↦ absurd (
      omega (
        tests,
        split_at-length (suc room) (x ∷ b) (omega (tests, ltb→lt (suc room) (suc (length b)) e)),
        h₁ e,
      ))
  | inr e ↦ ground arith
]
  where
    h₁ : ltb (suc room) (suc (length b)) ≡ true → length (split_at (suc room) (x ∷ b)).0 ≡ 0
    h₁ e = ground arith

skip_empty_front : (bs : List Bytes) → skip_empty bs ≢ [] → 0 < length (concat (skip_empty bs))
unfolding skip_empty
skip_empty_front [] h = absurd (h refl)
skip_empty_front ([] ∷ bs) h = skip_empty_front bs h
skip_empty_front ((x ∷ b) ∷ bs) h = omega arith

-- What a Read into a buffer of `room` bytes does: it takes from the front of the slices, at most
-- `room` bytes, nothing only where nothing is left, and it reports the end when nothing is left.
pub record Reads (room : ℕ) (bs : List Bytes) (chunk : Bytes) (unread : List Bytes) : Type 0 where
  pub parts : chunk ++ concat unread ≡ concat bs
  pub within : length chunk ≤ room
  pub at_end : length chunk ≡ 0 → concat bs ≡ []
  pub more : unread ≢ [] → 0 < length (concat unread)

pub read-Reads :
    (room : ℕ) (bs : List Bytes) → 0 < room → Reads room bs (read room bs).0 (read room bs).1
unfolding read
read-Reads zero bs h = absurd (omega arith)
read-Reads (suc room) bs h = record {
  parts =
      ap (◌++◌ (read_loop (suc room) bs).0) (concat-skip_empty (read_loop (suc room) bs).1)
      ∙ read_loop-concat (suc room) bs;
  within = read_loop-le (suc room) bs;
  at_end = read_loop-empty room bs;
  more = skip_empty_front (read_loop (suc room) bs).1;
}
