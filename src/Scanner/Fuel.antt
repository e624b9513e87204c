-- ===== src/Scanner/Fuel.antt =====
-- scanner.go (Next): the fuel of its loop.
use gohbase.Prelude.{
  ℕ, zero, suc, ◌+◌, ◌≤◌, ◌<◌, ◌≡◌, refl, ap, ◌≢◌, inl, inr, Bool, true, false, Option, none, some,
  List, [], ◌∷◌, arith, Bool-cases, length, List-cases, Result, ok, err, panics, ◌>>=◌, >>=-eq-ok,
}
use gohbase.Cellblock.{Cell}
use native.Mathlib.Nat.{le_refl}
use gohbase.Bytes.Compare.{equal}
use gohbase.Scan.{eof, Scan, RowResult, Answer, reply, fail}
use gohbase.Scanner.{
  Scanner, Fetched, got, failed, Peeked, first, nothing, Stuck, blocked, out_of_fuel, Turn, fetch,
  fill, peek, after_reply, send, shift, tail, combine, coalesce, same_row, finish_round, round,
  next_loop, take_first, next, weight,
}

abbrev measure : Scanner → List Answer → ℕ
measure s answers = length s.results + weight answers

abbrev fetched_length : Fetched → ℕ
fetched_length (got rs) = length rs
fetched_length (failed e) = 0

module _ (rpc : Scan) where
  -- A fetch uses up the answers that it returns results of.
  abbrev FetchEnds : ℕ → Result Stuck (Fetched × Scanner × List Answer) → Type 0
  FetchEnds n (ok (f, s, answers)) = fetched_length f + weight answers ≤ n
  FetchEnds n (err e) = e ≡ blocked
  FetchEnds n panics = Unit

  FetchEnds-mono :
      (n m : ℕ) (r : Result Stuck (Fetched × Scanner × List Answer))
      → n ≤ m
      → FetchEnds n r
      → FetchEnds m r
  FetchEnds-mono n m (ok (f, s, answers)) h e = omega arith
  FetchEnds-mono n m (err x) h e = e
  FetchEnds-mono n m panics h e = tt

  fetch-FetchEnds :
      (answers : List Answer) (s : Scanner) → FetchEnds (weight answers) (fetch answers rpc s)
  unfolding fetch weight
  fetch-FetchEnds [] s = refl
  fetch-FetchEnds (fail e ∷ answers) s = omega arith
  fetch-FetchEnds (reply resp region ∷ answers) s = elim (List-cases resp.results) [
    | inr (r, rs, e) ↦ rw e (omega arith)
    | inl e ↦ rw e (elim (Bool-cases (after_reply rpc (send rpc s) resp region).closed) [
      | inl c ↦ simp c (omega arith)
      | inr o ↦ simp o (
          FetchEnds-mono (weight answers) _
            (fetch answers rpc (after_reply rpc (send rpc s) resp region)) (omega arith)
            (fetch-FetchEnds answers (after_reply rpc (send rpc s) resp region)))
    ])
  ]

  -- A look at the next result makes nothing more to come, and shows the head of the buffer.
  abbrev PeekEnds : ℕ → Result Stuck (Peeked × Scanner × List Answer) → Type 0
  PeekEnds n (ok (first r, s, answers)) = (s.results ≡ r ∷ tail s.results) × (measure s answers ≤ n)
  PeekEnds n (ok (nothing e, s, answers)) = Unit
  PeekEnds n (err e) = e ≡ blocked
  PeekEnds n panics = Unit

  fill-PeekEnds :
      (n : ℕ) (r : Result Stuck (Fetched × Scanner × List Answer))
      → FetchEnds n r
      → PeekEnds n (r >>= fill)
  unfolding fill
  fill-PeekEnds n (ok (failed e, s, answers)) h = tt
  fill-PeekEnds n (ok (got [], s, answers)) h = tt
  fill-PeekEnds n (ok (got (r ∷ rs), s, answers)) h = (refl, h)
  fill-PeekEnds n (err e) h = h
  fill-PeekEnds n panics h = tt

  PeekEnds-mono :
      (n m : ℕ) (r : Result Stuck (Peeked × Scanner × List Answer))
      → n ≤ m
      → PeekEnds n r
      → PeekEnds m r
  PeekEnds-mono n m (ok (first r, s, answers)) h e = (e.0, omega arith)
  PeekEnds-mono n m (ok (nothing x, s, answers)) h e = tt
  PeekEnds-mono n m (err x) h e = e
  PeekEnds-mono n m panics h e = tt

  peek-PeekEnds :
      (s : Scanner) (answers : List Answer) → PeekEnds (measure s answers) (peek rpc s answers)
  unfolding peek
  peek-PeekEnds s answers = elim (List-cases s.results) [
    | inr (r, rs, e) ↦
        let looked : peek rpc s answers ≡ ok (first r, s, answers) = ground arith in
        let head : s.results ≡ r ∷ tail s.results = ground arith in
        rw looked (head, le_refl (measure s answers))
    | inl e ↦ elim (Bool-cases s.closed) [
      | inl c ↦
          let looked : peek rpc s answers ≡ ok (nothing eof, s, answers) = ground arith in
          rw looked tt
      | inr o ↦
          let looked : peek rpc s answers ≡ (fetch answers rpc s >>= fill) = ground arith in
          rw looked (
            PeekEnds-mono (weight answers) _ (fetch answers rpc s >>= fill) (omega arith)
              (fill-PeekEnds (weight answers) (fetch answers rpc s) (fetch-FetchEnds answers s)))
    ]
  ]

  -- What was not taken over is complete.
  coalesce-taken :
      (result : Option RowResult) (partial combined : RowResult) (taken : Bool)
      → coalesce result partial ≡ ok (combined, taken)
      → combined.partial ≡ true
      → taken ≡ true
  unfolding coalesce combine
  coalesce-taken none partial combined taken h p = ground arith
  coalesce-taken (some r) partial combined taken h p = elim (Bool-cases r.partial) [
    | inr e ↦ absurd (ground arith)
    | inl e ↦
        let opened : (same_row r.cells partial.cells >>= combine r partial) ≡ ok (combined, taken) =
          ground arith in
        let (same, _, rest) =
          >>=-eq-ok (same_row r.cells partial.cells) (combine r partial) opened in
        ground arith
  ]

  same_row-ne-err :
      (cs ds : List Cell) (f : Bool → Result Stuck (RowResult × Bool)) (e : Stuck)
      → ((b : Bool) → f b ≢ err e)
      → (same_row cs ds >>= f) ≢ err e
  same_row-ne-err cs [] f e safe = safe true
  same_row-ne-err [] (d ∷ ds) f e safe = λ h. cc
  same_row-ne-err (c ∷ cs) (d ∷ ds) f e safe = safe (equal c.row d.row)

  combine-ne-err : (r partial : RowResult) (e : Stuck) (b : Bool) → combine r partial b ≢ err e
  unfolding combine
  combine-ne-err r partial e true = λ h. cc
  combine-ne-err r partial e false = λ h. cc

  coalesce-ne-err :
      (result : Option RowResult) (partial : RowResult) (e : Stuck)
      → coalesce result partial ≢ err e
  unfolding coalesce
  coalesce-ne-err none partial e = λ h. cc
  coalesce-ne-err (some r) partial e = elim (Bool-cases r.partial) [
    | inl p ↦ ground (
      arith,
      same_row-ne-err r.cells partial.cells (combine r partial) e (combine-ne-err r partial e),
    )
    | inr p ↦ ground arith
  ]

  -- A round's continuation is called only with less to do.
  abbrev Continues : ℕ → (Scanner → List Answer → Option RowResult → Turn) → Type 0
  Continues n again =
      (s : Scanner) (answers : List Answer) (c : RowResult)
      → measure s answers < n
      → again s answers (some c) ≢ err out_of_fuel

  finish-safe :
      (n : ℕ) (again : Scanner → List Answer → Option RowResult → Turn) (result : Option RowResult)
      (s : Scanner) (answers : List Answer) (partial combined : RowResult) (taken : Bool)
      → Continues n again
      → s.results ≡ partial ∷ tail s.results
      → measure s answers ≤ n
      → coalesce result partial ≡ ok (combined, taken)
      → finish_round again s answers (combined, taken) ≢ err out_of_fuel
  unfolding finish_round shift
  finish-safe n again result s answers partial combined taken safe head le made =
      elim (Bool-cases combined.partial) [
        | inr whole ↦ ground arith
        | inl more ↦
            let taken_eq : taken ≡ true = coalesce-taken result partial combined taken made more in
            let fewer : measure (shift s) answers < n = omega (arith, ap length head) in
            ground (arith, safe (shift s) answers combined fewer)
      ]

  round-safe :
      (n : ℕ) (r : Result Stuck (Peeked × Scanner × List Answer))
      (again : Scanner → List Answer → Option RowResult → Turn) (result : Option RowResult)
      → PeekEnds n r
      → Continues n again
      → (r >>= round again result) ≢ err out_of_fuel
  unfolding round
  round-safe n (err e) again result ends safe = λ h. cc
  round-safe n panics again result ends safe = λ h. cc
  round-safe n (ok (nothing e, s, answers)) again result ends safe = λ h. cc
  round-safe n (ok (first partial, s, answers)) again result (head, le) safe =
      combined_cases (coalesce result partial) refl
    where
      combined_cases :
          (c : Result Stuck (RowResult × Bool))
          → coalesce result partial ≡ c
          → (c >>= finish_round again s answers) ≢ err out_of_fuel
      combined_cases (ok (combined, taken)) e =
          finish-safe n again result s answers partial combined taken safe head le e
      combined_cases (err x) e = absurd (coalesce-ne-err result partial x e)
      combined_cases panics e = λ h. cc

  next_loop-ne-out_of_fuel :
      (fuel : ℕ) (s : Scanner) (answers : List Answer) (result : Option RowResult)
      → measure s answers < fuel
      → next_loop fuel rpc s answers result ≢ err out_of_fuel
  unfolding next_loop
  next_loop-ne-out_of_fuel zero s answers result enough = absurd (omega arith)
  next_loop-ne-out_of_fuel (suc fuel) s answers result enough =
      round-safe (measure s answers) (peek rpc s answers) (next_loop fuel rpc) result
        (peek-PeekEnds s answers)
        (λ s₀ answers₀ c fewer. next_loop-ne-out_of_fuel fuel s₀ answers₀ (some c) (omega arith))

  take_first-safe :
      (n : ℕ) (r : Result Stuck (Peeked × Scanner × List Answer))
      → PeekEnds n r
      → (r >>= take_first) ≢ err out_of_fuel
  unfolding take_first
  take_first-safe n (err e) ends = λ h. cc
  take_first-safe n panics ends = λ h. cc
  take_first-safe n (ok (nothing e, s, answers)) ends = λ h. cc
  take_first-safe n (ok (first r, s, answers)) ends = λ h. cc

  -- Next never runs out of fuel: it returns, panics, or waits for an answer.
  pub next-ne-out_of_fuel :
      (done : Bool) (s : Scanner) (answers : List Answer)
      → next rpc done s answers ≢ err out_of_fuel
  unfolding next
  next-ne-out_of_fuel true s answers = λ h. cc
  next-ne-out_of_fuel false s answers = elim (Bool-cases rpc.allow_partial_results) [
    | inr whole ↦
        simp whole (next_loop-ne-out_of_fuel (suc (measure s answers)) s answers none (omega arith))
    | inl parts ↦
        simp parts
          (take_first-safe (measure s answers) (peek rpc s answers) (peek-PeekEnds s answers))
  ]
