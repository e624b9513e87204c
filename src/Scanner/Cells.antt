-- ===== src/Scanner/Cells.antt =====
-- scanner.go (scanner.Next): the cells of the answers of the servers, and those of the results of
-- Next.
use gohbase.Prelude.{
  ℕ, zero, suc, ◌+◌, ◌≡◌, refl, sym, ap, ◌∙◌, inl, inr, Bool, true, false, Option, none, some, List,
  [], ◌∷◌, ◌++◌, append_assoc, arith, if◌then◌else◌, Bool-cases, length, List-cases, ok, ◌>>=◌,
  >>=-eq-ok,
}
use gohbase.Cellblock.{Cell}
use gohbase.Scan.{
  failure, context_done, ScanResponse, Scan, RowResult, Answer, reply, fail, ScanError, eof,
}
use gohbase.Scanner.{
  take_first, weight, advance, Turn, finish_round, round, combine, send, after_reply, Region,
  Scanner, Fetched, got, failed, Peeked, first, nothing, Returned, fetch, fill, peek, update, close,
  shift, tail, coalesce, same_row, at_error, next_loop, next,
}

abbrev pub cells_of : List RowResult → List Cell
cells_of [] = []
cells_of (r ∷ rs) = r.cells ++ cells_of rs

-- The cells of the answers that have not been used.
abbrev pub answer_cells : List Answer → List Cell
answer_cells [] = []
answer_cells (fail e ∷ answers) = answer_cells answers
answer_cells (reply resp region ∷ answers) = cells_of resp.results ++ answer_cells answers

-- The cells that are still to be returned, in order.
abbrev pub pending : Scanner → List Answer → List Cell
pending s answers = cells_of s.results ++ answer_cells answers

abbrev pub returned_cells : Option RowResult → List Cell
returned_cells none = []
returned_cells (some r) = r.cells

abbrev fetched_cells : Fetched → List Cell
fetched_cells (got rs) = cells_of rs
fetched_cells (failed e) = []

pub close-results : (rpc : Scan) (s : Scanner) → (close rpc s).results ≡ s.results
unfolding close
close-results rpc s = ground arith

module _ (rpc : Scan) where
  update-results :
      (s : Scanner) (resp : ScanResponse) (region : Region)
      → (update rpc s resp region).results ≡ s.results
  unfolding update
  update-results s resp region = ground arith

  after_reply-results :
      (s : Scanner) (resp : ScanResponse) (region : Region)
      → (after_reply rpc s resp region).results ≡ s.results
  unfolding after_reply
  after_reply-results s resp region =
      ground (arith, update-results s resp region, close-results rpc (update rpc s resp region))

  fetch-cells :
      (answers : List Answer) (s : Scanner) (f : Fetched) (s' : Scanner) (answers' : List Answer)
      → fetch answers rpc s ≡ ok (f, s', answers')
      → (fetched_cells f ++ answer_cells answers' ≡ answer_cells answers) × (s'.results ≡ s.results)
  unfolding fetch
  fetch-cells [] s f s' answers' h = absurd (ground arith)
  fetch-cells (fail e ∷ answers) s f s' answers' h =
      ground (arith, close-results rpc (send rpc s), sent_results)
    where
      sent_results : (send rpc s).results ≡ s.results
      sent_results = unfold send in refl
  fetch-cells (reply resp region ∷ answers) s f s' answers' h = elim (List-cases resp.results) [
    | inl e ↦ ground (arith, kept, fetch-cells answers after f s' answers')
    | inr (r, rs, e) ↦ ground (arith, kept)
  ]
    where
      after : Scanner
      after = after_reply rpc (send rpc s) resp region

      kept : after.results ≡ s.results
      kept = after_reply-results (send rpc s) resp region ∙ (unfold send in refl)

  abbrev pub PeekedHead : Peeked → List RowResult → Type 0
  PeekedHead (first r) rs = rs ≡ r ∷ tail rs
  PeekedHead (nothing e) rs = rs ≡ []

  fill-cells :
      (f : Fetched) (s : Scanner) (answers : List Answer) (p : Peeked) (s' : Scanner)
      (answers' : List Answer)
      → s.results ≡ []
      → fill (f, s, answers) ≡ ok (p, s', answers')
      → (pending s' answers' ≡ fetched_cells f ++ answer_cells answers) × PeekedHead p s'.results
  unfolding fill
  fill-cells (failed e) s answers p s' answers' none_left h = ground arith
  fill-cells (got []) s answers p s' answers' none_left h = absurd (ground arith)
  fill-cells (got (r ∷ rs)) s answers p s' answers' none_left h = ground arith

  -- A look at the next result moves cells from the answers to the buffer, at most.
  pub peek-cells :
      (s : Scanner) (answers : List Answer) (p : Peeked) (s' : Scanner) (answers' : List Answer)
      → peek rpc s answers ≡ ok (p, s', answers')
      → (pending s' answers' ≡ pending s answers) × PeekedHead p s'.results
  unfolding peek
  peek-cells s answers p s' answers' h = elim (List-cases s.results) [
    | inr (r, rs, e) ↦ ground arith
    | inl e ↦ elim (Bool-cases s.closed) [
      | inl c ↦ ground arith
      | inr o ↦
          let opened : (fetch answers rpc s >>= fill) ≡ ok (p, s', answers') = ground arith in
          let ((f, s₀, answers₀), ran, filled) = >>=-eq-ok (fetch answers rpc s) fill opened in
          let (kept, same) = fetch-cells answers s f s₀ answers₀ ran in
          let (moved, head) = fill-cells f s₀ answers₀ p s' answers' (same ∙ e) filled in
          (moved ∙ kept ∙ ground arith, head)
    ]
  ]

  combine-cells :
      (r partial combined : RowResult) (taken same : Bool)
      → combine r partial same ≡ ok (combined, taken)
      → combined.cells ≡ (if taken then r.cells ++ partial.cells else r.cells)
  unfolding combine
  combine-cells r partial combined taken same h = ground arith

  -- What coalesce makes of two results: it takes the second one over, or leaves it.
  coalesce-cells :
      (result : Option RowResult) (partial combined : RowResult) (taken : Bool)
      → coalesce result partial ≡ ok (combined, taken)
      → combined.cells
        ≡ (if taken then returned_cells result ++ partial.cells else returned_cells result)
  unfolding coalesce
  coalesce-cells none partial combined taken h = ground arith
  coalesce-cells (some r) partial combined taken h = elim (Bool-cases r.partial) [
    | inr e ↦ ground arith
    | inl e ↦
        let opened : (same_row r.cells partial.cells >>= combine r partial) ≡ ok (combined, taken) =
          ground arith in
        let (same, _, rest) =
          >>=-eq-ok (same_row r.cells partial.cells) (combine r partial) opened in
        combine-cells r partial combined taken same rest
  ]

  at_error-cells :
      (result : Option RowResult) (e : ScanError)
      → returned_cells (at_error result e).result ≡ returned_cells result
  unfolding at_error
  at_error-cells none eof = refl
  at_error-cells none context_done = refl
  at_error-cells none (failure n) = refl
  at_error-cells (some r) eof = refl
  at_error-cells (some r) context_done = refl
  at_error-cells (some r) (failure n) = refl

  -- The loop of Next returns the first of the pending cells, behind those that it had.
  abbrev Conserves : Option RowResult → List Cell → Turn → Type 0
  Conserves result cells turn =
      (out : Returned) (s' : Scanner) (answers' : List Answer)
      → turn ≡ ok (out, s', answers')
      → returned_cells out.result ++ pending s' answers' ≡ returned_cells result ++ cells

  balance :
      (s : Scanner) (answers : List Answer) (result : Option RowResult)
      (partial combined : RowResult) (taken : Bool)
      → s.results ≡ partial ∷ tail s.results
      → coalesce result partial ≡ ok (combined, taken)
      → combined.cells ++ pending (advance taken s) answers
        ≡ returned_cells result ++ pending s answers
  unfolding shift
  balance s answers result partial combined false head made =
      ap (λ (cells : List Cell). cells ++ pending s answers)
        (coalesce-cells result partial combined false made)
  balance s answers result partial combined true head made =
      rw (coalesce-cells result partial combined true made) (
        append_assoc (returned_cells result) partial.cells _
        ∙ ap (◌++◌ (returned_cells result)) (
            sym (append_assoc partial.cells (cells_of (tail s.results)) (answer_cells answers))
            ∙ ap (λ (rs : List RowResult). cells_of rs ++ answer_cells answers) (sym head)))

  finish_round-cells :
      (again : Scanner → List Answer → Option RowResult → Turn) (s : Scanner)
      (answers : List Answer) (result : Option RowResult) (partial combined : RowResult)
      (taken : Bool)
      → ((s₀ : Scanner) (r : RowResult)
          → Conserves (some r) (pending s₀ answers) (again s₀ answers (some r)))
      → s.results ≡ partial ∷ tail s.results
      → coalesce result partial ≡ ok (combined, taken)
      → Conserves result (pending s answers) (finish_round again s answers (combined, taken))
  unfolding finish_round shift
  finish_round-cells again s answers result partial combined taken ih head made out s' answers' h =
      elim (Bool-cases combined.partial) [
        | inl more ↦
            let opened : again (advance taken s) answers (some combined) ≡ ok (out, s', answers') =
              ground arith in
            ih (advance taken s) combined out s' answers' opened
            ∙ balance s answers result partial combined taken head made
        | inr whole ↦ ground (arith, balance s answers result partial combined taken head made)
      ]

  round-cells :
      (p : Peeked) (s : Scanner) (answers : List Answer)
      (again : Scanner → List Answer → Option RowResult → Turn) (result : Option RowResult)
      → ((s₀ : Scanner) (r : RowResult)
          → Conserves (some r) (pending s₀ answers) (again s₀ answers (some r)))
      → PeekedHead p s.results
      → Conserves result (pending s answers) (round again result (p, s, answers))
  unfolding round
  round-cells (nothing e) s answers again result ih head out s' answers' h =
      ground (arith, at_error-cells result e)
  round-cells (first partial) s answers again result ih head out s' answers' h =
      let ((combined, taken), made, rest) =
        >>=-eq-ok (coalesce result partial) (finish_round again s answers) h in
      finish_round-cells again s answers result partial combined taken ih head made out s' answers'
        rest

  next_loop-cells :
      (fuel : ℕ) (s : Scanner) (answers : List Answer) (result : Option RowResult)
      → Conserves result (pending s answers) (next_loop fuel rpc s answers result)
  unfolding next_loop
  next_loop-cells zero s answers result out s' answers' h = absurd (ground arith)
  next_loop-cells (suc fuel) s answers result out s' answers' h =
      let ((p, s₀, answers₀), peeked, rest) =
        >>=-eq-ok (peek rpc s answers) (round (next_loop fuel rpc) result) h in
      let (kept, head) = peek-cells s answers p s₀ answers₀ peeked in
      round-cells p s₀ answers₀ (next_loop fuel rpc) result
        (λ s₁ r. next_loop-cells fuel s₁ answers₀ (some r)) head out s' answers' rest
      ∙ ap (◌++◌ (returned_cells result)) kept

  take_first-cells :
      (p : Peeked) (s : Scanner) (answers : List Answer)
      → PeekedHead p s.results
      → Conserves none (pending s answers) (take_first (p, s, answers))
  unfolding take_first shift
  take_first-cells (nothing e) s answers head out s' answers' h = ground arith
  take_first-cells (first r) s answers head out s' answers' h =
      let parts : r.cells ++ pending (shift s) answers ≡ pending s answers =
        sym (append_assoc r.cells (cells_of (tail s.results)) (answer_cells answers))
        ∙ ap (λ (rs : List RowResult). cells_of rs ++ answer_cells answers) (sym head) in
      ground (arith, parts)

  -- Next conserves the cells: those of the result that it returns, followed by those that are still
  -- buffered or in the unused answers, are those that were pending before the call, in the same
  -- order. This holds for whatever the servers answered, also where Next returns an
  -- error.
  pub next-cells :
      (done : Bool) (s : Scanner) (answers : List Answer) (out : Returned) (s' : Scanner)
      (answers' : List Answer)
      → next rpc done s answers ≡ ok (out, s', answers')
      → returned_cells out.result ++ pending s' answers' ≡ pending s answers
  unfolding next
  next-cells true s answers out s' answers' h = ground (arith, close-results rpc s)
  next-cells false s answers out s' answers' h = elim (Bool-cases rpc.allow_partial_results) [
    | inr whole ↦
        next_loop-cells (suc (length s.results + weight answers)) s answers none out s' answers'
          (ground arith)
    | inl parts ↦
        let opened : (peek rpc s answers >>= take_first) ≡ ok (out, s', answers') = ground arith in
        let ((p, s₀, answers₀), peeked, rest) = >>=-eq-ok (peek rpc s answers) take_first opened in
        let (kept, head) = peek-cells s answers p s₀ answers₀ peeked in
        take_first-cells p s₀ answers₀ head out s' answers' rest ∙ kept
  ]
