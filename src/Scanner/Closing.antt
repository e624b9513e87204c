-- ===== src/Scanner/Closing.antt =====
-- scanner.go: a scanner that has returned an error.
use gohbase.Prelude.{
  ℕ, zero, suc, ◌+◌, ◌≡◌, refl, ap, ◌∙◌, inl, inr, true, false, Option, none, some, List, [], ◌∷◌,
  arith, Bool-cases, length, List-cases, ok, ◌>>=◌, >>=-eq-ok,
}
use gohbase.Scan.{Scan, RowResult, ScanError, eof, Answer, reply, fail}
use gohbase.Scanner.{
  Scanner, Returned, Turn, Peeked, first, nothing, Fetched, got, failed, next, next_loop, peek,
  fetch, fill, send, after_reply, close, close_region_scanner, round, finish_round, coalesce,
  at_error, take_first, weight, advance,
}
use gohbase.Scanner.Cells.{peek-cells}

abbrev Ended : Scanner → Type 0
Ended s = (s.results ≡ []) × (s.closed ≡ true)

module _ (rpc : Scan) where
  close-closed : (s : Scanner) → (close rpc s).closed ≡ true
  unfolding close close_region_scanner
  close-closed s = ground arith

  -- A turn that ends with an error ends with a closed scanner.
  ClosesAtError : Turn → Type 0
  ClosesAtError t =
      (out : Returned) (s' : Scanner) (answers' : List Answer) (e : ScanError)
      → t ≡ ok (out, s', answers')
      → out.error ≡ some e
      → Ended s'

  fetch-closed :
      (answers : List Answer) (s : Scanner) (e : ScanError) (s' : Scanner) (answers' : List Answer)
      → fetch answers rpc s ≡ ok (failed e, s', answers')
      → s'.closed ≡ true
  unfolding fetch
  fetch-closed [] s e s' answers' h = absurd (ground arith)
  fetch-closed (fail x ∷ answers) s e s' answers' h = ground (arith, close-closed (send rpc s))
  fetch-closed (reply resp region ∷ answers) s e s' answers' h = elim (List-cases resp.results) [
    | inl none_got ↦ elim (Bool-cases (after_reply rpc (send rpc s) resp region).closed) [
      | inl c ↦ ground arith
      | inr o ↦
          fetch-closed answers (after_reply rpc (send rpc s) resp region) e s' answers'
            (ground arith)
    ]
    | inr (r, rs, some_got) ↦ absurd (ground arith)
  ]

  fill-closed :
      (f : Fetched) (s : Scanner) (answers : List Answer) (e : ScanError) (s' : Scanner)
      (answers' : List Answer)
      → ((x : ScanError) → f ≡ failed x → s.closed ≡ true)
      → fill (f, s, answers) ≡ ok (nothing e, s', answers')
      → s'.closed ≡ true
  unfolding fill
  fill-closed (failed x) s answers e s' answers' shut h = ground (arith, shut x refl)
  fill-closed (got []) s answers e s' answers' shut h = absurd (ground arith)
  fill-closed (got (r ∷ rs)) s answers e s' answers' shut h = absurd (ground arith)

  peek-closed :
      (s : Scanner) (answers : List Answer) (e : ScanError) (s' : Scanner) (answers' : List Answer)
      → peek rpc s answers ≡ ok (nothing e, s', answers')
      → s'.closed ≡ true
  unfolding peek
  peek-closed s answers e s' answers' h = elim (List-cases s.results) [
    | inr (r, rs, some_left) ↦ absurd (ground arith)
    | inl none_left ↦ elim (Bool-cases s.closed) [
      | inl c ↦ ground arith
      | inr o ↦
          let opened : (fetch answers rpc s >>= fill) ≡ ok (nothing e, s', answers') =
            ground arith in
          let ((f, s₀, answers₀), ran, filled) = >>=-eq-ok (fetch answers rpc s) fill opened in
          fill-closed f s₀ answers₀ e s' answers'
            (λ x isf.
              fetch-closed answers s x s₀ answers₀ (ran ∙ ap (λ f. ok (f, s₀, answers₀)) isf))
            filled
    ]
  ]

  peek-Ended :
      (s : Scanner) (answers : List Answer) (e : ScanError) (s' : Scanner) (answers' : List Answer)
      → peek rpc s answers ≡ ok (nothing e, s', answers')
      → Ended s'
  peek-Ended s answers e s' answers' h = (
    (peek-cells rpc s answers (nothing e) s' answers' h).1,
    peek-closed s answers e s' answers' h,
  )

  round-Closes :
      (p : Peeked) (s : Scanner) (answers : List Answer)
      (again : Scanner → List Answer → Option RowResult → Turn) (result : Option RowResult)
      → ((x : ScanError) → p ≡ nothing x → Ended s)
      → ((s₁ : Scanner) (r : RowResult) → ClosesAtError (again s₁ answers (some r)))
      → ClosesAtError (round again result (p, s, answers))
  unfolding round finish_round ClosesAtError
  round-Closes (nothing x) s answers again result shut next out s' answers' e h failed_with =
      ground (arith, shut x refl)
  round-Closes (first r) s answers again result shut next out s' answers' e h failed_with =
      let ((combined, taken), ran, finished) =
        >>=-eq-ok (coalesce result r) (finish_round again s answers) h in
      elim (Bool-cases combined.partial) [
        | inl more ↦ next (advance taken s) combined out s' answers' e (ground arith) failed_with
        | inr whole ↦ absurd (ground arith)
      ]

  next_loop-Closes :
      (fuel : ℕ) (s : Scanner) (answers : List Answer) (result : Option RowResult)
      → ClosesAtError (next_loop fuel rpc s answers result)
  unfolding next_loop ClosesAtError
  next_loop-Closes zero s answers result out s' answers' e h failed_with = absurd (ground arith)
  next_loop-Closes (suc fuel) s answers result out s' answers' e h failed_with =
      let ((p, s₀, answers₀), peeked, rest) =
        >>=-eq-ok (peek rpc s answers) (round (next_loop fuel rpc) result) h in
      round-Closes p s₀ answers₀ (next_loop fuel rpc) result
        (λ x isp. peek-Ended s answers x s₀ answers₀ (peeked ∙ ap (λ p. ok (p, s₀, answers₀)) isp))
        (λ s₁ r. next_loop-Closes fuel s₁ answers₀ (some r)) out s' answers' e rest failed_with

  take_first-Closes :
      (p : Peeked) (s : Scanner) (answers : List Answer)
      → ((x : ScanError) → p ≡ nothing x → Ended s)
      → ClosesAtError (take_first (p, s, answers))
  unfolding take_first ClosesAtError
  take_first-Closes (nothing x) s answers shut out s' answers' e h failed_with =
      ground (arith, shut x refl)
  take_first-Closes (first r) s answers shut out s' answers' e h failed_with = absurd (ground arith)

  next-Closes : (s : Scanner) (answers : List Answer) → ClosesAtError (next rpc false s answers)
  unfolding next ClosesAtError
  next-Closes s answers out s' answers' e h failed_with =
      elim (Bool-cases rpc.allow_partial_results) [
        | inr whole ↦
            next_loop-Closes (suc (length s.results + weight answers)) s answers none out s'
              answers' e (ground arith) failed_with
        | inl parts ↦
            let opened : (peek rpc s answers >>= take_first) ≡ ok (out, s', answers') =
              ground arith in
            let ((p, s₀, answers₀), peeked, rest) =
              >>=-eq-ok (peek rpc s answers) take_first opened in
            take_first-Closes p s₀ answers₀
              (λ x isp.
                peek-Ended s answers x s₀ answers₀ (peeked ∙ ap (λ p. ok (p, s₀, answers₀)) isp))
              out s' answers' e rest failed_with
      ]

  next-Ended :
      (s : Scanner) (answers : List Answer)
      → Ended s
      → next rpc false s answers ≡ ok (record { result = none; error = some eof }, s, answers)
  unfolding next next_loop peek round take_first at_error
  next-Ended s answers (none_left, shut) = ground arith

  -- A scan that has failed stays at its end: where Next returns an error, also beside a result, and
  -- the context of the scan is not done, the next call returns io.EOF and no result, leaves the
  -- scanner as it is, and uses no answer.
  pub next-eof_after_error :
      (s : Scanner) (answers more : List Answer) (out : Returned) (s' : Scanner)
      (answers' : List Answer) (e : ScanError)
      → next rpc false s answers ≡ ok (out, s', answers')
      → out.error ≡ some e
      → next rpc false s' more ≡ ok (record { result = none; error = some eof }, s', more)
  unfolding ClosesAtError
  next-eof_after_error s answers more out s' answers' e h failed_with =
      next-Ended s' more (next-Closes s answers out s' answers' e h failed_with)
