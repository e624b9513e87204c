-- ===== src/Scanner/Single.antt =====
-- scanner.go (Next): a scan whose first answer is one whole row.
use gohbase.Prelude.{◌≡◌, refl, ◌∙◌, true, false, none, some, List, [], ◌∷◌, arith, ok}
use gohbase.Region.{Region}
use gohbase.Scan.{Scan, ScanResponse, RowResult, Answer, reply, open_scanner}
use gohbase.Scanner.{
  Scanner, new_scanner, next, next_loop, peek, fetch, fill, send, request, after_reply, update,
  is_done, close, close_region_scanner, is_region_scanner_closed, round, finish_round, coalesce,
  shift,
}

after_reply-sent :
    (q : Scan) (s : Scanner) (resp : ScanResponse) (home : Region)
    → q.is_closing ≡ true
    → (after_reply q s resp home).sent ≡ s.sent
unfolding after_reply update close close_region_scanner is_done
after_reply-sent q s resp home closing = ground (arith, closing)

send-new_scanner :
    (q : Scan) → (send q (new_scanner q)).sent ≡ open_scanner q.start_row q.stop_row ∷ []
unfolding send request new_scanner is_region_scanner_closed
send-new_scanner q = refl

pub next-single :
    (q : Scan) (r : RowResult) (resp : ScanResponse) (home : Region) (answers : List Answer)
    → q.is_closing ≡ true
    → q.allow_partial_results ≡ false
    → resp.results ≡ r ∷ []
    → r.partial ≡ false
    → (s : Scanner) × (next q false (new_scanner q) (reply resp home ∷ answers)
        ≡ ok (record { result = some r; error = none }, s, answers))
      × (s.sent ≡ open_scanner q.start_row q.stop_row ∷ [])
unfolding next next_loop peek fetch fill round finish_round coalesce shift new_scanner
next-single q r resp home answers closing whole one complete =
    let s = after_reply q (send q (new_scanner q)) resp home in
    (
      shift (record s { results = r ∷ [] }),
      ground (arith, whole, one, complete),
      after_reply-sent q (send q (new_scanner q)) resp home closing ∙ send-new_scanner q,
    )
