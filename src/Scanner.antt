-- ===== src/Scanner.antt =====
-- scanner.go: a scan over the regions of a table, as a state machine over the answers that the
-- client gets for its requests. A run is given the list of these answers; where it needs one more
-- the call is blocked. What SendRPC returns is an argument, the option errors of NewScanRange
-- among its failures. `sent` records the requests.
pub mod Cells
pub mod Closing
mod Examples
pub mod Fuel
pub mod Reversed
pub mod Single
use gohbase.Prelude.{
  ℕ, zero, suc, ◌+◌, ◌-◌, ◌^◌, Bool, true, false, ◌&&◌, not, Option, none, some, List, [], ◌∷◌,
  ◌++◌, ◌==◌, if◌then◌else◌, length, Result, ok, err, panics, ◌>>=◌, ◌>>◌,
}
use gohbase.Bytes.{Bytes}
use gohbase.Bytes.Compare.{equal, bytes_le}
use gohbase.Cellblock.{Cell}
use gohbase.Region.{Region}
use gohbase.Scan.{
  RowResult, ScanResponse, ScanError, eof, context_done, failure, Answer, reply, fail, Request,
  open_scanner, continue_scanner, close_scanner, Scan,
}

abbrev pub no_scanner_id : ℕ
no_scanner_id = 2 ^ 64 - 1

abbrev pub row_padding : Bytes
row_padding = 0xff ∷ 0xff ∷ 0xff ∷ 0xff ∷ 0xff ∷ 0xff ∷ 0xff ∷ 0xff ∷ []

pub record Scanner : Type 0 where
  pub cur_region_scanner_id : ℕ
  pub start_row : Bytes
  pub results : List RowResult
  pub closed : Bool
  pub sent : List Request

-- Why a call does not return: it waits for an answer, or its fuel was not enough.
pub data Stuck : Type 0 where
  blocked : Stuck
  out_of_fuel : Stuck

pub new_scanner : Scan → Scanner
new_scanner rpc = record {
  cur_region_scanner_id = no_scanner_id;
  start_row = rpc.start_row;
  results = [];
  closed = false;
  sent = [];
}

pub is_region_scanner_closed : Scanner → Bool
is_region_scanner_closed s = s.cur_region_scanner_id == no_scanner_id

pub close_region_scanner : Scan → Scanner → Scanner
unfolding is_region_scanner_closed
close_region_scanner rpc s = if is_region_scanner_closed s then s else record s {
  cur_region_scanner_id = no_scanner_id;
  sent =
      if rpc.is_closing
      then s.sent
      else s.sent ++ (close_scanner s.start_row s.cur_region_scanner_id ∷ []);
}

pub close : Scan → Scanner → Scanner
unfolding close_region_scanner
close rpc s = if s.closed then s else close_region_scanner rpc (record s { closed = true })

-- The start row behind a region whose start key is given, for a reversed scan.
pub lower_row : Bytes → Bytes
lower_row [] = []
lower_row (x ∷ []) = if x == 0 then [] else (x - 1) ∷ row_padding
lower_row (x ∷ y ∷ rest) = x ∷ lower_row (y ∷ rest)

pub next_start_row : Scan → Region → Bytes
unfolding lower_row
next_start_row rpc region = if not rpc.reversed then region.stop_key else lower_row region.start_key

pub update : Scan → Scanner → ScanResponse → Region → Scanner
unfolding is_region_scanner_closed close_region_scanner next_start_row
update rpc s resp region =
    let opened : Scanner =
      if is_region_scanner_closed s
      then elim resp.scanner_id [ none ↦ s | some id ↦ record s { cur_region_scanner_id = id } ]
      else s in
    if resp.more_results_in_region
    then opened
    else record (close_region_scanner rpc opened) { start_row = next_start_row rpc region }

abbrev pub is_false : Option Bool → Bool
is_false none = false
is_false (some b) = not b

pub is_done : Scan → Scanner → ScanResponse → Region → Bool
unfolding is_region_scanner_closed
is_done rpc s resp region =
    if is_false resp.more_results
    then true
    else if not (is_region_scanner_closed s)
    then false
    else if length region.stop_key == 0 && not rpc.reversed
    then true
    else if rpc.reversed && length region.start_key == 0
    then true
    else if not rpc.reversed
    then not (length rpc.stop_row == 0) && bytes_le rpc.stop_row region.stop_key
    else not (length rpc.stop_row == 0) && bytes_le region.start_key rpc.stop_row

pub request : Scan → Scanner → Request
unfolding is_region_scanner_closed
request rpc s =
    if is_region_scanner_closed s
    then open_scanner s.start_row rpc.stop_row
    else continue_scanner s.start_row s.cur_region_scanner_id

pub data Fetched : Type 0 where
  got : List RowResult → Fetched
  failed : ScanError → Fetched

-- What a response does to the scanner.
pub after_reply : Scan → Scanner → ScanResponse → Region → Scanner
unfolding update is_done close
after_reply rpc s resp region =
    let updated = update rpc s resp region in
    if is_done rpc updated resp region then close rpc updated else updated

pub send : Scan → Scanner → Scanner
unfolding request
send rpc s = record s { sent = s.sent ++ (request rpc s ∷ []) }

-- The request is sent, and its answer is the next of the list.
pub fetch : List Answer → Scan → Scanner → Result Stuck (Fetched × Scanner × List Answer)
fetch [] rpc s = err blocked
fetch (fail e ∷ answers) rpc s = ok (failed (failure e), close rpc (send rpc s), answers)
fetch (reply resp region ∷ answers) rpc s =
    let s' = after_reply rpc (send rpc s) resp region in
    let again = fetch answers rpc s' in
    elim resp.results [
      | r ∷ rs ↦ ok (got (r ∷ rs), s', answers)
      | [] ↦ if s'.closed then ok (failed eof, s', answers) else again
    ]

pub data Peeked : Type 0 where
  first : RowResult → Peeked
  nothing : ScanError → Peeked

pub fill : Fetched × Scanner × List Answer → Result Stuck (Peeked × Scanner × List Answer)
fill (failed e, s, answers) = ok (nothing e, s, answers)
fill (got [], s, answers) = panics
fill (got (r ∷ rs), s, answers) = ok (first r, record s { results = r ∷ rs }, answers)

pub peek : Scan → Scanner → List Answer → Result Stuck (Peeked × Scanner × List Answer)
peek rpc s answers = elim s.results [
  | r ∷ rs ↦ ok (first r, s, answers)
  | [] ↦ if s.closed then ok (nothing eof, s, answers) else (fetch answers rpc s >>= fill)
]

abbrev pub tail : List RowResult → List RowResult
tail [] = []
tail (r ∷ rs) = rs

pub shift : Scanner → Scanner
shift s = record s { results = tail s.results }

-- Whether two lists of cells begin in the same row; the source indexes both.
abbrev pub same_row : List Cell → List Cell → Result Stuck Bool
same_row cells [] = ok true
same_row [] (d ∷ ds) = panics
same_row (c ∷ cs) (d ∷ ds) = ok (equal c.row d.row)

pub combine : RowResult → RowResult → Bool → Result Stuck (RowResult × Bool)
combine result partial same =
    if not same
    then ok (record result { partial = false }, false)
    else ok (
      record result {
        cells = result.cells ++ partial.cells;
        stale = if partial.stale then true else result.stale;
      },
      true,
    )

pub coalesce : Option RowResult → RowResult → Result Stuck (RowResult × Bool)
coalesce none partial = ok (partial, true)
coalesce (some result) partial =
    if not result.partial
    then ok (result, false)
    else (same_row result.cells partial.cells >>= combine result partial)

-- What Next returns: a result, an error, or both.
pub record Returned : Type 0 where
  pub result : Option RowResult
  pub error : Option ScanError

pub at_error : Option RowResult → ScanError → Returned
at_error (some r) eof = record { result = some (record r { partial = false }); error = none }
at_error none eof = record { result = none; error = some eof }
at_error result e = record { result = result; error = some e }

abbrev pub Turn : Type 0
Turn = Result Stuck (Returned × Scanner × List Answer)

abbrev pub advance : Bool → Scanner → Scanner
advance taken s = if taken then shift s else s

-- The end of a round of Next: the combined result is returned, or the loop goes on.
pub finish_round :
    (Scanner → List Answer → Option RowResult → Turn)
    → Scanner
    → List Answer
    → RowResult × Bool
    → Turn
finish_round again s answers (combined, taken) =
    if not combined.partial
    then ok (record { result = some combined; error = none }, advance taken s, answers)
    else again (advance taken s) answers (some combined)

pub round :
    (Scanner → List Answer → Option RowResult → Turn)
    → Option RowResult
    → Peeked × Scanner × List Answer
    → Turn
round again result (nothing e, s, answers) = ok (at_error result e, s, answers)
round again result (first partial, s, answers) =
    coalesce result partial >>= finish_round again s answers

-- The loop of Next.
pub next_loop : ℕ → Scan → Scanner → List Answer → Option RowResult → Turn
next_loop zero rpc s answers result = err out_of_fuel
next_loop (suc fuel) rpc s answers result = peek rpc s answers >>= round (next_loop fuel rpc) result

-- The results that may still come, an upper bound of the rounds of Next.
pub weight : List Answer → ℕ
weight [] = 1
weight (fail e ∷ answers) = suc (weight answers)
weight (reply resp region ∷ answers) = suc (length resp.results + weight answers)

-- Next where the client handles partial results.
pub take_first : Peeked × Scanner × List Answer → Turn
take_first (nothing e, s, answers) = ok (record { result = none; error = some e }, s, answers)
take_first (first r, s, answers) = ok (record { result = some r; error = none }, shift s, answers)

-- `done` says whether the context of the scan is done.
pub next : Scan → Bool → Scanner → List Answer → Turn
next rpc done s answers =
    if done
    then ok (record { result = none; error = some context_done }, close rpc s, answers)
    else if rpc.allow_partial_results
    then (peek rpc s answers >>= take_first)
    else next_loop (suc (length s.results + weight answers)) rpc s answers none
