-- ===== src/Scanner/Examples.antt =====
-- The theorems on scans, applied to a scan of two regions whose rows come in parts.
use gohbase.Prelude.{
  ℕ, ◌-◌, ◌^◌, ◌≤◌, ◌≡◌, refl, ◌≢◌, true, false, none, some, List, [], ◌∷◌, ◌++◌, length, All, ok,
  err,
}
use gohbase.Bytes.{Bytes, IsByte}
use gohbase.Bytes.Compare.{bytes_le, bytes_lt, equal}
use gohbase.Cellblock.{Cell}
use gohbase.Region.{Region}
use gohbase.Scan.{eof, failure, close_scanner, open_scanner, Scan, RowResult, Answer, reply, fail}
use gohbase.Scanner.{
  lower_row, Scanner, Returned, new_scanner, next, next_loop, peek, fetch, fill, send, request,
  after_reply, update, is_done, close, close_region_scanner, is_region_scanner_closed,
  next_start_row, round, finish_round, coalesce, combine, shift, weight, out_of_fuel, at_error,
}
use gohbase.Scanner.Closing.{next-eof_after_error}
use gohbase.Scanner.Reversed.{lower_row-nearest}
use gohbase.Scanner.Cells.{next-cells, pending, returned_cells}
use gohbase.Scanner.Fuel.{next-ne-out_of_fuel}

abbrev scan : Scan
scan = record {
  start_row = [];
  stop_row = [];
  reversed = false;
  is_closing = false;
  allow_partial_results = false;
}

abbrev cell : ℕ → ℕ → Cell
cell row qualifier = record {
  row = row ∷ [];
  family = b'f' ∷ [];
  qualifier = qualifier ∷ [];
  timestamp = 1;
  value = [];
  cell_type = 4;
}

abbrev part : ℕ → ℕ → RowResult
part row qualifier = record { cells = cell row qualifier ∷ []; partial = true; stale = false }

abbrev region : Bytes → Bytes → Region
region start stop = record {
  id = 1;
  namespace = none;
  table = b't' ∷ [];
  name = b't' ∷ [];
  start_key = start;
  stop_key = stop;
}

abbrev answers : List Answer
answers =
    reply
      (record {
        results = part 1 1 ∷ part 1 2 ∷ part 2 1 ∷ [];
        scanner_id = some 7;
        more_results = none;
        more_results_in_region = false;
      })
      (region [] (9 ∷ []))
    ∷ fail 5
    ∷ []

abbrev after : Scanner
after = record {
  cur_region_scanner_id = 2 ^ 64 - 1;
  start_row = 9 ∷ [];
  results = part 2 1 ∷ [];
  closed = false;
  sent = open_scanner [] [] ∷ close_scanner [] 7 ∷ [];
}

abbrev first_row : Returned
first_row = record {
  result = some (record { cells = cell 1 1 ∷ cell 1 2 ∷ []; partial = false; stale = false });
  error = none;
}

-- The first row is returned whole, and the second one stays in the buffer.
first_call : next scan false (new_scanner scan) answers ≡ ok (first_row, after, fail 5 ∷ [])
unfolding next next_loop peek fetch fill send request after_reply update is_done close
    close_region_scanner is_region_scanner_closed next_start_row round finish_round coalesce combine
    shift weight new_scanner equal
first_call = refl

next-cells_example :
    returned_cells first_row.result ++ pending after (fail 5 ∷ [])
    ≡ pending (new_scanner scan) answers
next-cells_example =
    next-cells scan false (new_scanner scan) answers first_row after (fail 5 ∷ []) first_call

next-ne-out_of_fuel_example : next scan false (new_scanner scan) answers ≢ err out_of_fuel
next-ne-out_of_fuel_example = next-ne-out_of_fuel scan false (new_scanner scan) answers

-- A second call returns the row that is left, and the error beside it.
abbrev second_row : Returned
second_row = record { result = some (part 2 1); error = some (failure 5) }

abbrev ended : Scanner
ended = record after {
  results = [];
  closed = true;
  sent = after.sent ++ (open_scanner (9 ∷ []) [] ∷ []);
}

second_call : next scan false after (fail 5 ∷ []) ≡ ok (second_row, ended, [])
unfolding next next_loop peek fetch fill send request close close_region_scanner
    is_region_scanner_closed round finish_round coalesce combine shift weight at_error
second_call = refl

next-eof_after_error_example :
    next scan false ended answers ≡ ok (record { result = none; error = some eof }, ended, answers)
next-eof_after_error_example =
    next-eof_after_error scan after (fail 5 ∷ []) answers second_row ended [] (failure 5)
      second_call refl

lower_row-nearest_example :
    (bytes_lt (lower_row (b'm' ∷ [])) (b'm' ∷ []) ≡ true)
    × ((row : Bytes)
        → All IsByte row
        → length row ≤ 9
        → bytes_lt row (b'm' ∷ []) ≡ true
        → bytes_le row (lower_row (b'm' ∷ [])) ≡ true)
lower_row-nearest_example = lower_row-nearest (b'm' ∷ []) λ h. cc
