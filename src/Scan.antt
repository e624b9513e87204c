-- ===== src/Scan.antt =====
-- hrpc/scan.go and the messages of a scan: the query, what a region server answers, and what the
-- client makes of it.
use gohbase.Prelude.{ℕ, Bool, Option, List}
use gohbase.Bytes.{Bytes}
use gohbase.Cellblock.{Cell}
use gohbase.Region.{Region}

-- pb.Result; a flag that is not set reads as false.
pub record RowResult : Type 0 where
  pub cells : List Cell
  pub partial : Bool
  pub stale : Bool

-- pb.ScanResponse.
pub record ScanResponse : Type 0 where
  pub results : List RowResult
  pub scanner_id : Option ℕ
  pub more_results : Option Bool
  pub more_results_in_region : Bool

pub data ScanError : Type 0 where
  eof : ScanError
  context_done : ScanError
  -- what SendRPC failed with
  failure : ℕ → ScanError

-- What a request came back with: a response and the region that it was sent to, or an error.
pub data Answer : Type 0 where
  reply : ScanResponse → Region → Answer
  fail : ℕ → Answer

pub data Request : Type 0 where
  open_scanner : Bytes → Bytes → Request
  continue_scanner : Bytes → ℕ → Request
  close_scanner : Bytes → ℕ → Request

-- The scan query, hrpc.Scan.
pub record Scan : Type 0 where
  pub start_row : Bytes
  pub stop_row : Bytes
  pub reversed : Bool
  pub is_closing : Bool
  pub allow_partial_results : Bool
