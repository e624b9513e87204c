-- ===== src/Backoff/Examples.antt =====
-- The bounds of the backoff, applied to the backoff that the client starts with.
use gohbase.Prelude.{ℕ, ◌*◌, ◌≤◌, ◌<◌, ◌≡◌, some, arith}
use gohbase.Backoff.{second, backoff_start, backoffs}
use gohbase.Backoff.Bounds.{backoffs-bounds}

backoffs-bounds_example :
    (backoff' : ℕ) × (backoffs 20 backoff_start ≡ some backoff')
    × (backoff_start ≤ backoff')
    × (backoff' < 35 * second)
    × (0 < backoff')
    × (backoff_start < 30 * second → backoff_start < backoff')
    × (30 * second ≤ backoff_start → backoff' ≡ backoff_start)
backoffs-bounds_example = backoffs-bounds 19 backoff_start (omega arith)
