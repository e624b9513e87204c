-- ===== src/Backoff.antt =====
-- rpc.go (sleepAndIncreaseBackoff): how long the client waits before it tries again. A
-- time.Duration is its number of nanoseconds; whether the context ends before the time is over is
-- an argument.
pub mod Bounds
mod Examples
use gohbase.Prelude.{
  ℕ, zero, suc, ◌+◌, ◌*◌, ◌^◌, Bool, false, Option, none, some, ltb, ◌==◌, if◌then◌else◌,
}

abbrev pub second : ℕ
second = 10 ^ 9

abbrev pub backoff_start : ℕ
backoff_start = 16 * 10 ^ 6

-- `none` is the error of the context.
unfoldable pub sleep_and_increase_backoff : Bool → ℕ → Option ℕ
sleep_and_increase_backoff done backoff =
    if backoff == 0
    then some backoff_start
    else if done
    then none
    else if ltb backoff (5 * second)
    then some (backoff * 2)
    else if ltb backoff (30 * second)
    then some (backoff + 5 * second)
    else some backoff

-- The backoff before each of the first `n` further tries, where the context does not end.
pub backoffs : ℕ → ℕ → Option ℕ
backoffs zero backoff = some backoff
backoffs (suc n) backoff = elim (sleep_and_increase_backoff false backoff) [
  | none ↦ none
  | some backoff' ↦ backoffs n backoff'
]
