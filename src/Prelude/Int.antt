-- ===== src/Prelude/Int.antt =====
-- The ints that a comparison returns, over the native numbers.
use Prim.Native.Nat.{ℕ, ◌-◌, compare, Ordering}
use mathlib.Core.Path.{◌≡◌}
use native.Mathlib.Omega.{arith}

-- `negsuc n` is -(n + 1).
pub data ℤ : Type 0 where
  pos : ℕ → ℤ
  negsuc : ℕ → ℤ

-- a - b, as an integer.
abbrev pub sub_ℕ : ℕ → ℕ → ℤ
sub_ℕ a b = elim (compare a b) [ Ordering.lt ↦ negsuc (b - a - 1) | _ ↦ pos (a - b) ]

-- How an integer compares with 0.
abbrev pub sign : ℤ → Ordering
sign (pos n) = compare n 0
sign (negsuc n) = Ordering.lt

pub sign-sub_ℕ : (a b : ℕ) → sign (sub_ℕ a b) ≡ compare a b
sign-sub_ℕ a b = ground arith
