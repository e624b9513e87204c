-- ===== src/Backoff/Bounds.antt =====
-- How the backoff grows.
use gohbase.Prelude.{
  ℕ, zero, suc, ◌+◌, ◌*◌, ◌≤◌, ◌<◌, ◌≡◌, refl, ◌∙◌, inl, inr, false, some, arith, ltb, ◌==◌,
  Bool-cases,
}
use gohbase.Backoff.{second, backoff_start, sleep_and_increase_backoff, backoffs}

step-bounds :
    (backoff : ℕ)
    → backoff < 35 * second
    → (backoff' : ℕ) × (sleep_and_increase_backoff false backoff ≡ some backoff')
      × (backoff ≤ backoff')
      × (backoff' < 35 * second)
      × (0 < backoff')
      × (backoff < 30 * second → backoff < backoff')
      × (30 * second ≤ backoff → backoff' ≡ backoff)
unfolding sleep_and_increase_backoff
step-bounds backoff short = elim (Bool-cases (backoff == 0)) [
  | inl first ↦ (
    backoff_start,
    ground arith,
    ground arith,
    omega arith,
    omega arith,
    (λ h. ground arith),
    (λ h. ground arith),
  )
  | inr later ↦ elim (Bool-cases (ltb backoff (5 * second))) [
    | inl small ↦ (
      backoff * 2,
      ground arith,
      omega arith,
      ground arith,
      ground arith,
      (λ h. ground arith),
      (λ h. ground arith),
    )
    | inr large ↦ elim (Bool-cases (ltb backoff (30 * second))) [
      | inl room ↦ (
        backoff + 5 * second,
        ground arith,
        omega arith,
        ground arith,
        omega arith,
        (λ h. ground arith),
        (λ h. ground arith),
      )
      | inr full ↦ (
        backoff,
        ground arith,
        omega arith,
        short,
        ground arith,
        (λ h. ground arith),
        (λ h. refl),
      )
    ]
  ]
]

-- What sleepAndIncreaseBackoff makes of a backoff below 35 seconds, applied any number of times
-- from once on, where the context does not end: a backoff that is positive, below 35 seconds and not
-- less than the first one, greater than it where that is below 30 seconds, and equal to it otherwise.
pub backoffs-bounds :
    (n backoff : ℕ)
    → backoff < 35 * second
    → (backoff' : ℕ) × (backoffs (suc n) backoff ≡ some backoff')
      × (backoff ≤ backoff')
      × (backoff' < 35 * second)
      × (0 < backoff')
      × (backoff < 30 * second → backoff < backoff')
      × (30 * second ≤ backoff → backoff' ≡ backoff)
unfolding backoffs
backoffs-bounds zero backoff short =
    let (backoff', ran, grown, below, pos, up, top) = step-bounds backoff short in
    (backoff', ground (arith, ran), grown, below, pos, up, top)
backoffs-bounds (suc n) backoff short =
    let (middle, ran, grown, below, pos, up, top) = step-bounds backoff short in
    let (backoff', ran', grown', below', pos', up', top') = backoffs-bounds n middle below in
    (
      backoff',
      ground (arith, ran, ran'),
      omega arith,
      below',
      pos',
      (λ h. omega (arith, up h)),
      (λ h. top' (omega (arith, top h)) ∙ top h),
    )
