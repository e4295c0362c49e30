-- ===== src/Voice/Resample/Range.antt =====
-- Resampling in pro/voicecodec/resample.go reads in bounds, and does not overshoot.
use sigmo.Common.{ℕ, ◌+◌, ◌*◌, ◌^◌, ◌≤◌, ◌≡◌, nat_equal, list_equal, ◌⊎◌}
use sigmo.Voice.Pcmu.{ℤ}
use sigmo.Voice.Resample.{above, below}

-- A sample between two levels, which count from -2 ^ 15 on.
pub record Between (lo hi : ℕ) (s : ℤ) : Type 0 where
  pub low : lo + below s ≤ 2 ^ 15 + above s
  pub high : 2 ^ 15 + above s ≤ hi + below s

-- The quotient of the two numbers, rounded: times the divisor, it is at most half a divisor off.
pub record IsNearest (n dividend divisor : ℕ) : Type 0 where
  pub not_above : 2 * (n * divisor) ≤ 2 * dividend + divisor
  pub not_below : 2 * dividend ≤ 2 * (n * divisor) + divisor

-- The number of samples is the duration at the new rate, rounded. Where that is less than half a
-- sample it is 1, unless no sample came in.
abbrev pub IsResampledLen : ℕ → ℕ → ℕ → ℕ → Type 0
IsResampledLen n len from_rate to_rate =
    IsNearest n (len * to_rate) from_rate
    ⊎ ((n ≡ 1) × (1 ≤ len) × IsNearest 0 (len * to_rate) from_rate)
