-- ===== src/Voice/Resample.antt =====
-- pro/voicecodec/resample.go: linear resampling. A product of a length and a rate does not leave the
-- range of an int. A rate that is not positive is 0; reading past the end, which would panic, is an
-- error of the model's own.
pub mod Range
use sigmo.Common.{
  ℕ, zero, suc, ◌+◌, ◌-◌, ◌*◌, ◌/◌, ◌%◌, ◌^◌, ◌||◌, List, [], ◌∷◌, Option, none, some, length,
  get_elem?, ltb, leb, ◌==◌, nat_equal, list_equal, Result, ok, err, ◌>>=◌, ◌>>◌, if◌then◌else◌,
  min, max,
}
use sigmo.Voice.Pcmu.{ℤ, pos, negsuc, negated}

pub data ResampleError : Type 0 where
  invalid_sample_rate index_out_of_range : ResampleError

-- The sizes of the positive and of the negative samples.
abbrev pub above : ℤ → ℕ
above (pos n) = n
above (negsuc n) = 0

abbrev pub below : ℤ → ℕ
below (pos n) = 0
below (negsuc n) = suc n

-- The quotient of the difference of two numbers; Go rounds toward zero.
unfoldable pub quotient : ℕ → ℕ → ℕ → ℤ
quotient p n d = if leb n p then pos ((p - n) / d) else negated ((n - p) / d)

-- `int16`
unfoldable pub int16 : ℤ → ℤ
int16 (pos n) = let r = n % 2 ^ 16 in if ltb r (2 ^ 15) then pos r else negsuc (2 ^ 16 - 1 - r)
int16 (negsuc n) = let r = n % 2 ^ 16 in if ltb r (2 ^ 15) then negsuc r else pos (2 ^ 16 - 1 - r)

-- `int16((int(left)*leftWeight + int(right)*rightWeight) / toRate)`
unfoldable pub weighted : ℤ → ℕ → ℤ → ℕ → ℕ → ℤ
unfolding quotient int16
weighted l lw r rw' to_rate =
    int16 (quotient (above l * lw + above r * rw') (below l * lw + below r * rw') to_rate)

-- The two reads of the loop's body, and their mean.
abbrev pub mixed : Option ℤ → Option ℤ → ℕ → ℕ → ℕ → Option ℤ
mixed none r lw rw' to_rate = none
mixed (some l) none lw rw' to_rate = none
mixed (some l) (some r) lw rw' to_rate = some (weighted l lw r rw' to_rate)

-- The body of the loop.
unfoldable pub resampled : List ℤ → ℕ → ℕ → ℕ → Option ℤ
resampled input from_rate to_rate i =
    let numerator = i * from_rate in
    let left = numerator / to_rate in
    let left' = if leb (length input) left then length input - 1 else left in
    let right = min (left' + 1) (length input - 1) in
    let remainder = numerator % to_rate in
    mixed (get_elem? input left') (get_elem? input right) (to_rate - remainder) remainder to_rate

abbrev pub with_first : Option ℤ → Result ResampleError (List ℤ) → Result ResampleError (List ℤ)
with_first none rest = err index_out_of_range
with_first (some s) rest = rest >>= λ samples. ok (s ∷ samples)

-- `for i := range outputLen`, from `i` on.
unfoldable pub resample_loop : List ℤ → ℕ → ℕ → ℕ → ℕ → Result ResampleError (List ℤ)
unfolding resampled
resample_loop input from_rate to_rate i zero = ok []
resample_loop input from_rate to_rate i (suc n) =
    with_first (resampled input from_rate to_rate i)
      (resample_loop input from_rate to_rate (suc i) n)

abbrev pub output_len : List ℤ → ℕ → ℕ → ℕ
output_len input from_rate to_rate = max 1 ((length input * to_rate + from_rate / 2) / from_rate)

unfoldable pub resample_linear : List ℤ → ℕ → ℕ → Result ResampleError (List ℤ)
unfolding resample_loop
resample_linear input from_rate to_rate =
    if (from_rate == 0) || (to_rate == 0)
    then err invalid_sample_rate
    else if length input == 0
    then ok []
    else if from_rate == to_rate
    then ok input
    else resample_loop input from_rate to_rate 0 (output_len input from_rate to_rate)
