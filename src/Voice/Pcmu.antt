-- ===== src/Voice/Pcmu.antt =====
-- pro/voicecodec/pcmu.go: G.711 mu-law. A sample is an integer of 16 bits, whose range it does not leave.
pub mod Codes
use sigmo.Common.{
  ℕ, zero, suc, ◌+◌, ◌-◌, ◌*◌, ◌/◌, ◌%◌, ◌^◌, List, map, Bytes, leb, ◌==◌, nat_equal, list_equal,
  if◌then◌else◌, min,
}

pub data ℤ : Type 0 where
  pos negsuc : ℕ → ℤ

abbrev pub pcmu_bias : ℕ
pcmu_bias = 0x84

abbrev pub negated : ℕ → ℤ
negated zero = pos zero
negated (suc n) = negsuc n

-- One byte of `DecodePCMU`; `value := ^encoded`.
unfoldable pub decode_sample : ℕ → ℤ
decode_sample encoded =
    let value = 255 - encoded in
    let exponent = value / 2 ^ 4 % 2 ^ 3 in
    let mantissa = value % 2 ^ 4 in
    let sample = (mantissa * 2 ^ 3 + pcmu_bias) * 2 ^ exponent - pcmu_bias in
    if leb 0x80 value then negated sample else pos sample

unfoldable pub decode_pcmu : Bytes → List ℤ
unfolding decode_sample
decode_pcmu payload = map decode_sample payload

-- `for mask := 0x4000; exponent > 0 && value&mask == 0; mask >>= 1`: the mask is 2 ^ (exponent + 7).
find_exponent : ℕ → ℕ → ℕ
find_exponent zero value = zero
find_exponent (suc e) value =
    let lower = find_exponent e value in if value / 2 ^ (e + 8) % 2 == 0 then lower else suc e

-- The biased and clipped magnitude, in the low seven bits.
encode_magnitude : ℕ → ℕ
unfolding find_exponent
encode_magnitude magnitude =
    let value = min magnitude 32635 + pcmu_bias in
    let exponent = find_exponent 7 value in exponent * 2 ^ 4 + value / 2 ^ (exponent + 3) % 2 ^ 4

unfoldable pub encode_pcm_sample : ℤ → ℕ
unfolding encode_magnitude
encode_pcm_sample (pos n) = 255 - encode_magnitude n
encode_pcm_sample (negsuc n) = 255 - (0x80 + encode_magnitude (suc n))

unfoldable pub encode_pcmu : List ℤ → Bytes
unfolding encode_pcm_sample
encode_pcmu samples = map encode_pcm_sample samples
