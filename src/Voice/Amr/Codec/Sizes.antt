-- ===== src/Voice/Amr/Codec/Sizes.antt =====
-- The frame size tables of pro/voicecodec/amr.go agree, and bound the frame types.
use mathlib.Core.Option
use sigmo.Common.{
  ℕ, zero, suc, ◌*◌, ◌<◌, ◌≤◌, ◌≡◌, refl, List, [], ◌∷◌, some, map, true, arith, get_elem?, length,
  Bool-cases, inl, inr,
}
use sigmo.Voice.Amr.Codec.{
  AmrCodec, amr, amr_wb, unset, other, frame_bits_table, frame_bytes_table, is_empty_type,
  amr_frame_bytes, amr_frame_bit_count, bytes_for_bits, amr_sample_rate, amr_samples_per_frame,
}

get_elem?-map :
    (f : ℕ → ℕ) (xs : List ℕ) (i : ℕ) → get_elem? (map f xs) i ≡ Option.map f (get_elem? xs i)
get_elem?-map f [] i = refl
get_elem?-map f (x ∷ xs) zero = refl
get_elem?-map f (x ∷ xs) (suc i) = get_elem?-map f xs i

get_elem?-lt : (xs : List ℕ) (i : ℕ) {n : ℕ} → get_elem? xs i ≡ some n → i < length xs
get_elem?-lt [] i h = cc
get_elem?-lt (x ∷ xs) zero h = omega arith
get_elem?-lt (x ∷ xs) (suc i) h = omega (arith, get_elem?-lt xs i h)

tables_agree :
    (codec : AmrCodec) → frame_bytes_table codec ≡ map bytes_for_bits (frame_bits_table codec)
unfolding bytes_for_bits
tables_agree amr = refl
tables_agree amr_wb = refl
tables_agree unset = refl
tables_agree other = refl

-- For every codec and frame type, the byte count of a frame is its bit count rounded up to whole
-- bytes, and one is undefined exactly when the other is.
pub frame_bytes-bit_count :
    (codec : AmrCodec) (frame_type : ℕ)
    → amr_frame_bytes codec frame_type
      ≡ Option.map bytes_for_bits (amr_frame_bit_count codec frame_type)
unfolding amr_frame_bytes amr_frame_bit_count
frame_bytes-bit_count codec t = elim (Bool-cases (is_empty_type codec t)) [
  | inl e ↦ rw e (unfold bytes_for_bits in refl)
  | inr e ↦ rw (e, tables_agree codec) (get_elem?-map bytes_for_bits (frame_bits_table codec) t)
]

table_length : (codec : AmrCodec) → length (frame_bytes_table codec) ≤ 10
table_length amr = omega arith
table_length amr_wb = omega arith
table_length unset = omega arith
table_length other = omega arith

is_empty_type_lt : (codec : AmrCodec) (t : ℕ) → is_empty_type codec t ≡ true → t < 16
is_empty_type_lt codec t h = ground arith

-- A frame type with a size fits the four bits of a frame header.
pub frame_type_lt : (codec : AmrCodec) (t : ℕ) {n : ℕ} → amr_frame_bytes codec t ≡ some n → t < 16
unfolding amr_frame_bytes
frame_type_lt codec t h = elim (Bool-cases (is_empty_type codec t)) [
  | inl e ↦ is_empty_type_lt codec t e
  | inr e ↦ omega (arith, table_length codec, get_elem?-lt (frame_bytes_table codec) t (rw e at h))
]

-- A frame lasts 20 ms at the sample rate of its codec: fifty frames fill a second.
pub frame_lasts_20ms : (codec : AmrCodec) → amr_samples_per_frame codec * 50 ≡ amr_sample_rate codec
unfolding amr_samples_per_frame amr_sample_rate
frame_lasts_20ms codec = ground arith
