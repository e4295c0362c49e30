-- ===== src/Voice/Amr/Codec.antt =====
-- Codec names, frames, errors and the frame size tables of pro/voicecodec/amr.go. A size of -1 is
-- `none`. A frame type is a Go int; the model ranges over the non-negative ones.
pub mod Sizes
use sigmo.Common.{
  ℕ, ◌+◌, ◌/◌, Bool, true, false, ◌&&◌, ◌||◌, List, [], ◌∷◌, Option, some, Bytes, codes, get_elem?,
  ◌==◌, nat_equal, if◌then◌else◌,
}

-- `other` is any string that is neither of the two names nor empty.
pub data AmrCodec : Type 0 where
  amr amr_wb unset other : AmrCodec

pub record AmrFrame : Type 0 where
  pub frame_type : ℕ
  pub quality : Bool
  pub speech : Bytes

pub data AmrError : Type 0 where
  payload_short payload_truncated toc_truncated speech_truncated : AmrError
  frame_type_unsupported frame_size_mismatch frames_required header_missing : AmrError

abbrev pub amr_storage_header : Bytes
amr_storage_header = codes "#!AMR\n"

abbrev pub amr_wb_storage_header : Bytes
amr_wb_storage_header = codes "#!AMR-WB\n"

abbrev pub frame_bits_table : AmrCodec → List ℕ
frame_bits_table amr = 95 ∷ 103 ∷ 118 ∷ 134 ∷ 148 ∷ 159 ∷ 204 ∷ 244 ∷ 39 ∷ []
frame_bits_table amr_wb = 132 ∷ 177 ∷ 253 ∷ 285 ∷ 317 ∷ 365 ∷ 397 ∷ 461 ∷ 477 ∷ 40 ∷ []
frame_bits_table _ = []

abbrev pub frame_bytes_table : AmrCodec → List ℕ
frame_bytes_table amr = 12 ∷ 13 ∷ 15 ∷ 17 ∷ 19 ∷ 20 ∷ 26 ∷ 31 ∷ 5 ∷ []
frame_bytes_table amr_wb = 17 ∷ 23 ∷ 32 ∷ 36 ∷ 40 ∷ 46 ∷ 50 ∷ 58 ∷ 60 ∷ 5 ∷ []
frame_bytes_table _ = []

abbrev pub no_mode_request : ℕ
no_mode_request = 15

abbrev pub is_wb : AmrCodec → Bool
is_wb amr_wb = true
is_wb _ = false

abbrev pub is_known : AmrCodec → Bool
is_known amr = true
is_known amr_wb = true
is_known _ = false

-- A frame with no speech data: no data (15), or speech lost (14) in AMR-WB.
abbrev pub is_empty_type : AmrCodec → ℕ → Bool
is_empty_type codec frame_type = (frame_type == 15) || (is_wb codec && frame_type == 14)

unfoldable pub amr_frame_bytes : AmrCodec → ℕ → Option ℕ
amr_frame_bytes codec frame_type =
    if is_empty_type codec frame_type
    then some 0
    else get_elem? (frame_bytes_table codec) frame_type

unfoldable pub amr_frame_bit_count : AmrCodec → ℕ → Option ℕ
amr_frame_bit_count codec frame_type =
    if is_empty_type codec frame_type then some 0 else get_elem? (frame_bits_table codec) frame_type

unfoldable pub bytes_for_bits : ℕ → ℕ
bytes_for_bits bits = (bits + 7) / 8

unfoldable pub amr_sample_rate : AmrCodec → ℕ
amr_sample_rate codec = if is_wb codec then 16000 else 8000

unfoldable pub amr_samples_per_frame : AmrCodec → ℕ
amr_samples_per_frame codec = if is_wb codec then 320 else 160
