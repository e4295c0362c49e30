-- ===== src/Voice/Amr/Storage.antt =====
-- AMRStorageFrame and AMRStorage of pro/voicecodec/amr.go: the file header, then for each frame a
-- header byte and its speech data. Reading at `offset` is reading the head of the unread suffix.
pub mod RoundTrip
use sigmo.Common.{
  ℕ, zero, suc, ◌+◌, ◌*◌, ◌/◌, ◌^◌, Bool, true, false, not, ◌&&◌, ◌||◌, List, [], ◌∷◌, ◌++◌, map,
  Option, none, some, Bytes, length, take, drop, ltb, ◌==◌, nat_equal, list_equal, Result, ok, err,
  ◌>>=◌, ◌>>◌, refuse_if, map_result, if◌then◌else◌, bit_and, bit_or, has_prefix,
}
use mathlib.Core.Option
use sigmo.Voice.Amr.Codec.{
  AmrCodec, amr, amr_wb, unset, AmrFrame, AmrError, speech_truncated, frame_type_unsupported,
  frame_size_mismatch, header_missing, amr_storage_header, amr_wb_storage_header, is_wb, is_known,
  amr_frame_bytes,
}
use sigmo.Voice.Amr.Octet.{check_frame, is_nil}

pub record AmrStorage : Type 0 where
  pub codec : AmrCodec
  pub frames : List AmrFrame
  pub include_header : Bool

abbrev is_unset : AmrCodec → Bool
is_unset unset = true
is_unset _ = false

unfoldable pub storage_header : Bool → ℕ → ℕ
storage_header quality frame_type =
    let header = bit_and (frame_type * 2 ^ 3) 0x78 in if quality then bit_or header 0x04 else header

abbrev pub header_type : ℕ → ℕ
header_type header = bit_and (header / 2 ^ 3) 0x0f

abbrev pub header_quality : ℕ → Bool
header_quality header = not (bit_and header 0x04 == 0)

-- A frame of no named codec is written without a size test.
unfoldable pub marshal_storage_frame : AmrCodec → AmrFrame → Result AmrError Bytes
unfolding check_frame storage_header
marshal_storage_frame codec frame = do
  if is_unset codec then ok tt else check_frame codec frame
  ok (storage_header frame.quality frame.frame_type ∷ frame.speech)

unfoldable pub unmarshal_storage_frame : AmrCodec → Bytes → Result AmrError AmrFrame
unmarshal_storage_frame codec [] = err speech_truncated
unmarshal_storage_frame codec (header ∷ rest) = elim (amr_frame_bytes codec (header_type header)) [
  | none ↦ err frame_type_unsupported
  | some size ↦ do
    refuse_if (ltb (length rest) size) speech_truncated
    refuse_if (not (length rest == size)) frame_size_mismatch
    ok (record {
      frame_type = header_type header;
      quality = header_quality header;
      speech = take size rest;
    })
]

marshal_frames : AmrCodec → List AmrFrame → Result AmrError Bytes
marshal_frames codec [] = ok []
marshal_frames codec (frame ∷ frames) = do
  first ← marshal_storage_frame codec frame
  others ← marshal_frames codec frames
  ok (first ++ others)

file_header : AmrCodec → Bytes
file_header codec = if is_wb codec then amr_wb_storage_header else amr_storage_header

unfoldable pub marshal_storage : AmrStorage → Result AmrError Bytes
unfolding marshal_frames file_header
marshal_storage s = do
  refuse_if (not (is_known s.codec) && (not (is_nil s.frames) || s.include_header)) header_missing
  body ← marshal_frames s.codec s.frames
  ok ((if s.include_header then file_header s.codec else []) ++ body)

-- The codec that the data announces, else the one expected, and the size of the file header.
unfoldable pub storage_codec : AmrCodec → Bytes → Result AmrError (AmrCodec × ℕ)
unfolding has_prefix
storage_codec codec stored =
    if has_prefix stored amr_storage_header
    then ok (amr, length amr_storage_header)
    else if has_prefix stored amr_wb_storage_header
    then ok (amr_wb, length amr_wb_storage_header)
    else if is_known codec
    then ok (codec, 0)
    else err header_missing

abbrev pub stored_frame : ℕ → ℕ → Bytes → AmrFrame
stored_frame header size rest = record {
  frame_type = header_type header;
  quality = header_quality header;
  speech = take size rest;
}

-- The `for offset < len(data)` loop. Each round reads a header byte at least, so fuel for one round
-- more than there are bytes is enough; `none` is that the fuel ran out.
read_frames : ℕ → AmrCodec → Bytes → Option (Result AmrError (List AmrFrame))
read_frames zero codec stored = none
read_frames (suc fuel) codec [] = some (ok [])
read_frames (suc fuel) codec (header ∷ rest) = elim (amr_frame_bytes codec (header_type header)) [
  | none ↦ some (err frame_type_unsupported)
  | some size ↦
      let others =
        Option.map (map_result (λ frames. stored_frame header size rest ∷ frames))
          (read_frames fuel codec (drop size rest)) in
      if ltb (length rest) size then some (err speech_truncated) else others
]

unfoldable pub unmarshal_storage : AmrCodec → Bytes → Option (Result AmrError AmrStorage)
unfolding storage_codec read_frames
unmarshal_storage expected stored = elim (storage_codec expected stored) [
  | err e ↦ some (err e)
  | ok (codec, offset) ↦
      Option.map
        (map_result
          λ frames. record { codec = codec; frames = frames; include_header = ltb 0 offset })
        (read_frames (suc (length stored)) codec (drop offset stored))
]
