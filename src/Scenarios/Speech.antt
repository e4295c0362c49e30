-- ===== src/Scenarios/Speech.antt =====
-- Runs of pro/voicecodec/amr.go: a payload and a storage file of two small frames.
use sigmo.Common.{
  ◌<◌, ◌≢◌, All, arith, ◌≡◌, refl, true, false, List, [], ◌∷◌, ◌++◌, none, some, Bytes, ok, inl,
}
use sigmo.Voice.Resample.Range.{Between}
use sigmo.Voice.Amr.Codec.{amr, amr_wb, AmrFrame, amr_frame_bytes}
use sigmo.Voice.Amr.Octet.{marshal_octet, unmarshal_octet}
use sigmo.Voice.Amr.Octet.RoundTrip.{unmarshal-marshal_octet}
use sigmo.Voice.Amr.Storage.{AmrStorage, marshal_storage_frame, marshal_storage, unmarshal_storage}
use sigmo.Voice.Pcmu.{ℤ, pos, negsuc, encode_pcmu, decode_pcmu}
use sigmo.Voice.Pcmu.Codes.{encode_pcmu-decode_pcmu}
use sigmo.Voice.Amr.Storage.RoundTrip.{unmarshal-marshal_storage, unmarshal_storage_total}

-- A silence descriptor of five bytes, and a frame with no data.
abbrev silence : AmrFrame
silence = record { frame_type = 8; quality = true; speech = 1 ∷ 2 ∷ 3 ∷ 4 ∷ 5 ∷ [] }

abbrev no_data : AmrFrame
no_data = record { frame_type = 15; quality = false; speech = [] }

abbrev two_frames : List AmrFrame
two_frames = silence ∷ no_data ∷ []

abbrev payload : Bytes
payload = 0xF0 ∷ 0xC4 ∷ 0x78 ∷ 1 ∷ 2 ∷ 3 ∷ 4 ∷ 5 ∷ []

payload_written : marshal_octet amr two_frames ≡ ok payload
unfolding marshal_octet amr_frame_bytes
payload_written = refl

payload_read : unmarshal_octet amr payload ≡ ok two_frames
unfolding unmarshal_octet amr_frame_bytes
payload_read = refl

unmarshal-marshal_octet_example : unmarshal_octet amr payload ≡ ok two_frames
unmarshal-marshal_octet_example = unmarshal-marshal_octet amr two_frames payload_written

abbrev stored_silence : Bytes
stored_silence = 0x44 ∷ 1 ∷ 2 ∷ 3 ∷ 4 ∷ 5 ∷ []

silence_stored : marshal_storage_frame amr silence ≡ ok stored_silence
unfolding marshal_storage_frame amr_frame_bytes
silence_stored = refl

abbrev recording : AmrStorage
recording = record { codec = amr; frames = two_frames; include_header = true }

abbrev file : Bytes
file = 0x23 ∷ 0x21 ∷ 0x41 ∷ 0x4D ∷ 0x52 ∷ 0x0A ∷ (stored_silence ++ 0x78 ∷ [])

recording_stored : marshal_storage recording ≡ ok file
unfolding marshal_storage marshal_storage_frame amr_frame_bytes
recording_stored = refl

unmarshal-marshal_storage_example : unmarshal_storage amr_wb file ≡ some (ok recording)
unmarshal-marshal_storage_example =
    unmarshal-marshal_storage amr_wb recording recording_stored (inl refl)

unmarshal_storage_total_example : unmarshal_storage amr file ≢ none
unmarshal_storage_total_example = unmarshal_storage_total amr file

abbrev quiet : Bytes
quiet = 0xFF ∷ 0x80 ∷ 0x00 ∷ []

quiet_bytes : All (λ b. (b < 256) × (b ≢ 0x7F)) quiet
quiet_bytes = (
  (omega arith, λ e. omega arith),
  ((omega arith, λ e. omega arith), ((omega arith, λ e. omega arith), tt)),
)

encode_pcmu-decode_pcmu_example : encode_pcmu (decode_pcmu quiet) ≡ quiet
encode_pcmu-decode_pcmu_example = encode_pcmu-decode_pcmu quiet quiet_bytes

-- Three samples of 8 kHz at 16 kHz, between -100 and 200.
abbrev tone : List ℤ
tone = pos 0 ∷ pos 200 ∷ negsuc 99 ∷ []

abbrev In : ℤ → Type 0
In = Between 32668 32968
