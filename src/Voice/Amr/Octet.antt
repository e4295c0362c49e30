-- ===== src/Voice/Amr/Octet.antt =====
-- AMROctetAlignedPayload of pro/voicecodec/amr.go: a mode request byte, one table-of-contents byte for
-- each frame, then the speech data. Reading at `offset` is reading the head of the unread suffix.
pub mod RoundTrip
pub mod Accepts
use sigmo.Common.{
  ℕ, ◌+◌, ◌*◌, ◌/◌, ◌%◌, ◌^◌, Bool, true, false, not, List, [], ◌∷◌, ◌++◌, none, some, Bytes,
  length, take, drop, replicate, ltb, ◌==◌, nat_equal, bit_and, bit_or, if◌then◌else◌, Result, ok,
  err, ◌>>=◌, ◌>>◌, refuse_if,
}
use sigmo.Voice.Amr.Codec.{
  AmrCodec, AmrFrame, AmrError, payload_short, toc_truncated, speech_truncated,
  frame_type_unsupported, frame_size_mismatch, frames_required, no_mode_request, amr_frame_bytes,
}

-- The size test that opens each marshaller.
unfoldable pub check_frame : AmrCodec → AmrFrame → Result AmrError (Unit {0})
check_frame codec frame = elim (amr_frame_bytes codec frame.frame_type) [
  | none ↦ err frame_type_unsupported
  | some want ↦ refuse_if (not (length frame.speech == want)) frame_size_mismatch
]

unfoldable pub check_frames : AmrCodec → List AmrFrame → Result AmrError (Unit {0})
check_frames codec [] = ok tt
check_frames codec (frame ∷ frames) = check_frame codec frame >> check_frames codec frames

abbrev pub is_nil {ℓ} : {A : Type ℓ} → List A → Bool
is_nil [] = true
is_nil (_ ∷ _) = false

-- `toc := byte((frame.FrameType & 0x0f) << 3)`, then the two flags.
unfoldable pub toc_byte : Bool → Bool → ℕ → ℕ
toc_byte more quality frame_type =
    let toc = bit_and frame_type 0x0f * 2 ^ 3 % 256 in
    let toc' = if more then bit_or toc 0x80 else toc in if quality then bit_or toc' 0x04 else toc'

tocs : List AmrFrame → Bytes
unfolding toc_byte
tocs [] = []
tocs (frame ∷ frames) = toc_byte (not (is_nil frames)) frame.quality frame.frame_type ∷ tocs frames

unfoldable pub speeches : List AmrFrame → Bytes
speeches [] = []
speeches (frame ∷ frames) = frame.speech ++ speeches frames

unfoldable pub marshal_octet : AmrCodec → List AmrFrame → Result AmrError Bytes
unfolding check_frame check_frames tocs speeches
marshal_octet codec [] = err frames_required
marshal_octet codec (frame ∷ frames) = do
  check_frames codec (frame ∷ frames)
  ok ((no_mode_request * 2 ^ 4) ∷ (tocs (frame ∷ frames) ++ speeches (frame ∷ frames)))

abbrev pub toc_more : ℕ → Bool
toc_more toc = not (bit_and toc 0x80 == 0)

abbrev pub toc_type : ℕ → ℕ
toc_type toc = bit_and (toc / 2 ^ 3) 0x0f

abbrev pub toc_quality : ℕ → Bool
toc_quality toc = not (bit_and toc 0x04 == 0)

-- The frame that a header byte announces, with `size` zero bytes of speech data.
abbrev pub toc_frame : ℕ → ℕ → AmrFrame
toc_frame toc size = record {
  frame_type = toc_type toc;
  quality = toc_quality toc;
  speech = replicate size 0;
}

-- The `for hasMore` loop: the frames with zeroed data, and what is left to read.
read_tocs : AmrCodec → Bytes → Result AmrError (List AmrFrame × Bytes)
read_tocs codec [] = err toc_truncated
read_tocs codec (toc ∷ rest) = elim (amr_frame_bytes codec (toc_type toc)) [
  | none ↦ err frame_type_unsupported
  | some size ↦
      let others = read_tocs codec rest >>= (λ r. ok (toc_frame toc size ∷ r.0, r.1)) in
      if toc_more toc then others else ok (toc_frame toc size ∷ [], rest)
]

-- `copy(frames[i].Data, payload[offset:end])`
abbrev pub filled : AmrFrame → Bytes → AmrFrame
filled frame rest = record frame { speech = take (length frame.speech) rest }

-- The second loop copies the speech data of each frame.
read_speeches : List AmrFrame → Bytes → Result AmrError (List AmrFrame)
read_speeches [] rest = ok []
read_speeches (frame ∷ frames) rest = do
  refuse_if (ltb (length rest) (length frame.speech)) speech_truncated
  others ← read_speeches frames (drop (length frame.speech) rest)
  ok (filled frame rest ∷ others)

unfoldable pub unmarshal_octet : AmrCodec → Bytes → Result AmrError (List AmrFrame)
unfolding read_tocs read_speeches
unmarshal_octet codec [] = err payload_short
unmarshal_octet codec (_ ∷ []) = err payload_short
unmarshal_octet codec (_ ∷ b ∷ rest) = do r ← read_tocs codec (b ∷ rest); read_speeches r.0 r.1
