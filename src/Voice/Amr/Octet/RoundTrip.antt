-- ===== src/Voice/Amr/Octet/RoundTrip.antt =====
-- Reading back an octet-aligned payload of pro/voicecodec/amr.go.
use sigmo.Common.{
  ℕ, zero, suc, ◌*◌, ◌^◌, ◌<◌, ◌≡◌, refl, sym, Bool, true, false, List, [], ◌∷◌, ◌++◌, map, some,
  Bytes, length, replicate, All, arith, ge→ltb, nat_equal, ok, ◌>>=◌, >>=-eq-ok, append_assoc,
  take-append_left, drop-append_left, length-replicate, length-append, append-nil, if◌then◌else◌,
}
use mathlib.Core.Path.{subst}
use native.Mathlib.Decide.{ℕ_discrete}
use sigmo.Voice.Amr.Codec.{AmrCodec, AmrFrame, amr_frame_bytes, no_mode_request}
use sigmo.Voice.Amr.Codec.Sizes.{frame_type_lt}
use sigmo.Voice.Amr.Octet.{
  check_frame, check_frames, toc_byte, tocs, speeches, marshal_octet, toc_more, toc_type,
  toc_quality, read_tocs, read_speeches, unmarshal_octet,
}

-- The speech data has the size that the frame type asks for.
abbrev pub Fits : AmrCodec → AmrFrame → Type 0
Fits codec frame = amr_frame_bytes codec frame.frame_type ≡ some (length frame.speech)

pub check_frame-Fits :
    (codec : AmrCodec) (f : AmrFrame) → check_frame codec f ≡ ok tt → Fits codec f
unfolding check_frame
check_frame-Fits codec f h = ground arith

pub Fits-check_frame :
    (codec : AmrCodec) (f : AmrFrame) → Fits codec f → check_frame codec f ≡ ok tt
unfolding check_frame
Fits-check_frame codec f h = ground arith

pub check_frames-Fits :
    (codec : AmrCodec) (fs : List AmrFrame) → check_frames codec fs ≡ ok tt → All (Fits codec) fs
unfolding check_frames
check_frames-Fits codec [] h = tt
check_frames-Fits codec (f ∷ fs) h =
    let (u, hf, hfs) = >>=-eq-ok (check_frame codec f) (λ _. check_frames codec fs) h in
    (check_frame-Fits codec f hf, check_frames-Fits codec fs hfs)

pub Fits-check_frames :
    (codec : AmrCodec) (fs : List AmrFrame) → All (Fits codec) fs → check_frames codec fs ≡ ok tt
unfolding check_frames
Fits-check_frames codec [] h = refl
Fits-check_frames codec (f ∷ fs) h =
    rw (Fits-check_frame codec f h.0) (Fits-check_frames codec fs h.1)

-- The fields of a header byte, for each frame type of four bits.
record TocFields (more quality : Bool) (t : ℕ) : Type 0 where
  more_eq : toc_more (toc_byte more quality t) ≡ more
  quality_eq : toc_quality (toc_byte more quality t) ≡ quality
  type_eq : toc_type (toc_byte more quality t) ≡ t

abbrev TocAgrees : Bool → Bool → ℕ → Type 0
TocAgrees m q zero = Unit {0}
TocAgrees m q (suc n) = TocFields m q n × TocAgrees m q n

TocAgrees-16 : (m q : Bool) → TocAgrees m q 16
unfolding toc_byte
TocAgrees-16 true true = (search)
TocAgrees-16 true false = (search)
TocAgrees-16 false true = (search)
TocAgrees-16 false false = (search)

TocFields-of : (m q : Bool) (n t : ℕ) → TocAgrees m q n → t < n → TocFields m q t
TocFields-of m q zero t h lt = absurd (omega arith)
TocFields-of m q (suc n) t h lt = elim (ℕ_discrete t n) [
  | yes e ↦ subst (TocFields m q) (sym e) h.0
  | no ne ↦ TocFields-of m q n t h.1 (omega arith)
]

toc_fields : (m q : Bool) (t : ℕ) → t < 16 → TocFields m q t
toc_fields m q t = TocFields-of m q 16 t (TocAgrees-16 m q)

blank : AmrFrame → AmrFrame
blank f = record f { speech = replicate (length f.speech) 0 }

-- One round of the reading loop undoes one round of the writing loop.
read_tocs-toc_byte :
    (codec : AmrCodec) (f : AmrFrame) (more : Bool) (rest : Bytes)
    → Fits codec f
    → read_tocs codec (toc_byte more f.quality f.frame_type ∷ rest) ≡ (
        if more
        then read_tocs codec rest >>= (λ r. ok (blank f ∷ r.0, r.1))
        else ok (blank f ∷ [], rest))
unfolding read_tocs blank
read_tocs-toc_byte codec f more rest h =
    let t = toc_fields more f.quality f.frame_type (frame_type_lt codec f.frame_type h) in
    ground (arith, t.type_eq, t.more_eq, t.quality_eq, h)

read_tocs-tocs :
    (codec : AmrCodec) (f : AmrFrame) (fs : List AmrFrame) (rest : Bytes)
    → All (Fits codec) (f ∷ fs)
    → read_tocs codec (tocs (f ∷ fs) ++ rest) ≡ ok (map blank (f ∷ fs), rest)
unfolding tocs
read_tocs-tocs codec f [] rest h = read_tocs-toc_byte codec f false rest h.0
read_tocs-tocs codec f (g ∷ fs) rest h =
    rw
      (
        read_tocs-toc_byte codec f true (tocs (g ∷ fs) ++ rest) h.0,
        read_tocs-tocs codec g fs rest h.1,
      )
      refl

read_speeches-speeches :
    (fs : List AmrFrame) (rest : Bytes) → read_speeches (map blank fs) (speeches fs ++ rest) ≡ ok fs
unfolding read_speeches speeches blank
read_speeches-speeches [] rest = refl
read_speeches-speeches (f ∷ fs) rest =
    let fits =
      ge→ltb (length (f.speech ++ (speeches fs ++ rest))) (length f.speech)
        (omega (arith, length-append f.speech (speeches fs ++ rest))) in
    rw
      (
        length-replicate {A = ℕ} (length f.speech) 0,
        append_assoc f.speech (speeches fs) rest,
        fits,
        take-append_left f.speech (speeches fs ++ rest),
        drop-append_left f.speech (speeches fs ++ rest),
        read_speeches-speeches fs rest,
      )
      refl

unmarshal_written :
    (codec : AmrCodec) (f : AmrFrame) (fs : List AmrFrame)
    → All (Fits codec) (f ∷ fs)
    → unmarshal_octet codec ((no_mode_request * 2 ^ 4) ∷ (tocs (f ∷ fs) ++ speeches (f ∷ fs)))
      ≡ ok (f ∷ fs)
unfolding unmarshal_octet tocs
unmarshal_written codec f fs h =
    rw (read_tocs-tocs codec f fs (speeches (f ∷ fs)) h, ← append-nil (speeches (f ∷ fs)))
      (read_speeches-speeches (f ∷ fs) [])

-- Whatever the marshaller accepts, for any codec, the unmarshaller reads back as the same frames.
pub unmarshal-marshal_octet :
    (codec : AmrCodec) (fs : List AmrFrame) {out : Bytes}
    → marshal_octet codec fs ≡ ok out
    → unmarshal_octet codec out ≡ ok fs
unfolding marshal_octet
unmarshal-marshal_octet codec [] h = cc
unmarshal-marshal_octet codec (f ∷ fs) h =
    let (u, checked, eq) = >>=-eq-ok (check_frames codec (f ∷ fs)) _ h in
    cc (unmarshal_written codec f fs (check_frames-Fits codec (f ∷ fs) checked))
