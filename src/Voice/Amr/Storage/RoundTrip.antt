-- ===== src/Voice/Amr/Storage/RoundTrip.antt =====
-- Reading back a storage frame and a storage file of pro/voicecodec/amr.go.
use sigmo.Common.{
  ℕ, zero, suc, ◌<◌, ◌≡◌, ◌≢◌, refl, sym, ap, ◌∙◌, Bool, true, false, List, [], ◌∷◌, ◌++◌, none,
  some, Bytes, length, drop, All, arith, ◌==◌, nat_equal, list_equal, ok, map_result, Result-cases,
  >>=-eq-ok, take-append_left, take_all, drop-append_left, length-append, length-drop, Bool-cases,
  inl, inr, ◌⊎◌, Option-cases, if◌then◌else◌, has_prefix,
}
use mathlib.Core.Path.{subst}
use native.Mathlib.Decide.{ℕ_discrete}
use mathlib.Core.Option
use sigmo.Voice.Amr.Codec.{
  AmrCodec, amr, amr_wb, unset, other, AmrFrame, amr_storage_header, amr_wb_storage_header,
  is_known, amr_frame_bytes,
}
use sigmo.Voice.Amr.Codec.Sizes.{frame_type_lt}
use sigmo.Voice.Amr.Octet.{check_frame}
use sigmo.Voice.Amr.Octet.RoundTrip.{Fits, check_frame-Fits}
use sigmo.Voice.Amr.Storage.{
  AmrStorage, storage_header, header_type, header_quality, is_unset, marshal_storage_frame,
  unmarshal_storage_frame, marshal_frames, file_header, marshal_storage, storage_codec, read_frames,
  unmarshal_storage,
}

-- The fields of a frame header, which is never the first byte of a file header.
record HeaderFields (quality : Bool) (t : ℕ) : Type 0 where
  type_eq : header_type (storage_header quality t) ≡ t
  quality_eq : header_quality (storage_header quality t) ≡ quality
  not_magic : (storage_header quality t == b'#') ≡ false

abbrev HeaderAgrees : Bool → ℕ → Type 0
HeaderAgrees q zero = Unit {0}
HeaderAgrees q (suc n) = HeaderFields q n × HeaderAgrees q n

HeaderAgrees-16 : (q : Bool) → HeaderAgrees q 16
unfolding storage_header
HeaderAgrees-16 true = (search)
HeaderAgrees-16 false = (search)

HeaderFields-of : (q : Bool) (n t : ℕ) → HeaderAgrees q n → t < n → HeaderFields q t
HeaderFields-of q zero t h lt = absurd (omega arith)
HeaderFields-of q (suc n) t h lt = elim (ℕ_discrete t n) [
  | yes e ↦ subst (HeaderFields q) (sym e) h.0
  | no ne ↦ HeaderFields-of q n t h.1 (omega arith)
]

header_fields : (q : Bool) (t : ℕ) → t < 16 → HeaderFields q t
header_fields q t = HeaderFields-of q 16 t (HeaderAgrees-16 q)

frame_fields :
    (codec : AmrCodec) (f : AmrFrame) → Fits codec f → HeaderFields f.quality f.frame_type
frame_fields codec f h = header_fields f.quality f.frame_type (frame_type_lt codec f.frame_type h)

marshal_storage_frame-ok :
    (codec : AmrCodec) (f : AmrFrame) {out : Bytes}
    → is_known codec ≡ true
    → marshal_storage_frame codec f ≡ ok out
    → Fits codec f × (out ≡ storage_header f.quality f.frame_type ∷ f.speech)
unfolding marshal_storage_frame
marshal_storage_frame-ok codec f {out} known h =
    let (u, checked, e) = >>=-eq-ok (check_frame codec f) _ (rw (known_set codec known) at h) in
    (check_frame-Fits codec f checked, cc)
  where
    known_set : (codec : AmrCodec) → is_known codec ≡ true → is_unset codec ≡ false
    known_set codec k = ground arith

-- For the two named codecs, whatever frame the marshaller accepts is read back.
pub unmarshal-marshal_storage_frame :
    (codec : AmrCodec) (f : AmrFrame) {out : Bytes}
    → is_known codec ≡ true
    → marshal_storage_frame codec f ≡ ok out
    → unmarshal_storage_frame codec out ≡ ok f
unfolding unmarshal_storage_frame
unmarshal-marshal_storage_frame codec f {out} known h =
    let (fits, e) = marshal_storage_frame-ok codec f known h in
    let t = frame_fields codec f fits in
    rw e (ground (arith, t.type_eq, t.quality_eq, fits, take_all f.speech))

-- The body of a storage file.
frame_bytes : AmrFrame → Bytes
frame_bytes f = storage_header f.quality f.frame_type ∷ f.speech

body : List AmrFrame → Bytes
unfolding frame_bytes
body [] = []
body (f ∷ fs) = frame_bytes f ++ body fs

marshal_frames-ok :
    (codec : AmrCodec) (fs : List AmrFrame) {out : Bytes}
    → is_known codec ≡ true
    → marshal_frames codec fs ≡ ok out
    → All (Fits codec) fs × (out ≡ body fs)
unfolding marshal_frames body
marshal_frames-ok codec [] known h = (tt, cc)
marshal_frames-ok codec (f ∷ fs) known h =
    let (first, h₁, k) = >>=-eq-ok (marshal_storage_frame codec f) _ h in
    let (others, h₂, e) = >>=-eq-ok (marshal_frames codec fs) _ k in
    let (fits, e₁) = marshal_storage_frame-ok codec f known h₁ in
    let (fit, e₂) = marshal_frames-ok codec fs known h₂ in ((fits, fit), cc)

read_frames_step :
    (codec : AmrCodec) (f : AmrFrame) (rest : Bytes) (fuel : ℕ)
    → Fits codec f
    → read_frames (suc fuel) codec (frame_bytes f ++ rest)
      ≡ Option.map (map_result (λ fs. f ∷ fs)) (read_frames fuel codec rest)
unfolding read_frames frame_bytes
read_frames_step codec f rest fuel fits =
    let t = frame_fields codec f fits in
    ground (
      arith,
      t.type_eq,
      t.quality_eq,
      fits,
      take-append_left f.speech rest,
      drop-append_left f.speech rest,
      length-append f.speech rest,
    )

read_frames-body :
    (codec : AmrCodec) (fs : List AmrFrame) (fuel : ℕ)
    → All (Fits codec) fs
    → length (body fs) < fuel
    → read_frames fuel codec (body fs) ≡ some (ok fs)
unfolding body
read_frames-body codec fs zero fit lt = absurd (omega arith)
read_frames-body codec [] (suc fuel) fit lt = unfold read_frames in refl
read_frames-body codec (f ∷ fs) (suc fuel) fit lt =
    let fewer : length (body fs) < fuel = omega (arith, length-append f.speech (body fs)) in
    read_frames_step codec f (body fs) fuel fit.0
    ∙ ap (Option.map (map_result (λ gs. f ∷ gs))) (read_frames-body codec fs fuel fit.1 fewer)

has_prefix-body :
    (codec : AmrCodec) (fs : List AmrFrame)
    → All (Fits codec) fs
    → (has_prefix (body fs) amr_storage_header ≡ false)
      × (has_prefix (body fs) amr_wb_storage_header ≡ false)
unfolding has_prefix body
has_prefix-body codec [] fit = (refl, refl)
has_prefix-body codec (f ∷ fs) fit =
    let t = frame_fields codec f fit.0 in (rw t.not_magic refl, rw t.not_magic refl)

abbrev storage_of : AmrCodec → List AmrFrame → Bool → AmrStorage
storage_of codec fs included = record { codec = codec; frames = fs; include_header = included }

unmarshal_with_header :
    (expected codec : AmrCodec) (fs : List AmrFrame)
    → is_known codec ≡ true
    → All (Fits codec) fs
    → unmarshal_storage expected (file_header codec ++ body fs)
      ≡ some (ok (storage_of codec fs true))
unfolding unmarshal_storage file_header has_prefix
unmarshal_with_header expected amr fs known fit =
    ap (Option.map (map_result (λ gs. storage_of amr gs true)))
      (read_frames-body amr fs (suc (length (file_header amr ++ body fs))) fit (omega arith))
unmarshal_with_header expected amr_wb fs known fit =
    ap (Option.map (map_result (λ gs. storage_of amr_wb gs true)))
      (read_frames-body amr_wb fs (suc (length (file_header amr_wb ++ body fs))) fit (omega arith))
unmarshal_with_header expected unset fs known fit = cc
unmarshal_with_header expected other fs known fit = cc

unmarshal_without_header :
    (codec : AmrCodec) (fs : List AmrFrame)
    → is_known codec ≡ true
    → All (Fits codec) fs
    → unmarshal_storage codec (body fs) ≡ some (ok (storage_of codec fs false))
unfolding unmarshal_storage
unmarshal_without_header codec fs known fit =
    let (no_amr, no_wb) = has_prefix-body codec fs fit in
    ground (
      arith,
      no_amr,
      no_wb,
      known,
      read_frames-body codec fs (suc (length (body fs))) fit (omega arith),
    )

marshal_storage-ok :
    (s : AmrStorage) {out : Bytes}
    → is_known s.codec ≡ true
    → marshal_storage s ≡ ok out
    → All (Fits s.codec) s.frames
      × (out ≡ (if s.include_header then file_header s.codec else []) ++ body s.frames)
unfolding marshal_storage
marshal_storage-ok s {out} known h =
    let (b, h', e) = >>=-eq-ok (marshal_frames s.codec s.frames) _ (rw known at h) in
    let (fit, eq) = marshal_frames-ok s.codec s.frames known h' in (fit, cc)

header_needs_codec :
    (s : AmrStorage) {out : Bytes}
    → marshal_storage s ≡ ok out
    → s.include_header ≡ true
    → is_known s.codec ≡ true
unfolding marshal_storage
header_needs_codec s h inc = ground arith

-- A storage file that the marshaller writes is read back whole, within the fuel, if it carries a
-- header (whatever codec the reader expects) or the reader expects its codec, one of the two named.
pub unmarshal-marshal_storage :
    (expected : AmrCodec) (s : AmrStorage) {out : Bytes}
    → marshal_storage s ≡ ok out
    → (s.include_header ≡ true) ⊎ ((expected ≡ s.codec) × (is_known s.codec ≡ true))
    → unmarshal_storage expected out ≡ some (ok s)
unmarshal-marshal_storage expected s {out} h c = elim (Bool-cases s.include_header) [
  | inl inc ↦
      let known = header_needs_codec s h inc in
      let (fit, e) = marshal_storage-ok s known h in
      rw e (rw inc (cc (unmarshal_with_header expected s.codec s.frames known fit)))
  | inr without ↦ elim c [
    | inl inc ↦ cc
    | inr (same, known) ↦
        let (fit, e) = marshal_storage-ok s known h in
        rw (same, e) (rw without (cc (unmarshal_without_header s.codec s.frames known fit)))
  ]
]

read_frames_total :
    (fuel : ℕ) (codec : AmrCodec) (stored : Bytes)
    → length stored < fuel
    → read_frames fuel codec stored ≢ none
unfolding read_frames
read_frames_total zero codec stored lt = absurd (omega arith)
read_frames_total (suc fuel) codec [] lt = cc
read_frames_total (suc fuel) codec (header ∷ rest) lt =
    elim (Option-cases (amr_frame_bytes codec (header_type header))) [
      | inl e ↦ rw (e, read_frames) cc
      | inr (size, e) ↦
          rw (e, read_frames)
            (ground (arith, read_frames_total fuel codec (drop size rest), length-drop size rest))
    ]

-- The reading loop ends within its fuel on every input: a storage file is read or refused.
pub unmarshal_storage_total :
    (expected : AmrCodec) (stored : Bytes) → unmarshal_storage expected stored ≢ none
unfolding unmarshal_storage
unmarshal_storage_total expected stored = elim (Result-cases (storage_codec expected stored)) [
  | inl ((codec, offset), e) ↦ ground (
    arith,
    e,
    read_frames_total (suc (length stored)) codec (drop offset stored),
    length-drop offset stored,
  )
  | inr (x, e) ↦ ground (arith, e)
]
