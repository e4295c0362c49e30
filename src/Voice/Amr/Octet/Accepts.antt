-- ===== src/Voice/Amr/Octet/Accepts.antt =====
-- What the octet-aligned marshaller of pro/voicecodec/amr.go accepts, and what its reader returns.
use sigmo.Common.{
  ℕ, suc, ◌+◌, ◌*◌, ◌^◌, ◌≤◌, ◌≡◌, ◌≢◌, refl, ap, List, [], ◌∷◌, ◌++◌, some, Bytes, length, take,
  drop, All, arith, ltb, ltb→ge, nat_equal, list_equal, Result, ok, err, ◌>>=◌, >>=-eq-ok, Ensures,
  Ensures-bind, Ensures-ok, length-replicate, length-append, length-take, Bool-cases, inl, inr, ◌↔◌,
  Option-cases, if◌then◌else◌,
}
use sigmo.Voice.Amr.Codec.{AmrCodec, AmrFrame, AmrError, amr_frame_bytes, no_mode_request}
use sigmo.Voice.Amr.Octet.{
  check_frames, tocs, speeches, marshal_octet, toc_more, toc_type, toc_frame, filled, read_tocs,
  read_speeches, unmarshal_octet,
}
use sigmo.Voice.Amr.Octet.RoundTrip.{Fits, check_frames-Fits, Fits-check_frames}

abbrev pub total_speech : List AmrFrame → ℕ
total_speech [] = 0
total_speech (f ∷ fs) = length f.speech + total_speech fs

length-tocs : (fs : List AmrFrame) → length (tocs fs) ≡ length fs
unfolding tocs
length-tocs [] = refl
length-tocs (f ∷ fs) = ap suc (length-tocs fs)

length-speeches : (fs : List AmrFrame) → length (speeches fs) ≡ total_speech fs
unfolding speeches
length-speeches [] = refl
length-speeches (f ∷ fs) = omega (arith, length-append f.speech (speeches fs), length-speeches fs)

-- The marshaller succeeds exactly on one or more frames that all have the size of their type.
pub marshal_octet-accepts :
    (codec : AmrCodec) (fs : List AmrFrame)
    → ((out : Bytes) × (marshal_octet codec fs ≡ ok out)) ↔ ((fs ≢ []) × All (Fits codec) fs)
unfolding marshal_octet
marshal_octet-accepts codec [] = (λ h. cc (h.1), λ h. absurd (h.0 refl))
marshal_octet-accepts codec (f ∷ fs) = (
  λ h.
      let (u, checked, eq) = >>=-eq-ok (check_frames codec (f ∷ fs)) _ h.1 in
      (cc, check_frames-Fits codec (f ∷ fs) checked),
  λ h. (
    (no_mode_request * 2 ^ 4) ∷ (tocs (f ∷ fs) ++ speeches (f ∷ fs)),
    rw (Fits-check_frames codec (f ∷ fs) h.1) refl,
  ),
)

-- A marshalled payload has one byte, one more for each frame, and the speech data of the frames.
pub length-marshal_octet :
    (codec : AmrCodec) (fs : List AmrFrame) {out : Bytes}
    → marshal_octet codec fs ≡ ok out
    → length out ≡ 1 + length fs + total_speech fs
unfolding marshal_octet
length-marshal_octet codec [] h = cc
length-marshal_octet codec (f ∷ fs) {out} h =
    let (u, checked, eq) = >>=-eq-ok (check_frames codec (f ∷ fs)) _ h in
    let out_eq : (no_mode_request * 2 ^ 4) ∷ (tocs (f ∷ fs) ++ speeches (f ∷ fs)) ≡ out = cc in
    rw (← out_eq) (
      omega (
        arith,
        length-append (tocs (f ∷ fs)) (speeches (f ∷ fs)),
        length-tocs (f ∷ fs),
        length-speeches (f ∷ fs),
      ))

read_tocs_step :
    (codec : AmrCodec) (toc : ℕ) (rest : Bytes) {size : ℕ}
    → amr_frame_bytes codec (toc_type toc) ≡ some size
    → read_tocs codec (toc ∷ rest) ≡ (
        if toc_more toc
        then read_tocs codec rest >>= (λ r. ok (toc_frame toc size ∷ r.0, r.1))
        else ok (toc_frame toc size ∷ [], rest))
unfolding read_tocs
read_tocs_step codec toc rest e = rw (e, read_tocs) refl

toc_frame-Fits :
    (codec : AmrCodec) (toc size : ℕ)
    → amr_frame_bytes codec (toc_type toc) ≡ some size
    → Fits codec (toc_frame toc size)
toc_frame-Fits codec toc size e = rw (length-replicate {A = ℕ} size 0) e

abbrev Announced : AmrCodec → List AmrFrame × Bytes → Type 0
Announced codec r = (r.0 ≢ []) × All (Fits codec) r.0

read_tocs-Announced :
    (codec : AmrCodec) (bs : Bytes) → Ensures (Announced codec) (read_tocs codec bs)
unfolding read_tocs
read_tocs-Announced codec [] = tt
read_tocs-Announced codec (toc ∷ rest) =
    elim (Option-cases (amr_frame_bytes codec (toc_type toc))) [
      | inl e ↦ rw (e, read_tocs, Ensures) tt
      | inr (size, e) ↦ rw (read_tocs_step codec toc rest e) (elim (Bool-cases (toc_more toc)) [
        | inl m ↦ rw m (
            Ensures-bind (Announced codec) (Announced codec) (read_tocs codec rest) _
              (read_tocs-Announced codec rest)
              (λ r h. (cc, (toc_frame-Fits codec toc size e, h.1))))
        | inr m ↦ rw m (cc, (toc_frame-Fits codec toc size e, tt))
      ])
    ]

abbrev Filled : AmrCodec → List AmrFrame → List AmrFrame → Type 0
Filled codec fs gs = All (Fits codec) gs × (length gs ≡ length fs)

filled-Fits :
    (codec : AmrCodec) (f : AmrFrame) (rest : Bytes)
    → length f.speech ≤ length rest
    → Fits codec f
    → Fits codec (filled f rest)
filled-Fits codec f rest enough h =
    let same : length (take (length f.speech) rest) ≡ length f.speech =
      omega (arith, length-take (length f.speech) rest) in
    rw same h

read_speeches-Filled :
    (codec : AmrCodec) (fs : List AmrFrame) (rest : Bytes)
    → All (Fits codec) fs
    → Ensures (Filled codec fs) (read_speeches fs rest)
unfolding read_speeches
read_speeches-Filled codec [] rest h = (tt, refl)
read_speeches-Filled codec (f ∷ fs) rest h =
    elim (Bool-cases (ltb (length rest) (length f.speech))) [
      | inl short ↦ rw short tt
      | inr enough ↦ rw enough (
          Ensures-bind (Filled codec fs) (Filled codec (f ∷ fs))
            (read_speeches fs (drop (length f.speech) rest)) (λ others. ok (filled f rest ∷ others))
            (read_speeches-Filled codec fs (drop (length f.speech) rest) h.1)
            (λ gs done.
              ((filled-Fits codec f rest (ltb→ge _ _ enough) h.0, done.0), ap suc done.1)))
    ]

cons_of_length : (fs gs : List AmrFrame) → fs ≢ [] → length gs ≡ length fs → gs ≢ []
cons_of_length [] gs h e = absurd (h refl)
cons_of_length (f ∷ fs) [] h e = absurd (omega arith)
cons_of_length (f ∷ fs) (g ∷ gs) h e = cc

unmarshal_octet-Announced :
    (codec : AmrCodec) (data' : Bytes)
    → Ensures (λ fs. (fs ≢ []) × All (Fits codec) fs) (unmarshal_octet codec data')
unfolding unmarshal_octet
unmarshal_octet-Announced codec [] = tt
unmarshal_octet-Announced codec (_ ∷ []) = tt
unmarshal_octet-Announced codec (_ ∷ b ∷ rest) =
    Ensures-bind (Announced codec) (λ fs. (fs ≢ []) × All (Fits codec) fs)
      (read_tocs codec (b ∷ rest)) (λ r. read_speeches r.0 r.1)
      (read_tocs-Announced codec (b ∷ rest))
      λ r announced.
        weaken r announced (read_speeches r.0 r.1) (read_speeches-Filled codec r.0 r.1 announced.1)
  where
    weaken :
        (r : List AmrFrame × Bytes)
        → Announced codec r
        → (m : Result AmrError (List AmrFrame)) → Ensures (Filled codec r.0) m
        → Ensures (λ fs. (fs ≢ []) × All (Fits codec) fs) m
    weaken r a (ok gs) done = (cons_of_length r.0 gs a.0 done.1, done.0)
    weaken r a (err e) done = tt

-- Frames read from any payload can be written again.
pub marshal_octet-unmarshal :
    (codec : AmrCodec) (payload : Bytes) {fs : List AmrFrame}
    → unmarshal_octet codec payload ≡ ok fs
    → (out : Bytes) × (marshal_octet codec fs ≡ ok out)
marshal_octet-unmarshal codec payload {fs} h = (marshal_octet-accepts codec fs).1 (
    Ensures-ok (λ fs. (fs ≢ []) × All (Fits codec) fs) _ (unmarshal_octet-Announced codec payload)
      h)
