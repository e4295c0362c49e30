-- ===== src/Voice/Pcmu/Codes.antt =====
-- pro/voicecodec/pcmu.go: decoding a byte and encoding the sample gives the byte, but for one.
use sigmo.Common.{
  ℕ, zero, suc, ◌<◌, ◌≡◌, ◌≢◌, refl, sym, ap, Bool, true, ◌&&◌, ◌||◌, [], ◌∷◌, Bytes, All, arith,
  ◌==◌, nat_equal, list_equal, and-true,
}
use mathlib.Core.Path.{subst}
use native.Mathlib.Decide.{ℕ_discrete}
use sigmo.Voice.Pcmu.{decode_sample, encode_pcm_sample, decode_pcmu, encode_pcmu}

-- 0x7F is the negative zero.
abbrev pub comes_back : ℕ → Bool
comes_back b = (b == 0x7F) || (encode_pcm_sample (decode_sample b) == b)

come_back_below : ℕ → Bool
come_back_below zero = true
come_back_below (suc n) = comes_back n && come_back_below n

come_back_below_256 : come_back_below 256 ≡ true
unfolding come_back_below decode_sample encode_pcm_sample
come_back_below_256 = refl

come_back_below-at : (n b : ℕ) → come_back_below n ≡ true → b < n → comes_back b ≡ true
unfolding come_back_below
come_back_below-at zero b h lt = absurd (omega arith)
come_back_below-at (suc n) b h lt =
    let both : (comes_back n ≡ true) × (come_back_below n ≡ true) = and-true h in
    elim (ℕ_discrete b n) [
      | yes e ↦ subst (λ k. comes_back k ≡ true) (sym e) both.0
      | no ne ↦ come_back_below-at n b both.1 (omega arith)
    ]

sample_back : (b : ℕ) → b < 256 → b ≢ 0x7F → encode_pcm_sample (decode_sample b) ≡ b
sample_back b lt ne = ground (arith, come_back_below-at 256 b come_back_below_256 lt)

-- A payload of bytes without 0x7F, the negative zero, is given back by encoding what it decodes to.
pub encode_pcmu-decode_pcmu :
    (payload : Bytes)
    → All (λ b. (b < 256) × (b ≢ 0x7F)) payload
    → encode_pcmu (decode_pcmu payload) ≡ payload
unfolding encode_pcmu decode_pcmu
encode_pcmu-decode_pcmu [] h = refl
encode_pcmu-decode_pcmu (b ∷ bs) h =
    rw (sample_back b (h.0.0) (h.0.1)) (ap (λ r. b ∷ r) (encode_pcmu-decode_pcmu bs h.1))
