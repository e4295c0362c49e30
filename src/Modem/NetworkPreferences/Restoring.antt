-- ===== src/Modem/NetworkPreferences/Restoring.antt =====
-- When internal/pkg/modem/network_preferences.go restores without an error, the modem has what was kept.
use sigmo.Common.{
  ℕ, ◌≡◌, refl, ◌∙◌, Bool, true, List, [], ◌∷◌, ◌++◌, Option, none, some, any, arith, ok,
  Result-cases, Bool-cases, inl, inr,
}
use sigmo.Modem.NetworkPreferences.{
  ModePair, same_mode, SavedPreferences, PreferenceError, Radio, same_bands,
  restore_mode_preference, restore_band_preference, restore_mode_part, restore_bands_part,
  restore_once,
}

-- A modem takes what it is told, and its bands do not touch its mode.
pub record RadioLaws {M : Type 0} (radio : Radio M) : Type 0 where
  pub mode_set :
      (mode : ModePair) (m : M)
      → (radio.set_current_modes mode m).1 ≡ ok tt
      → radio.current_modes (radio.set_current_modes mode m).0 ≡ ok mode
  pub bands_set :
      (bands : List ℕ) (m : M)
      → (radio.set_current_bands bands m).1 ≡ ok tt
      → (now : List ℕ) × (radio.current_bands (radio.set_current_bands bands m).0 ≡ ok now)
        × (same_bands now bands ≡ true)
  pub mode_stays :
      (bands : List ℕ) (m : M)
      → radio.current_modes (radio.set_current_bands bands m).0 ≡ radio.current_modes m

same_mode_refl : (a : ModePair) → same_mode a a ≡ true
same_mode_refl a = ground arith

module _ {M : Type 0} (radio : Radio M) (transient : ℕ → Bool) (laws : RadioLaws radio) where
  open laws use {mode_set, bands_set, mode_stays}

  abbrev pub HasMode : ModePair → M → Type 0
  HasMode mode m = (now : ModePair) × (radio.current_modes m ≡ ok now) × (same_mode now mode ≡ true)

  abbrev pub HasBands : List ℕ → M → Type 0
  HasBands bands m =
      (now : List ℕ) × (radio.current_bands m ≡ ok now) × (same_bands now bands ≡ true)

  restore_mode-HasMode :
      (mode : ModePair) (m : M)
      → (restore_mode_preference radio transient mode m).1.1 ≡ []
      → HasMode mode (restore_mode_preference radio transient mode m).0
  unfolding restore_mode_preference
  restore_mode-HasMode mode m h = elim (Result-cases (radio.supported_modes m)) [
    | inr (e, broken) ↦ absurd (ground (arith, broken, h))
    | inl (supported, s) ↦ elim (Bool-cases (any (λ s. same_mode s mode) supported)) [
      | inr unsupported ↦ absurd (ground (arith, s, unsupported, h))
      | inl listed ↦ elim (Result-cases (radio.current_modes m)) [
        | inr (e, broken) ↦ absurd (ground (arith, s, listed, broken, h))
        | inl (current, c) ↦ elim (Bool-cases (same_mode current mode)) [
          | inl same ↦ rw (restore_mode_preference, s, listed, c, same) (current, c, same)
          | inr other ↦ elim (Result-cases (radio.set_current_modes mode m).1) [
            | inr (e, broken) ↦ absurd (ground (arith, s, listed, c, other, broken, h))
            | inl (u, set) ↦ (
              mode,
              ground (arith, s, listed, c, other, set, mode_set mode m set),
              same_mode_refl mode,
            )
          ]
        ]
      ]
    ]
  ]

  restore_band-HasBands :
      (bands : List ℕ) (m : M)
      → (restore_band_preference radio transient bands m).1.1 ≡ []
      → HasBands bands (restore_band_preference radio transient bands m).0
  unfolding restore_band_preference
  restore_band-HasBands bands m h = elim (Result-cases (radio.supported_bands m)) [
    | inr (e, broken) ↦ absurd (ground (arith, broken, h))
    | inl (supported, s) ↦ elim (Result-cases (radio.current_bands m)) [
      | inr (e, broken) ↦ absurd (ground (arith, s, broken, h))
      | inl (current, c) ↦ elim (Bool-cases (same_bands current bands)) [
        | inl same ↦ (current, ground (arith, s, c, same, h), same)
        | inr other ↦ elim (Result-cases (radio.set_current_bands bands m).1) [
          | inr (e, broken) ↦ absurd (ground (arith, s, c, other, broken, h))
          | inl (u, set) ↦
              let b : (now : List ℕ) × (radio.current_bands (radio.set_current_bands bands m).0
                    ≡ ok now)
                  × (same_bands now bands ≡ true) =
                bands_set bands m set in
              (b.0, ground (arith, s, c, other, set, h, b.1), b.2)
        ]
      ]
    ]
  ]

  -- Putting bands back leaves the mode as it is.
  restore_band-current_modes :
      (bands : List ℕ) (m : M)
      → radio.current_modes (restore_band_preference radio transient bands m).0
        ≡ radio.current_modes m
  unfolding restore_band_preference
  restore_band-current_modes bands m = elim (Result-cases (radio.supported_bands m)) [
    | inr (e, broken) ↦ ground (arith, broken)
    | inl (supported, s) ↦ elim (Result-cases (radio.current_bands m)) [
      | inr (e, broken) ↦ ground (arith, s, broken)
      | inl (current, c) ↦ elim (Result-cases (radio.set_current_bands bands m).1) [
        | inr (e, broken) ↦ ground (arith, s, c, broken, mode_stays bands m)
        | inl (u, set) ↦ ground (arith, s, c, set, mode_stays bands m)
      ]
    ]
  ]

  abbrev pub HasModePart : Option ModePair → M → Type 0
  HasModePart none m = Unit {0}
  HasModePart (some mode) m = HasMode mode m

  abbrev pub HasBandsPart : Option (List ℕ) → M → Type 0
  HasBandsPart none m = Unit {0}
  HasBandsPart (some bands) m = HasBands bands m

  mode_part :
      (o : Option ModePair) (m : M)
      → (restore_mode_part radio transient o m).1.1 ≡ []
      → HasModePart o (restore_mode_part radio transient o m).0
  mode_part none m h = tt
  mode_part (some mode) m h = restore_mode-HasMode mode m h

  bands_part :
      (o : Option (List ℕ)) (m : M)
      → (restore_bands_part radio transient o m).1.1 ≡ []
      → HasBandsPart o (restore_bands_part radio transient o m).0
  bands_part none m h = tt
  bands_part (some bands) m h = restore_band-HasBands bands m h

  mode_part-kept :
      (o : Option ModePair) (b : Option (List ℕ)) (m : M)
      → HasModePart o m
      → HasModePart o (restore_bands_part radio transient b m).0
  mode_part-kept none b m h = tt
  mode_part-kept (some mode) none m h = h
  mode_part-kept (some mode) (some bands) m h = (h.0, restore_band-current_modes bands m ∙ h.1, h.2)

  append-nil_both : (xs ys : List PreferenceError) → xs ++ ys ≡ [] → (xs ≡ []) × (ys ≡ [])
  append-nil_both [] ys h = (refl, h)
  append-nil_both (x ∷ xs) ys h = cc

  -- Where the modem takes what it is told, and preferences were found for it, a round of restoring
  -- without an error leaves it with the mode that was kept and with the bands that were kept.
  pub restore_once_complete :
      (prefs : SavedPreferences) (m : M)
      → (restore_once radio transient (ok (prefs, true)) m).1.1 ≡ []
      → HasModePart prefs.mode (restore_once radio transient (ok (prefs, true)) m).0
        × HasBandsPart prefs.bands (restore_once radio transient (ok (prefs, true)) m).0
  unfolding restore_once
  restore_once_complete prefs m h =
      let m₁ : M = (restore_mode_part radio transient prefs.mode m).0 in
      let e : ((restore_mode_part radio transient prefs.mode m).1.1 ≡ [])
          × ((restore_bands_part radio transient prefs.bands m₁).1.1 ≡ []) =
        append-nil_both _ _ h in
      (
        mode_part-kept prefs.mode prefs.bands m₁ (mode_part prefs.mode m e.0),
        bands_part prefs.bands m₁ e.1,
      )
