-- ===== src/Modem/NetworkPreferences.antt =====
-- internal/pkg/modem/network_preferences.go: the mode and bands kept for a modem, and putting them back.
-- The key-value store and the modem are parameters. A nil slice of bands is `none`.
pub mod Keeping
pub mod Restoring
use sigmo.Common.{
  ℕ, ◌+◌, Bool, true, false, not, ◌&&◌, ◌||◌, List, [], ◌∷◌, ◌++◌, Option, none, some, Text, codes,
  length, any, all, ltb, ◌==◌, nat_equal, list_equal, Result, ok, err, if◌then◌else◌, trim_space,
}

pub record ModePair : Type 0 where
  pub allowed : ℕ
  pub preferred : ℕ

abbrev pub same_mode : ModePair → ModePair → Bool
same_mode a b = (a.allowed == b.allowed) && (a.preferred == b.preferred)

pub record SavedPreferences : Type 0 where
  pub mode : Option ModePair
  pub bands : Option (List ℕ)

-- An error of the store or the modem is its number.
pub data PreferenceError : Type 0 where
  modem_id_required mode_unsupported bands_empty bands_duplicate any_with_others band_unsupported :
      PreferenceError
  store_error modem_error : ℕ → PreferenceError

-- The calls of the key-value store, by the modem's scope; `none` is `storage.ErrNotFound`.
pub record PreferenceStore (S : Type 0) : Type 0 where
  pub get : Text → S → Result ℕ (Option SavedPreferences)
  pub put : Text → SavedPreferences → S → S × Result ℕ (Unit {0})

-- The calls of `Modem`.
pub record Radio (M : Type 0) : Type 0 where
  pub supported_modes : M → Result ℕ (List ModePair)
  pub current_modes : M → Result ℕ ModePair
  pub set_current_modes : ModePair → M → M × Result ℕ (Unit {0})
  pub supported_bands : M → Result ℕ (List ℕ)
  pub current_bands : M → Result ℕ (List ℕ)
  pub set_current_bands : List ℕ → M → M × Result ℕ (Unit {0})

-- `ModemBandAny`
abbrev pub modem_band_any : ℕ
modem_band_any = 256

abbrev pub contains_band : ℕ → List ℕ → Bool
contains_band band = any (λ b. b == band)

duplicate_from : List ℕ → List ℕ → Bool
duplicate_from seen [] = false
duplicate_from seen (band ∷ bands) =
    let rest = duplicate_from (band ∷ seen) bands in if contains_band band seen then true else rest

unfoldable pub duplicate_band : List ℕ → Bool
unfolding duplicate_from
duplicate_band bands = duplicate_from [] bands

unfoldable pub same_bands : List ℕ → List ℕ → Bool
same_bands a b =
    if not (length a == length b)
    then false
    else if duplicate_band a || duplicate_band b
    then false
    else all (λ band. contains_band band b) a

abbrev pub scope_of : Text → Text
scope_of modem_id = codes "modem:" ++ modem_id

-- `loadForModemLocked`; a missing entry is empty preferences and false.
abbrev pub empty_preferences : SavedPreferences
empty_preferences = record { mode = none; bands = none }

abbrev pub found : Option SavedPreferences → SavedPreferences × Bool
found none = (empty_preferences, false)
found (some entry) = (entry, true)

module _ {S : Type 0} (kv : PreferenceStore S) where
  unfoldable pub load_for_modem_locked : Text → S → Result PreferenceError (SavedPreferences × Bool)
  load_for_modem_locked modem_id s = elim (kv.get (scope_of modem_id) s) [
    | err e ↦ err (store_error e)
    | ok entry ↦ ok (found entry)
  ]

  unfoldable pub load_for_modem : Text → S → Result PreferenceError (SavedPreferences × Bool)
  load_for_modem text s =
      let modem_id = trim_space text in
      if modem_id == [] then ok (empty_preferences, false) else load_for_modem_locked modem_id s

  abbrev pub save_for_modem_locked :
      Text → SavedPreferences → S → S × Result PreferenceError (Unit {0})
  save_for_modem_locked modem_id entry s =
      let (s', saved) = kv.put (scope_of modem_id) entry s in
      elim saved [ err e ↦ (s', err (store_error e)) | ok u ↦ (s', ok tt) ]

  -- `SaveMode` and `SaveBands` differ in the field that they set.
  unfoldable pub save_with :
      (SavedPreferences → SavedPreferences) → Text → S → S × Result PreferenceError (Unit {0})
  save_with set text s =
      let modem_id = trim_space text in
      if modem_id == []
      then (s, err modem_id_required)
      else elim (load_for_modem_locked modem_id s) [
        | err e ↦ (s, err e)
        | ok (entry, known) ↦ save_for_modem_locked modem_id (set entry) s
      ]

  unfoldable pub save_mode : Text → ModePair → S → S × Result PreferenceError (Unit {0})
  unfolding save_with
  save_mode modem_id mode s = save_with (λ entry. record entry { mode = some mode }) modem_id s

  unfoldable pub save_bands : Text → Option (List ℕ) → S → S × Result PreferenceError (Unit {0})
  unfolding save_with
  save_bands modem_id bands s = save_with (λ entry. record entry { bands = bands }) modem_id s

-- What a restoring function returns: whether to retry, and the errors.
abbrev pub Outcome : Type 0
Outcome = Bool × List PreferenceError

module _ {M : Type 0} (radio : Radio M) (transient : ℕ → Bool) where
  abbrev failed_call : ℕ → Outcome
  failed_call e = (transient e, modem_error e ∷ [])

  abbrev after_set : M × Result ℕ (Unit {0}) → M × Outcome
  after_set (m, ok u) = (m, (false, []))
  after_set (m, err e) = (m, failed_call e)

  unfoldable pub restore_mode_preference : ModePair → M → M × Outcome
  restore_mode_preference mode m = elim (radio.supported_modes m) [
    | err e ↦ (m, failed_call e)
    | ok supported ↦
        if not (any (λ s. same_mode s mode) supported)
        then (m, (false, mode_unsupported ∷ []))
        else elim (radio.current_modes m) [
          | err e ↦ (m, failed_call e)
          | ok current ↦
              if same_mode current mode
              then (m, (false, []))
              else after_set (radio.set_current_modes mode m)
        ]
  ]

  unfoldable pub restore_band_preference : List ℕ → M → M × Outcome
  restore_band_preference bands m =
      if length bands == 0
      then (m, (false, bands_empty ∷ []))
      else if duplicate_band bands
      then (m, (false, bands_duplicate ∷ []))
      else if contains_band modem_band_any bands && ltb 1 (length bands)
      then (m, (false, any_with_others ∷ []))
      else elim (radio.supported_bands m) [
        | err e ↦ (m, failed_call e)
        | ok supported ↦
            if not (all (λ band. contains_band band supported) bands)
            then (m, (false, band_unsupported ∷ []))
            else elim (radio.current_bands m) [
              | err e ↦ (m, failed_call e)
              | ok current ↦
                  if same_bands current bands
                  then (m, (false, []))
                  else after_set (radio.set_current_bands bands m)
            ]
      ]

  abbrev pub restore_mode_part : Option ModePair → M → M × Outcome
  restore_mode_part none m = (m, (false, []))
  restore_mode_part (some mode) m = restore_mode_preference mode m

  abbrev pub restore_bands_part : Option (List ℕ) → M → M × Outcome
  restore_bands_part none m = (m, (false, []))
  restore_bands_part (some bands) m = restore_band_preference bands m

  -- `restoreOnce`; the errors of the two parts are joined.
  unfoldable pub restore_once : Result PreferenceError (SavedPreferences × Bool) → M → M × Outcome
  restore_once loaded m = elim loaded [
    | err e ↦ (m, (false, e ∷ []))
    | ok (prefs, known) ↦
        if not known
        then (m, (false, []))
        else (let (m₁, (retry₁, e₁)) = restore_mode_part prefs.mode m in
            let (m₂, (retry₂, e₂)) = restore_bands_part prefs.bands m₁ in
            (m₂, (retry₁ || retry₂, e₁ ++ e₂)))
  ]
