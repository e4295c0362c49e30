-- ===== src/Scenarios/Preferences.antt =====
-- Runs of internal/pkg/modem/network_preferences.go on a store of one entry and a modem that obeys.
use sigmo.Common.{
  ℕ, ◌≡◌, refl, Bool, true, false, List, [], ◌∷◌, Option, none, some, Text, codes, ok, err,
  list_beq, trim_space,
}
use sigmo.Modem.NetworkPreferences.{
  ModePair, SavedPreferences, PreferenceStore, Radio, same_bands, duplicate_band, empty_preferences,
  load_for_modem, load_for_modem_locked, save_with, save_mode, save_bands, restore_once,
  restore_mode_preference, restore_band_preference,
}
use sigmo.Modem.NetworkPreferences.Keeping.{StoreLaws}
use sigmo.Modem.NetworkPreferences.Restoring.{
  RadioLaws, HasModePart, HasBandsPart, restore_once_complete,
}

unfoldable one_entry : PreferenceStore (Option SavedPreferences)
one_entry = record { get = λ scope s. ok s; put = λ scope entry s. (some entry, ok tt) }

one_entry_written :
    (scope : Text) (entry : SavedPreferences) (s : Option SavedPreferences)
    → (one_entry.put scope entry s).1 ≡ ok tt
    → one_entry.get scope (one_entry.put scope entry s).0 ≡ ok (some entry)
unfolding one_entry
one_entry_written scope entry s h = refl

abbrev one_entry_laws : StoreLaws one_entry
one_entry_laws = record { written = one_entry_written }

abbrev mode_4g : ModePair
mode_4g = record { allowed = 8; preferred = 0 }

nothing_kept : load_for_modem one_entry (codes "imei") none ≡ ok (empty_preferences, false)
unfolding load_for_modem load_for_modem_locked one_entry list_beq trim_space
nothing_kept = refl

mode_saved : (save_mode one_entry (codes "imei") mode_4g none).1 ≡ ok tt
unfolding save_mode save_with load_for_modem_locked one_entry list_beq trim_space
mode_saved = refl

bands_saved : (save_bands one_entry (codes "imei") (some (71 ∷ [])) none).1 ≡ ok tt
unfolding save_bands save_with load_for_modem_locked one_entry list_beq trim_space
bands_saved = refl

-- A modem that has a mode and, always, band 71.
unfoldable obedient : Radio ModePair
obedient = record {
  supported_modes = λ m. ok (mode_4g ∷ []);
  current_modes = λ m. ok m;
  set_current_modes = λ mode m. (mode, ok tt);
  supported_bands = λ m. ok (71 ∷ []);
  current_bands = λ m. ok (71 ∷ []);
  set_current_bands = λ bands m. (m, err 7);
}

obedient_mode_set :
    (mode m : ModePair)
    → (obedient.set_current_modes mode m).1 ≡ ok tt
    → obedient.current_modes (obedient.set_current_modes mode m).0 ≡ ok mode
unfolding obedient
obedient_mode_set mode m h = refl

obedient_bands_set :
    (bands : List ℕ) (m : ModePair)
    → (obedient.set_current_bands bands m).1 ≡ ok tt
    → (now : List ℕ) × (obedient.current_bands (obedient.set_current_bands bands m).0 ≡ ok now)
      × (same_bands now bands ≡ true)
unfolding obedient
obedient_bands_set bands m h = cc

obedient_mode_stays :
    (bands : List ℕ) (m : ModePair)
    → obedient.current_modes (obedient.set_current_bands bands m).0 ≡ obedient.current_modes m
unfolding obedient
obedient_mode_stays bands m = refl

abbrev obedient_laws : RadioLaws obedient
obedient_laws = record {
  mode_set = obedient_mode_set;
  bands_set = obedient_bands_set;
  mode_stays = obedient_mode_stays;
}

abbrev kept : SavedPreferences
kept = record { mode = some mode_4g; bands = some (71 ∷ []) }

abbrev never : ℕ → Bool
never e = false

abbrev mode_3g : ModePair
mode_3g = record { allowed = 4; preferred = 0 }

restored : (restore_once obedient never (ok (kept, true)) mode_3g).1.1 ≡ []
unfolding restore_once restore_mode_preference restore_band_preference obedient same_bands
    duplicate_band
restored = refl

restore_once_complete_example :
    HasModePart obedient never obedient_laws kept.mode
      (restore_once obedient never (ok (kept, true)) mode_3g).0
    × HasBandsPart obedient never obedient_laws kept.bands
        (restore_once obedient never (ok (kept, true)) mode_3g).0
restore_once_complete_example =
    restore_once_complete obedient never obedient_laws kept mode_3g restored
