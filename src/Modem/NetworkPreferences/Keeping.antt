-- ===== src/Modem/NetworkPreferences/Keeping.antt =====
-- What internal/pkg/modem/network_preferences.go keeps is what it loads again.
use sigmo.Common.{
  ℕ, ◌≡◌, Bool, true, List, [], Option, some, Text, arith, ◌==◌, nat_equal, list_equal, ok,
  Result-cases, Bool-cases, inl, inr, trim_space,
}
use sigmo.Modem.NetworkPreferences.{
  ModePair, SavedPreferences, PreferenceStore, scope_of, found, load_for_modem_locked,
  load_for_modem, save_with, save_mode, save_bands,
}

-- What is put in a scope is what the scope then gives.
pub record StoreLaws {S : Type 0} (kv : PreferenceStore S) : Type 0 where
  pub written :
      (scope : Text) (entry : SavedPreferences) (s : S)
      → (kv.put scope entry s).1 ≡ ok tt
      → kv.get scope (kv.put scope entry s).0 ≡ ok (some entry)

module _ {S : Type 0} (kv : PreferenceStore S) (laws : StoreLaws kv) where
  open laws use {written}

  load-save_with :
      (set : SavedPreferences → SavedPreferences) (text : Text) (s : S) {entry : SavedPreferences}
      {known : Bool}
      → load_for_modem kv text s ≡ ok (entry, known)
      → (save_with kv set text s).1 ≡ ok tt
      → load_for_modem kv text (save_with kv set text s).0 ≡ ok (set entry, true)
  unfolding load_for_modem save_with load_for_modem_locked
  load-save_with set text s {entry} {known} before saved =
      let id : Text = trim_space text in
      elim (Bool-cases (id == [])) [
        | inl e ↦ absurd (ground (arith, e, saved))
        | inr named ↦ elim (Result-cases (kv.get (scope_of id) s)) [
          | inr (e, broken) ↦ absurd (ground (arith, named, broken, saved))
          | inl (old, had) ↦
              let same : (found old).0 ≡ entry = ground (arith, named, had, before) in
              elim (Result-cases (kv.put (scope_of id) (set (found old).0) s).1) [
                | inr (e, broken) ↦ absurd (ground (arith, named, had, broken, saved))
                | inl (u, put) ↦
                    ground (
                      arith,
                      named,
                      had,
                      put,
                      same,
                      written (scope_of id) (set (found old).0) s put,
                    )
              ]
        ]
      ]

  -- Where the store gives back what it took, a mode that was saved is loaded again, and the bands
  -- that were kept before it are still there.
  pub load-save_mode :
      (text : Text) (mode : ModePair) (s : S) {entry : SavedPreferences} {known : Bool}
      → load_for_modem kv text s ≡ ok (entry, known)
      → (save_mode kv text mode s).1 ≡ ok tt
      → load_for_modem kv text (save_mode kv text mode s).0
        ≡ ok (record entry { mode = some mode }, true)
  unfolding save_mode
  load-save_mode text mode s before saved =
      load-save_with (λ entry. record entry { mode = some mode }) text s before saved

  -- Where the store gives back what it took, bands that were saved are loaded again, and the mode
  -- that was kept before them is still there.
  pub load-save_bands :
      (text : Text) (bands : Option (List ℕ)) (s : S) {entry : SavedPreferences} {known : Bool}
      → load_for_modem kv text s ≡ ok (entry, known)
      → (save_bands kv text bands s).1 ≡ ok tt
      → load_for_modem kv text (save_bands kv text bands s).0
        ≡ ok (record entry { bands = bands }, true)
  unfolding save_bands
  load-save_bands text bands s before saved =
      load-save_with (λ entry. record entry { bands = bands }) text s before saved
