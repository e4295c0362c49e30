-- ===== src/Internet/AlwaysOn/Syncing.antt =====
-- What internal/pkg/internet/always_on.go reads back of a connection that was saved as always on.
use sigmo.Common.{
  ℕ, ◌≡◌, refl, ap, Bool, true, false, not, [], Option, none, some, Text, codes, arith, ◌==◌,
  nat_equal, list_equal, Result, ok, err, list_beq, Bool-cases, inl, inr, ◌⊎◌, if◌then◌else◌,
  trim_space, is_space,
}
use sigmo.Common.{trim_space-append}
use sigmo.Storage.{Database, Codec, StoreError, read_value, put, delete_row}
use sigmo.Storage.Cells.{DatabaseLaws, CodecLaws, get-put, get-delete_row}
use sigmo.Internet.Profile.{Preferences}
use sigmo.Internet.AlwaysOn.{
  profile_scope, always_on_kv_key, store_failed, of_store, load_always_on_state_for_profile,
  sync_when, sync_always_on_state,
}

trim-profile_scope : (n : Text) → trim_space (profile_scope n) ≡ profile_scope n
unfolding profile_scope is_space list_beq
trim-profile_scope n = trim_space-append b'p' (codes "rofile:") n refl refl

scope_not_empty : (n : Text) → (trim_space (profile_scope n) == []) ≡ false
unfolding profile_scope list_beq
scope_not_empty n = rw (trim-profile_scope n) refl

key_not_empty : (trim_space always_on_kv_key == []) ≡ false
unfolding trim_space is_space list_beq
key_not_empty = refl

of_store_ok : (r : Result StoreError (Unit {0})) → of_store r ≡ ok tt → r ≡ ok tt
of_store_ok (ok u) h = refl
of_store_ok (err e) h = cc

-- The preferences that are found after a call with these.
abbrev pub kept : Bool → Preferences → Option Preferences
kept true prefs = some prefs
kept false prefs = none

module _ {D : Type 0} (db : Database D) (laws : DatabaseLaws db) (json : Codec Preferences)
    (coded : CodecLaws json) where
  load_kept :
      (profile_id : Text) (prefs : Preferences) (d : D)
      → (trim_space profile_id == []) ≡ false
      → prefs.always_on ≡ true
      → let r = put db json (profile_scope (trim_space profile_id)) always_on_kv_key prefs d in
        r.1 ≡ ok tt
        → (load_always_on_state_for_profile db json profile_id r.0 ≡ ok (some prefs))
          ⊎ ((n : ℕ) × (load_always_on_state_for_profile db json profile_id r.0
                ≡ err (store_failed (read_value n))))
  unfolding load_always_on_state_for_profile
  load_kept profile_id prefs d named on h =
      let scope : Text = profile_scope (trim_space profile_id) in
      elim (get-put db laws json coded scope always_on_kv_key prefs d h) [
        | inl g ↦ inl (rw (named, g) (ap (λ b. ok (if not b then none else some prefs)) on))
        | inr (n, g) ↦ inr (n, rw (named, g) refl)
      ]

  load_dropped :
      (profile_id : Text) (d : D)
      → (trim_space profile_id == []) ≡ false
      → let r = delete_row db (profile_scope (trim_space profile_id)) always_on_kv_key d in
        r.1 ≡ ok tt
        → (load_always_on_state_for_profile db json profile_id r.0 ≡ ok none)
          ⊎ ((n : ℕ) × (load_always_on_state_for_profile db json profile_id r.0
                ≡ err (store_failed (read_value n))))
  unfolding load_always_on_state_for_profile
  load_dropped profile_id d named h =
      let scope : Text = profile_scope (trim_space profile_id) in
      elim (get-delete_row db laws json scope always_on_kv_key d
        (scope_not_empty (trim_space profile_id)) key_not_empty h) [
          | inl g ↦ inl (rw (named, g) refl)
          | inr (n, g) ↦ inr (n, rw (named, g) refl)
        ]

  load-sync_when :
      (b : Bool) (profile_id : Text) (prefs : Preferences) (d : D)
      → prefs.always_on ≡ b
      → let r = sync_when db json b (trim_space profile_id) prefs d in
        r.1 ≡ ok tt
        → (load_always_on_state_for_profile db json profile_id r.0 ≡ ok (kept b prefs))
          ⊎ ((n : ℕ) × (load_always_on_state_for_profile db json profile_id r.0
                ≡ err (store_failed (read_value n))))
  load-sync_when true profile_id prefs d on h = elim (Bool-cases (trim_space profile_id == [])) [
    | inl blank ↦ absurd (ground (arith, blank))
    | inr named ↦ rw named (load_kept profile_id prefs d named on (of_store_ok _ (rw named at h)))
  ]
  load-sync_when false profile_id prefs d off h = elim (Bool-cases (trim_space profile_id == [])) [
    | inl blank ↦ rw blank (inl (unfold load_always_on_state_for_profile in rw blank refl))
    | inr named ↦ rw named (load_dropped profile_id d named (of_store_ok _ (rw named at h)))
  ]

  -- Where the database is a map and encoded preferences decode to themselves: when preferences have
  -- been synced for a profile without an error, loading the profile's state finds these preferences if
  -- they are always on, and none if they are not, unless the database fails to read.
  pub load-sync_always_on_state :
      (profile_id : Text) (prefs : Preferences) (d : D)
      → (sync_always_on_state db json profile_id prefs d).1 ≡ ok tt
      → let d' = (sync_always_on_state db json profile_id prefs d).0 in
        (load_always_on_state_for_profile db json profile_id d' ≡ ok (kept prefs.always_on prefs))
        ⊎ ((n : ℕ) × (load_always_on_state_for_profile db json profile_id d'
              ≡ err (store_failed (read_value n))))
  unfolding sync_always_on_state
  load-sync_always_on_state profile_id prefs d h =
      load-sync_when prefs.always_on profile_id prefs d refl h
