-- ===== src/Internet/AlwaysOn.antt =====
-- The connections that are always on, as they are saved for a profile: the state of
-- internal/pkg/internet/always_on.go, and syncAlwaysOnState of internal/pkg/internet/connection.go.
-- The table is that of internal/pkg/storage/app_state.go; a Go map is an association list.
pub mod Syncing
use sigmo.Common.{
  ℕ, Bool, true, false, not, List, [], ◌∷◌, ◌++◌, Option, none, some, Text, codes, ◌==◌, nat_equal,
  list_equal, Result, ok, err, ◌>>=◌, if◌then◌else◌, trim_space, insert, Assoc,
}
use sigmo.Storage.{
  Database, Codec, StoreError, not_found, scope_required, key_required, encode_value, save_value,
  read_value, decode_value, delete_scope_error, delete_value_error, list_values_error, put, get,
  delete_row, list_raw,
}
use sigmo.Internet.ConnectionState.{trim_prefix}
use sigmo.Internet.Profile.{Preferences}

abbrev pub profile_scope_prefix : Text
profile_scope_prefix = codes "profile:"

abbrev pub always_on_kv_key : Text
always_on_kv_key = codes "internet.always_on"

unfoldable pub profile_scope : Text → Text
profile_scope profile_id = profile_scope_prefix ++ trim_space profile_id

pub data AlwaysOnError : Type 0 where
  profile_id_required : AlwaysOnError
  decode_always_on : ℕ → AlwaysOnError
  store_failed : StoreError → AlwaysOnError

abbrev pub of_store : {A : Type 0} → Result StoreError A → Result AlwaysOnError A
of_store (ok a) = ok a
of_store (err e) = err (store_failed e)

-- What was read, where preferences that are not always on do not count.
abbrev pub always_on_only :
    Result StoreError Preferences → Result AlwaysOnError (Option Preferences)
always_on_only (ok prefs) = ok (if not prefs.always_on then none else some prefs)
always_on_only (err not_found) = ok none
always_on_only (err e) = err (store_failed e)

-- A row of the table, entered in the map.
abbrev pub note_state : Text → Preferences → Assoc Text Preferences → Assoc Text Preferences
note_state scope prefs states =
    let profile_id = trim_prefix scope profile_scope_prefix in
    if not prefs.always_on
    then states
    else if not (trim_space profile_id == [])
    then insert profile_id prefs states
    else states

module _ {D : Type 0} (db : Database D) (json : Codec Preferences) where
  unfoldable pub load_always_on_state_for_profile :
      Text → D → Result AlwaysOnError (Option Preferences)
  load_always_on_state_for_profile profile_id d =
      let p = trim_space profile_id in
      if p == [] then ok none else always_on_only (get db json (profile_scope p) always_on_kv_key d)

  note_rows :
      List (Text × Text) → Assoc Text Preferences → Result AlwaysOnError (Assoc Text Preferences)
  note_rows [] states = ok states
  note_rows ((scope, value) ∷ rows) states = elim (json.unmarshal value) [
    | err e ↦ err (decode_always_on e)
    | ok prefs ↦ note_rows rows (note_state scope prefs states)
  ]

  unfoldable pub load_always_on_states : D → Result AlwaysOnError (Assoc Text Preferences)
  unfolding note_rows
  load_always_on_states d =
      of_store (list_raw db profile_scope_prefix always_on_kv_key d) >>= λ rows. note_rows rows []

  -- The two halves of `syncAlwaysOnState`, on the trimmed identifier.
  abbrev pub sync_when : Bool → Text → Preferences → D → D × Result AlwaysOnError (Unit {0})
  sync_when true p prefs d =
      let (d₁, e₁) = put db json (profile_scope p) always_on_kv_key prefs d in
      if p == [] then (d, err profile_id_required) else (d₁, of_store e₁)
  sync_when false p prefs d =
      let (d₁, e₁) = delete_row db (profile_scope p) always_on_kv_key d in
      if p == [] then (d, ok tt) else (d₁, of_store e₁)

  -- The state after the call, and its error.
  unfoldable pub sync_always_on_state : Text → Preferences → D → D × Result AlwaysOnError (Unit {0})
  sync_always_on_state profile_id prefs d =
      sync_when prefs.always_on (trim_space profile_id) prefs d
