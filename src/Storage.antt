-- ===== src/Storage.antt =====
-- The key-value table of internal/pkg/storage/app_state.go. The database, which runs the SQL texts,
-- and `encoding/json` are parameters. Times of update are left out.
pub mod Cells
use sigmo.Common.{
  ℕ, List, [], Option, none, some, Text, ◌==◌, nat_equal, list_equal, Result, ok, err,
  if◌then◌else◌, trim_space,
}

-- The five SQL texts of the file. `none` is no error, or no row.
pub record Database (D : Type 0) : Type 0 where
  pub upsert : Text → Text → Text → D → D × Option ℕ
  pub select_value : Text → Text → D → Result ℕ (Option Text)
  pub delete_scope : Text → D → D × Option ℕ
  pub delete_value : Text → Text → D → D × Option ℕ
  pub list_values : Text → Text → D → Result ℕ (List (Text × Text))

-- `json.Marshal` and `json.Unmarshal` at one type.
pub record Codec (A : Type 0) : Type 0 where
  pub marshal : A → Result ℕ Text
  pub unmarshal : Text → Result ℕ A

-- An error of the database or of JSON is its number.
pub data StoreError : Type 0 where
  not_found scope_required key_required : StoreError
  encode_value save_value read_value decode_value : ℕ → StoreError
  delete_scope_error delete_value_error list_values_error : ℕ → StoreError

abbrev pub Done : Type 0
Done = Result StoreError (Unit {0})

-- `if err != nil { return fmt.Errorf(...) }` at the end of a call.
abbrev pub wrap : (ℕ → StoreError) → Option ℕ → Done
wrap f none = ok tt
wrap f (some e) = err (f e)

-- The error of `json.Unmarshal`, with what it was for.
abbrev pub decoded : {A : Type 0} → Result ℕ A → Result StoreError A
decoded (ok a) = ok a
decoded (err e) = err (decode_value e)

abbrev pub listed : {A : Type 0} → Result ℕ A → Result StoreError A
listed (ok rows) = ok rows
listed (err e) = err (list_values_error e)

module _ {D : Type 0} (db : Database D) where
  -- What follows `json.Marshal` in `Put`.
  unfoldable pub write_row : Text → Text → Result ℕ Text → D → D × Done
  write_row s k (err e) d = (d, err (encode_value e))
  write_row s k (ok data') d = let (d', e) = db.upsert s k data' d in (d', wrap save_value e)

  unfoldable pub put : {A : Type 0} → Codec A → Text → Text → A → D → D × Done
  put json scope key value d =
      let s = trim_space scope in
      let k = trim_space key in
      if s == []
      then (d, err scope_required)
      else if k == []
      then (d, err key_required)
      else write_row s k (json.marshal value) d

  unfoldable pub read_row : {A : Type 0} → Codec A → Result ℕ (Option Text) → Result StoreError A
  read_row json (err e) = err (read_value e)
  read_row json (ok none) = err not_found
  read_row json (ok (some raw)) = decoded (json.unmarshal raw)

  unfoldable pub get : {A : Type 0} → Codec A → Text → Text → D → Result StoreError A
  get json scope key d =
      let s = trim_space scope in
      let k = trim_space key in
      if s == []
      then err scope_required
      else if k == []
      then err key_required
      else read_row json (db.select_value s k d)

  unfoldable pub delete_row : Text → Text → D → D × Done
  delete_row scope key d =
      let s = trim_space scope in
      let k = trim_space key in
      let (d₁, e₁) = db.delete_scope s d in
      let (d₂, e₂) = db.delete_value s k d in
      if s == []
      then (d, ok tt)
      else if k == []
      then (d₁, wrap delete_scope_error e₁)
      else (d₂, wrap delete_value_error e₂)

  unfoldable pub list_raw : Text → Text → D → Result StoreError (List (Text × Text))
  list_raw scope_prefix key d =
      let p = trim_space scope_prefix in
      let k = trim_space key in if k == [] then err key_required else listed (db.list_values p k d)
