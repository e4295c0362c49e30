-- ===== src/Storage/Cells.antt =====
-- The table of internal/pkg/storage/app_state.go as a map from scope and key to a text.
use sigmo.Common.{
  ℕ, ◌≡◌, refl, ap, ◌∙◌, true, false, ◌&&◌, List, [], Option, none, some, Text, All, Any, arith,
  ◌==◌, nat_equal, list_equal, ==_refl, Result, ok, err, Result-cases, ok-injective, Bool-cases,
  inl, inr, ◌⊎◌, if◌then◌else◌, trim_space, has_prefix,
}
use sigmo.Storage.{
  listed, Database, Codec, StoreError, wrap, write_row, put, get, delete_row, list_raw, read_row,
  read_value, not_found,
}

-- What SQLite promises of the five statements: the table is a map from scope and key to a value, and
-- a statement that fails leaves it as it was.
pub record DatabaseLaws {D : Type 0} (db : Database D) : Type 0 where
  pub cell : D → Text → Text → Option Text
  pub selects :
      (s k : Text) (d : D) {r : Option Text} → db.select_value s k d ≡ ok r → r ≡ cell d s k
  pub upserts :
      (s k v : Text) (d : D)
      → (db.upsert s k v d).1 ≡ none
      → (t l : Text)
      → cell (db.upsert s k v d).0 t l ≡ (if (s == t) && (k == l) then some v else cell d t l)
  pub upsert_fails :
      (s k v : Text) (d : D) {e : ℕ}
      → (db.upsert s k v d).1 ≡ some e
      → (t l : Text) → cell (db.upsert s k v d).0 t l ≡ cell d t l
  pub deletes :
      (s k : Text) (d : D)
      → (db.delete_value s k d).1 ≡ none
      → (t l : Text)
      → cell (db.delete_value s k d).0 t l ≡ (if (s == t) && (k == l) then none else cell d t l)
  pub delete_fails :
      (s k : Text) (d : D) {e : ℕ}
      → (db.delete_value s k d).1 ≡ some e
      → (t l : Text) → cell (db.delete_value s k d).0 t l ≡ cell d t l
  pub lists :
      (p k : Text) (d : D) {rows : List (Text × Text)}
      → db.list_values p k d ≡ ok rows
      → (s : Text) {v : Text} → has_prefix s p ≡ true
      → cell d s k ≡ some v
      → Any (λ row. (row.0 ≡ s) × (row.1 ≡ v)) rows
  pub all_listed :
      (p k : Text) (d : D) {rows : List (Text × Text)}
      → db.list_values p k d ≡ ok rows
      → All (λ row. cell d row.0 k ≡ some row.1) rows

-- What JSON promises: an encoded value decodes to itself.
pub record CodecLaws {A : Type 0} (json : Codec A) : Type 0 where
  pub decodes : (a : A) {v : Text} → json.marshal a ≡ ok v → json.unmarshal v ≡ ok a

wrap-ok : (f : ℕ → StoreError) (o : Option ℕ) → wrap f o ≡ ok tt → o ≡ none
wrap-ok f none h = refl
wrap-ok f (some e) h = cc

wrap-err :
    (f : ℕ → StoreError) (o : Option ℕ) {e : StoreError} → wrap f o ≡ err e → (n : ℕ) × (o ≡ some n)
wrap-err f none h = cc
wrap-err f (some n) h = (n, refl)

listed_rows : {A : Type 0} (r : Result ℕ A) {a : A} → listed r ≡ ok a → r ≡ ok a
listed_rows (ok a) h = ap ok (ok-injective h)
listed_rows (err e) h = cc

module _ {D : Type 0} (db : Database D) (laws : DatabaseLaws db) where
  open laws use {cell, selects, upserts, upsert_fails, deletes, delete_fails}

  -- The cells of a state, with one cell written.
  abbrev pub Written : Text → Text → Option Text → D → D → Type 0
  Written s k v d d' = (t l : Text) → cell d' t l ≡ (if (s == t) && (k == l) then v else cell d t l)

  abbrev pub Untouched : D → D → Type 0
  Untouched d d' = (t l : Text) → cell d' t l ≡ cell d t l

  write_row_ok :
      (s k : Text) (r : Result ℕ Text) (d : D)
      → (write_row db s k r d).1 ≡ ok tt
      → (v : Text) × (r ≡ ok v) × Written s k (some v) d (write_row db s k r d).0
  unfolding write_row
  write_row_ok s k (err e) d h = cc
  write_row_ok s k (ok v) d h = (v, refl, upserts s k v d (wrap-ok _ _ h))

  write_row_fails :
      (s k : Text) (r : Result ℕ Text) (d : D) {e : StoreError}
      → (write_row db s k r d).1 ≡ err e
      → Untouched d (write_row db s k r d).0
  unfolding write_row
  write_row_fails s k (err e) d h t l = refl
  write_row_fails s k (ok v) d h t l = upsert_fails s k v d (wrap-err _ _ h).1 t l

  -- A `put` that succeeds writes the text of its value, and no other cell.
  pub put_ok :
      {A : Type 0} (json : Codec A) (scope key : Text) (a : A) (d : D)
      → (put db json scope key a d).1 ≡ ok tt
      → (v : Text) × (json.marshal a ≡ ok v)
        × Written (trim_space scope) (trim_space key) (some v) d (put db json scope key a d).0
  unfolding put
  put_ok json scope key a d h = elim (Bool-cases (trim_space scope == [])) [
    | inl e ↦ absurd (ground (arith, e))
    | inr scope' ↦ elim (Bool-cases (trim_space key == [])) [
      | inl e ↦ absurd (ground (arith, e, scope'))
      | inr key' ↦
          rw (scope', key')
            (write_row_ok (trim_space scope) (trim_space key) (json.marshal a) d
              (rw (scope', key') at h))
    ]
  ]

  -- One that fails writes nothing.
  pub put_fails :
      {A : Type 0} (json : Codec A) (scope key : Text) (a : A) (d : D) {e : StoreError}
      → (put db json scope key a d).1 ≡ err e
      → Untouched d (put db json scope key a d).0
  unfolding put
  put_fails json scope key a d h t l = elim (Bool-cases (trim_space scope == [])) [
    | inl e ↦ rw e refl
    | inr scope' ↦ elim (Bool-cases (trim_space key == [])) [
      | inl e ↦ rw (scope', e) refl
      | inr key' ↦
          rw (scope', key')
            (write_row_fails (trim_space scope) (trim_space key) (json.marshal a) d
              (rw (scope', key') at h) t l)
    ]
  ]

  put_named :
      {A : Type 0} (json : Codec A) (scope key : Text) (a : A) (d : D)
      → (put db json scope key a d).1 ≡ ok tt
      → ((trim_space scope == []) ≡ false) × ((trim_space key == []) ≡ false)
  unfolding put
  put_named json scope key a d h = elim (Bool-cases (trim_space scope == [])) [
    | inl e ↦ absurd (ground (arith, e))
    | inr scope' ↦ elim (Bool-cases (trim_space key == [])) [
      | inl e ↦ absurd (ground (arith, e, scope'))
      | inr key' ↦ (scope', key')
    ]
  ]

  -- What is read is the decoded cell.
  pub get_cell :
      {A : Type 0} (json : Codec A) (scope key : Text) (d : D)
      → (trim_space scope == []) ≡ false
      → (trim_space key == []) ≡ false
      → (get db json scope key d
          ≡ read_row db json (ok (cell d (trim_space scope) (trim_space key))))
        ⊎ ((n : ℕ) × (get db json scope key d ≡ err (read_value n)))
  unfolding get
  get_cell json scope key d scope' key' =
      let s : Text = trim_space scope in
      let k : Text = trim_space key in
      elim (Result-cases (db.select_value s k d)) [
        | inl (r, e) ↦ inl (rw (scope', key', e, selects s k d e) refl)
        | inr (n, e) ↦ inr (n, rw (scope', key', e) (unfold read_row in refl))
      ]

  -- A row that is deleted with success is gone, and no other one is.
  pub delete_ok :
      (scope key : Text) (d : D)
      → (trim_space scope == []) ≡ false
      → (trim_space key == []) ≡ false
      → (delete_row db scope key d).1 ≡ ok tt
      → Written (trim_space scope) (trim_space key) none d (delete_row db scope key d).0
  unfolding delete_row
  delete_ok scope key d scope' key' h =
      let h' = wrap-ok _ _ (rw (scope', key') at h) in
      rw (scope', key') (deletes (trim_space scope) (trim_space key) d h')

  pub delete_row_fails :
      (scope key : Text) (d : D) {e : StoreError}
      → (trim_space scope == []) ≡ false
      → (trim_space key == []) ≡ false
      → (delete_row db scope key d).1 ≡ err e
      → Untouched d (delete_row db scope key d).0
  unfolding delete_row
  delete_row_fails scope key d scope' key' h =
      let h' = wrap-err _ _ (rw (scope', key') at h) in
      rw (scope', key') (delete_fails (trim_space scope) (trim_space key) d h'.1)

  -- What a successful `put` stored, a later `get` of the same scope and key decodes, unless the
  -- database fails to read.
  pub get-put :
      {A : Type 0} (json : Codec A) (coded : CodecLaws json) (scope key : Text) (a : A) (d : D)
      → (put db json scope key a d).1 ≡ ok tt
      → (get db json scope key (put db json scope key a d).0 ≡ ok a)
        ⊎ ((n : ℕ) × (get db json scope key (put db json scope key a d).0 ≡ err (read_value n)))
  get-put json coded scope key a d h =
      let (v, e, w) = put_ok json scope key a d h in
      let named = put_named json scope key a d h in
      elim (get_cell json scope key (put db json scope key a d).0 named.0 named.1) [
        | inl g ↦ inl (
            g
            ∙ rw
                (
                  w (trim_space scope) (trim_space key),
                  ==_refl (trim_space scope),
                  ==_refl (trim_space key),
                )
                (unfold read_row in rw (coded.decodes a e) refl))
        | inr g ↦ inr g
      ]

  -- What a successful deletion took out, a later `get` does not find, unless the database fails to read.
  pub get-delete_row :
      {A : Type 0} (json : Codec A) (scope key : Text) (d : D)
      → (trim_space scope == []) ≡ false
      → (trim_space key == []) ≡ false
      → (delete_row db scope key d).1 ≡ ok tt
      → (get db json scope key (delete_row db scope key d).0 ≡ err not_found)
        ⊎ ((n : ℕ) × (get db json scope key (delete_row db scope key d).0 ≡ err (read_value n)))
  get-delete_row json scope key d scope' key' h =
      let w = delete_ok scope key d scope' key' h in
      elim (get_cell json scope key (delete_row db scope key d).0 scope' key') [
        | inl g ↦ inl (
            g
            ∙ rw
                (
                  w (trim_space scope) (trim_space key),
                  ==_refl (trim_space scope),
                  ==_refl (trim_space key),
                )
                (unfold read_row in refl))
        | inr g ↦ inr g
      ]

  pub list_raw_rows :
      (scope_prefix key : Text) (d : D) {rows : List (Text × Text)}
      → list_raw db scope_prefix key d ≡ ok rows
      → db.list_values (trim_space scope_prefix) (trim_space key) d ≡ ok rows
  unfolding list_raw
  list_raw_rows scope_prefix key d h = elim (Bool-cases (trim_space key == [])) [
    | inl e ↦ absurd (ground (arith, e))
    | inr e ↦ listed_rows (db.list_values (trim_space scope_prefix) (trim_space key) d) (rw e at h)
  ]
