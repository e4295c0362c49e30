-- ===== src/Internet/ConnectionState/Cells.antt =====
-- Where internal/pkg/internet/connection_state.go keeps its entries: the scopes of interfaces.
use sigmo.Common.{
  ℕ, ◌≡◌, refl, true, false, ◌&&◌, [], Option, none, some, Text, codes, ◌==◌, nat_equal, list_equal,
  ok, err, Result-cases, list_beq, inl, inr, ◌⊎◌, if◌then◌else◌, trim_space, trim_space_idem,
  is_space, has_prefix,
}
use sigmo.Common.{trim_space-append}
use sigmo.Storage.{Database, Codec, StoreError, put, get, read_row, delete_row, read_value}
use sigmo.Storage.Cells.{
  DatabaseLaws, Written, put_ok, put_fails, get_cell, delete_ok, delete_row_fails,
}
use sigmo.Internet.ConnectionState.{
  interface_scope, interface_scope_prefix, proxy_kv_key, route_kv_key, trim_prefix,
}

pub trim-interface_scope : (n : Text) → trim_space (interface_scope n) ≡ interface_scope n
unfolding interface_scope is_space list_beq
trim-interface_scope n = trim_space-append b'i' (codes "nterface:") n refl refl

pub scope_not_empty : (n : Text) → (trim_space (interface_scope n) == []) ≡ false
unfolding interface_scope list_beq
scope_not_empty n = rw (trim-interface_scope n) refl

pub same_scope :
    (m n : Text) → (interface_scope m == interface_scope n) ≡ (trim_space m == trim_space n)
unfolding interface_scope list_beq
same_scope m n = refl

pub trim-interface_scope_prefix : trim_space interface_scope_prefix ≡ interface_scope_prefix
unfolding trim_space is_space
trim-interface_scope_prefix = refl

pub trim-route_kv_key : trim_space route_kv_key ≡ route_kv_key
unfolding trim_space is_space
trim-route_kv_key = refl

pub trim-proxy_kv_key : trim_space proxy_kv_key ≡ proxy_kv_key
unfolding trim_space is_space
trim-proxy_kv_key = refl

pub keys_differ : (proxy_kv_key == route_kv_key) ≡ false
unfolding list_beq
keys_differ = refl

pub keys_not_empty : ((proxy_kv_key == []) ≡ false) × ((route_kv_key == []) ≡ false)
unfolding list_beq
keys_not_empty = (refl, refl)

pub has_prefix-interface_scope :
    (n : Text) → has_prefix (interface_scope n) interface_scope_prefix ≡ true
unfolding interface_scope has_prefix
has_prefix-interface_scope n = refl

pub trim_prefix-interface_scope :
    (n : Text) → trim_prefix (interface_scope n) interface_scope_prefix ≡ trim_space n
unfolding interface_scope has_prefix trim_prefix
trim_prefix-interface_scope n = refl

module _ {D : Type 0} (db : Database D) (laws : DatabaseLaws db) (k : Text)
    (trimmed : trim_space k ≡ k) (named : (k == []) ≡ false) where
  open laws use {cell}

  -- The cells of the interfaces, with one written.
  abbrev pub EntryWritten : Text → Option Text → D → D → Type 0
  EntryWritten i v d d' =
      (n l : Text)
      → cell d' (interface_scope n) l
        ≡ (if (trim_space i == trim_space n) && (k == l) then v else cell d (interface_scope n) l)

  abbrev pub EntriesKept : D → D → Type 0
  EntriesKept d d' = (s l : Text) → cell d' s l ≡ cell d s l

  EntryWritten-Written :
      (i : Text) (v : Option Text) (d d' : D)
      → Written db laws (trim_space (interface_scope i)) (trim_space k) v d d'
      → EntryWritten i v d d'
  EntryWritten-Written i v d d' w n l =
      rw (← same_scope i n) (rw (trim-interface_scope i, trimmed) at w (interface_scope n) l)

  pub entry_put :
      {A : Type 0} (json : Codec A) (i : Text) (a : A) (d : D)
      → let r = put db json (interface_scope i) k a d in
        ((r.1 ≡ ok tt) × ((v : Text) × (json.marshal a ≡ ok v) × EntryWritten i (some v) d r.0))
        ⊎ ((e : StoreError) × (r.1 ≡ err e) × EntriesKept d r.0)
  entry_put json i a d =
      let r = put db json (interface_scope i) k a d in
      elim (Result-cases r.1) [
        | inl (u, e) ↦
            let (v, m, w) = put_ok db laws json (interface_scope i) k a d e in
            inl (e, (v, m, EntryWritten-Written i (some v) d r.0 w))
        | inr (x, e) ↦ inr (x, e, put_fails db laws json (interface_scope i) k a d e)
      ]

  pub entry_delete :
      (i : Text) (d : D)
      → let r = delete_row db (interface_scope i) k d in
        ((r.1 ≡ ok tt) × EntryWritten i none d r.0)
        ⊎ ((e : StoreError) × (r.1 ≡ err e) × EntriesKept d r.0)
  entry_delete i d =
      let r = delete_row db (interface_scope i) k d in
      let key' : (trim_space k == []) ≡ false = rw trimmed named in
      elim (Result-cases r.1) [
        | inl (u, e) ↦ inl (
          e,
          EntryWritten-Written i none d r.0
              (delete_ok db laws (interface_scope i) k d (scope_not_empty i) key' e),
        )
        | inr (x, e) ↦
            inr (x, e, delete_row_fails db laws (interface_scope i) k d (scope_not_empty i) key' e)
      ]

  pub entry_get :
      {A : Type 0} (json : Codec A) (i : Text) (d : D)
      → (get db json (interface_scope i) k d ≡ read_row db json (ok (cell d (interface_scope i) k)))
        ⊎ ((n : ℕ) × (get db json (interface_scope i) k d ≡ err (read_value n)))
  entry_get json i d =
      let g : (get db json (interface_scope i) k d
            ≡ read_row db json (ok (cell d (trim_space (interface_scope i)) (trim_space k))))
          ⊎ ((n : ℕ) × (get db json (interface_scope i) k d ≡ err (read_value n))) =
        get_cell db laws json (interface_scope i) k d (scope_not_empty i) (rw trimmed named) in
      rw (trim-interface_scope i, trimmed) at g

pub interface_scope-trim : (n : Text) → interface_scope (trim_space n) ≡ interface_scope n
unfolding interface_scope
interface_scope-trim n = rw (trim_space_idem n) refl
