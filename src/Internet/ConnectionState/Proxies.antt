-- ===== src/Internet/ConnectionState/Proxies.antt =====
-- Who owns the proxies of internal/pkg/internet/connection_state.go, and the list of a modem's.
pub mod Taking
use sigmo.Common.{
  ℕ, ◌-◌, ◌≡◌, refl, sym, ap, ◌∙◌, Bool, true, false, ◌&&◌, ◌||◌, List, [], ◌∷◌, Option, none, some,
  Text, Any-map, Any-All, any, arith, ◌==◌, nat_equal, list_equal, list_beq_iff, ==_refl, Result,
  ok, err, ◌>>=◌, ◌>>◌, ok-injective, >>=-eq-ok, and-true, Bool-cases, Bool-ext, any-Any, Any-any,
  Any-exists, inl, inr, trim_space, trim_space_idem,
}
use sigmo.Internet.ConnectionState.{
  StateError, ProxyStateEntry, found, interface_scope, interface_scope_prefix, trim_prefix,
  proxy_kv_key, add_owned, owned_interfaces, sort, sort_insert,
}
use sigmo.Internet.ConnectionState.Cells.{
  trim-interface_scope_prefix, trim-proxy_kv_key, interface_scope-trim, has_prefix-interface_scope,
  trim_prefix-interface_scope,
}
use sigmo.Storage.{Database, Codec, list_raw}
use sigmo.Storage.Cells.{DatabaseLaws, CodecLaws, list_raw_rows}

abbrev pub holds : Text → List Text → Bool
holds x = any (λ t. t == x)

holds-sort_insert :
    (x y : Text) (ys : List Text) → holds x (sort_insert y ys) ≡ ((y == x) || holds x ys)
unfolding sort_insert
holds-sort_insert x y [] = refl
holds-sort_insert x y (z ∷ ys) = ground (arith, holds-sort_insert x y ys)

holds-sort : (x : Text) (xs : List Text) → holds x (sort xs) ≡ holds x xs
unfolding sort
holds-sort x [] = refl
holds-sort x (y ∷ ys) = holds-sort_insert x y (sort ys) ∙ ground (arith, holds-sort x ys)

-- The owner of a row of the table that decodes.
abbrev pub owner_of : Result ℕ ProxyStateEntry → Option Text
owner_of (ok entry) = some (trim_space entry.modem)
owner_of (err e) = none

abbrev pub is_owner : Text → Option Text → Bool
is_owner m none = false
is_owner m (some o) = o == m

-- The text that owns the proxy of a name; it is empty where there is no entry.
abbrev pub text_of : Option Text → Text
text_of none = []
text_of (some o) = o

pub beq_sym : (s t : Text) → (s == t) ≡ (t == s)
beq_sym s t =
    Bool-ext _ _ (λ h. (list_beq_iff t s).1 (sym ((list_beq_iff s t).0 h)))
      (λ h. (list_beq_iff s t).1 (sym ((list_beq_iff t s).0 h)))

module _ {D : Type 0} (db : Database D) (laws : DatabaseLaws db)
    (proxy_json : Codec ProxyStateEntry) (coded : CodecLaws proxy_json) where
  open laws use {cell}

  abbrev pub row_owner : Option Text → Option Text
  row_owner none = none
  row_owner (some raw) = owner_of (proxy_json.unmarshal raw)

  abbrev pub owner : D → Text → Option Text
  owner d n = row_owner (cell d (interface_scope n) proxy_kv_key)

  -- The proxy states stand in the scopes of interfaces, where this code puts them.
  abbrev pub Tidy : D → Type 0
  Tidy d = (s v : Text) → cell d s proxy_kv_key ≡ some v → (n : Text) × (s ≡ interface_scope n)

  abbrev listed_name : Text → Text → Text × Text → Bool
  listed_name m x row =
      is_owner m (row_owner (some row.1)) && (trim_prefix row.0 interface_scope_prefix == x)

  holds-add_owned :
      (m scope : Text) (r : Result ℕ ProxyStateEntry) (rest : Result StateError (List Text))
      (names : List Text) (x : Text) (others : Bool)
      → add_owned db proxy_json m scope r rest ≡ ok names
      → ((ns : List Text) → rest ≡ ok ns → holds x ns ≡ others)
      → holds x names
        ≡ ((is_owner m (owner_of r) && (trim_prefix scope interface_scope_prefix == x)) || others)
  unfolding add_owned
  holds-add_owned m scope (err e) rest names x others h k = cc
  holds-add_owned m scope (ok entry) rest names x others h k =
      elim (Bool-cases (trim_space entry.modem == m)) [
        | inl own ↦
            let (ns, r, e) = >>=-eq-ok rest _ (rw own at h) in
            rw (← ok-injective e, own, k ns r) refl
        | inr other ↦ rw other (k names (rw other at h))
      ]

  -- The names that the loop collects.
  holds-owned_interfaces :
      (m : Text) (rows : List (Text × Text)) (names : List Text) (x : Text)
      → owned_interfaces db proxy_json m rows ≡ ok names
      → holds x names ≡ any (listed_name m x) rows
  unfolding owned_interfaces
  holds-owned_interfaces m [] names x h = rw (← ok-injective h) refl
  holds-owned_interfaces m ((scope, value) ∷ rows) names x h =
      holds-add_owned m scope (proxy_json.unmarshal value) (owned_interfaces db proxy_json m rows)
        names x _ h (λ ns e. holds-owned_interfaces m rows ns x e)

  -- The names collected from the database are those whose entry has the owner.
  owned_some :
      (m : Text) (o : Option Text) → is_owner m (row_owner o) ≡ true → (v : Text) × (o ≡ some v)
  owned_some m none h = cc
  owned_some m (some v) h = (v, refl)

  module _ (d : D) (tidy : Tidy d) (m : Text) (rows : List (Text × Text))
      (h : list_raw db interface_scope_prefix proxy_kv_key d ≡ ok rows) where
    db_rows : db.list_values interface_scope_prefix proxy_kv_key d ≡ ok rows
    db_rows =
        let raw : db.list_values (trim_space interface_scope_prefix) (trim_space proxy_kv_key) d
            ≡ ok rows =
          list_raw_rows db laws interface_scope_prefix proxy_kv_key d h in
        rw (trim-interface_scope_prefix, trim-proxy_kv_key) at raw

    in_rows :
        (n : Text) → is_owner m (owner d n) ≡ true → any (listed_name m (trim_space n)) rows ≡ true
    in_rows n own =
        let (v, stored) = owned_some m (cell d (interface_scope n) proxy_kv_key) own in
        Any-any (listed_name m (trim_space n)) rows (
          Any-map
            (λ row e.
              rw (e.0, e.1, trim_prefix-interface_scope n, rw stored at own, ==_refl (trim_space n))
                refl)
            rows
            (laws.lists interface_scope_prefix proxy_kv_key d db_rows (interface_scope n)
              (has_prefix-interface_scope n) stored))

    from_rows :
        (n : Text) → any (listed_name m (trim_space n)) rows ≡ true → is_owner m (owner d n) ≡ true
    from_rows n in' =
        let (row, (listed', stored)) = Any-exists rows (
          Any-All _ _ rows (any-Any _ rows in')
            (laws.all_listed interface_scope_prefix proxy_kv_key d db_rows)) in
        let (k, s) = tidy row.0 row.1 stored in
        let (mine, named') = and-true listed' in
        let same : trim_space k ≡ trim_space n =
          sym (trim_prefix-interface_scope k)
          ∙ ap (λ t. trim_prefix t interface_scope_prefix) (sym s)
          ∙ (list_beq_iff (trim_prefix row.0 interface_scope_prefix) (trim_space n)).0 named' in
        let here : interface_scope n ≡ row.0 =
          sym (interface_scope-trim n)
          ∙ ap interface_scope (sym same)
          ∙ interface_scope-trim k
          ∙ sym s in
        rw (here, stored) mine

    -- So the list of a modem's interfaces holds the trimmed name of each of its entries.
    pub holds-names :
        (names : List Text) (n : Text)
        → owned_interfaces db proxy_json m rows ≡ ok names
        → holds (trim_space n) (sort names) ≡ is_owner m (owner d n)
    holds-names names n e =
        holds-sort (trim_space n) names
        ∙ holds-owned_interfaces m rows names (trim_space n) e
        ∙ Bool-ext _ _ (from_rows n) (in_rows n)

    pub names_trimmed :
        (names : List Text) (x : Text)
        → owned_interfaces db proxy_json m rows ≡ ok names
        → holds x (sort names) ≡ true
        → trim_space x ≡ x
    names_trimmed names x e h =
        let found' : any (listed_name m x) rows ≡ true =
          (sym (holds-owned_interfaces m rows names x e) ∙ sym (holds-sort x names)) ∙ h in
        let (row, (listed', stored)) = Any-exists rows (
          Any-All _ _ rows (any-Any _ rows found')
            (laws.all_listed interface_scope_prefix proxy_kv_key d db_rows)) in
        let (k, s) = tidy row.0 row.1 stored in
        let named' : trim_prefix row.0 interface_scope_prefix ≡ x =
          (list_beq_iff (trim_prefix row.0 interface_scope_prefix) x).0 (and-true listed').1 in
        let same : trim_space k ≡ x =
          sym (trim_prefix-interface_scope k)
          ∙ ap (λ t. trim_prefix t interface_scope_prefix) (sym s)
          ∙ named' in
        rw (← same) (trim_space_idem k)
