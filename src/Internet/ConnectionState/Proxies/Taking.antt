-- ===== src/Internet/ConnectionState/Proxies/Taking.antt =====
-- Saving a proxy state in internal/pkg/internet/connection_state.go.
use sigmo.Common.{
  map_if, ℕ, ◌≡◌, refl, sym, ap, ◌∙◌, Bool, true, false, not, ◌&&◌, ◌||◌, List, [], ◌∷◌, Option,
  none, some, Text, arith, ◌==◌, nat_equal, list_equal, list_beq_iff, ==_refl, Result, ok, err,
  Result-cases, ok-injective, >>=-eq-ok, Bool-cases, inl, inr, if◌then◌else◌, trim_space,
  trim_space_idem,
}
use sigmo.Internet.ConnectionState.{
  StateError, ProxyStateEntry, store_result, found, proxy_owner, proxy_state, interface_scope,
  interface_scope_prefix, proxy_kv_key, delete_proxy_state, owned_interfaces,
  proxy_interfaces_for_modem, delete_others, put_proxy, take_proxy, take_interface,
  save_proxy_state_for_modem, sort,
}
use sigmo.Internet.ConnectionState.Cells.{
  trim-proxy_kv_key, keys_not_empty, interface_scope-trim, entry_get, entry_put, entry_delete,
}
use sigmo.Storage.{decoded, Database, Codec, StoreError, put, read_row, list_raw}
use sigmo.Storage.Cells.{DatabaseLaws, CodecLaws}
use sigmo.Internet.ConnectionState.Proxies.{
  text_of, holds, owner_of, is_owner, beq_sym, row_owner, owner, Tidy, holds-names, names_trimmed,
}

module _ {D : Type 0} (db : Database D) (laws : DatabaseLaws db)
    (proxy_json : Codec ProxyStateEntry) (coded : CodecLaws proxy_json) where
  open laws use {cell}

  not_empty : (proxy_kv_key == []) ≡ false
  not_empty = keys_not_empty.0

  deleted :
      (name n : Text) (d : D)
      → (delete_proxy_state db proxy_json name d).1 ≡ ok tt
      → cell (delete_proxy_state db proxy_json name d).0 (interface_scope n) proxy_kv_key ≡ (
          if trim_space name == trim_space n then none else cell d (interface_scope n) proxy_kv_key)
  unfolding delete_proxy_state
  deleted name n d h = elim (entry_delete db laws proxy_kv_key trim-proxy_kv_key not_empty name d) [
    | inl (e, w) ↦ w n proxy_kv_key ∙ ground (arith, ==_refl proxy_kv_key)
    | inr (x, e, kept) ↦ absurd (ground (arith, e, h))
  ]

  delete_others_cells :
      (i : Text) (names : List Text) (n : Text) (d : D)
      → ((x : Text) → holds x names ≡ true → trim_space x ≡ x)
      → (delete_others db proxy_json i names d).1 ≡ ok tt
      → cell (delete_others db proxy_json i names d).0 (interface_scope n) proxy_kv_key ≡ (
          if holds (trim_space n) names && not (trim_space n == i)
          then none
          else cell d (interface_scope n) proxy_kv_key)
  unfolding delete_others
  delete_others_cells i [] n d t h = refl
  delete_others_cells i (name ∷ names) n d t h =
      let d₁ : D = (delete_proxy_state db proxy_json name d).0 in
      let rest_trimmed : (x : Text) → holds x names ≡ true → trim_space x ≡ x =
        λ x e. t x (ground (arith, e)) in
      elim (Bool-cases (name == i)) [
        | inl same ↦
            let e : (name == trim_space n) ≡ (trim_space n == i) =
              beq_sym name (trim_space n)
              ∙ ap (λ z. trim_space n == z) ((list_beq_iff name i).0 same) in
            let rest = delete_others_cells i names n d rest_trimmed (rw same at h) in
            rw same (rest ∙ ground (arith, e))
        | inr other ↦ elim (Result-cases (delete_proxy_state db proxy_json name d).1) [
          | inr (x, e) ↦ absurd (ground (arith, other, e, h))
          | inl (u, e) ↦
              let rest = delete_others_cells i names n d₁ rest_trimmed (rw (other, e) at h) in
              let gone : cell d₁ (interface_scope n) proxy_kv_key ≡ (
                  if name == trim_space n then none else cell d (interface_scope n) proxy_kv_key) =
                deleted name n d e ∙ rw (t name (ground (arith, ==_refl name))) refl in
              rw (other, e)
                (rest ∙ elim (Bool-cases (name == trim_space n)) [
                  | inl hit ↦
                      let kept : (trim_space n == i) ≡ false =
                        ap (λ z. z == i) (sym ((list_beq_iff name (trim_space n)).0 hit)) ∙ other in
                      rw (gone, hit, kept) (ground arith)
                  | inr miss ↦ rw (gone, miss) refl
                ])
        ]
      ]

  -- What a successful save has put.
  put_owner :
      (m i n : Text) (d : D)
      → (put_proxy db proxy_json m i d).1 ≡ ok tt
      → owner db laws proxy_json coded (put_proxy db proxy_json m i d).0 n ≡ (
          if trim_space i == trim_space n
          then some (trim_space m)
          else owner db laws proxy_json coded d n)
  unfolding put_proxy
  put_owner m i n d h =
      elim (entry_put db laws proxy_kv_key trim-proxy_kv_key not_empty proxy_json i
        (record { modem = m }) d) [
          | inr (x, e, kept) ↦ absurd (ground (arith, e, h))
          | inl (e, (v, coded', w)) ↦
              let here : cell
                    (put db proxy_json (interface_scope i) proxy_kv_key (record { modem = m }) d).0
                    (interface_scope n) proxy_kv_key
                  ≡ (if trim_space i == trim_space n
                      then some v
                      else cell d (interface_scope n) proxy_kv_key) =
                w n proxy_kv_key ∙ ground (arith, ==_refl proxy_kv_key) in
              ap (row_owner db laws proxy_json coded) here
              ∙ map_if (row_owner db laws proxy_json coded) (trim_space i == trim_space n) (some v)
                  _
              ∙ rw (coded.decodes _ coded') refl
        ]

  store_result-ok :
      {A : Type 0} (r : Result StoreError A) {a : A} → store_result r ≡ ok a → r ≡ ok a
  store_result-ok (ok a) h = ap ok (ok-injective h)
  store_result-ok (err e) h = cc

  -- What the list of a modem's interfaces is made of.
  interfaces_from :
      (m : Text) (d : D) (interfaces : List Text)
      → (trim_space m == []) ≡ false
      → proxy_interfaces_for_modem db proxy_json m d ≡ ok interfaces
      → (rows : List (Text × Text)) × (names : List Text) × (list_raw db interface_scope_prefix
            proxy_kv_key d
          ≡ ok rows)
        × (owned_interfaces db proxy_json (trim_space m) rows ≡ ok names)
        × (interfaces ≡ sort names)
  unfolding proxy_interfaces_for_modem
  interfaces_from m d interfaces named h =
      let (rows, r, k) =
        >>=-eq-ok (store_result (list_raw db interface_scope_prefix proxy_kv_key d)) _
          (rw named at h) in
      let (names, o, e) = >>=-eq-ok (owned_interfaces db proxy_json (trim_space m) rows) _ k in
      (rows, names, store_result-ok _ r, o, sym (ok-injective e))

  nested :
      (b c : Bool) (x y : Option Text)
      → (if b then x else if c && not b then none else y) ≡ (if b then x else if c then none else y)
  nested true c x y = refl
  nested false true x y = refl
  nested false false x y = refl

  take_owner :
      (m i n : Text) (d : D) (r : Result StateError (List Text))
      → Tidy db laws proxy_json coded d
      → trim_space i ≡ i
      → trim_space m ≡ m
      → (m == []) ≡ false
      → proxy_interfaces_for_modem db proxy_json m d ≡ r
      → (take_interface db proxy_json m i r d).1 ≡ ok tt
      → owner db laws proxy_json coded (take_interface db proxy_json m i r d).0 n ≡ (
          if i == trim_space n
          then some m
          else if is_owner m (owner db laws proxy_json coded d n)
          then none
          else owner db laws proxy_json coded d n)
  unfolding take_interface
  take_owner m i n d (err e) tidy ti tm named q h = cc
  take_owner m i n d (ok interfaces) tidy ti tm named q h =
      let d₁ : D = (delete_others db proxy_json i interfaces d).0 in
      let (rows, names, listed', collected, sorted) =
        interfaces_from m d interfaces (rw tm named) q in
      let collected' : owned_interfaces db proxy_json m rows ≡ ok names = rw tm at collected in
      elim (Result-cases (delete_others db proxy_json i interfaces d).1) [
        | inr (x, e) ↦ absurd (ground (arith, e, h))
        | inl (u, e) ↦
            let cleared : owner db laws proxy_json coded d₁ n ≡ (
                if is_owner m (owner db laws proxy_json coded d n) && not (trim_space n == i)
                then none
                else owner db laws proxy_json coded d n) =
              ap (row_owner db laws proxy_json coded) (
                delete_others_cells i interfaces n d
                  (rw sorted (λ x.
                    names_trimmed db laws proxy_json coded d tidy m rows listed' names x
                      collected'))
                  e)
              ∙ map_if (row_owner db laws proxy_json coded)
                  (holds (trim_space n) interfaces && not (trim_space n == i)) none
                  (cell d (interface_scope n) proxy_kv_key)
              ∙ rw
                  (
                    sorted,
                    holds-names db laws proxy_json coded d tidy m rows listed' names n collected',
                  )
                  refl in
            rw e (
              put_owner m i n d₁ (rw e at h)
              ∙ rw (ti, tm, cleared, beq_sym (trim_space n) i)
                  (nested (i == trim_space n) (is_owner m (owner db laws proxy_json coded d n))
                    (some m) (owner db laws proxy_json coded d n)))
      ]

  take_proxy-owner :
      (m i n : Text) (d : D) (r : Result StateError (Option ProxyStateEntry))
      → Tidy db laws proxy_json coded d
      → trim_space i ≡ i
      → trim_space m ≡ m
      → (m == []) ≡ false
      → (take_proxy db proxy_json m i r d).1 ≡ ok tt
      → ((entry : Option ProxyStateEntry) × (r ≡ ok entry)
          × (((proxy_owner entry == []) || (proxy_owner entry == m)) ≡ true))
        × (owner db laws proxy_json coded (take_proxy db proxy_json m i r d).0 n ≡ (
            if i == trim_space n
            then some m
            else if is_owner m (owner db laws proxy_json coded d n)
            then none
            else owner db laws proxy_json coded d n))
  unfolding take_proxy
  take_proxy-owner m i n d (err e) tidy ti tm named h = cc
  take_proxy-owner m i n d (ok entry) tidy ti tm named h =
      elim (Bool-cases (not (proxy_owner entry == []) && not (proxy_owner entry == m))) [
        | inl foreign ↦ absurd (ground (arith, foreign, h))
        | inr free ↦
            rw (free, named)
              (
                (entry, refl, ground (arith, free)),
                take_owner m i n d (proxy_interfaces_for_modem db proxy_json m d) tidy ti tm named
                    refl (rw (free, named) at h),
              )
      ]

  row_owner_text :
      (o : Option Text) (entry : Option ProxyStateEntry)
      → found (read_row db proxy_json (ok o)) ≡ ok entry
      → text_of (row_owner db laws proxy_json coded o) ≡ proxy_owner entry
  unfolding read_row
  row_owner_text none entry h = ap proxy_owner (ok-injective h)
  row_owner_text (some raw) entry h = decoded_text (proxy_json.unmarshal raw) entry h
    where
      decoded_text :
          (r : Result ℕ ProxyStateEntry) (entry : Option ProxyStateEntry)
          → found (decoded r) ≡ ok entry
          → text_of (owner_of r) ≡ proxy_owner entry
      decoded_text (ok a) entry h = ap proxy_owner (ok-injective h)
      decoded_text (err e) entry h = cc

  proxy_state-owner :
      (i : Text) (d : D) (entry : Option ProxyStateEntry)
      → proxy_state db proxy_json i d ≡ ok entry
      → text_of (owner db laws proxy_json coded d i) ≡ proxy_owner entry
  unfolding proxy_state
  proxy_state-owner i d entry h =
      elim (entry_get db laws proxy_kv_key trim-proxy_kv_key not_empty proxy_json i d) [
        | inl e ↦
            row_owner_text (cell d (interface_scope i) proxy_kv_key) entry (sym (ap found e) ∙ h)
        | inr (n, e) ↦ absurd (ground (arith, e, h))
      ]

  -- If the table holds proxy entries only where this code puts them, then a save that succeeds for a
  -- modem with a name takes a proxy that was the modem's own or nobody's, and gives up each other
  -- proxy of the modem. The proxies of all other modems keep their owners.
  pub save_proxy-owner :
      (m i n : Text) (d : D)
      → Tidy db laws proxy_json coded d
      → (trim_space m == []) ≡ false
      → (save_proxy_state_for_modem db proxy_json m i d).1 ≡ ok tt
      → (((text_of (owner db laws proxy_json coded d i) == [])
            || (text_of (owner db laws proxy_json coded d i) == trim_space m))
          ≡ true)
        × (owner db laws proxy_json coded (save_proxy_state_for_modem db proxy_json m i d).0 n ≡ (
            if trim_space i == trim_space n
            then some (trim_space m)
            else if is_owner (trim_space m) (owner db laws proxy_json coded d n)
            then none
            else owner db laws proxy_json coded d n))
  unfolding save_proxy_state_for_modem
  save_proxy-owner m i n d tidy named h = elim (Bool-cases (trim_space i == [])) [
    | inl e ↦ absurd (ground (arith, e, h))
    | inr e ↦
        let ((entry, read, free), after) =
          take_proxy-owner (trim_space m) (trim_space i) n d
            (proxy_state db proxy_json (trim_space i) d) tidy (trim_space_idem i)
            (trim_space_idem m) named (rw e at h) in
        let own : text_of (owner db laws proxy_json coded d i) ≡ proxy_owner entry =
          rw (← interface_scope-trim i) (proxy_state-owner (trim_space i) d entry read) in
        rw (e, own) (free, after)
  ]
