-- ===== src/Internet/ConnectionState.antt =====
-- The kept connection state: internal/pkg/internet/connection_state.go over the key-value table.
pub mod Cells
pub mod Routes
pub mod Proxies
pub mod Crash
use sigmo.Common.{
  ℕ, ◌+◌, Bool, true, false, not, ◌&&◌, ◌||◌, List, [], ◌∷◌, ◌++◌, Option, none, some, Text, codes,
  length, drop, ltb, ◌==◌, nat_equal, list_equal, Result, ok, err, ◌>>=◌, ◌>>◌, if◌then◌else◌,
  trim_space, has_prefix,
}
use sigmo.Internet.Route.{DefaultRoute}
use sigmo.Internet.Plan.{DefaultRouteChange}
use sigmo.Internet.Takeover.{Errors, failed, RouteStateOps}
use sigmo.Internet.Stale.{SavedRouteState}
use sigmo.Internet.RouteState.{AddrText, RouteStateEntry, RawRouteState, route_entry_codec}
use sigmo.Storage.{Database, Codec, StoreError, not_found, put, get, delete_row, list_raw}

abbrev pub interface_scope_prefix : Text
interface_scope_prefix = codes "interface:"

abbrev pub proxy_kv_key : Text
proxy_kv_key = codes "internet.proxy"

abbrev pub route_kv_key : Text
route_kv_key = codes "internet.route"

pub data StateError : Type 0 where
  interface_name_empty route_state_exists : StateError
  proxy_belongs_to : Text → StateError
  decode_state : ℕ → StateError
  store_failed : StoreError → StateError

abbrev pub Saved : Type 0
Saved = Result StateError (Unit {0})

-- `proxyStateEntry` has the one field `Modem`.
pub record ProxyStateEntry : Type 0 where
  pub modem : Text

unfoldable pub interface_scope : Text → Text
interface_scope interface_name = interface_scope_prefix ++ trim_space interface_name

-- `strings.TrimPrefix`
unfoldable pub trim_prefix : Text → Text → Text
trim_prefix s prefix = if has_prefix s prefix then drop (length prefix) s else s

abbrev pub store_result : {A : Type 0} → Result StoreError A → Result StateError A
store_result (ok a) = ok a
store_result (err e) = err (store_failed e)

-- `errors.Is(err, storage.ErrNotFound)` is the zero entry and false.
abbrev pub found : {A : Type 0} → Result StoreError A → Result StateError (Option A)
found (ok a) = ok (some a)
found (err not_found) = ok none
found (err e) = err (store_failed e)

-- The text that owns an entry, if there is one.
abbrev pub proxy_owner : Option ProxyStateEntry → Text
proxy_owner none = []
proxy_owner (some entry) = trim_space entry.modem

-- The error as the takeover sees it, numbered by its kind.
abbrev pub state_error_number : StateError → ℕ
state_error_number interface_name_empty = 0
state_error_number route_state_exists = 1
state_error_number (proxy_belongs_to owner) = 2
state_error_number (decode_state e) = 3
state_error_number (store_failed e) = 4

abbrev pub state_errors : Saved → Errors
state_errors (ok u) = []
state_errors (err e) = failed (state_error_number e) ∷ []

-- `slices.Sort` on strings: byte order.
unfoldable pub text_le : Text → Text → Bool
text_le [] t = true
text_le (c ∷ s) [] = false
text_le (c ∷ s) (d ∷ t) = ltb c d || ((c == d) && text_le s t)

unfoldable pub sort_insert : Text → List Text → List Text
sort_insert x [] = x ∷ []
sort_insert x (y ∷ ys) = let rest = sort_insert x ys in if text_le x y then x ∷ y ∷ ys else y ∷ rest

unfoldable pub sort : List Text → List Text
sort [] = []
sort (x ∷ xs) = sort_insert x (sort xs)

-- `if err != nil { return err }`, after a call that changed the state.
abbrev pub continue_with : {D : Type 0} → Saved → D → D × Saved → D × Saved
continue_with (err e) d rest = (d, err e)
continue_with (ok u) d rest = rest

-- The proxy states, with the store and the JSON of an entry.
module _ {D : Type 0} (db : Database D) (proxy_json : Codec ProxyStateEntry) where
  unfoldable pub proxy_state : Text → D → Result StateError (Option ProxyStateEntry)
  proxy_state interface_name d =
      found (get db proxy_json (interface_scope interface_name) proxy_kv_key d)

  unfoldable pub delete_proxy_state : Text → D → D × Saved
  delete_proxy_state interface_name d =
      let (d', r) = delete_row db (interface_scope interface_name) proxy_kv_key d in
      (d', store_result r)

  -- One row of the loop of `proxyInterfacesForModem`, with what the others give.
  unfoldable pub add_owned :
      Text
      → Text
      → Result ℕ ProxyStateEntry
      → Result StateError (List Text)
      → Result StateError (List Text)
  add_owned modem_id scope (err e) rest = err (decode_state e)
  add_owned modem_id scope (ok entry) rest =
      if trim_space entry.modem == modem_id
      then rest >>= (λ names. ok (trim_prefix scope interface_scope_prefix ∷ names))
      else rest

  unfoldable pub owned_interfaces : Text → List (Text × Text) → Result StateError (List Text)
  owned_interfaces modem_id [] = ok []
  owned_interfaces modem_id ((scope, value) ∷ rows) =
      add_owned modem_id scope (proxy_json.unmarshal value) (owned_interfaces modem_id rows)

  unfoldable pub proxy_interfaces_for_modem : Text → D → Result StateError (List Text)
  proxy_interfaces_for_modem modem_id d =
      let m = trim_space modem_id in
      if m == []
      then ok []
      else store_result (list_raw db interface_scope_prefix proxy_kv_key d) >>= λ rows.
          owned_interfaces m rows >>= λ names. ok (sort names)

  -- The loop of `saveProxyStateForModem` that gives up the modem's other interfaces.
  unfoldable pub delete_others : Text → List Text → D → D × Saved
  delete_others interface_name [] d = (d, ok tt)
  delete_others interface_name (name ∷ names) d =
      let (d₁, r) = delete_proxy_state name d in
      let skip = delete_others interface_name names d in
      let rest = delete_others interface_name names d₁ in
      if name == interface_name then skip else continue_with r d₁ rest

  unfoldable pub put_proxy : Text → Text → D → D × Saved
  put_proxy modem_id interface_name d =
      let (d', r) =
        put db proxy_json (interface_scope interface_name) proxy_kv_key
          (record { modem = modem_id }) d in
      (d', store_result r)

  -- The modem's other interfaces are given up before the entry is put.
  unfoldable pub take_interface : Text → Text → Result StateError (List Text) → D → D × Saved
  take_interface modem_id i (err e) d = (d, err e)
  take_interface modem_id i (ok interfaces) d =
      let (d₁, r) = delete_others i interfaces d in
      let (d₂, saved) = put_proxy modem_id i d₁ in continue_with r d₁ (d₂, saved)

  -- From the test of the owner on, with what `proxyState` answered.
  unfoldable pub take_proxy :
      Text → Text → Result StateError (Option ProxyStateEntry) → D → D × Saved
  take_proxy modem_id i (err e) d = (d, err e)
  take_proxy modem_id i (ok entry) d =
      let owner = proxy_owner entry in
      if not (owner == []) && not (owner == modem_id)
      then (d, err (proxy_belongs_to owner))
      else if modem_id == []
      then put_proxy modem_id i d
      else take_interface modem_id i (proxy_interfaces_for_modem modem_id d) d

  unfoldable pub save_proxy_state_for_modem : Text → Text → D → D × Saved
  save_proxy_state_for_modem modem_id interface_name d =
      let m = trim_space modem_id in
      let i = trim_space interface_name in
      if i == [] then (d, err interface_name_empty) else take_proxy m i (proxy_state i d) d

  -- Both Boolean results of the source are the same one.
  unfoldable pub load_proxy_state_for_modem : Text → Text → D → Result StateError Bool
  load_proxy_state_for_modem modem_id interface_name d = proxy_state interface_name d >>= λ o.
      elim o [
        | none ↦ ok false
        | some entry ↦
            let owner = trim_space entry.modem in
            ok ((owner == []) || (owner == trim_space modem_id))
      ]

-- The route states, with the store, the texts of addresses, and the JSON of the plain structs.
module _ {D : Type 0} (db : Database D) (addr : AddrText) (route_json : Codec RawRouteState) where
  unfoldable pub route_state : Text → D → Result StateError (Option RouteStateEntry)
  route_state interface_name d =
      found
        (get db (route_entry_codec addr route_json) (interface_scope interface_name) route_kv_key d)

  unfoldable pub put_route_state_for_modem :
      Text → Text → List DefaultRoute → List DefaultRouteChange → D → D × Saved
  put_route_state_for_modem modem_id interface_name preferred changes d =
      let i = trim_space interface_name in
      let entry : RouteStateEntry = record {
        modem = modem_id;
        preferred = preferred;
        changes = changes;
      } in
      let (d', r) =
        put db (route_entry_codec addr route_json) (interface_scope i) route_kv_key entry d in
      if i == [] then (d, err interface_name_empty) else (d', store_result r)

  -- The rest of a save, with what `routeState` answered.
  unfoldable pub save_read :
      Text
      → Text
      → List DefaultRoute
      → List DefaultRouteChange
      → Result StateError (Option RouteStateEntry)
      → D
      → D × Saved
  save_read modem_id i preferred changes (err e) d = (d, err e)
  save_read modem_id i preferred changes (ok (some entry)) d = (d, err route_state_exists)
  save_read modem_id i preferred changes (ok none) d =
      put_route_state_for_modem modem_id i preferred changes d

  unfoldable pub save_route_state_for_modem :
      Text → Text → List DefaultRoute → List DefaultRouteChange → D → D × Saved
  save_route_state_for_modem modem_id interface_name preferred changes d =
      let i = trim_space interface_name in
      if i == []
      then (d, err interface_name_empty)
      else save_read modem_id i preferred changes (route_state i d) d

  unfoldable pub load_route_state_for_modem :
      Text → Text → D → Result StateError (Option (List DefaultRouteChange))
  load_route_state_for_modem modem_id interface_name d = route_state interface_name d >>= λ o.
      elim o [
        | none ↦ ok none
        | some entry ↦
            let owner = trim_space entry.modem in
            ok (
              if not (owner == []) && not (owner == trim_space modem_id)
              then none
              else some entry.changes)
      ]

  unfoldable pub saved_states :
      List (Text × Text) → Result StateError (List (Text × SavedRouteState))
  saved_states [] = ok []
  saved_states ((scope, value) ∷ rows) =
      let rest = saved_states rows in
      let name = trim_prefix scope interface_scope_prefix in
      elim ((route_entry_codec addr route_json).unmarshal value) [
        | err e ↦ err (decode_state e)
        | ok entry ↦
            let state : SavedRouteState = record {
              modem_id = entry.modem;
              preferred = entry.preferred;
              changes = entry.changes;
            } in
            rest >>= (λ states. ok ((name, state) ∷ states))
      ]

  unfoldable pub load_all_route_states : D → Result StateError (List (Text × SavedRouteState))
  load_all_route_states d =
      store_result (list_raw db interface_scope_prefix route_kv_key d) >>= saved_states

  unfoldable pub delete_route_state : Text → D → D × Saved
  delete_route_state interface_name d =
      let (d', r) = delete_row db (interface_scope interface_name) route_kv_key d in
      (d', store_result r)

  -- `connectionStateStore` as a takeover calls it.
  unfoldable pub route_state_ops : RouteStateOps D
  route_state_ops = record {
    save_route_state = λ modem_id interface_name preferred changes d.
        let (d', r) = save_route_state_for_modem modem_id interface_name preferred changes d in
        (d', state_errors r);
    delete_route_state = λ interface_name d.
        let (d', r) = delete_route_state interface_name d in (d', state_errors r);
  }
