-- ===== src/Internet/ConnectionState/Routes.antt =====
-- The saved routes of internal/pkg/internet/connection_state.go as a map from names to entries.
use sigmo.Common.{
  map_if, ℕ, ◌≡◌, refl, ap, ◌∙◌, Bool, true, false, List, [], Option, none, some, Text, arith, ◌==◌,
  nat_equal, list_equal, ==_refl, Result, ok, err, Bool-cases, inl, inr, ◌⊎◌, if◌then◌else◌,
  trim_space, trim_space_idem,
}
use sigmo.Internet.Route.{DefaultRoute}
use sigmo.Internet.Plan.{DefaultRouteChange}
use sigmo.Internet.RouteState.RoundTrip.{
  AddrTextLaws, AreRoutes, AreChanges, unmarshal-marshal_entry,
}
use sigmo.Internet.RouteState.{AddrText, RouteStateEntry, RawRouteState, route_entry_codec}
use sigmo.Internet.ConnectionState.{
  save_read, StateError, Saved, interface_name_empty, route_state_exists, store_failed,
  store_result, found, route_state, interface_scope, route_kv_key, put_route_state_for_modem,
  save_route_state_for_modem, delete_route_state,
}
use sigmo.Internet.ConnectionState.Cells.{
  interface_scope-trim, entry_get, entry_put, entry_delete, EntryWritten, trim-route_kv_key,
  keys_not_empty,
}
use sigmo.Storage.{decoded, Database, Codec, StoreError, put, read_row, decode_value, read_value}
use sigmo.Storage.Cells.{DatabaseLaws, CodecLaws}

-- The entry of a name: none, one that decodes, or one that does not.
abbrev pub Slot : Type 0
Slot = Option (Result ℕ RouteStateEntry)

abbrev pub RouteMap : Type 0
RouteMap = Text → Slot

pub data RouteCall : Type 0 where
  save_call put_call : Text → Text → List DefaultRoute → List DefaultRouteChange → RouteCall
  delete_call : Text → RouteCall

-- Gateways and sources are addresses or not set, as the type `netip.Addr` has it.
abbrev pub Sound : RouteCall → Type 0
Sound (save_call m i p c) = AreRoutes p × AreChanges c
Sound (put_call m i p c) = AreRoutes p × AreChanges c
Sound (delete_call i) = Unit

abbrev pub entry_of : Text → List DefaultRoute → List DefaultRouteChange → RouteStateEntry
entry_of modem_id preferred changes = record {
  modem = modem_id;
  preferred = preferred;
  changes = changes;
}

-- One name has a new slot, and the others have theirs.
abbrev pub Assigned : Text → Slot → RouteMap → RouteMap → Type 0
Assigned i slot s s' = (n : Text) → s' n ≡ (if trim_space i == trim_space n then slot else s n)

-- What a caller may rely on: a map from trimmed names to entries.
pub data RouteStep : RouteMap → RouteCall → Saved → RouteMap → Type 0 where
  saves :
      {s s' : RouteMap} (m i : Text) (p : List DefaultRoute) (c : List DefaultRouteChange)
      → s i ≡ none
      → (trim_space i == []) ≡ false
      → Assigned i (some (ok (entry_of m p c))) s s'
      → RouteStep s (save_call m i p c) (ok tt) s'
  puts :
      {s s' : RouteMap} (m i : Text) (p : List DefaultRoute) (c : List DefaultRouteChange)
      → (trim_space i == []) ≡ false
      → Assigned i (some (ok (entry_of m p c))) s s'
      → RouteStep s (put_call m i p c) (ok tt) s'
  removes :
      {s s' : RouteMap} (i : Text) → Assigned i none s s' → RouteStep s (delete_call i) (ok tt) s'
  keeps :
      {s s' : RouteMap} (m i : Text) (p : List DefaultRoute) (c : List DefaultRouteChange)
      {e : RouteStateEntry}
      → s i ≡ some (ok e)
      → ((n : Text) → s' n ≡ s n)
      → RouteStep s (save_call m i p c) (err route_state_exists) s'
  rejects_save :
      {s s' : RouteMap} (m i : Text) (p : List DefaultRoute) (c : List DefaultRouteChange)
      → (trim_space i == []) ≡ true
      → ((n : Text) → s' n ≡ s n)
      → RouteStep s (save_call m i p c) (err interface_name_empty) s'
  rejects_put :
      {s s' : RouteMap} (m i : Text) (p : List DefaultRoute) (c : List DefaultRouteChange)
      → (trim_space i == []) ≡ true
      → ((n : Text) → s' n ≡ s n)
      → RouteStep s (put_call m i p c) (err interface_name_empty) s'
  store_fails :
      {s s' : RouteMap} (call : RouteCall) (e : StoreError)
      → ((n : Text) → s' n ≡ s n)
      → RouteStep s call (err (store_failed e)) s'

module _ {D : Type 0} (db : Database D) (laws : DatabaseLaws db) (addr : AddrText)
    (shown : AddrTextLaws addr) (route_json : Codec RawRouteState)
    (coded : CodecLaws route_json) where
  open laws use {cell}

  abbrev json : Codec RouteStateEntry
  json = route_entry_codec addr route_json

  -- The slot that a row of the table stands for.
  abbrev pub slot_of : Option Text → Slot
  slot_of none = none
  slot_of (some raw) = some (json.unmarshal raw)

  abbrev pub view : D → RouteMap
  view d n = slot_of (cell d (interface_scope n) route_kv_key)

  -- The state changes by calls of three kinds.
  abbrev pub run : RouteCall → D → D × Saved
  run (save_call m i p c) d = save_route_state_for_modem db addr route_json m i p c d
  run (put_call m i p c) d = put_route_state_for_modem db addr route_json m i p c d
  run (delete_call i) d = delete_route_state db addr route_json i d

  named : (route_kv_key == []) ≡ false
  named = keys_not_empty.1

  -- The state that a row decodes to.
  abbrev pub found_slot : Slot → Result StateError (Option RouteStateEntry)
  found_slot none = ok none
  found_slot (some (ok e)) = ok (some e)
  found_slot (some (err x)) = err (store_failed (decode_value x))

  found-row_some :
      (raw : Text) (r : Result ℕ RouteStateEntry)
      → json.unmarshal raw ≡ r
      → found (read_row db json (ok (some raw))) ≡ found_slot (some r)
  unfolding read_row
  found-row_some raw (ok a) e = ap (λ r. found (decoded r)) e
  found-row_some raw (err x) e = ap (λ r. found (decoded r)) e

  found-row : (o : Option Text) → found (read_row db json (ok o)) ≡ found_slot (slot_of o)
  found-row none = unfold read_row in refl
  found-row (some raw) = found-row_some raw (json.unmarshal raw) refl

  -- Reading a slot, or failing to.
  pub read_slot :
      (i : Text) (d : D)
      → (route_state db addr route_json i d ≡ found_slot (view d i))
        ⊎ ((n : ℕ) × (route_state db addr route_json i d ≡ err (store_failed (read_value n))))
  unfolding route_state
  read_slot i d = elim (entry_get db laws route_kv_key trim-route_kv_key named json i d) [
    | inl e ↦ inl (ap found e ∙ found-row (cell d (interface_scope i) route_kv_key))
    | inr (n, e) ↦ inr (n, ap found e)
  ]

  assigned :
      (i : Text) (v : Option Text) (d d' : D)
      → EntryWritten db laws route_kv_key trim-route_kv_key named i v d d'
      → Assigned i (slot_of v) (view d) (view d')
  assigned i v d d' w n =
      let same : Bool = trim_space i == trim_space n in
      let here : cell d' (interface_scope n) route_kv_key
          ≡ (if same then v else cell d (interface_scope n) route_kv_key) =
        w n route_kv_key ∙ ground (arith, ==_refl route_kv_key) in
      ap slot_of here ∙ map_if slot_of same v (cell d (interface_scope n) route_kv_key)

  -- A call that puts an entry assigns it, or the store fails and nothing changes.
  abbrev Puts : Text → RouteStateEntry → D → D × Saved → Type 0
  Puts i entry d r =
      ((r.1 ≡ ok tt) × Assigned i (some (ok entry)) (view d) (view r.0))
      ⊎ ((e : StoreError) × (r.1 ≡ err (store_failed e)) × ((n : Text) → view r.0 n ≡ view d n))

  -- The end of `putRouteStateForModem`.
  abbrev put_entry : Text → RouteStateEntry → D → D × Saved
  put_entry i entry d =
      let (d', r) = put db json (interface_scope (trim_space i)) route_kv_key entry d in
      (d', store_result r)

  put_entry-Puts :
      (i : Text) (entry : RouteStateEntry) (d : D)
      → AreRoutes entry.preferred
      → AreChanges entry.changes
      → Puts i entry d (put_entry i entry d)
  put_entry-Puts i entry d hp hc =
      let d' : D = (put_entry i entry d).0 in
      elim (entry_put db laws route_kv_key trim-route_kv_key named json (trim_space i) entry d) [
        | inl (e, (v, m, w)) ↦ inl (
          ap store_result e,
          λ n.
              assigned (trim_space i) (some v) d d' w n
              ∙ rw
                  (
                    trim_space_idem i,
                    unmarshal-marshal_entry addr shown route_json coded entry v hp hc m,
                  )
                  refl,
        )
        | inr (x, e, kept) ↦
            inr (x, ap store_result e, λ n. ap slot_of (kept (interface_scope n) route_kv_key))
      ]

  put_step :
      (m i : Text) (p : List DefaultRoute) (c : List DefaultRouteChange) (d : D)
      → (trim_space i == []) ≡ false
      → put_route_state_for_modem db addr route_json m i p c d ≡ put_entry i (entry_of m p c) d
  unfolding put_route_state_for_modem
  put_step m i p c d h = rw h refl

  delete_step :
      (i : Text) (d : D)
      → let r = delete_route_state db addr route_json i d in
        ((r.1 ≡ ok tt) × Assigned i none (view d) (view r.0))
        ⊎ ((e : StoreError) × (r.1 ≡ err (store_failed e)) × ((n : Text) → view r.0 n ≡ view d n))
  unfolding delete_route_state
  delete_step i d = elim (entry_delete db laws route_kv_key trim-route_kv_key named i d) [
    | inl (e, w) ↦ inl (ap store_result e, assigned i none d _ w)
    | inr (x, e, kept) ↦
        inr (x, ap store_result e, λ n. ap slot_of (kept (interface_scope n) route_kv_key))
  ]

  trimmed_named :
      (i : Text) → (trim_space i == []) ≡ false → (trim_space (trim_space i) == []) ≡ false
  trimmed_named i h = rw (trim_space_idem i) h

  -- What a step has done to the map.
  save_step :
      (m i : Text) (p : List DefaultRoute) (c : List DefaultRouteChange) (d : D) (slot : Slot)
      → (trim_space i == []) ≡ false
      → view d i ≡ slot
      → AreRoutes p
      → AreChanges c
      → let r = save_read db addr route_json m (trim_space i) p c (found_slot slot) d in
        RouteStep (view d) (save_call m i p c) r.1 (view r.0)
  unfolding save_read
  save_step m i p c d none h e hp hc =
      let put' : Puts (trim_space i) (entry_of m p c) d
          (put_route_state_for_modem db addr route_json m (trim_space i) p c d) =
        rw (put_step m (trim_space i) p c d (trimmed_named i h))
          (put_entry-Puts (trim_space i) (entry_of m p c) d hp hc) in
      elim put' [
        | inl (done, a) ↦ rw done (saves m i p c e h (λ n. a n ∙ rw (trim_space_idem i) refl))
        | inr (x, fails, kept) ↦ rw fails (store_fails (save_call m i p c) x kept)
      ]
  save_step m i p c d (some (ok entry)) h e hp hc = keeps m i p c e (λ n. refl)
  save_step m i p c d (some (err x)) h e hp hc =
      store_fails (save_call m i p c) (decode_value x) (λ n. refl)

  -- Every call that changes the saved routes, with gateways and sources that are addresses or not set,
  -- is a step of the map from trimmed names to entries that `RouteStep` describes.
  pub run-RouteStep :
      (call : RouteCall) (d : D)
      → Sound call
      → RouteStep (view d) call (run call d).1 (view (run call d).0)
  unfolding save_route_state_for_modem
  run-RouteStep (save_call m i p c) d (hp, hc) = elim (Bool-cases (trim_space i == [])) [
    | inl e ↦ rw e (rejects_save m i p c e (λ n. refl))
    | inr h ↦ elim (read_slot (trim_space i) d) [
      | inl e ↦ rw (h, e, interface_scope-trim i) (save_step m i p c d (view d i) h refl hp hc)
      | inr (x, e) ↦
          rw (h, e) (unfold save_read in store_fails (save_call m i p c) (read_value x) (λ n. refl))
    ]
  ]
  run-RouteStep (put_call m i p c) d (hp, hc) = elim (Bool-cases (trim_space i == [])) [
    | inl e ↦ unfold put_route_state_for_modem in rw e (rejects_put m i p c e (λ n. refl))
    | inr h ↦ rw (put_step m i p c d h) (elim (put_entry-Puts i (entry_of m p c) d hp hc) [
      | inl (done, a) ↦ rw done (puts m i p c h a)
      | inr (x, fails, kept) ↦ rw fails (store_fails (put_call m i p c) x kept)
    ])
  ]
  run-RouteStep (delete_call i) d hs = elim (delete_step i d) [
    | inl (done, a) ↦ rw done (removes i a)
    | inr (x, fails, kept) ↦ rw fails (store_fails (delete_call i) x kept)
  ]
