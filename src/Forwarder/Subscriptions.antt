-- ===== src/Forwarder/Subscriptions.antt =====
-- Over any events, the maps of internal/app/forwarder/relay.go agree, and no context is lost.
use sigmo.Common.{
  ◌≡◌, ◌≢◌, Bool, true, false, List, [], ◌∷◌, none, some, Text, arith, ◌==◌, nat_equal, list_equal,
  list_beq_iff, Bool-cases, inl, inr, ◌⊎◌, Option-cases, lookup, lookup-insert, lookup-delete,
  lookup-delete_self,
}
use sigmo.Forwarder.{
  Relay, new_relay, forget_path, drop_old, start_path, add_modem, remove_modem, stop_all,
}

-- What can happen to the relay's subscriptions.
pub data Event : Type 0 where
  added : Bool → Text → Text → Event
  removed : Text → Event
  stopped : Event

abbrev pub react : Event → Relay → Relay
react (added done path id) r = add_modem done path id r
react (removed path) r = remove_modem path r
react stopped r = stop_all r

abbrev pub react_all : List Event → Relay → Relay
react_all [] r = r
react_all (e ∷ es) r = react_all es (react e r)

-- Paths and equipment belong to each other, and a path with equipment has a subscription.
pub record Consistent (r : Relay) : Type 0 where
  pub forth : (id p : Text) → lookup id r.equipment ≡ some p → lookup p r.modems ≡ some id
  pub back : (p id : Text) → lookup p r.modems ≡ some id → lookup id r.equipment ≡ some p
  pub running : (p id : Text) → lookup p r.modems ≡ some id → lookup p r.cancels ≢ none

forget_path-Consistent :
    (existing id : Text) (r : Relay)
    → lookup id r.equipment ≡ some existing
    → Consistent r
    → Consistent (forget_path existing id r)
forget_path-Consistent existing id r e h = record {
  forth = λ i p q. ground (
    arith,
    e,
    h.forth i p,
    h.forth id existing,
    h.back existing id,
    lookup-delete id i r.equipment,
    lookup-delete existing p r.modems,
    list_beq_iff id i,
    list_beq_iff existing p,
  );
  back = λ p i q. ground (
    arith,
    e,
    h.back p i,
    h.forth id existing,
    lookup-delete id i r.equipment,
    lookup-delete existing p r.modems,
    list_beq_iff id i,
    list_beq_iff existing p,
  );
  running = λ p i q.
      ground (
        arith,
        h.running p i,
        lookup-delete existing p r.modems,
        lookup-delete existing p r.cancels,
      );
}

-- The path has no subscription, and the equipment no path.
start_path-Consistent :
    (path id : Text) (r : Relay)
    → lookup path r.cancels ≡ none
    → (lookup id r.equipment ≡ none) ⊎ ((id == []) ≡ true)
    → Consistent r
    → Consistent (start_path path id r)
unfolding start_path
start_path-Consistent path id r fresh unknown h = record {
  forth = λ i p q. ground (
    arith,
    fresh,
    unknown,
    h.forth i p,
    h.running p i,
    lookup-insert id i path r.equipment,
    lookup-insert path p id r.modems,
    list_beq_iff id i,
    list_beq_iff path p,
  );
  back = λ p i q. ground (
    arith,
    fresh,
    unknown,
    h.back p i,
    lookup-insert id i path r.equipment,
    lookup-insert path p id r.modems,
    list_beq_iff id i,
    list_beq_iff path p,
  );
  running = λ p i q. ground (
    arith,
    h.running p i,
    lookup-insert path p id r.modems,
    lookup-insert path p r.contexts r.cancels,
    list_beq_iff path p,
  );
}

drop_old-Consistent : (path id : Text) (r : Relay) → Consistent r → Consistent (drop_old path id r)
unfolding drop_old
drop_old-Consistent path id r h = elim (Bool-cases (id == [])) [
  | inl e ↦ rw e h
  | inr e ↦ elim (Option-cases (lookup id r.equipment)) [
    | inl none' ↦ rw (e, none') h
    | inr (existing, known) ↦ elim (Bool-cases (existing == path)) [
      | inl same ↦ rw (e, known, same) h
      | inr moved ↦ rw (e, known, moved) (forget_path-Consistent existing id r known h)
    ]
  ]
]

-- Afterwards the equipment is known under this path, or not at all.
drop_old-path :
    (path id : Text) (r : Relay)
    → ((lookup id (drop_old path id r).equipment ≡ none)
        ⊎ (lookup id (drop_old path id r).equipment ≡ some path))
      ⊎ ((id == []) ≡ true)
unfolding drop_old
drop_old-path path id r = elim (Bool-cases (id == [])) [
  | inl e ↦ inr e
  | inr e ↦ elim (Option-cases (lookup id r.equipment)) [
    | inl none' ↦ inl (inl (rw (e, none') none'))
    | inr (existing, known) ↦ elim (Bool-cases (existing == path)) [
      | inl same ↦ inl (inr (ground (arith, e, known, same, list_beq_iff existing path)))
      | inr moved ↦ inl (inl (ground (arith, e, known, moved, lookup-delete_self id r.equipment)))
    ]
  ]
]

add_modem-Consistent :
    (done : Bool) (path id : Text) (r : Relay)
    → Consistent r
    → Consistent (add_modem done path id r)
unfolding add_modem
add_modem-Consistent true path id r h = h
add_modem-Consistent false path id r h =
    let r' : Relay = drop_old path id r in
    let h' : Consistent r' = drop_old-Consistent path id r h in
    elim (Option-cases (lookup path r'.cancels)) [
      | inr (c, e) ↦ rw e h'
      | inl e ↦
          rw e (start_path-Consistent path id r' e (unknown r' h' e (drop_old-path path id r)) h')
    ]
  where
    unknown :
        (r' : Relay)
        → Consistent r'
        → lookup path r'.cancels ≡ none
        → ((lookup id r'.equipment ≡ none) ⊎ (lookup id r'.equipment ≡ some path))
          ⊎ ((id == []) ≡ true)
        → (lookup id r'.equipment ≡ none) ⊎ ((id == []) ≡ true)
    unknown r' h' e (inr i) = inr i
    unknown r' h' e (inl (inl n)) = inl n
    unknown r' h' e (inl (inr k)) = absurd (h'.running path id (h'.forth id path k) e)

remove_modem-Consistent :
    (path : Text) (r : Relay) → Consistent r → Consistent (remove_modem path r)
unfolding remove_modem
remove_modem-Consistent path r h = elim (Option-cases (lookup path r.modems)) [
  | inl e ↦
      rw (remove_modem, e)
        (record {
          forth = h.forth;
          back = h.back;
          running = λ p i q.
              ground (arith, e, h.running p i, lookup-delete path p r.cancels, list_beq_iff path p);
        })
  | inr (id, e) ↦
      rw (remove_modem, e)
        (record {
          forth = λ i p q. ground (
            arith,
            e,
            h.forth i p,
            h.back path id,
            lookup-delete id i r.equipment,
            lookup-delete path p r.modems,
            list_beq_iff id i,
            list_beq_iff path p,
          );
          back = λ p i q. ground (
            arith,
            e,
            h.back p i,
            h.back path id,
            h.forth id p,
            lookup-delete id i r.equipment,
            lookup-delete path p r.modems,
            list_beq_iff id i,
            list_beq_iff path p,
          );
          running = λ p i q. ground (
            arith,
            e,
            h.running p i,
            lookup-delete path p r.modems,
            lookup-delete path p r.cancels,
          );
        })
]

stop_all-Consistent : (r : Relay) → Consistent (stop_all r)
unfolding stop_all lookup
stop_all-Consistent r = record { forth = λ i p q. cc; back = λ p i q. cc; running = λ p i q. cc }

react-Consistent : (e : Event) (r : Relay) → Consistent r → Consistent (react e r)
react-Consistent (added done path id) r h = add_modem-Consistent done path id r h
react-Consistent (removed path) r h = remove_modem-Consistent path r h
react-Consistent stopped r h = stop_all-Consistent r

react_all-Consistent_from :
    (es : List Event) (r : Relay) → Consistent r → Consistent (react_all es r)
react_all-Consistent_from [] r h = h
react_all-Consistent_from (e ∷ es) r h =
    react_all-Consistent_from es (react e r) (react-Consistent e r h)

new_relay-Consistent : Consistent new_relay
unfolding new_relay lookup
new_relay-Consistent = record { forth = λ i p q. cc; back = λ p i q. cc; running = λ p i q. cc }

-- From a new relay, over any modems that come, move, go and end in any order, equipment and paths
-- belong to each other one to one, and every path with equipment has a subscription that runs.
pub react_all-Consistent : (es : List Event) → Consistent (react_all es new_relay)
react_all-Consistent es = react_all-Consistent_from es new_relay new_relay-Consistent
