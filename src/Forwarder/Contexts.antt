-- ===== src/Forwarder/Contexts.antt =====
-- No context that internal/app/forwarder/relay.go makes is lost without its `cancel` being called.
use sigmo.Common.{
  ℕ, ◌<◌, ◌≡◌, refl, sym, ap, ◌∙◌, Bool, true, false, List, [], ◌∷◌, ◌++◌, Option, none, some, Text,
  Any, arith, ◌==◌, nat_equal, list_equal, list_beq_iff, Bool-cases, inl, inr, ◌⊎◌, Option-cases,
  Assoc, lookup, insert, delete, lookup-insert, lookup-delete, lookup-insert_self,
}
use mathlib.Core.Path.{subst}
use native.Mathlib.Decide.{ℕ_discrete}
use sigmo.Forwarder.{
  Relay, new_relay, call_cancel, drop_old, start_path, add_modem, remove_modem, values, stop_all,
}
use sigmo.Forwarder.Subscriptions.{Event, react, react_all}

abbrev pub Cancelled : ℕ → List ℕ → Type 0
Cancelled c = Any (λ x. x ≡ c)

-- The context is a path's, or was cancelled.
abbrev pub KeptOrCancelled : ℕ → Assoc Text ℕ → List ℕ → Type 0
KeptOrCancelled c cancels cancelled =
    ((p : Text) × (lookup p cancels ≡ some c)) ⊎ Cancelled c cancelled

abbrev pub NoLoss : Relay → Type 0
NoLoss r = (c : ℕ) → c < r.contexts → KeptOrCancelled c r.cancels r.cancelled

Cancelled-call_cancel :
    (c : ℕ) (o : Option ℕ) (cs : List ℕ) → Cancelled c cs → Cancelled c (call_cancel o cs)
Cancelled-call_cancel c none cs h = h
Cancelled-call_cancel c (some d) cs h = inr h

delete-KeptOrCancelled :
    (c : ℕ) (path : Text) (m : Assoc Text ℕ) (cs : List ℕ)
    → KeptOrCancelled c m cs
    → KeptOrCancelled c (delete path m) (call_cancel (lookup path m) cs)
delete-KeptOrCancelled c path m cs (inr h) = inr (Cancelled-call_cancel c (lookup path m) cs h)
delete-KeptOrCancelled c path m cs (inl (p, e)) = elim (Bool-cases (path == p)) [
  | inl same ↦ inr (
      subst (λ o. Cancelled c (call_cancel o cs))
        (sym (ap (λ q. lookup q m) ((list_beq_iff path p).0 same) ∙ e)) (inl refl))
  | inr other ↦ inl (p, lookup-delete path p m ∙ (rw other e))
]

drop_old-NoLoss : (path id : Text) (r : Relay) → NoLoss r → NoLoss (drop_old path id r)
unfolding drop_old
drop_old-NoLoss path id r h = elim (Bool-cases (id == [])) [
  | inl e ↦ rw e h
  | inr e ↦ elim (Option-cases (lookup id r.equipment)) [
    | inl none' ↦ rw (e, none') h
    | inr (existing, known) ↦ elim (Bool-cases (existing == path)) [
      | inl same ↦ rw (e, known, same) h
      | inr moved ↦
          rw (e, known, moved)
            (λ c lt. delete-KeptOrCancelled c existing r.cancels r.cancelled (h c lt))
    ]
  ]
]

start_path-NoLoss :
    (path id : Text) (r : Relay)
    → lookup path r.cancels ≡ none
    → NoLoss r
    → NoLoss (start_path path id r)
unfolding start_path
start_path-NoLoss path id r fresh h c lt = elim (ℕ_discrete r.contexts c) [
  | yes e ↦ inl (path, lookup-insert_self path r.contexts r.cancels ∙ ap some e)
  | no ne ↦ kept (h c (omega arith))
]
  where
    kept :
        KeptOrCancelled c r.cancels r.cancelled
        → KeptOrCancelled c (insert path r.contexts r.cancels) r.cancelled
    kept (inr done) = inr done
    kept (inl (p, e)) = inl (
      p,
      ground (arith, e, fresh, lookup-insert path p r.contexts r.cancels, list_beq_iff path p),
    )

add_modem-NoLoss :
    (done : Bool) (path id : Text) (r : Relay) → NoLoss r → NoLoss (add_modem done path id r)
unfolding add_modem
add_modem-NoLoss true path id r h = h
add_modem-NoLoss false path id r h =
    let r' : Relay = drop_old path id r in
    let h' : NoLoss r' = drop_old-NoLoss path id r h in
    elim (Option-cases (lookup path r'.cancels)) [
      | inr (c, e) ↦ rw e h'
      | inl e ↦ rw e (start_path-NoLoss path id r' e h')
    ]

remove_modem-NoLoss : (path : Text) (r : Relay) → NoLoss r → NoLoss (remove_modem path r)
unfolding remove_modem
remove_modem-NoLoss path r h = elim (Option-cases (lookup path r.modems)) [
  | inl e ↦
      rw (remove_modem, e) (λ c lt. delete-KeptOrCancelled c path r.cancels r.cancelled (h c lt))
  | inr (id, e) ↦
      rw (remove_modem, e) (λ c lt. delete-KeptOrCancelled c path r.cancels r.cancelled (h c lt))
]

Cancelled-values :
    (c : ℕ) (p : Text) (m : Assoc Text ℕ) (cs : List ℕ)
    → lookup p m ≡ some c
    → Cancelled c (values m ++ cs)
unfolding lookup
Cancelled-values c p [] cs h = cc
Cancelled-values c p ((k, v) ∷ m) cs h = elim (Bool-cases (k == p)) [
  | inl e ↦ inl (some-injective (sym (rw e refl) ∙ h))
  | inr e ↦ inr (Cancelled-values c p m cs (rw e at h))
]
  where
    some-injective : {a b : ℕ} → ◌≡◌ {A = Option ℕ} (some a) (some b) → a ≡ b
    some-injective q = cc

Cancelled-append : (c : ℕ) (xs cs : List ℕ) → Cancelled c cs → Cancelled c (xs ++ cs)
Cancelled-append c [] cs h = h
Cancelled-append c (x ∷ xs) cs h = inr (Cancelled-append c xs cs h)

stop_all-Cancelled :
    (r : Relay) → NoLoss r → (c : ℕ) → c < r.contexts → Cancelled c (stop_all r).cancelled
unfolding stop_all
stop_all-Cancelled r h c lt = elim (h c lt) [
  | inl (p, e) ↦ Cancelled-values c p r.cancels r.cancelled e
  | inr done ↦ Cancelled-append c (values r.cancels) r.cancelled done
]

react-NoLoss : (e : Event) (r : Relay) → NoLoss r → NoLoss (react e r)
react-NoLoss (Event.added done path id) r h = add_modem-NoLoss done path id r h
react-NoLoss (Event.removed path) r h = remove_modem-NoLoss path r h
react-NoLoss Event.stopped r h = unfold stop_all in λ c lt. inr (stop_all-Cancelled r h c lt)

react_all-NoLoss : (es : List Event) (r : Relay) → NoLoss r → NoLoss (react_all es r)
react_all-NoLoss [] r h = h
react_all-NoLoss (e ∷ es) r h = react_all-NoLoss es (react e r) (react-NoLoss e r h)

-- From a new relay, after any events, stopping the relay leaves no context that was ever made without
-- a call of its `cancel`.
pub stop_all_complete :
    (es : List Event) (c : ℕ)
    → c < (react_all es new_relay).contexts
    → Cancelled c (stop_all (react_all es new_relay)).cancelled
unfolding new_relay
stop_all_complete es c lt =
    stop_all-Cancelled (react_all es new_relay)
      (react_all-NoLoss es new_relay (λ d below. absurd (omega (arith, below)))) c lt
