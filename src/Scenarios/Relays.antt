-- ===== src/Scenarios/Relays.antt =====
-- Runs of internal/app/forwarder/relay.go: a modem that moves to another path, a call, a message.
use sigmo.Common.{
  ◌+◌, ℕ, ◌<◌, ◌≤◌, ◌≡◌, refl, Bool, true, false, not, List, [], ◌∷◌, none, some, Text, codes,
  arith, ◌==◌, nat_equal, list_equal, Result, ok, list_beq, lookup, insert, delete, trim_space,
}
use sigmo.Forwarder.{new_relay, add_modem, remove_modem, drop_old, start_path, stop_all}
use sigmo.Forwarder.Subscriptions.{Event, react_all, Consistent, react_all-Consistent}
use sigmo.Forwarder.Contexts.{Cancelled, stop_all_complete}
use sigmo.Common.{to_lower}
use sigmo.Notify.{Notifier, send_event, is_fine}
use sigmo.Forwarder.Notices.{
  Message, Call, fresh_incoming_message, fresh_incoming_call, format_stored_call,
  format_stored_message, forward_call, forward_routed_sms, call_direction_incoming,
  call_state_ringing,
}
use sigmo.Forwarder.Notices.Once.{
  Attempt, notices, has_reached, has_failed, forward_call-once, forward_call-retries,
  forward_routed_sms-once,
}

abbrev moves : List Event
moves =
    Event.added false (codes "/1") (codes "imei")
    ∷ Event.added false (codes "/2") (codes "imei")
    ∷ Event.removed (codes "/1")
    ∷ []

react_all-Consistent_example : Consistent (react_all moves new_relay)
react_all-Consistent_example = react_all-Consistent moves

moved_twice : (react_all moves new_relay).contexts ≡ 2
unfolding add_modem remove_modem drop_old start_path lookup insert delete list_beq new_relay
moved_twice = refl

two_contexts : 0 < (react_all moves new_relay).contexts
two_contexts = omega (arith, moved_twice)

stop_all_complete_example : Cancelled 0 (stop_all (react_all moves new_relay)).cancelled
stop_all_complete_example = stop_all_complete moves 0 two_contexts

abbrev ringing : Call
ringing = record {
  id = codes " c1";
  modem_id = codes "imei";
  direction = call_direction_incoming;
  number = codes "123";
  state = call_state_ringing;
  started_at = some 1000;
  updated_at = none;
}

abbrev no_alias : Text → Text
no_alias id = []

-- Two channels, of which the second does not accept anything, or both do.
abbrev half_deaf : Notifier
half_deaf = record { channels = codes "bark" ∷ codes "sc3" ∷ []; accepts = λ t. t == codes "bark" }

abbrev healthy : Notifier
healthy = record { channels = codes "bark" ∷ codes "sc3" ∷ []; accepts = λ t. true }

abbrev attempts : List Attempt
attempts =
    record { call = ringing; now = 2000; notifier = half_deaf }
    ∷ record { call = ringing; now = 3000; notifier = healthy }
    ∷ record { call = ringing; now = 4000; notifier = healthy }
    ∷ []

c1_named : (codes "c1" == []) ≡ false
unfolding list_beq
c1_named = refl

unnoticed : lookup (trim_space ringing.id) new_relay.notified_calls ≡ none
unfolding new_relay lookup
unnoticed = refl

forward_call-once_example :
    (notices no_alias (codes "c1") is_fine attempts new_relay ≤ 1)
    × ((channel : Text)
        → notices no_alias (codes "c1") (has_reached channel) attempts new_relay
          ≤ 1 + notices no_alias (codes "c1") has_failed attempts new_relay)
forward_call-once_example = forward_call-once no_alias (codes "c1") attempts new_relay c1_named

deaf : is_fine (send_event half_deaf []) ≡ false
unfolding is_fine send_event to_lower list_beq
deaf = refl

ringing_fresh : (now : ℕ) → now ≤ 1000000 → fresh_incoming_call ringing now ≡ true
unfolding fresh_incoming_call list_beq
ringing_fresh now h = ground arith

forward_call-retries_example :
    (forward_call no_alias ringing 3000 healthy
      (forward_call no_alias ringing 2000 half_deaf new_relay).0).1
    ≡ some (format_stored_call no_alias ringing, send_event healthy [])
forward_call-retries_example =
    forward_call-retries no_alias ringing 2000 3000 half_deaf healthy new_relay
      (ringing_fresh 2000 (omega arith)) (ringing_fresh 3000 (omega arith)) unnoticed deaf

abbrev hello : Message
hello = record {
  modem_id = codes "imei";
  profile_id = [];
  source = codes "modem";
  external_key = codes "/sms/1";
  sender = codes "123";
  recipient = [];
  text = codes "hi";
  timestamp = none;
  status = codes "received";
  incoming = true;
}

-- A store that knows whether the message is there.
unfoldable insert_once : Message → Bool → Bool × Result ℕ Bool
insert_once m known = (true, ok (not known))

insert_once_known :
    (k : Bool)
    → (insert_once hello k).1 ≡ ok true
    → (insert_once hello (insert_once hello k).0).1 ≡ ok false
unfolding insert_once
insert_once_known k h = refl

hello_sent :
    (forward_routed_sms insert_once no_alias (codes "imei") hello 5 false).1
    ≡ ok (some (format_stored_message no_alias (codes "imei") hello))
unfolding forward_routed_sms insert_once fresh_incoming_message
hello_sent = refl

forward_routed_sms-once_example :
    (forward_routed_sms insert_once no_alias
      (codes "imei")
      hello
      9
      (forward_routed_sms insert_once no_alias (codes "imei") hello 5 false).0).1
    ≡ ok none
forward_routed_sms-once_example =
    forward_routed_sms-once insert_once no_alias (codes "imei") hello 5 9 false insert_once_known
      hello_sent
