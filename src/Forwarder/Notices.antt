-- ===== src/Forwarder/Notices.antt =====
-- internal/app/forwarder/relay.go: which messages and calls the relay hands to the notifier. What
-- internal/pkg/storage answers is an argument, and so is the alias of a modem.
pub mod Once
use sigmo.Common.{
  ℕ, ◌+◌, ◌-◌, ◌*◌, Bool, true, false, not, ◌||◌, [], Option, none, some, Text, codes, leb, ◌==◌,
  nat_equal, list_equal, Result, ok, err, if◌then◌else◌, lookup, insert, delete, trim_space,
}
use sigmo.Notify.{Notifier, Delivery, send_event, is_fine}
use sigmo.Forwarder.{Relay}

-- The fields of `storage.Message` and `storage.Call` that the relay reads or writes.
pub record Message : Type 0 where
  pub modem_id : Text
  pub profile_id : Text
  pub source : Text
  pub external_key : Text
  pub sender : Text
  pub recipient : Text
  pub text : Text
  pub timestamp : Option ℕ
  pub status : Text
  pub incoming : Bool

pub record Call : Type 0 where
  pub id : Text
  pub modem_id : Text
  pub direction : Text
  pub number : Text
  pub state : Text
  pub started_at : Option ℕ
  pub updated_at : Option ℕ

pub record SmsEvent : Type 0 where
  pub modem : Text
  pub from : Text
  pub to : Text
  pub time : Option ℕ
  pub text : Text
  pub incoming : Bool

pub record CallEvent : Type 0 where
  pub modem : Text
  pub from : Text
  pub time : Option ℕ
  pub state : Text
  pub incoming : Bool

-- Thirty minutes.
abbrev pub incoming_notification_freshness_window : ℕ
incoming_notification_freshness_window = 1800 * 1000000000

abbrev pub call_direction_incoming : Text
call_direction_incoming = codes "incoming"

abbrev pub call_state_ringing : Text
call_state_ringing = codes "ringing"

-- `diff := now.Sub(t)`, made positive.
abbrev pub distance : ℕ → ℕ → ℕ
distance now t = (now - t) + (t - now)

unfoldable pub fresh_incoming_message : Message → ℕ → Bool
fresh_incoming_message message now = elim message.timestamp [
  | none ↦ true
  | some t ↦ not message.incoming || leb (distance now t) incoming_notification_freshness_window
]

-- The start, or else the last update.
abbrev pub call_time : Call → Option ℕ
call_time call = elim call.started_at [ some t ↦ some t | none ↦ call.updated_at ]

unfoldable pub fresh_incoming_call : Call → ℕ → Bool
fresh_incoming_call call now =
    if not (call.direction == call_direction_incoming) || not (call.state == call_state_ringing)
    then false
    else elim (call_time call) [
      | none ↦ true
      | some t ↦ leb (distance now t) incoming_notification_freshness_window
    ]

unfoldable pub modem_label : (Text → Text) → Text → Text
modem_label alias_of modem_id =
    let alias = trim_space (alias_of modem_id) in if alias == [] then trim_space modem_id else alias

unfoldable pub format_stored_message : (Text → Text) → Text → Message → SmsEvent
unfolding modem_label
format_stored_message alias_of modem_id message = record {
  modem = modem_label alias_of modem_id;
  from = message.sender;
  to = message.recipient;
  time = message.timestamp;
  text = trim_space message.text;
  incoming = message.incoming;
}

unfoldable pub format_stored_call : (Text → Text) → Call → CallEvent
unfolding modem_label
format_stored_call alias_of call = record {
  modem = modem_label alias_of call.modem_id;
  from = trim_space call.number;
  time = call.started_at;
  state = call.state;
  incoming = call.direction == call_direction_incoming;
}

unfoldable pub reserve_call_notification : Text → Relay → Relay × Bool
reserve_call_notification text r =
    let call_id = trim_space text in
    if call_id == [] then (r, true) else elim (lookup call_id r.notified_calls) [
      | some u ↦ (r, false)
      | none ↦ (record r { notified_calls = insert call_id tt r.notified_calls }, true)
    ]

unfoldable pub release_call_notification : Text → Relay → Relay
release_call_notification text r = record r {
  notified_calls = delete (trim_space text) r.notified_calls;
}

-- The event that is handed to the notifier and what became of it, if one is, and whether the call
-- succeeded. The notifier is that of the moment; the event is for all its channels.
unfoldable pub forward_call :
    (Text → Text) → Call → ℕ → Notifier → Relay → Relay × Option (CallEvent × Delivery) × Bool
forward_call alias_of call now notifier r =
    if not (fresh_incoming_call call now)
    then (r, none, true)
    else let (r', reserved) = reserve_call_notification call.id r in
      let delivery = send_event notifier [] in
      let handed = some (format_stored_call alias_of call, delivery) in
      if not reserved
      then (r', none, true)
      else if is_fine delivery
      then (r', handed, true)
      else (release_call_notification call.id r', handed, false)

-- `InsertMessage`: whether the message was new.
module _ {S : Type 0} (insert_message : Message → S → S × Result ℕ Bool) where
  unfoldable pub forward_routed_sms :
      (Text → Text) → Text → Message → ℕ → S → S × Result ℕ (Option SmsEvent)
  forward_routed_sms alias_of modem_id message now s =
      if not (fresh_incoming_message message now)
      then (s, ok none)
      else let (s', inserted) = insert_message message s in
        elim inserted [
          | err e ↦ (s', err e)
          | ok false ↦ (s', ok none)
          | ok true ↦ (s', ok (some (format_stored_message alias_of modem_id message)))
        ]

-- `SMSState` of internal/pkg/modem/constants.go.
pub data SmsState : Type 0 where
  sms_unknown sms_stored sms_receiving sms_received sms_sending sms_sent : SmsState

-- `strings.ToLower(s.String())`
abbrev pub state_name : SmsState → Text
state_name sms_unknown = codes "unknown"
state_name sms_stored = codes "stored"
state_name sms_receiving = codes "receiving"
state_name sms_received = codes "received"
state_name sms_sending = codes "sending"
state_name sms_sent = codes "sent"

abbrev pub is_incoming : SmsState → Bool
is_incoming sms_received = true
is_incoming sms_receiving = true
is_incoming _ = false

pub record Sms : Type 0 where
  pub path : Text
  pub state : SmsState
  pub number : Text
  pub text : Text
  pub timestamp : Option ℕ

-- The identifier and the number of the modem, the profile, and the message.
unfoldable pub storage_message_from_modem_sms : Text → Text → Text → Sms → Message
storage_message_from_modem_sms equipment_id own profile_id sms =
    let remote = trim_space sms.number in
    record {
      modem_id = equipment_id;
      profile_id = profile_id;
      source = codes "modem";
      external_key = sms.path;
      sender = if is_incoming sms.state then remote else own;
      recipient = if is_incoming sms.state then own else remote;
      text = sms.text;
      timestamp = sms.timestamp;
      status = state_name sms.state;
      incoming = is_incoming sms.state;
    }

module _ {S : Type 0} (insert_message : Message → S → S × Result ℕ Bool) where
  -- The profile can fail to be read; the rest is that of a routed message.
  unfoldable pub forward_modem_sms :
      (Text → Text) → Text → Text → Result ℕ Text → Sms → ℕ → S → S × Result ℕ (Option SmsEvent)
  unfolding forward_routed_sms
  forward_modem_sms alias_of equipment_id own (err e) sms now s = (s, err e)
  forward_modem_sms alias_of equipment_id own (ok profile_id) sms now s =
      forward_routed_sms insert_message alias_of equipment_id
        (storage_message_from_modem_sms equipment_id own profile_id sms) now s
