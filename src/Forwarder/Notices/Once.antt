-- ===== src/Forwarder/Notices/Once.antt =====
-- How often a call or a message is noticed, in internal/app/forwarder/relay.go.
use sigmo.Common.{
  ℕ, suc, ◌+◌, not, ◌≤◌, ◌≡◌, refl, Bool, true, false, ◌&&◌, List, [], ◌∷◌, Option, none, some,
  Text, arith, ◌==◌, nat_equal, list_equal, list_beq_iff, Result, ok, Result-cases, Bool-cases, inl,
  inr, if◌then◌else◌, lookup, insert, lookup-insert, lookup-delete, lookup-delete_self, trim_space,
}
use sigmo.Notify.{Notifier, Delivery, is_one_of, send_event, is_fine}
use sigmo.Forwarder.{Relay}
use sigmo.Forwarder.Notices.{
  Message, Call, SmsEvent, CallEvent, fresh_incoming_message, fresh_incoming_call,
  format_stored_call, reserve_call_notification, release_call_notification, forward_call,
  forward_routed_sms,
}

-- A call that is forwarded at a time, through the notifier of that time.
pub record Attempt : Type 0 where
  pub call : Call
  pub now : ℕ
  pub notifier : Notifier

abbrev pub attempt : (Text → Text) → Attempt → Relay → Relay × Option (CallEvent × Delivery) × Bool
attempt alias_of a r = forward_call alias_of a.call a.now a.notifier r

-- The call's notice was handed to the notifier, and what became of it passes the test.
abbrev pub is_notice : Text → (Delivery → Bool) → Attempt → Option (CallEvent × Delivery) → Bool
is_notice id test a none = false
is_notice id test a (some (event, delivery)) = (trim_space a.call.id == id) && test delivery

-- How many notices of the call pass the test.
abbrev pub notices : (Text → Text) → Text → (Delivery → Bool) → List Attempt → Relay → ℕ
notices alias_of id test [] r = 0
notices alias_of id test (a ∷ more) r =
    let (r', event, fine) = attempt alias_of a r in
    let rest = notices alias_of id test more r' in
    if is_notice id test a event then suc rest else rest

-- Some channel did not accept the notice.
abbrev pub has_failed : Delivery → Bool
has_failed d = not (is_fine d)

-- The notice reached the channel.
abbrev pub has_reached : Text → Delivery → Bool
has_reached channel d = is_one_of channel d.reached

-- A step hands the call over only if it was not reserved; then it is reserved, unless a channel
-- failed.
record StepFacts (alias_of : Text → Text) (id : Text) (a : Attempt) (r : Relay) : Type 0 where
  reserved_stays :
      lookup id r.notified_calls ≡ some tt
      → (lookup id (attempt alias_of a r).0.notified_calls ≡ some tt)
        × ((test : Delivery → Bool) → is_notice id test a (attempt alias_of a r).1 ≡ false)
  notice_reserves :
      is_notice id is_fine a (attempt alias_of a r).1 ≡ true
      → lookup id (attempt alias_of a r).0.notified_calls ≡ some tt
  notice_fails :
      (test : Delivery → Bool)
      → is_notice id is_fine a (attempt alias_of a r).1 ≡ false
      → is_notice id test a (attempt alias_of a r).1 ≡ true
      → is_notice id has_failed a (attempt alias_of a r).1 ≡ true

step :
    (alias_of : Text → Text) (id : Text) (a : Attempt) (r : Relay)
    → (id == []) ≡ false
    → StepFacts alias_of id a r
unfolding forward_call reserve_call_notification release_call_notification
step alias_of id a r named =
    let t : Text = trim_space a.call.id in
    record {
      reserved_stays = λ h. (
        ground (
          arith,
          named,
          h,
          list_beq_iff t id,
          list_beq_iff t [],
          lookup-insert t id tt r.notified_calls,
          lookup-delete t id r.notified_calls,
          lookup-delete t id (insert t tt r.notified_calls),
        ),
        λ test. ground (arith, named, h, list_beq_iff t id, list_beq_iff t []),
      );
      notice_reserves = λ h. ground (
        arith,
        named,
        h,
        list_beq_iff t id,
        list_beq_iff t [],
        lookup-insert t id tt r.notified_calls,
        lookup-delete t id r.notified_calls,
      );
      notice_fails = λ test h k. ground (arith, h, k);
    }

notices-reserved :
    (alias_of : Text → Text) (id : Text) (test : Delivery → Bool) (attempts : List Attempt)
    (r : Relay)
    → (id == []) ≡ false
    → lookup id r.notified_calls ≡ some tt
    → notices alias_of id test attempts r ≡ 0
notices-reserved alias_of id test [] r named h = refl
notices-reserved alias_of id test (a ∷ more) r named h =
    let f : StepFacts alias_of id a r = step alias_of id a r named in
    let (stays, none') = f.reserved_stays h in
    rw (none' test) (notices-reserved alias_of id test more (attempt alias_of a r).0 named stays)

notices_fine-le-one :
    (alias_of : Text → Text) (id : Text) (attempts : List Attempt) (r : Relay)
    → (id == []) ≡ false
    → notices alias_of id is_fine attempts r ≤ 1
notices_fine-le-one alias_of id [] r named = omega arith
notices_fine-le-one alias_of id (a ∷ more) r named =
    let f : StepFacts alias_of id a r = step alias_of id a r named in
    let r' : Relay = (attempt alias_of a r).0 in
    elim (Bool-cases (is_notice id is_fine a (attempt alias_of a r).1)) [
      | inl e ↦
          rw e (
            omega (arith, notices-reserved alias_of id is_fine more r' named (f.notice_reserves e)))
      | inr e ↦ rw e (notices_fine-le-one alias_of id more r' named)
    ]

notices-le-failures :
    (alias_of : Text → Text) (id : Text) (test : Delivery → Bool) (attempts : List Attempt)
    (r : Relay)
    → (id == []) ≡ false
    → notices alias_of id test attempts r ≤ 1 + notices alias_of id has_failed attempts r
notices-le-failures alias_of id test [] r named = omega arith
notices-le-failures alias_of id test (a ∷ more) r named =
    let f : StepFacts alias_of id a r = step alias_of id a r named in
    let r' : Relay = (attempt alias_of a r).0 in
    let event : Option (CallEvent × Delivery) = (attempt alias_of a r).1 in
    let ih = notices-le-failures alias_of id test more r' named in
    elim (Bool-cases (is_notice id is_fine a event)) [
      | inl e ↦
          let none' = notices-reserved alias_of id test more r' named (f.notice_reserves e) in
          elim (Bool-cases (is_notice id test a event)) [
            | inl p ↦ elim (Bool-cases (is_notice id has_failed a event)) [
              | inl q ↦ rw (p, q) (omega (arith, none'))
              | inr q ↦ rw (p, q) (omega (arith, none'))
            ]
            | inr p ↦ elim (Bool-cases (is_notice id has_failed a event)) [
              | inl q ↦ rw (p, q) (omega (arith, none'))
              | inr q ↦ rw (p, q) (omega (arith, none'))
            ]
          ]
      | inr e ↦ elim (Bool-cases (is_notice id test a event)) [
        | inl p ↦ rw (p, f.notice_fails test e p) (omega (arith, ih))
        | inr p ↦ elim (Bool-cases (is_notice id has_failed a event)) [
          | inl q ↦ rw (p, q) (omega (arith, ih))
          | inr q ↦ rw (p, q) (omega (arith, ih))
        ]
      ]
    ]

-- For every call identifier that is not empty, over any attempts to forward calls in any order, through
-- any notifiers, from any relay: one notice of the call at most is accepted by all channels that it
-- goes to, and a channel is reached by one notice of the call, and by one more for every notice of the
-- call that some channel did not accept, at most.
pub forward_call-once :
    (alias_of : Text → Text) (id : Text) (attempts : List Attempt) (r : Relay)
    → (id == []) ≡ false
    → (notices alias_of id is_fine attempts r ≤ 1)
      × ((channel : Text)
          → notices alias_of id (has_reached channel) attempts r
            ≤ 1 + notices alias_of id has_failed attempts r)
forward_call-once alias_of id attempts r named = (
  notices_fine-le-one alias_of id attempts r named,
  λ channel. notices-le-failures alias_of id (has_reached channel) attempts r named,
)

-- A failed delivery does not use the call up: a call that is fresh both times, was not noticed before,
-- and whose notice some channel did not accept, is handed to the notifier of the next attempt again.
pub forward_call-retries :
    (alias_of : Text → Text) (call : Call) (now later : ℕ) (notifier next : Notifier) (r : Relay)
    → fresh_incoming_call call now ≡ true
    → fresh_incoming_call call later ≡ true
    → lookup (trim_space call.id) r.notified_calls ≡ none
    → is_fine (send_event notifier []) ≡ false
    → (forward_call alias_of call later next (forward_call alias_of call now notifier r).0).1
      ≡ some (format_stored_call alias_of call, send_event next [])
unfolding forward_call reserve_call_notification release_call_notification
forward_call-retries alias_of call now later notifier next r fresh fresh' unknown failed =
    let t : Text = trim_space call.id in
    elim (Bool-cases (t == [])) [
      | inl e ↦ ground (arith, fresh, fresh', e, failed)
      | inr e ↦ ground (
        arith,
        fresh,
        fresh',
        unknown,
        e,
        failed,
        lookup-delete_self t (insert t tt r.notified_calls),
      )
    ]

module _ {S : Type 0} (insert_message : Message → S → S × Result ℕ Bool) where
  -- Where the store refuses as known a message that it has just taken as new, a message that was
  -- handed to the notifier is not handed over when it comes again.
  pub forward_routed_sms-once :
      (alias_of : Text → Text) (modem_id : Text) (message : Message) (now later : ℕ) (s : S)
      {event : SmsEvent}
      → ((k : S)
          → (insert_message message k).1 ≡ ok true
          → (insert_message message (insert_message message k).0).1 ≡ ok false)
      → (forward_routed_sms insert_message alias_of modem_id message now s).1 ≡ ok (some event)
      → (forward_routed_sms insert_message alias_of modem_id message later
          (forward_routed_sms insert_message alias_of modem_id message now s).0).1
        ≡ ok none
  unfolding forward_routed_sms
  forward_routed_sms-once alias_of modem_id message now later s known h =
      elim (Result-cases (insert_message message s).1) [
        | inr (e, broken) ↦ absurd (ground (arith, h, broken))
        | inl (true, new) ↦
            again (fresh_incoming_message message now) (fresh_incoming_message message later) new
        | inl (false, old) ↦ absurd (ground (arith, h, old))
      ]
    where
      again :
          (f g : Bool)
          → (insert_message message s).1 ≡ ok true
          → (forward_routed_sms insert_message alias_of modem_id message later
              (forward_routed_sms insert_message alias_of modem_id message now s).0).1
            ≡ ok none
      again f g new = ground (arith, h, new, known s new)
