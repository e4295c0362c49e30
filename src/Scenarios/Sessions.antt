-- ===== src/Scenarios/Sessions.antt =====
-- Runs of internal/pkg/ussd on a modem that is its session state, with a route that always answers.
use sigmo.Common.{
  ℕ, ◌≡◌, refl, Bool, true, false, none, some, Text, codes, Result, ok, err, if◌then◌else◌,
}
use sigmo.Modem.Ussd.{
  SessionState, idle, active, user_response, reply, UssdOps, Route, is_idle, execute_initialize,
  execute_reply, route_status, executor_execute,
}
use sigmo.Modem.Ussd.Answers.{executor-answers}

abbrev free_when_idle : SessionState → SessionState × Result ℕ Text
free_when_idle s = if is_idle s then (user_response, ok (codes "menu")) else (s, err 1)

unfoldable phone : UssdOps SessionState
phone = record {
  state = λ s. ok s;
  cancel = λ s. (idle, ok tt);
  initiate = λ code s. free_when_idle s;
  respond = λ code s. (idle, ok (codes "done"));
}

unfoldable network : Bool → Route SessionState
network connected = record {
  status = λ s. (record { preferred = false; connected = connected }, none);
  execute_ussd = λ action code s. (s, ok (codes "routed"));
}

replied : (execute_reply phone (codes "1") user_response).1 ≡ ok (codes "done")
unfolding execute_reply phone
replied = refl

started : (execute_initialize phone (codes "*100#") active).1 ≡ ok (codes "menu")
unfolding execute_initialize phone
started = refl

phone_frees :
    (k : SessionState) → (phone.cancel k).1 ≡ ok tt → phone.state (phone.cancel k).0 ≡ ok idle
unfolding phone
phone_frees k h = refl

network_answers :
    (k : SessionState) → (r : Text) × (((network true).execute_ussd reply (codes "1") k).1 ≡ ok r)
unfolding network
network_answers k = (codes "routed", refl)

network_status :
    (on : Bool)
    → route_status phone (some (network on)) idle
      ≡ ok (record { preferred = false; connected = on })
unfolding route_status network
network_status on = refl

executor-answers_example :
    (r : Text) × ((executor_execute phone (some (network true)) reply (codes "1") idle).1 ≡ ok r)
executor-answers_example =
    executor-answers phone (network true) reply (codes "1") idle (network_status true) refl
      network_answers
