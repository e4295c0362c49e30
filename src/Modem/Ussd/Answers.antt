-- ===== src/Modem/Ussd/Answers.antt =====
-- Which calls of the modem and of the route a USSD action of internal/pkg/ussd comes to.
use sigmo.Common.{
  ℕ, ◌≡◌, refl, ap, ◌∙◌, true, false, Option, some, Text, arith, Result, ok, err, Result-cases,
  Bool-cases, inl, inr,
}
use sigmo.Modem.Ussd.{
  SessionState, unknown, idle, active, user_response, Action, UssdError, UssdOps, RouteStatus,
  Route, respond_failed, initiate_failed, fail_with, is_idle, execute_initialize, execute_reply,
  session_execute, route_status, fall_back, executor_execute,
}

fail_with-ok :
    {D : Type 0} (wrap : ℕ → UssdError) (x : D × Result ℕ Text) {r : Text}
    → (fail_with wrap x).1 ≡ ok r
    → x ≡ ((fail_with wrap x).0, ok r)
fail_with-ok wrap (d, ok q) h = cc
fail_with-ok wrap (d, err e) h = cc

module _ {D : Type 0} (ops : UssdOps D) where
  -- A reply is sent only while the session waits for one, and is the only thing that is done.
  pub execute_reply-waiting :
      (code : Text) (d : D) {r : Text}
      → (execute_reply ops code d).1 ≡ ok r
      → (ops.state d ≡ ok user_response)
        × (ops.respond code d ≡ ((execute_reply ops code d).0, ok r))
  unfolding execute_reply
  execute_reply-waiting code d {r} h = elim (Result-cases (ops.state d)) [
    | inr (e, broken) ↦ ground (arith, broken)
    | inl (s, read) ↦ waiting s read
  ]
    where
      waiting :
          (s : SessionState)
          → ops.state d ≡ ok s
          → (ops.state d ≡ ok user_response)
            × (ops.respond code d ≡ ((execute_reply ops code d).0, ok r))
      waiting unknown e = absurd (ground (arith, e))
      waiting idle e = absurd (ground (arith, e))
      waiting active e = absurd (ground (arith, e))
      waiting user_response e =
          (e, ground (arith, e, h, fail_with-ok respond_failed (ops.respond code d)))

  -- Where a cancelled session is idle, a session that was started was started on an idle modem.
  pub execute_initialize-idle :
      (code : Text) (d : D) {r : Text}
      → ((k : D) → (ops.cancel k).1 ≡ ok tt → ops.state (ops.cancel k).0 ≡ ok idle)
      → (execute_initialize ops code d).1 ≡ ok r
      → (k : D) × (ops.state k ≡ ok idle)
        × (ops.initiate code k ≡ ((execute_initialize ops code d).0, ok r))
  unfolding execute_initialize
  execute_initialize-idle code d {r} frees h = elim (Result-cases (ops.state d)) [
    | inr (e, broken) ↦ absurd (ground (arith, broken))
    | inl (s, read) ↦ elim (Bool-cases (is_idle s)) [
      | inl i ↦ (
        d,
        read ∙ ap ok (is_idle-idle s i),
        ground (arith, read, i, h, fail_with-ok initiate_failed (ops.initiate code d)),
      )
      | inr busy ↦ elim (Result-cases (ops.cancel d).1) [
        | inr (e, kept) ↦ absurd (ground (arith, read, busy, kept))
        | inl (u, freed) ↦ (
          (ops.cancel d).0,
          frees d freed,
          ground (
            arith,
            read,
            busy,
            freed,
            h,
            fail_with-ok initiate_failed (ops.initiate code (ops.cancel d).0),
          ),
        )
      ]
    ]
  ]
    where
      is_idle-idle : (s : SessionState) → is_idle s ≡ true → s ≡ idle
      is_idle-idle idle e = refl
      is_idle-idle unknown e = cc
      is_idle-idle active e = cc
      is_idle-idle user_response e = cc

  -- Where the status says that a route is connected, and the route always answers, the executor
  -- answers, whatever the modem does.
  pub executor-answers :
      (route : Route D) (action : Action) (code : Text) (d : D) {s : RouteStatus}
      → route_status ops (some route) d ≡ ok s
      → s.connected ≡ true
      → ((k : D) → (r : Text) × ((route.execute_ussd action code k).1 ≡ ok r))
      → (r : Text) × ((executor_execute ops (some route) action code d).1 ≡ ok r)
  unfolding executor_execute fall_back
  executor-answers route action code d {s} status connected answers =
      elim (Bool-cases s.preferred) [
        | inl p ↦ ((answers d).0, ground (arith, status, p, connected, (answers d).1))
        | inr p ↦ elim (Result-cases (session_execute ops action code d).1) [
          | inl (r, e) ↦ (r, ground (arith, status, p, e))
          | inr (x, e) ↦
              let k : D = (session_execute ops action code d).0 in
              ((answers k).0, ground (arith, status, p, e, connected, (answers k).1))
        ]
      ]

  -- While no route is connected, the executor does what the modem's session does, and nothing else.
  pub executor-unconnected :
      (route : Option (Route D)) (action : Action) (code : Text) (d : D) {s : RouteStatus}
      → route_status ops route d ≡ ok s
      → s.connected ≡ false
      → executor_execute ops route action code d ≡ session_execute ops action code d
  unfolding executor_execute fall_back
  executor-unconnected route action code d {s} status off =
      elim (Result-cases (session_execute ops action code d).1) [
        | inl (r, e) ↦ ground (arith, status, off, e)
        | inr (x, e) ↦ ground (arith, status, off, e)
      ]
