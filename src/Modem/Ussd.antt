-- ===== src/Modem/Ussd.antt =====
-- internal/pkg/ussd: session.go runs a USSD action on the modem, ussd.go chooses between the modem and
-- another route. The modem's USSD service and the route are parameters, over the state of the device.
pub mod Answers
use sigmo.Common.{
  ℕ, Bool, true, false, ◌&&◌, Option, none, some, Text, Result, ok, err, if◌then◌else◌,
}

-- `Modem3GPPUSSDSessionState` of internal/pkg/modem/constants.go.
pub data SessionState : Type 0 where
  unknown idle active user_response : SessionState

pub data Action : Type 0 where
  initialize reply other_action : Action

-- An error of the device or of the route is its number.
pub data UssdError : Type 0 where
  invalid_action session_not_ready unknown_session_status : UssdError
  read_state cancel_session initiate_failed respond_failed route_failed : ℕ → UssdError

-- The calls of `mmodem.USSD`.
pub record UssdOps (D : Type 0) : Type 0 where
  pub state : D → Result ℕ SessionState
  pub cancel : D → D × Result ℕ (Unit {0})
  pub initiate : Text → D → D × Result ℕ Text
  pub respond : Text → D → D × Result ℕ Text

pub record RouteStatus : Type 0 where
  pub preferred : Bool
  pub connected : Bool

pub data StatusError : Type 0 where
  route_unavailable : StatusError
  status_failed : ℕ → StatusError

-- `Route`: `Status` gives a status and possibly an error.
pub record Route (D : Type 0) : Type 0 where
  pub status : D → RouteStatus × Option StatusError
  pub execute_ussd : Action → Text → D → D × Result ℕ Text

abbrev pub is_idle : SessionState → Bool
is_idle idle = true
is_idle _ = false

abbrev pub fail_with :
    {D : Type 0} → (ℕ → UssdError) → D × Result ℕ Text → D × Result UssdError Text
fail_with wrap (d, ok r) = (d, ok r)
fail_with wrap (d, err e) = (d, err (wrap e))

-- `ErrRouteUnavailable` is no error: the status that came with it counts.
abbrev pub accepted_status : RouteStatus → Option StatusError → Result UssdError RouteStatus
accepted_status s none = ok s
accepted_status s (some route_unavailable) = ok s
accepted_status s (some (status_failed e)) = err (route_failed e)

module _ {D : Type 0} (ops : UssdOps D) where
  -- The session is freed before a new one starts.
  unfoldable pub execute_initialize : Text → D → D × Result UssdError Text
  execute_initialize code d = elim (ops.state d) [
    | err e ↦ (d, err (read_state e))
    | ok s ↦
        if is_idle s
        then fail_with initiate_failed (ops.initiate code d)
        else (let (d', freed) = ops.cancel d in
            elim freed [
              | err e ↦ (d', err (cancel_session e))
              | ok u ↦ fail_with initiate_failed (ops.initiate code d')
            ])
  ]

  unfoldable pub execute_reply : Text → D → D × Result UssdError Text
  execute_reply code d = elim (ops.state d) [
    | err e ↦ (d, err (read_state e))
    | ok unknown ↦ (d, err unknown_session_status)
    | ok user_response ↦ fail_with respond_failed (ops.respond code d)
    | ok idle ↦ (d, err session_not_ready)
    | ok active ↦ (d, err session_not_ready)
  ]

  -- `session.Execute`
  unfoldable pub session_execute : Action → Text → D → D × Result UssdError Text
  session_execute initialize code d = execute_initialize code d
  session_execute reply code d = execute_reply code d
  session_execute other_action code d = (d, err invalid_action)

  unfoldable pub route_status : Option (Route D) → D → Result UssdError RouteStatus
  route_status none d = ok (record { preferred = false; connected = false })
  route_status (some route) d = let (s, e) = route.status d in accepted_status s e

  -- The route answers, or the error of the device stands.
  unfoldable pub fall_back :
      Option (Route D) → Bool → Action → Text → UssdError → D → D × Result UssdError Text
  fall_back (some route) true action code e d =
      let (d', answer) = route.execute_ussd action code d in
      elim answer [ ok r ↦ (d', ok r) | err x ↦ (d', err e) ]
  fall_back _ _ action code e d = (d, err e)

  abbrev pub run_route : Option (Route D) → Action → Text → D → D × Result UssdError Text
  run_route (some route) action code d = fail_with route_failed (route.execute_ussd action code d)
  run_route none action code d = (d, err (route_failed 0))

  -- `Executor.execute`. Without a route the status is not connected, so `run_route none` is not met.
  unfoldable pub executor_execute : Option (Route D) → Action → Text → D → D × Result UssdError Text
  executor_execute route action code d = elim (route_status route d) [
    | err e ↦ (d, err e)
    | ok s ↦
        if s.preferred && s.connected
        then run_route route action code d
        else (let (d', answer) = session_execute action code d in
            elim answer [
              | ok r ↦ (d', ok r)
              | err e ↦ fall_back route s.connected action code e d'
            ])
  ]
