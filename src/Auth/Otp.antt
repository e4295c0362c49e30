-- ===== src/Auth/Otp.antt =====
-- internal/app/handler/auth/otp.go: sending a one-time password and exchanging it for a token. Go ranges
-- over the map of channels in a new order each time, so each search has an order of its own.
pub mod Providers
pub mod Exchange
use sigmo.Common.{
  ℕ, suc, Bool, false, not, List, [], ◌∷◌, Option, none, some, Bytes, Text, ◌==◌, nat_equal,
  list_equal, Result, ok, err, ◌>>=◌, ◌>>◌, refuse_if, if◌then◌else◌, trim_space,
}
use sigmo.Common.{to_lower, equal_fold}
use sigmo.Notify.{Notifier, Delivery, new_channels, send_event, is_fine}
use sigmo.Auth.Codes.{AuthError}
use sigmo.Auth.Store.{AuthStore, issue_otp, verify_otp, issue_token}

pub data OtpError : Type 0 where
  provider_required otp_not_required invalid_otp notifier_failed send_failed : OtpError
  provider_unavailable : Text → OtpError
  store_failed : AuthError → OtpError

-- The settings that the handler reads: a channel is its name, and whether it is enabled.
pub record AuthSettings : Type 0 where
  pub otp_required : Bool
  pub auth_providers : List Text
  pub channels : List (Text × Bool)

-- The first channel of the name in the order that the search ranges in.
unfoldable pub channel_enabled : List (Text × Bool) → Text → Bool
channel_enabled [] target = false
channel_enabled ((name, enabled) ∷ channels) target =
    if equal_fold (trim_space name) target then enabled else channel_enabled channels target

-- `orders n` is the order of the search for the provider at position `n`.
collect_providers : (ℕ → List (Text × Bool)) → ℕ → List Text → Result OtpError (List Text)
unfolding channel_enabled
collect_providers orders n [] = ok []
collect_providers orders n (provider ∷ providers) =
    let name = to_lower (trim_space provider) in
    do
      refuse_if (name == []) provider_required
      refuse_if (not (channel_enabled (orders n) name)) (provider_unavailable name)
      others ← collect_providers orders (suc n) providers
      ok (name ∷ others)

unfoldable pub enabled_auth_providers :
    (ℕ → List (Text × Bool)) → AuthSettings → Result OtpError (List Text)
unfolding collect_providers
enabled_auth_providers orders s = do
  refuse_if (s.auth_providers == []) provider_required
  collect_providers orders 0 s.auth_providers

-- What the world answers during a call: the orders of the searches, the clients that can be made, the
-- draw, the time, and the clients that accept the code.
pub record SendWorld : Type 0 where
  pub orders : ℕ → List (Text × Bool)
  pub creates : Text → Bool
  pub drawn : Option ℕ
  pub now : ℕ
  pub accepts : Text → Bool

-- A code that was handed to the notifier: the channels that it was for, and what became of it.
pub record Handed : Type 0 where
  pub code : Text
  pub names : List Text
  pub delivery : Delivery

-- The store, the code that was handed to the notifier, if one was, and the answer.
abbrev pub Sent : Type 0
Sent = AuthStore × Option Handed × Result OtpError (Unit {0})

-- From the issued code on.
abbrev pub hand_over :
    SendWorld → List Text → List Text → AuthStore × Result AuthError (Text × ℕ) → Sent
hand_over w channels names (store, err e) = (store, none, err (store_failed e))
hand_over w channels names (store, ok (code, expires_at)) =
    let notifier : Notifier = record { channels = channels; accepts = w.accepts } in
    let delivery = send_event notifier names in
    (
      store,
      some (record { code = code; names = names; delivery = delivery }),
      if is_fine delivery then ok tt else err send_failed,
    )

-- From the notifier on.
abbrev pub send_through : SendWorld → AuthStore → List Text → Option (List Text) → Sent
send_through w store names none = (store, none, err notifier_failed)
send_through w store names (some channels) =
    hand_over w channels names (issue_otp w.drawn w.now store)

-- From the providers on.
abbrev pub send_to : SendWorld → AuthSettings → AuthStore → Result OtpError (List Text) → Sent
send_to w settings store (err e) = (store, none, err e)
send_to w settings store (ok names) =
    send_through w store names (new_channels w.creates settings.channels)

unfoldable pub send : SendWorld → AuthSettings → AuthStore → Sent
send w settings store =
    if not settings.otp_required
    then (store, none, ok tt)
    else send_to w settings store (enabled_auth_providers w.orders settings)

-- The code is checked at `now`, and the token issued at `later` from the bytes drawn.
unfoldable pub verify :
    AuthSettings → Text → ℕ → Option Bytes → ℕ → AuthStore → AuthStore × Result OtpError Text
verify settings code now drawn later store =
    if not settings.otp_required
    then (store, err otp_not_required)
    else let (store', valid) = verify_otp code now store in
      if not valid
      then (store', err invalid_otp)
      else let (store'', issued) = issue_token drawn later store' in
        elim issued [
          | err e ↦ (store'', err (store_failed e))
          | ok (token, expires_at) ↦ (store'', ok token)
        ]
