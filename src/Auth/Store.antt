-- ===== src/Auth/Store.antt =====
-- internal/app/auth/store.go. Times are nanoseconds; the zero `time.Time` is `none`. `now` is what
-- `time.Now` returns in the call. `now.Sub(last) < cooldown` is written `now < last + cooldown`.
pub mod Once
pub mod Tokens
pub mod Traces
use sigmo.Common.{
  ℕ, ◌+◌, ◌*◌, Bool, true, false, [], ◌∷◌, Option, none, some, Bytes, Text, ltb, ◌==◌, nat_equal,
  list_equal, Result, ok, err, if◌then◌else◌, Assoc, lookup, insert, delete, trim_space,
}
use sigmo.Auth.Codes.{AuthError, otp_cooldown, generate_otp, generate_token}

abbrev pub second : ℕ
second = 1000000000

abbrev pub default_otp_ttl : ℕ
default_otp_ttl = 600 * second

abbrev pub default_otp_cooldown : ℕ
default_otp_cooldown = 30 * second

abbrev pub default_token_ttl : ℕ
default_token_ttl = 604800 * second

-- The maps hold the time at which an entry expires.
pub record AuthStore : Type 0 where
  pub otps : Assoc Text ℕ
  pub tokens : Assoc Text ℕ
  pub otp_ttl : ℕ
  pub cooldown : ℕ
  pub token_ttl : ℕ
  pub last_otp_issued_at : Option ℕ

unfoldable pub new_store : AuthStore
new_store = record {
  otps = [];
  tokens = [];
  otp_ttl = default_otp_ttl;
  cooldown = default_otp_cooldown;
  token_ttl = default_token_ttl;
  last_otp_issued_at = none;
}

-- A code was issued less than the cooldown before.
abbrev pub too_soon : ℕ → ℕ → Option ℕ → Bool
too_soon cooldown now none = false
too_soon cooldown now (some last) = ltb now (last + cooldown)

unfoldable pub issue_otp : Option ℕ → ℕ → AuthStore → AuthStore × Result AuthError (Text × ℕ)
issue_otp drawn now s = elim (generate_otp drawn) [
  | err e ↦ (s, err e)
  | ok code ↦ if too_soon s.cooldown now s.last_otp_issued_at then (s, err otp_cooldown) else (
    record s { last_otp_issued_at = some now; otps = (code, now + s.otp_ttl) ∷ [] },
    ok (code, now + s.otp_ttl),
  )
]

unfoldable pub verify_otp : Text → ℕ → AuthStore → AuthStore × Bool
verify_otp text now s =
    let code = trim_space text in
    if code == [] then (s, false) else elim (lookup code s.otps) [
      | none ↦ (s, false)
      | some expires_at ↦ (record s { otps = delete code s.otps }, ltb now expires_at)
    ]

unfoldable pub issue_token : Option Bytes → ℕ → AuthStore → AuthStore × Result AuthError (Text × ℕ)
issue_token drawn now s = elim (generate_token drawn) [
  | err e ↦ (s, err e)
  | ok token ↦ (
    record s { tokens = insert token (now + s.token_ttl) s.tokens },
    ok (token, now + s.token_ttl),
  )
]

unfoldable pub validate_token : Text → ℕ → AuthStore → AuthStore × Bool
validate_token text now s =
    let token = trim_space text in
    if token == [] then (s, false) else elim (lookup token s.tokens) [
      | none ↦ (s, false)
      | some expires_at ↦
          if ltb expires_at now
          then (record s { tokens = delete token s.tokens }, false)
          else (s, true)
    ]
