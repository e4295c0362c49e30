-- ===== src/Scenarios/Logins.antt =====
-- Runs of internal/app/auth/store.go and internal/app/handler/auth/otp.go: one code and one token.
use sigmo.Common.{
  ℕ, inl, inr, ◌+◌, ◌≡◌, ◌≢◌, ◌≤◌, refl, true, false, not, ◌&&◌, List, [], ◌∷◌, none, some, All,
  Text, codes, ok, err, ltb, ◌==◌, nat_equal, list_equal, list_beq, to_lower, equal_fold, arith,
  lookup, trim_space, if◌then◌else◌,
}
use sigmo.Auth.Codes.{generate_otp, generate_token, hex_encode}
use sigmo.Auth.Store.{
  AuthStore, new_store, issue_otp, verify_otp, issue_token, validate_token, default_otp_cooldown,
  default_otp_ttl, default_token_ttl,
}
use sigmo.Auth.Store.Once.{verify_otp_once, verify-issue_otp}
use sigmo.Auth.Store.Tokens.{validate-issue_token}
use sigmo.Auth.Store.Traces.{
  Call, accepts, issues, issue_times, Spaced, accepts-le-issues, issue_times-Spaced,
}
use sigmo.Auth.Otp.{
  invalid_otp, AuthSettings, SendWorld, Handed, enabled_auth_providers, send, verify,
}
use sigmo.Notify.{new_channels, send_event}
use sigmo.Auth.Otp.Providers.{Answers, Enabled, Known, send-Enabled}
use sigmo.Auth.Otp.Exchange.{verify_ok, verify_twice}

abbrev issued_code : Text
issued_code = codes "004217"

-- The code 004217 is issued five seconds after the start.
abbrev after_issue : AuthStore
after_issue = (issue_otp (some 4217) 5000000000 new_store).0

issued :
    (issue_otp (some 4217) 5000000000 new_store).1 ≡ ok (issued_code, 5000000000 + default_otp_ttl)
unfolding issue_otp generate_otp new_store
issued = refl

drawn_4217 : generate_otp (some 4217) ≡ ok issued_code
unfolding generate_otp
drawn_4217 = refl

verify_otp_once_example :
    (verify_otp issued_code 7000000000 (verify_otp issued_code 6000000000 after_issue).0).1 ≡ false
verify_otp_once_example = verify_otp_once issued_code 6000000000 7000000000 after_issue

verify-issue_otp_example : (verify_otp (codes " 004217") 6000000000 after_issue).1 ≡ (
    (issued_code == trim_space (codes " 004217"))
    && ltb 6000000000 (5000000000 + new_store.otp_ttl))
verify-issue_otp_example =
    verify-issue_otp (some 4217) 5000000000 6000000000 new_store (codes " 004217") issued

abbrev issued_token : Text
issued_token = codes "0aff"

token_issued :
    (issue_token (some (0x0A ∷ 0xFF ∷ [])) 9 new_store).1 ≡ ok (issued_token, 9 + default_token_ttl)
unfolding issue_token generate_token new_store hex_encode
token_issued = refl

validate-issue_token_example :
    let r = validate_token issued_token 10 (issue_token (some (0x0A ∷ 0xFF ∷ [])) 9 new_store).0 in
    (r.1 ≡ not (ltb (9 + default_token_ttl) 10))
    × (lookup issued_token r.0.tokens ≡ (if r.1 then some (9 + default_token_ttl) else none))
validate-issue_token_example =
    validate-issue_token 0x0A (0xFF ∷ []) 9 10 new_store (omega arith, (omega arith, tt))
      token_issued

-- A code is issued, a second one too early, the first is presented twice.
abbrev calls : List Call
calls =
    Call.issue (some 4217) 5000000000
    ∷ Call.issue (some 99) 6000000000
    ∷ Call.verify issued_code 7000000000
    ∷ Call.verify issued_code 8000000000
    ∷ []

accepts-le-issues_example : accepts calls new_store ≤ issues calls new_store
accepts-le-issues_example = accepts-le-issues calls

issue_times-Spaced_example : Spaced default_otp_cooldown none (issue_times calls new_store)
issue_times-Spaced_example = issue_times-Spaced calls

-- A channel that the settings enable, written with other letters and a space.
abbrev settings : AuthSettings
settings = record {
  otp_required = true;
  auth_providers = codes " Telegram" ∷ [];
  channels = (codes "bark", false) ∷ (codes "telegram", true) ∷ [];
}

-- The channel has a client, which does not accept the code.
abbrev bad_world : SendWorld
bad_world = record {
  orders = λ n. settings.channels;
  creates = λ name. true;
  drawn = some 4217;
  now = 5000000000;
  accepts = λ name. false;
}

abbrev handed : Handed
handed = record {
  code = issued_code;
  names = codes "telegram" ∷ [];
  delivery = record { reached = []; failed = codes "telegram" ∷ [] };
}

handed_over : (send bad_world settings new_store).1 ≡ some handed
unfolding send issue_otp generate_otp new_store enabled_auth_providers list_beq to_lower trim_space
    equal_fold new_channels send_event
handed_over = refl

send-Enabled_example :
    ((n : ℕ) × ((issue_otp (some 4217) 5000000000 new_store).1 ≡ ok (issued_code, n)))
    × (handed.names ≢ [])
    × All (Enabled settings.channels) handed.names
    × All (Known settings.channels) handed.delivery.reached
    × Answers handed.delivery (send bad_world settings new_store).2
send-Enabled_example =
    send-Enabled bad_world settings new_store handed (λ n. (inl refl, (inr (inl refl), tt)))
      handed_over

exchanged :
    (verify settings issued_code 6000000000 (some (0x0A ∷ 0xFF ∷ [])) 6000000001 after_issue).1
    ≡ ok issued_token
unfolding verify verify_otp issue_token issue_otp generate_otp generate_token new_store list_beq
    trim_space lookup hex_encode
exchanged = refl

verify_ok_example :
    (settings.otp_required ≡ true)
    × ((verify_otp issued_code 6000000000 after_issue).1 ≡ true)
    × (generate_token (some (0x0A ∷ 0xFF ∷ [])) ≡ ok issued_token)
    × (lookup issued_token
          (verify settings issued_code 6000000000
            (some (0x0A ∷ 0xFF ∷ []))
            6000000001
            after_issue).0.tokens
        ≡ some (6000000001 + after_issue.token_ttl))
verify_ok_example =
    verify_ok settings issued_code 6000000000 (some (0x0A ∷ 0xFF ∷ [])) 6000000001 after_issue
      exchanged

verify_twice_example :
    (verify settings issued_code 7000000000 none 7000000001
      (verify settings issued_code 6000000000 (some (0x0A ∷ 0xFF ∷ [])) 6000000001 after_issue).0).1
    ≡ err invalid_otp
verify_twice_example =
    verify_twice settings issued_code after_issue 6000000000 6000000001 7000000000 7000000001
      (some (0x0A ∷ 0xFF ∷ [])) none refl
