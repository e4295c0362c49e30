-- ===== src/Auth/Otp/Exchange.antt =====
-- Exchanging a code for a token in internal/app/handler/auth/otp.go.
use sigmo.Common.{
  nat_equal, list_equal, ℕ, ◌+◌, ◌≡◌, ◌∙◌, true, false, Option, some, Bytes, Text, arith, ok, err,
  Result-cases, inl, inr, lookup, lookup-insert_self,
}
use sigmo.Auth.Codes.{generate_token}
use sigmo.Auth.Store.{AuthStore, verify_otp, issue_token}
use sigmo.Auth.Store.Once.{verify_otp_once}
use sigmo.Auth.Otp.{invalid_otp, AuthSettings, verify}

verify_otp-token_ttl :
    (text : Text) (now : ℕ) (s : AuthStore) → (verify_otp text now s).0.token_ttl ≡ s.token_ttl
unfolding verify_otp
verify_otp-token_ttl text now s = ground arith

-- Exchanging a code succeeds only where codes are required, the store accepts the code, and a token
-- can be drawn; then the store holds the token that is returned, until its time.
pub verify_ok :
    (s : AuthSettings) (code : Text) (now : ℕ) (drawn : Option Bytes) (later : ℕ)
    (store : AuthStore) {token : Text}
    → (verify s code now drawn later store).1 ≡ ok token
    → (s.otp_required ≡ true)
      × ((verify_otp code now store).1 ≡ true)
      × (generate_token drawn ≡ ok token)
      × (lookup token (verify s code now drawn later store).0.tokens
          ≡ some (later + store.token_ttl))
unfolding verify issue_token
verify_ok s code now drawn later store {token} h = elim (Result-cases (generate_token drawn)) [
  | inr (e, failed) ↦ ground (arith, failed)
  | inl (made, drew) ↦
      let t : AuthStore = (verify_otp code now store).0 in
      ground (
        arith,
        drew,
        verify_otp-token_ttl code now store,
        lookup-insert_self made (later + t.token_ttl) t.tokens,
      )
]

verify_otp-otps :
    (text : Text) (now : ℕ) (s t : AuthStore)
    → s.otps ≡ t.otps
    → (verify_otp text now s).1 ≡ (verify_otp text now t).1
unfolding verify_otp
verify_otp-otps text now s t h = rw h (ground arith)

verify-otps :
    (s : AuthSettings) (code : Text) (now : ℕ) (drawn : Option Bytes) (later : ℕ)
    (store : AuthStore)
    → s.otp_required ≡ true
    → (verify s code now drawn later store).0.otps ≡ (verify_otp code now store).0.otps
unfolding verify issue_token
verify-otps s code now drawn later store h = ground arith

-- Where codes are required, a code that was just presented, accepted or not, is refused as invalid
-- when it is presented again, and no token is issued.
pub verify_twice :
    (s : AuthSettings) (code : Text) (store : AuthStore) (now later now' later' : ℕ)
    (drawn drawn' : Option Bytes)
    → s.otp_required ≡ true
    → (verify s code now' drawn' later' (verify s code now drawn later store).0).1 ≡ err invalid_otp
verify_twice s code store now later now' later' drawn drawn' h =
    let t : AuthStore = (verify s code now drawn later store).0 in
    let used : (verify_otp code now' t).1 ≡ false =
      verify_otp-otps code now' t (verify_otp code now store).0
        (verify-otps s code now drawn later store h)
      ∙ verify_otp_once code now now' store in
    refused t used
  where
    refused :
        (t : AuthStore)
        → (verify_otp code now' t).1 ≡ false
        → (verify s code now' drawn' later' t).1 ≡ err invalid_otp
    refused t used = unfold verify in ground (arith, used)
