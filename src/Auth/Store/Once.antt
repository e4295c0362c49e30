-- ===== src/Auth/Store/Once.antt =====
-- A one-time password of internal/app/auth/store.go is accepted once, in time, and is the last issued.
use sigmo.Common.{
  ℕ, ◌+◌, ◌≡◌, refl, false, ◌&&◌, [], Option, none, some, Text, arith, ltb, ◌==◌, nat_equal,
  list_equal, list_beq_iff, ok, Result-cases, ok-injective, list_beq, inl, inr, lookup-delete_self,
  lookup_one, trim_space,
}
use mathlib.Core.Path.{subst}
use sigmo.Auth.Codes.{generate_otp}
use sigmo.Auth.Store.{AuthStore, issue_otp, verify_otp}

-- For any store, a text that was just checked is refused by the next check, whatever the first
-- answered: a code cannot be used twice.
pub verify_otp_once :
    (text : Text) (now later : ℕ) (s : AuthStore)
    → (verify_otp text later (verify_otp text now s).0).1 ≡ false
unfolding verify_otp
verify_otp_once text now later s = ground (arith, lookup-delete_self (trim_space text) s.otps)

code-ne-nil : (drawn : Option ℕ) {code : Text} → generate_otp drawn ≡ ok code → (code == []) ≡ false
unfolding generate_otp
code-ne-nil none h = cc
code-ne-nil (some n) {code} h =
    subst (λ c. (c == []) ≡ false) (ok-injective h) (unfold list_beq in refl)

-- A code that is issued is accepted before it expires and not after, also with spaces around it; and
-- no other code is: issuing one cancels those before it.
pub verify-issue_otp :
    (drawn : Option ℕ) (now later : ℕ) (s : AuthStore) {code : Text} {expires_at : ℕ} (text : Text)
    → (issue_otp drawn now s).1 ≡ ok (code, expires_at)
    → (verify_otp text later (issue_otp drawn now s).0).1
      ≡ ((code == trim_space text) && ltb later (now + s.otp_ttl))
unfolding verify_otp issue_otp
verify-issue_otp drawn now later s {code} {expires_at} text h =
    elim (Result-cases (generate_otp drawn)) [
      | inr (e, failed) ↦ ground (arith, failed)
      | inl (made, drew) ↦
          let t : Text = trim_space text in
          ground (
            arith,
            drew,
            code-ne-nil drawn drew,
            list_beq_iff t [],
            list_beq_iff made t,
            list_beq_iff made [],
            lookup_one made t (now + s.otp_ttl),
          )
    ]
