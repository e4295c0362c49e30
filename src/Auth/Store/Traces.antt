-- ===== src/Auth/Store/Traces.antt =====
-- What holds of internal/app/auth/store.go over any sequence of its calls.
use sigmo.Common.{
  ℕ, suc, ◌+◌, ◌≤◌, ◌≡◌, sym, ap, Bool, true, false, List, [], ◌∷◌, Option, none, some, Bytes, Text,
  length, arith, ltb→ge, nat_equal, list_equal, Result, ok, err, Result-cases, Bool-cases, inl, inr,
  ◌⊎◌, Option-cases, if◌then◌else◌, lookup, length-delete-lt, trim_space,
}
use mathlib.Core.Path.{subst}
use sigmo.Auth.Codes.{AuthError, otp_cooldown, generate_otp}
use sigmo.Auth.Store.{
  AuthStore, default_otp_cooldown, new_store, too_soon, issue_otp, verify_otp, issue_token,
  validate_token,
}

-- A call of the store, with the draw and the time that it meets.
pub data Call : Type 0 where
  issue : Option ℕ → ℕ → Call
  verify : Text → ℕ → Call
  grant : Option Bytes → ℕ → Call
  validate : Text → ℕ → Call

abbrev pub apply : Call → AuthStore → AuthStore
apply (issue drawn now) s = (issue_otp drawn now s).0
apply (verify text now) s = (verify_otp text now s).0
apply (grant drawn now) s = (issue_token drawn now s).0
apply (validate text now) s = (validate_token text now s).0

abbrev pub run : List Call → AuthStore → AuthStore
run [] s = s
run (c ∷ cs) s = run cs (apply c s)

abbrev pub is_ok {ℓ κ} : {E : Type ℓ} {A : Type κ} → Result E A → Bool
is_ok (ok _) = true
is_ok (err _) = false

abbrev tally : Bool → ℕ → ℕ
tally true n = suc n
tally false n = n

-- How many codes were issued, and how many were accepted.
abbrev pub issues : List Call → AuthStore → ℕ
issues [] s = 0
issues (issue drawn now ∷ cs) s =
    tally (is_ok (issue_otp drawn now s).1) (issues cs (apply (issue drawn now) s))
issues (c ∷ cs) s = issues cs (apply c s)

abbrev pub accepts : List Call → AuthStore → ℕ
accepts [] s = 0
accepts (verify text now ∷ cs) s =
    tally (verify_otp text now s).1 (accepts cs (apply (verify text now) s))
accepts (c ∷ cs) s = accepts cs (apply c s)

-- The times at which a code was issued, in order.
abbrev pub issue_times : List Call → AuthStore → List ℕ
issue_times [] s = []
issue_times (issue drawn now ∷ cs) s =
    let rest = issue_times cs (apply (issue drawn now) s) in
    if is_ok (issue_otp drawn now s).1 then now ∷ rest else rest
issue_times (c ∷ cs) s = issue_times cs (apply c s)

-- Each time stands at least `gap` behind the one before it, the first behind `last`.
abbrev pub Spaced : ℕ → Option ℕ → List ℕ → Type 0
Spaced gap last [] = Unit
Spaced gap none (t ∷ ts) = Spaced gap (some t) ts
Spaced gap (some last) (t ∷ ts) = (last + gap ≤ t) × Spaced gap (some t) ts

issue_step :
    (drawn : Option ℕ) (now : ℕ) (s : AuthStore)
    → length (issue_otp drawn now s).0.otps
      ≤ tally (is_ok (issue_otp drawn now s).1) (length s.otps)
unfolding issue_otp
issue_step drawn now s = ground arith

verify_step :
    (text : Text) (now : ℕ) (s : AuthStore)
    → tally (verify_otp text now s).1 (length (verify_otp text now s).0.otps) ≤ length s.otps
unfolding verify_otp
verify_step text now s = elim (Option-cases (lookup (trim_space text) s.otps)) [
  | inl e ↦ ground (arith, e)
  | inr (v, e) ↦ ground (arith, e, length-delete-lt (trim_space text) s.otps e)
]

grant_step :
    (drawn : Option Bytes) (now : ℕ) (s : AuthStore) → (issue_token drawn now s).0.otps ≡ s.otps
unfolding issue_token
grant_step drawn now s = ground arith

validate_step :
    (text : Text) (now : ℕ) (s : AuthStore) → (validate_token text now s).0.otps ≡ s.otps
unfolding validate_token
validate_step text now s = ground arith

accepts-le : (cs : List Call) (s : AuthStore) → accepts cs s ≤ issues cs s + length s.otps
accepts-le [] s = omega arith
accepts-le (issue drawn now ∷ cs) s =
    ground (arith, accepts-le cs (apply (issue drawn now) s), issue_step drawn now s)
accepts-le (verify text now ∷ cs) s =
    ground (arith, accepts-le cs (apply (verify text now) s), verify_step text now s)
accepts-le (grant drawn now ∷ cs) s =
    omega (arith, accepts-le cs (apply (grant drawn now) s), ap length (grant_step drawn now s))
accepts-le (validate text now ∷ cs) s =
    omega (arith, accepts-le cs (apply (validate text now) s), ap length (validate_step text now s))

-- From a new store, over any calls in any order, no more codes are accepted than were issued.
pub accepts-le-issues : (cs : List Call) → accepts cs new_store ≤ issues cs new_store
unfolding new_store
accepts-le-issues cs = omega (arith, accepts-le cs new_store)

abbrev issued : Text → ℕ → AuthStore → AuthStore
issued code now s = record s { last_otp_issued_at = some now; otps = (code, now + s.otp_ttl) ∷ [] }

-- A call of `issue_otp` fails and changes nothing, or comes late enough and records its code.
issue-cases :
    (drawn : Option ℕ) (now : ℕ) (s : AuthStore)
    → ((e : AuthError) × (issue_otp drawn now s ≡ (s, err e)))
      ⊎ ((code : Text) × (too_soon s.cooldown now s.last_otp_issued_at ≡ false)
          × (issue_otp drawn now s ≡ (issued code now s, ok (code, now + s.otp_ttl))))
unfolding issue_otp
issue-cases drawn now s = elim (Result-cases (generate_otp drawn)) [
  | inr (e, failed) ↦ inl (e, ground (arith, failed))
  | inl (code, drew) ↦ elim (Bool-cases (too_soon s.cooldown now s.last_otp_issued_at)) [
    | inl soon ↦ inl (otp_cooldown, ground (arith, drew, soon))
    | inr late ↦ inr (code, late, ground (arith, drew, late))
  ]
]

Spaced-cons :
    (gap now : ℕ) (last : Option ℕ) (ts : List ℕ)
    → too_soon gap now last ≡ false
    → Spaced gap (some now) ts
    → Spaced gap last (now ∷ ts)
Spaced-cons gap now none ts late h = h
Spaced-cons gap now (some last) ts late h = (ltb→ge now (last + gap) late, h)

Keeps : AuthStore → AuthStore → Type 0
Keeps s t = (t.cooldown ≡ s.cooldown) × (t.last_otp_issued_at ≡ s.last_otp_issued_at)

apply-Keeps_verify : (text : Text) (now : ℕ) (s : AuthStore) → Keeps s (verify_otp text now s).0
unfolding verify_otp Keeps
apply-Keeps_verify text now s = ground arith

apply-Keeps_grant :
    (drawn : Option Bytes) (now : ℕ) (s : AuthStore) → Keeps s (issue_token drawn now s).0
unfolding issue_token Keeps
apply-Keeps_grant drawn now s = ground arith

apply-Keeps_validate :
    (text : Text) (now : ℕ) (s : AuthStore) → Keeps s (validate_token text now s).0
unfolding validate_token Keeps
apply-Keeps_validate text now s = ground arith

Spaced-Keeps :
    (s t : AuthStore) (ts : List ℕ)
    → Keeps s t
    → Spaced t.cooldown t.last_otp_issued_at ts
    → Spaced s.cooldown s.last_otp_issued_at ts
unfolding Keeps
Spaced-Keeps s t ts k h = rw (← k.0, ← k.1) h

-- The claim for a call that issues at `now`, by its result.
abbrev Next : List Call → AuthStore → ℕ → AuthStore × Result AuthError (Text × ℕ) → Type 0
Next cs s now r =
    Spaced s.cooldown s.last_otp_issued_at
      (if is_ok r.1 then now ∷ issue_times cs r.0 else issue_times cs r.0)

issue_times-Spaced_from :
    (cs : List Call) (s : AuthStore) → Spaced s.cooldown s.last_otp_issued_at (issue_times cs s)
issue_times-Spaced_from [] s = tt
issue_times-Spaced_from (issue drawn now ∷ cs) s = elim (issue-cases drawn now s) [
  | inl (e, same) ↦ subst (Next cs s now) (sym same) (issue_times-Spaced_from cs s)
  | inr (code, late, eq) ↦ subst (Next cs s now) (sym eq) (
      Spaced-cons s.cooldown now s.last_otp_issued_at (issue_times cs (issued code now s)) late
        (issue_times-Spaced_from cs (issued code now s)))
]
issue_times-Spaced_from (verify text now ∷ cs) s =
    Spaced-Keeps s (verify_otp text now s).0 _ (apply-Keeps_verify text now s)
      (issue_times-Spaced_from cs (verify_otp text now s).0)
issue_times-Spaced_from (grant drawn now ∷ cs) s =
    Spaced-Keeps s (issue_token drawn now s).0 _ (apply-Keeps_grant drawn now s)
      (issue_times-Spaced_from cs (issue_token drawn now s).0)
issue_times-Spaced_from (validate text now ∷ cs) s =
    Spaced-Keeps s (validate_token text now s).0 _ (apply-Keeps_validate text now s)
      (issue_times-Spaced_from cs (validate_token text now s).0)

-- From a new store, over any calls in any order and at any times, codes are issued at least the
-- cooldown of thirty seconds apart.
pub issue_times-Spaced :
    (cs : List Call) → Spaced default_otp_cooldown none (issue_times cs new_store)
unfolding new_store
issue_times-Spaced cs = issue_times-Spaced_from cs new_store
