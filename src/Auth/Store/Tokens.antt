-- ===== src/Auth/Store/Tokens.antt =====
-- An access token of internal/app/auth/store.go from its issue to its expiry.
use sigmo.Common.{
  ℕ, ◌+◌, ◌/◌, ◌%◌, ◌<◌, ◌≡◌, refl, false, not, [], ◌∷◌, none, some, Bytes, Text, All, arith, ltb,
  ◌==◌, nat_equal, list_equal, ok, list_beq, Bool-cases, inl, inr, if◌then◌else◌, lookup,
  lookup-insert_self, lookup-delete_self, trim_space, trim_space-of_NoSpace, NoSpace, is_space,
}
use mathlib.Core.Path.{subst}
use sigmo.Auth.Codes.{generate_token, hex_digit, hex_encode}
use sigmo.Auth.Store.{AuthStore, issue_token, validate_token}

is_space-hex_digit : (d : ℕ) → d < 16 → is_space (hex_digit d) ≡ false
unfolding is_space hex_digit
is_space-hex_digit d lt = ground arith

NoSpace-hex_encode : (bs : Bytes) → All (λ b. b < 256) bs → NoSpace (hex_encode bs)
unfolding hex_encode
NoSpace-hex_encode [] h = tt
NoSpace-hex_encode (b ∷ bs) h = (
  is_space-hex_digit (b / 16) (omega (arith, h.0)),
  (is_space-hex_digit (b % 16) (omega arith), NoSpace-hex_encode bs h.1),
)

validate_held :
    (token : Text) (later expires_at : ℕ) (s : AuthStore)
    → trim_space token ≡ token
    → (token == []) ≡ false
    → lookup token s.tokens ≡ some expires_at
    → let r = validate_token token later s in
      (r.1 ≡ not (ltb expires_at later))
      × (lookup token r.0.tokens ≡ (if r.1 then some expires_at else none))
unfolding validate_token
validate_held token later expires_at s trimmed full held =
    rw (trimmed, full, held)
      (elim (Bool-cases (ltb expires_at later)) [
        | inl old ↦ rw (old, trimmed) (refl, lookup-delete_self token s.tokens)
        | inr fresh ↦ rw fresh (refl, held)
      ])

-- A token drawn of one byte or more is accepted up to and including the time at which it expires, and
-- not after it; when it is refused for its age it is also forgotten.
pub validate-issue_token :
    (b : ℕ) (bs : Bytes) (now later : ℕ) (s : AuthStore) {token : Text} {expires_at : ℕ}
    → All (λ b. b < 256) (b ∷ bs)
    → (issue_token (some (b ∷ bs)) now s).1 ≡ ok (token, expires_at)
    → let r = validate_token token later (issue_token (some (b ∷ bs)) now s).0 in
      (r.1 ≡ not (ltb expires_at later))
      × (lookup token r.0.tokens ≡ (if r.1 then some expires_at else none))
validate-issue_token b bs now later s {token} {expires_at} bytes h =
    validate_held token later expires_at (issue_token (some (b ∷ bs)) now s).0
      (trim_space-of_NoSpace token (subst NoSpace made (NoSpace-hex_encode (b ∷ bs) bytes)))
      (subst (λ t. (t == []) ≡ false) made (unfold list_beq hex_encode in refl))
      (unfold issue_token generate_token in
        cc (lookup-insert_self token (now + s.token_ttl) s.tokens))
  where
    made : hex_encode (b ∷ bs) ≡ token
    made = unfold issue_token generate_token in cc
