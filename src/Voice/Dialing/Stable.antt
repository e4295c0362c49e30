-- ===== src/Voice/Dialing/Stable.antt =====
-- Numbers that pro/call/call_normalize.go and internal/pkg/message/recipient.go have normalized.
use sigmo.Common.{
  ℕ, ◌≡◌, refl, sym, ap, ◌∙◌, Bool, true, false, ◌&&◌, ◌||◌, [], ◌∷◌, ◌++◌, Option, none, some,
  Text, codes, all, arith, ◌==◌, nat_equal, list_equal, Result, ok, list_beq, append_assoc,
  and-true, append-nil, Bool-cases, inl, inr, ◌⊎◌, Option-cases, trim_space, trim_space-of_NoSpace,
  NoSpace, is_space,
}
use mathlib.Core.Path.{subst}
use sigmo.Voice.Dialing.{
  NumberError, is_digit, is_separator, take_rune, take_runes, compact_dial_string,
  normalize_dial_string, compacted, normalized_of, recipient_of, normalize_sms_address,
}

-- Digits, after a plus sign or not.
abbrev pub is_number : Text → Bool
is_number [] = true
is_number (r ∷ rs) = (is_digit r || r == b'+') && all is_digit rs

some-none : {a : Text} → ◌≡◌ {A = Option Text} (some a) none → ⊥
some-none h = cc

some-injective : {a b : Text} → ◌≡◌ {A = Option Text} (some a) (some b) → a ≡ b
some-injective h = cc

all-append : (p : ℕ → Bool) (xs : Text) (y : ℕ) → all p (xs ++ y ∷ []) ≡ all p xs && p y
all-append p [] y = ground arith
all-append p (x ∷ xs) y = ground (arith, all-append p xs y)

is_number-digit :
    (built : Text) (r : ℕ)
    → is_number built ≡ true
    → is_digit r ≡ true
    → is_number (built ++ r ∷ []) ≡ true
is_number-digit [] r h d = rw d refl
is_number-digit (b ∷ built) r h d = ground (arith, all-append is_digit built r)

plus-is_number :
    (built : Text) (r : ℕ) → (r == b'+' && built == []) ≡ true → is_number (built ++ r ∷ []) ≡ true
unfolding list_beq
plus-is_number [] r h = ground (arith, h)
plus-is_number (b ∷ built) r h = absurd (ground (arith, h))

take_rune-is_number :
    (built : Text) (r : ℕ) {longer : Text}
    → is_number built ≡ true
    → take_rune built r ≡ some longer
    → is_number longer ≡ true
take_rune-is_number built r {longer} h e = elim (Bool-cases (is_digit r)) [
  | inl d ↦
      subst (λ t. is_number t ≡ true) (some-injective (rw d at e)) (is_number-digit built r h d)
  | inr nd ↦ elim (Bool-cases (r == b'+' && built == [])) [
    | inl plus ↦
        subst (λ t. is_number t ≡ true) (some-injective (rw (nd, plus) at e))
          (plus-is_number built r plus)
    | inr other ↦ elim (Bool-cases (is_separator r)) [
      | inl sep ↦ subst (λ t. is_number t ≡ true) (some-injective (rw (nd, other, sep) at e)) h
      | inr bad ↦ absurd (ground (arith, nd, other, bad, e))
    ]
  ]
]

take_runes_cons :
    (built : Text) (r : ℕ) (value : Text) {longer : Text}
    → take_rune built r ≡ some longer
    → take_runes built (r ∷ value) ≡ take_runes longer value
unfolding take_runes
take_runes_cons built r value e = rw (e, take_runes) refl

take_runes-is_number :
    (built value : Text) {r : Text}
    → is_number built ≡ true
    → take_runes built value ≡ some r
    → is_number r ≡ true
unfolding take_runes
take_runes-is_number built [] h e = subst (λ t. is_number t ≡ true) (some-injective e) h
take_runes-is_number built (c ∷ value) h e = elim (Option-cases (take_rune built c)) [
  | inl refused ↦ absurd (some-none (sym e ∙ rw (refused, take_runes) refl))
  | inr (longer, taken) ↦
      take_runes-is_number longer value (take_rune-is_number built c h taken)
        (sym (take_runes_cons built c value taken) ∙ e)
]

take_rune_digit :
    (built : Text) (r : ℕ) → is_digit r ≡ true → take_rune built r ≡ some (built ++ r ∷ [])
take_rune_digit built r d = rw d refl

take_runes_digits :
    (built digits : Text)
    → all is_digit digits ≡ true
    → take_runes built digits ≡ some (built ++ digits)
take_runes_digits built [] h = unfold take_runes in ap some (sym (append-nil built))
take_runes_digits built (d ∷ digits) h =
    let parts : (is_digit d ≡ true) × (all is_digit digits ≡ true) = and-true h in
    take_runes_cons built d digits (take_rune_digit built d parts.0)
    ∙ take_runes_digits (built ++ d ∷ []) digits parts.1
    ∙ ap some (append_assoc built (d ∷ []) digits)

take_rune_first : (r : ℕ) → (is_digit r || r == b'+') ≡ true → take_rune [] r ≡ some (r ∷ [])
unfolding list_beq
take_rune_first r h = elim (Bool-cases (is_digit r)) [
  | inl d ↦ take_rune_digit [] r d
  | inr nd ↦ let plus : (r == b'+') ≡ true = ground (arith, h, nd) in rw (nd, plus) refl
]

take_runes_number : (s : Text) → is_number s ≡ true → take_runes [] s ≡ some s
take_runes_number [] h = unfold take_runes in refl
take_runes_number (r ∷ rs) h =
    let parts : ((is_digit r || r == b'+') ≡ true) × (all is_digit rs ≡ true) = and-true h in
    take_runes_cons [] r rs (take_rune_first r parts.0) ∙ take_runes_digits (r ∷ []) rs parts.1

digits_NoSpace : (s : Text) → all is_digit s ≡ true → NoSpace s
digits_NoSpace [] h = tt
digits_NoSpace (d ∷ s) h =
    let parts : (is_digit d ≡ true) × (all is_digit s ≡ true) = and-true h in
    (unfold is_space in ground (arith, parts.0), digits_NoSpace s parts.1)

number_NoSpace : (s : Text) → is_number s ≡ true → NoSpace s
number_NoSpace [] h = tt
number_NoSpace (r ∷ rs) h =
    let parts : ((is_digit r || r == b'+') ≡ true) × (all is_digit rs ≡ true) = and-true h in
    (unfold is_space in ground (arith, parts.0), digits_NoSpace rs parts.1)

-- A number, other than nothing and the sign alone.
pub record Accepted (r : Text) : Type 0 where
  pub number : is_number r ≡ true
  pub filled : (r == []) ≡ false
  pub not_sign : (r == codes "+") ≡ false

ok-same : {a b : Text} → ◌≡◌ {A = Result NumberError Text} (ok a) (ok b) → a ≡ b
ok-same h = cc

dial-Accepted :
    (built : Option Text) {r : Text}
    → ((b : Text) → built ≡ some b → is_number b ≡ true)
    → normalized_of (compacted built) ≡ ok r
    → Accepted r
dial-Accepted none h e = cc
dial-Accepted (some built) h e = elim (Bool-cases (built == codes "+")) [
  | inl sign ↦ absurd (ground (arith, sign, e))
  | inr not_sign ↦ elim (Bool-cases (built == [])) [
    | inl empty ↦ absurd (ground (arith, not_sign, empty, e))
    | inr filled ↦
        subst Accepted (ok-same (rw (not_sign, filled) at e))
          (record { number = h built refl; filled = filled; not_sign = not_sign })
  ]
]

recipient-Accepted :
    (built : Option Text) {r : Text}
    → ((b : Text) → built ≡ some b → is_number b ≡ true)
    → recipient_of built ≡ ok r
    → Accepted r
recipient-Accepted none h e = cc
recipient-Accepted (some built) h e = elim (Bool-cases (built == [])) [
  | inl empty ↦ absurd (ground (arith, empty, e))
  | inr filled ↦ elim (Bool-cases (built == codes "+")) [
    | inl sign ↦ absurd (ground (arith, filled, sign, e))
    | inr not_sign ↦
        subst Accepted (ok-same (rw (filled, not_sign) at e))
          (record { number = h built refl; filled = filled; not_sign = not_sign })
  ]
]

built_number : (value : Text) (b : Text) → take_runes [] value ≡ some b → is_number b ≡ true
built_number value b = take_runes-is_number [] value refl

normalized-Accepted :
    (s : Text) {r : Text}
    → (normalize_dial_string s ≡ ok r) ⊎ (normalize_sms_address s ≡ ok r)
    → Accepted r
normalized-Accepted s (inl e) =
    dial-Accepted (take_runes [] s) (built_number s)
      (unfold normalize_dial_string compact_dial_string in e)
normalized-Accepted s {r} (inr e) = elim (Bool-cases (trim_space s == [])) [
  | inl blank ↦ absurd (unfold normalize_sms_address in ground (arith, blank, e))
  | inr filled ↦
      let e' : recipient_of (take_runes [] (trim_space s)) ≡ ok r =
        unfold normalize_sms_address in rw filled at e in
      recipient-Accepted (take_runes [] (trim_space s)) (built_number (trim_space s)) e'
]

-- Whatever text a number was normalized from, for a call or for a message: it is digits, perhaps after
-- a plus sign, and not empty or the sign alone; and normalizing it again, for a call or for a message,
-- leaves it as it is.
pub normalized-Accepted_again :
    (s r : Text)
    → (normalize_dial_string s ≡ ok r) ⊎ (normalize_sms_address s ≡ ok r)
    → Accepted r × (normalize_dial_string r ≡ ok r) × (normalize_sms_address r ≡ ok r)
unfolding normalize_dial_string compact_dial_string normalize_sms_address
normalized-Accepted_again s r e =
    let a = normalized-Accepted s e in
    (
      a,
      rw (take_runes_number r a.number, a.not_sign, a.filled) refl,
      rw
          (
            trim_space-of_NoSpace r (number_NoSpace r a.number),
            take_runes_number r a.number,
            a.filled,
            a.not_sign,
          )
          refl,
    )
