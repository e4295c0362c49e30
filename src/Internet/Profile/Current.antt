-- ===== src/Internet/Profile/Current.antt =====
-- Which bearer currentBearer of internal/pkg/internet/bearer_config.go chooses.
use sigmo.Common.{
  ℕ, ◌≡◌, refl, ap, Bool, true, false, List, [], ◌∷◌, ◌++◌, Option, none, some, All, nat_equal,
  list_equal, Result, ok, err, Bool-cases, inl, inr, if◌then◌else◌,
}
use mathlib.Core.Path.{subst}
use sigmo.Internet.Profile.{
  BearerView, ViewError, read_state, read_interface, read_ipv4, read_ipv6, list_bearers, bad_config,
  unsupported, has_apn, note_fallback, after_answer, find_current, current_bearer,
}

-- The bearer answers that it is not connected.
abbrev pub Idle : BearerView → Type 0
Idle b = b.connected ≡ ok false

-- The first bearer that does not answer so.
pub record StopsAt (answer : Result ℕ Bool) (bearers : List BearerView) (b : BearerView)
    : Type 0 where
  pub before : List BearerView
  pub after : List BearerView
  pub parts : bearers ≡ before ++ b ∷ after
  pub idle : All Idle before
  pub answers : b.connected ≡ answer

-- The first bearer with the name of an access point.
abbrev pub first_named : List BearerView → Option BearerView
first_named [] = none
first_named (b ∷ bearers) = if has_apn b then some b else first_named bearers

abbrev or_else : Option BearerView → Option BearerView → Option BearerView
or_else (some b) other = some b
or_else none other = other

-- What is chosen when `named` is the bearer to fall back on.
abbrev pub Chosen :
    Option BearerView → List BearerView → Result ViewError (Option BearerView × Bool) → Type 0
Chosen named bearers (ok (some b, true)) = StopsAt (ok true) bearers b
Chosen named bearers (ok (none, true)) = ⊥
Chosen named bearers (ok (fallback, false)) = All Idle bearers × (fallback ≡ named)
Chosen named bearers (err (read_state e)) = (b : BearerView) × StopsAt (err e) bearers b
Chosen named bearers (err (read_interface e)) = ⊥
Chosen named bearers (err (read_ipv4 e)) = ⊥
Chosen named bearers (err (read_ipv6 e)) = ⊥
Chosen named bearers (err (list_bearers e)) = ⊥
Chosen named bearers (err (bad_config e)) = ⊥
Chosen named bearers (err unsupported) = ⊥

StopsAt-cons :
    (answer : Result ℕ Bool) (bearers : List BearerView) (a b : BearerView)
    → Idle a
    → StopsAt answer bearers b
    → StopsAt answer (a ∷ bearers) b
StopsAt-cons answer bearers a b i s = record {
  before = a ∷ s.before;
  after = s.after;
  parts = ap {B = List BearerView} (λ bs. a ∷ bs) s.parts;
  idle = (i, s.idle);
  answers = s.answers;
}

Chosen-cons :
    (named : Option BearerView) (bearers : List BearerView) (a : BearerView)
    (r : Result ViewError (Option BearerView × Bool))
    → Idle a
    → Chosen named bearers r
    → Chosen named (a ∷ bearers) r
Chosen-cons named bearers a (ok (some b, true)) i h = StopsAt-cons (ok true) bearers a b i h
Chosen-cons named bearers a (ok (none, true)) i h = h
Chosen-cons named bearers a (ok (some b, false)) i h = ((i, h.0), h.1)
Chosen-cons named bearers a (ok (none, false)) i h = ((i, h.0), h.1)
Chosen-cons named bearers a (err (read_state e)) i h =
    (h.0, StopsAt-cons (err e) bearers a h.0 i h.1)
Chosen-cons named bearers a (err (read_interface e)) i h = h
Chosen-cons named bearers a (err (read_ipv4 e)) i h = h
Chosen-cons named bearers a (err (read_ipv6 e)) i h = h
Chosen-cons named bearers a (err (list_bearers e)) i h = h
Chosen-cons named bearers a (err (bad_config e)) i h = h
Chosen-cons named bearers a (err unsupported) i h = h

or_else-note_fallback :
    (fallback : Option BearerView) (b : BearerView) (bearers : List BearerView)
    → or_else (note_fallback fallback b) (first_named bearers)
      ≡ or_else fallback (first_named (b ∷ bearers))
or_else-note_fallback (some a) b bearers = refl
or_else-note_fallback none b bearers = elim (Bool-cases (has_apn b)) [
  | inl named ↦ rw named refl
  | inr unnamed ↦ rw unnamed refl
]

after_answer-Chosen :
    (named : Option BearerView) (answer : Result ℕ Bool) (b : BearerView)
    (bearers : List BearerView) (rest : Result ViewError (Option BearerView × Bool))
    → b.connected ≡ answer
    → Chosen named bearers rest
    → Chosen named (b ∷ bearers) (after_answer answer b rest)
after_answer-Chosen named (err e) b bearers rest answers h =
    (b, record { before = []; after = bearers; parts = refl; idle = tt; answers = answers })
after_answer-Chosen named (ok true) b bearers rest answers h = record {
  before = [];
  after = bearers;
  parts = refl;
  idle = tt;
  answers = answers;
}
after_answer-Chosen named (ok false) b bearers rest answers h =
    Chosen-cons named bearers b rest answers h

find_current-Chosen :
    (fallback : Option BearerView) (bearers : List BearerView)
    → Chosen (or_else fallback (first_named bearers)) bearers (find_current fallback bearers)
unfolding find_current
find_current-Chosen (some b) [] = (tt, refl)
find_current-Chosen none [] = (tt, refl)
find_current-Chosen fallback (b ∷ bearers) =
    let rest = find_current (note_fallback fallback b) bearers in
    let ih = find_current-Chosen (note_fallback fallback b) bearers in
    after_answer-Chosen _ b.connected b bearers rest refl
      (subst (λ n. Chosen n bearers rest) (or_else-note_fallback fallback b bearers) ih)

-- For every list of bearers: a bearer is reported as connected exactly if it is the first that does
-- not answer that it is not, and it answers that it is; if that first one fails to answer, its error
-- is the result; if all answer that they are not connected, the first with the name of an access
-- point is the result, or none.
pub current_bearer-Chosen :
    (bearers : List BearerView) → Chosen (first_named bearers) bearers (current_bearer (ok bearers))
unfolding current_bearer
current_bearer-Chosen bearers = find_current-Chosen none bearers
