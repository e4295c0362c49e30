-- ===== src/Auth/Otp/Providers.antt =====
-- Who is sent a code in internal/app/handler/auth/otp.go.
use sigmo.Common.{
  ℕ, suc, ◌≡◌, ◌≢◌, ◌⊎◌, refl, sym, ap, Bool, true, false, not, List, [], ◌∷◌, Option, none, some,
  Text, length, All, Any, All-map, Any-map, Any-All, Any-exists, any-Any, arith, ◌==◌, nat_equal,
  list_equal, list_beq_iff, Result, ok, err, list_beq, Ensures, Ensures-bind, Ensures-refuse_if,
  Bool-cases, inl, inr, trim_space, if◌then◌else◌,
}
use mathlib.Core.Path.{subst}
use sigmo.Common.{to_lower, equal_fold}
use sigmo.Notify.{
  Delivery, is_fine, Notifier, is_one_of, with_name, add_client, new_channels, known_targets,
  targets, split, send_event, is_fine,
}
use sigmo.Auth.Codes.{AuthError}
use sigmo.Auth.Store.{AuthStore, issue_otp}
use sigmo.Auth.Otp.{
  OtpError, send_failed, AuthSettings, SendWorld, Handed, hand_over, send_through, send_to,
  channel_enabled, collect_providers, enabled_auth_providers, Sent, send,
}

-- The name is not empty, and the settings enable a channel that is called so, up to case and blanks.
abbrev pub Enabled : List (Text × Bool) → Text → Type 0
Enabled channels name =
    (name ≢ []) × Any (λ c. (equal_fold (trim_space c.0) name ≡ true) × (c.1 ≡ true)) channels

-- The name of a channel that the settings enable, in small letters.
abbrev pub Known : List (Text × Bool) → Text → Type 0
Known channels name = Any (λ c. (name ≡ to_lower c.0) × (c.1 ≡ true)) channels

-- Each search ranges over channels of the settings.
abbrev pub Ranges : SendWorld → AuthSettings → Type 0
Ranges w s = (n : ℕ) → All (λ c. Any (λ d. d ≡ c) s.channels) (w.orders n)

channel_enabled-Any :
    (order : List (Text × Bool)) (name : Text)
    → channel_enabled order name ≡ true
    → Any (λ c. (equal_fold (trim_space c.0) name ≡ true) × (c.1 ≡ true)) order
unfolding channel_enabled
channel_enabled-Any [] name h = cc
channel_enabled-Any ((n, enabled) ∷ order) name h =
    elim (Bool-cases (equal_fold (trim_space n) name)) [
      | inl e ↦ inl (e, rw e at h)
      | inr e ↦ inr (channel_enabled-Any order name (rw e at h))
    ]

ne_of_test : (t : Text) → (t == []) ≡ false → t ≢ []
ne_of_test t h e = cc ((list_beq_iff t []).1 e)

ordered-Enabled :
    (w : SendWorld) (s : AuthSettings) (n : ℕ) (name : Text)
    → Ranges w s
    → (name == []) ≡ false
    → channel_enabled (w.orders n) name ≡ true
    → Enabled s.channels name
ordered-Enabled w s n name ranges named h =
    let (c, (found, inside)) =
      Any-exists (w.orders n)
        (Any-All _ _ (w.orders n) (channel_enabled-Any (w.orders n) name h) (ranges n)) in
    (
      ne_of_test name named,
      Any-map
          (λ d same.
            subst (λ x. (equal_fold (trim_space x.0) name ≡ true) × (x.1 ≡ true)) (sym same) found)
          s.channels inside,
    )

abbrev Collected : AuthSettings → List Text → List Text → Type 0
Collected s providers names = All (Enabled s.channels) names × (length names ≡ length providers)

not-false : {b : Bool} → not b ≡ false → b ≡ true
not-false {b} h = ground arith

collect-Collected :
    (w : SendWorld) (s : AuthSettings) (n : ℕ) (providers : List Text)
    → Ranges w s
    → Ensures (Collected s providers) (collect_providers w.orders n providers)
unfolding collect_providers
collect-Collected w s n [] ranges = (tt, refl)
collect-Collected w s n (p ∷ ps) ranges =
    let name : Text = to_lower (trim_space p) in
    Ensures-refuse_if (Collected s (p ∷ ps)) _ _ _ λ named.
      Ensures-refuse_if (Collected s (p ∷ ps)) _ _ _ λ enabled.
        Ensures-bind (Collected s ps) (Collected s (p ∷ ps)) (collect_providers w.orders (suc n) ps)
          (λ others. ok (name ∷ others)) (collect-Collected w s (suc n) ps ranges)
          (λ names done.
            ((ordered-Enabled w s n name ranges named (not-false enabled), done.0), ap suc done.1))

Named : AuthSettings → List Text → Type 0
Named s names = (names ≢ []) × All (Enabled s.channels) names

Collected-Named :
    (s : AuthSettings) (ps : List Text) (m : Result OtpError (List Text))
    → (ps == []) ≡ false
    → Ensures (Collected s ps) m
    → Ensures (Named s) m
unfolding Named list_beq
Collected-Named s ps (err x) e h = tt
Collected-Named s [] (ok names) e h = cc
Collected-Named s (p ∷ ps) (ok []) e h = absurd (omega arith)
Collected-Named s (p ∷ ps) (ok (n ∷ names)) e h = (cc, h.0)

providers-Named :
    (w : SendWorld) (s : AuthSettings)
    → Ranges w s
    → Ensures (Named s) (enabled_auth_providers w.orders s)
unfolding enabled_auth_providers
providers-Named w s ranges = elim (Bool-cases (s.auth_providers == [])) [
  | inl e ↦ rw e tt
  | inr e ↦ rw e (
      Collected-Named s s.auth_providers (collect_providers w.orders 0 s.auth_providers) e
        (collect-Collected w s 0 s.auth_providers ranges))
]

-- What holds of the names of a notifier that could be made.
Made : (Text → Type 0) → Option (List Text) → Type 0
Made P none = Unit
Made P (some names) = All P names

with_name-All :
    (P : Text → Type 0) (name : Text) (names : List Text)
    → P name
    → All P names
    → All P (with_name name names)
with_name-All P name names p h = elim (Bool-cases (is_one_of name names)) [
  | inl e ↦ rw e h
  | inr e ↦ rw e (p, h)
]

add_client-Made :
    (P : Text → Type 0) (enabled created : Bool) (name : Text) (rest : Option (List Text))
    → (enabled ≡ true → P name)
    → Made P rest
    → Made P (add_client enabled created name rest)
unfolding Made
add_client-Made P false created name rest p h = h
add_client-Made P true false name rest p h = tt
add_client-Made P true true name none p h = tt
add_client-Made P true true name (some names) p h = with_name-All P name names (p refl) h

Made-map :
    (P Q : Text → Type 0) (o : Option (List Text)) → ((t : Text) → P t → Q t) → Made P o → Made Q o
unfolding Made
Made-map P Q none f h = tt
Made-map P Q (some names) f h = All-map f names h

new_channels-Known :
    (creates : Text → Bool) (channels : List (Text × Bool))
    → Made (Known channels) (new_channels creates channels)
unfolding new_channels
new_channels-Known creates [] = unfold Made in tt
new_channels-Known creates ((name, enabled) ∷ channels) =
    add_client-Made (Known ((name, enabled) ∷ channels)) enabled (creates (to_lower name))
      (to_lower name) (new_channels creates channels) (λ e. inl (refl, e))
      (Made-map (Known channels) (Known ((name, enabled) ∷ channels))
        (new_channels creates channels) (λ t known. inr known)
        (new_channels-Known creates channels))

known_targets-All :
    (P : Text → Type 0) (known names : List Text) → All P known → All P (known_targets known names)
unfolding known_targets
known_targets-All P known [] h = tt
known_targets-All P known (name ∷ names) h = elim (Bool-cases (is_one_of (to_lower name) known)) [
  | inr e ↦ rw e (known_targets-All P known names h)
  | inl e ↦
      let (t, (same, p)) = Any-exists known (Any-All _ _ known (any-Any _ known e) h) in
      rw e (subst P ((list_beq_iff t (to_lower name)).0 same) p, known_targets-All P known names h)
]

split-All :
    (P : Text → Type 0) (accepts : Text → Bool) (ts : List Text)
    → All P ts
    → All P (split accepts ts).reached
split-All P accepts [] h = tt
split-All P accepts (t ∷ ts) h = elim (Bool-cases (accepts t)) [
  | inl e ↦ rw e (h.0, split-All P accepts ts h.1)
  | inr e ↦ rw e (split-All P accepts ts h.1)
]

send_event-All :
    (P : Text → Type 0) (n : Notifier) (names : List Text)
    → names ≢ []
    → All P n.channels
    → All P (send_event n names).reached
unfolding send_event targets
send_event-All P n [] some' h = absurd (some' refl)
send_event-All P n (name ∷ names) some' h =
    split-All P n.accepts (known_targets n.channels (name ∷ names))
      (known_targets-All P n.channels (name ∷ names) h)

-- The answer is an error if a channel failed, and none if none did.
abbrev pub Answers : Delivery → Result OtpError (Unit {0}) → Type 0
Answers d answer =
    ((d.failed ≡ []) × (answer ≡ ok tt)) ⊎ ((d.failed ≢ []) × (answer ≡ err send_failed))

fine-Answers :
    (reached failed : List Text)
    → let d : Delivery = record { reached = reached; failed = failed } in
      Answers d (if is_fine d then ok tt else err send_failed)
unfolding is_fine
fine-Answers reached [] = inl (refl, refl)
fine-Answers reached (f ∷ fs) = inr (cc, refl)

-- What is stated of a code that was handed over, and of the answer.
HandedWell :
    SendWorld → AuthSettings → AuthStore → Option Handed → Result OtpError (Unit {0}) → Type 0
HandedWell w s store none answer = Unit
HandedWell w s store (some handed) answer =
    ((n : ℕ) × ((issue_otp w.drawn w.now store).1 ≡ ok (handed.code, n)))
    × (handed.names ≢ [])
    × All (Enabled s.channels) handed.names
    × All (Known s.channels) handed.delivery.reached
    × Answers handed.delivery answer

abbrev SentWell : SendWorld → AuthSettings → AuthStore → Sent → Type 0
SentWell w s store sent = HandedWell w s store sent.1 sent.2

hand_over-HandedWell :
    (w : SendWorld) (s : AuthSettings) (store : AuthStore) (channels names : List Text)
    (issued : AuthStore × Result AuthError (Text × ℕ))
    → (issue_otp w.drawn w.now store).1 ≡ issued.1
    → Named s names
    → All (Known s.channels) channels
    → SentWell w s store (hand_over w channels names issued)
unfolding HandedWell Named
hand_over-HandedWell w s store channels names (store', err e) same named known = tt
hand_over-HandedWell w s store channels names (store', ok (code, n)) same named known = (
  (n, same),
  named.0,
  named.1,
  send_event-All (Known s.channels) (record { channels = channels; accepts = w.accepts }) names
      named.0 known,
  fine-Answers _ _,
)

send_through-HandedWell :
    (w : SendWorld) (s : AuthSettings) (store : AuthStore) (names : List Text)
    (channels : Option (List Text))
    → Named s names
    → Made (Known s.channels) channels
    → SentWell w s store (send_through w store names channels)
send_through-HandedWell w s store names none named known = unfold HandedWell in tt
send_through-HandedWell w s store names (some channels) named known =
    hand_over-HandedWell w s store channels names (issue_otp w.drawn w.now store) refl named
      (unfold Made in known)

send_to-HandedWell :
    (w : SendWorld) (s : AuthSettings) (store : AuthStore) (providers : Result OtpError (List Text))
    → Ensures (Named s) providers
    → SentWell w s store (send_to w s store providers)
send_to-HandedWell w s store (err e) named = unfold HandedWell in tt
send_to-HandedWell w s store (ok names) named =
    send_through-HandedWell w s store names (new_channels w.creates s.channels) named
      (new_channels-Known w.creates s.channels)

send-HandedWell :
    (w : SendWorld) (s : AuthSettings) (store : AuthStore)
    → Ranges w s
    → SentWell w s store (send w s store)
unfolding send
send-HandedWell w s store ranges =
    if-HandedWell (not s.otp_required) (store, none, ok tt)
      (send_to w s store (enabled_auth_providers w.orders s)) (unfold HandedWell in tt)
      (send_to-HandedWell w s store (enabled_auth_providers w.orders s)
        (providers-Named w s ranges))
  where
    if-HandedWell :
        (b : Bool) (x y : Sent)
        → SentWell w s store x
        → SentWell w s store y
        → SentWell w s store (if b then x else y)
    if-HandedWell true x y h k = h
    if-HandedWell false x y h k = k

-- Whatever became of it, a code that was handed to the notifier was one that the store had issued. It
-- was for one channel at least, every name it was for is not empty and is that of a channel that the
-- settings enable, up to case and blanks, and every channel that it reached is the small-letter name of
-- one; and the answer is an error exactly if a channel failed. The searches range over the channels of the settings, each in an order of its own.
pub send-Enabled :
    (w : SendWorld) (s : AuthSettings) (store : AuthStore) (handed : Handed)
    → Ranges w s
    → (send w s store).1 ≡ some handed
    → ((n : ℕ) × ((issue_otp w.drawn w.now store).1 ≡ ok (handed.code, n)))
      × (handed.names ≢ [])
      × All (Enabled s.channels) handed.names
      × All (Known s.channels) handed.delivery.reached
      × Answers handed.delivery (send w s store).2
send-Enabled w s store handed ranges h =
    unfold HandedWell in
    subst (λ o. HandedWell w s store o (send w s store).2) h (send-HandedWell w s store ranges)
