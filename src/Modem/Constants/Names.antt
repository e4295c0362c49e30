-- ===== src/Modem/Constants/Names.antt =====
-- The names of internal/pkg/modem/constants.go tell the values apart.
use sigmo.Common.{
  ℕ, ◌≡◌, ◌≢◌, refl, sym, ◌∙◌, Bool, true, not, ◌&&◌, ◌||◌, List, [], ◌∷◌, Text, codes, any, all,
  arith, ◌==◌, nat_equal, list_equal, nat_beq_iff, list_beq_iff, list_beq, and-true, Bool-cases,
  inl, inr,
}
use sigmo.Modem.Constants.{
  named, state_names, lock_names, sms_state_names, sms_storage_names, registration_names,
  technology_names, mode_names, availability_names, state_string, lock_string, sms_state_string,
  sms_storage_string, registration_string, technology_string, mode_string, availability_string,
}

-- The types with a `String` method over named values.
pub data Enumeration : Type 0 where
  states locks sms_states sms_storages registrations technologies modes availabilities : Enumeration

abbrev pub names_of : Enumeration → List (ℕ × Text)
names_of states = state_names
names_of locks = lock_names
names_of sms_states = sms_state_names
names_of sms_storages = sms_storage_names
names_of registrations = registration_names
names_of technologies = technology_names
names_of modes = mode_names
names_of availabilities = availability_names

abbrev pub string_of : Enumeration → ℕ → Text
string_of states = state_string
string_of locks = lock_string
string_of sms_states = sms_state_string
string_of sms_storages = sms_storage_string
string_of registrations = registration_string
string_of technologies = technology_string
string_of modes = mode_string
string_of availabilities = availability_string

abbrev pub is_named : ℕ → List (ℕ × Text) → Bool
is_named v = any (λ row. row.0 == v)

-- No value of the rest of the table has the name of an earlier value.
abbrev fresh : ℕ → Text → List (ℕ × Text) → Bool
fresh v name = all (λ row. (row.0 == v) || not (row.1 == name))

distinct : List (ℕ × Text) → Bool
distinct [] = true
distinct ((v, name) ∷ names) = let rest = distinct names in fresh v name names && rest

-- The name of a named value stands in the table.
named_fresh :
    (names : List (ℕ × Text)) (d : Text) (v u : ℕ) (name : Text)
    → fresh v name names ≡ true
    → is_named u names ≡ true
    → named names d u ≡ name
    → u ≡ v
unfolding named
named_fresh [] d v u name h k e = absurd (ground arith)
named_fresh ((w, n) ∷ names) d v u name h k e =
    let (first, others) : (((w == v) || not (n == name)) ≡ true) × (fresh v name names ≡ true) =
      and-true h in
    elim (Bool-cases (w == u)) [
      | inl hit ↦
          let same : (n == name) ≡ true = (list_beq_iff n name).1 (rw hit at e) in
          let here : (w == v) ≡ true = ground (arith, first, same) in
          sym ((nat_beq_iff w u).0 hit) ∙ (nat_beq_iff w v).0 here
      | inr miss ↦ named_fresh names d v u name others (rw miss at k) (rw miss at e)
    ]

named-injective :
    (names : List (ℕ × Text)) (d : Text) (u v : ℕ)
    → distinct names ≡ true
    → is_named u names ≡ true
    → is_named v names ≡ true
    → named names d u ≡ named names d v
    → u ≡ v
unfolding named distinct
named-injective [] d u v h ku kv e = absurd (ground arith)
named-injective ((w, n) ∷ names) d u v h ku kv e =
    let first : fresh w n names ≡ true = (and-true h).0 in
    let others : distinct names ≡ true = (and-true h).1 in
    elim (Bool-cases (w == u)) [
      | inl hit ↦ elim (Bool-cases (w == v)) [
        | inl hit' ↦ sym ((nat_beq_iff w u).0 hit) ∙ (nat_beq_iff w v).0 hit'
        | inr miss' ↦
            sym ((nat_beq_iff w u).0 hit)
            ∙ sym (named_fresh names d w v n first (rw miss' at kv) (sym (rw (hit, miss') at e)))
      ]
      | inr miss ↦ elim (Bool-cases (w == v)) [
        | inl hit' ↦
            named_fresh names d w u n first (rw miss at ku) (rw (miss, hit') at e)
            ∙ (nat_beq_iff w v).0 hit'
        | inr miss' ↦
            named-injective names d u v others (rw miss at ku) (rw miss' at kv)
              (rw (miss, miss') at e)
      ]
    ]

distinct-names_of : (e : Enumeration) → distinct (names_of e) ≡ true
unfolding distinct list_beq
distinct-names_of states = refl
distinct-names_of locks = refl
distinct-names_of sms_states = refl
distinct-names_of sms_storages = refl
distinct-names_of registrations = refl
distinct-names_of technologies = refl
distinct-names_of modes = refl
distinct-names_of availabilities = refl

default_of : Enumeration → Text
default_of states = codes "Unknown"
default_of locks = codes "unknown"
default_of sms_states = codes "Unknown"
default_of sms_storages = codes "unknown"
default_of registrations = codes "Undefined"
default_of technologies = codes "Unknown"
default_of modes = codes "Unknown"
default_of availabilities = codes "Undefined"

string_of-named : (e : Enumeration) (v : ℕ) → string_of e v ≡ named (names_of e) (default_of e) v
unfolding default_of state_string lock_string sms_state_string sms_storage_string
    registration_string technology_string mode_string availability_string
string_of-named states v = refl
string_of-named locks v = refl
string_of-named sms_states v = refl
string_of-named sms_storages v = refl
string_of-named registrations v = refl
string_of-named technologies v = refl
string_of-named modes v = refl
string_of-named availabilities v = refl

string_of-injective :
    (e : Enumeration) (u v : ℕ)
    → is_named u (names_of e) ≡ true
    → is_named v (names_of e) ≡ true
    → string_of e u ≡ string_of e v
    → u ≡ v
string_of-injective e u v ku kv h =
    named-injective (names_of e) (default_of e) u v (distinct-names_of e) ku kv
      (sym (string_of-named e u) ∙ (h ∙ string_of-named e v))

-- Two different values that a type names have different names.
pub string_of_distinct :
    (e : Enumeration) (u v : ℕ)
    → is_named u (names_of e) ≡ true
    → is_named v (names_of e) ≡ true
    → u ≢ v
    → string_of e u ≢ string_of e v
string_of_distinct e u v ku kv differ h = differ (string_of-injective e u v ku kv h)
