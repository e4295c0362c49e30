-- ===== src/Common/Results.antt =====
-- A Go result `(value, error)`: one of the two is used.
use mathlib.Core.Path.{◌≡◌, refl, subst}
use mathlib.Core.Logic.{◌⊎◌, inl, inr}
use mathlib.Core.Bool.{Bool, true, false}

pub data Result {ℓ κ} (E : Type ℓ) (A : Type κ) : Type (ℓ ⊔ κ) where
  ok : A → Result E A
  err : E → Result E A

-- `if err != nil { return err }`, before what follows.
abbrev pub ◌>>=◌ {ℓ κ μ} :
    {E : Type ℓ} {A : Type κ} {B : Type μ} → Result E A → (A → Result E B) → Result E B
err failure >>= next = err failure
ok value >>= next = next value

-- `if bad { return err }`
abbrev pub refuse_if {ℓ} : {E : Type ℓ} → Bool → E → Result E (Unit {0})
refuse_if true e = err e
refuse_if false e = ok tt

infixl 5 ◌>>=◌ ◌>>◌
abbrev pub ◌>>◌ {ℓ κ} : {E : Type ℓ} {B : Type κ} → Result E (Unit {0}) → Result E B → Result E B
first >> second = first >>= λ u. second

abbrev pub map_result {ℓ κ λ'} :
    {E : Type ℓ} {A : Type κ} {B : Type λ'} → (A → B) → Result E A → Result E B
map_result f (ok a) = ok (f a)
map_result f (err e) = err e

pub Result-cases {ℓ κ} :
    {E : Type ℓ} {A : Type κ} (r : Result E A) → ((a : A) × (r ≡ ok a)) ⊎ ((e : E) × (r ≡ err e))
Result-cases (ok a) = inl (a, refl)
Result-cases (err e) = inr (e, refl)

-- Inversion of a successful bind.
pub >>=-eq-ok {ℓ κ μ} :
    {E : Type ℓ} {A : Type κ} {B : Type μ} (r : Result E A) (next : A → Result E B) {last : B}
    → (r >>= next) ≡ ok last
    → (value : A) × (r ≡ ok value) × (next value ≡ ok last)
>>=-eq-ok (err failure) next e = cc
>>=-eq-ok (ok value) next e = (value, refl, e)

-- What holds of the value of a successful result.
abbrev pub Ensures {ℓ κ λ'} : {E : Type ℓ} {A : Type κ} → (A → Type λ') → Result E A → Type λ'
Ensures P (ok a) = P a
Ensures P (err e) = Unit

pub Ensures-bind {ℓ κ λ' μ ν} :
    {E : Type ℓ} {A : Type κ} {B : Type λ'} (P : A → Type μ) (Q : B → Type ν) (m : Result E A)
    (f : A → Result E B)
    → Ensures P m
    → ((a : A) → P a → Ensures Q (f a))
    → Ensures Q (m >>= f)
Ensures-bind P Q (ok a) f h k = k a h
Ensures-bind P Q (err e) f h k = tt

pub Ensures-ok {ℓ κ λ'} :
    {E : Type ℓ} {A : Type κ} (P : A → Type λ') (m : Result E A) {a : A}
    → Ensures P m
    → m ≡ ok a
    → P a
Ensures-ok P m h e = subst (Ensures P) e h

pub ok-injective {ℓ κ} :
    {E : Type ℓ} {A : Type κ} {a b : A} → ◌≡◌ {A = Result E A} (ok a) (ok b) → a ≡ b
ok-injective h = cc

pub Ensures-refuse_if {ℓ κ λ'} :
    {E : Type ℓ} {B : Type κ} (Q : B → Type λ') (bad : Bool) (e : E) (k : Result E B)
    → (bad ≡ false → Ensures Q k)
    → Ensures Q (refuse_if bad e >> k)
Ensures-refuse_if Q true e k h = tt
Ensures-refuse_if Q false e k h = h refl
