-- ===== src/Common/Eq.antt =====
-- Go's `==` as an interface, with its instances.
use mathlib.Core.Path.{◌≡◌, refl, ap₂}
use mathlib.Core.Logic.{◌↔◌}
use mathlib.Core.Bool.{Bool, true, false, ◌&&◌}
use mathlib.Core.List.{List, [], ◌∷◌}
use Prim.Native.Nat.{ℕ}
use sigmo.Common.Tests.{nat_beq, nat_beq_iff, and-true}

pub record Equal {ℓ} (A : Type ℓ) : Type ℓ where
  pub beq : A → A → Bool
  pub beq_iff : (x y : A) → (beq x y ≡ true) ↔ (x ≡ y)

instance abbrev pub nat_equal : Equal ℕ
nat_equal = record { beq = nat_beq; beq_iff = nat_beq_iff }

infix 50 ◌==◌
abbrev pub ◌==◌ {κ} : {K : Type κ} ⦃eq : Equal K⦄ → K → K → Bool
◌==◌ ⦃eq⦄ = eq.beq

module _ {ℓ} {A : Type ℓ} ⦃e : Equal A⦄ where
  pub ==_refl : (a : A) → (a == a) ≡ true
  ==_refl a = (e.beq_iff a a).1 refl

  unfoldable pub list_beq : List A → List A → Bool
  list_beq [] [] = true
  list_beq (x ∷ xs) (y ∷ ys) = (x == y) && list_beq xs ys
  list_beq _ _ = false

  list_beq→eq : (xs ys : List A) → list_beq xs ys ≡ true → xs ≡ ys
  unfolding list_beq
  list_beq→eq [] [] h = refl
  list_beq→eq [] (y ∷ ys) h = cc
  list_beq→eq (x ∷ xs) [] h = cc
  list_beq→eq (x ∷ xs) (y ∷ ys) h =
      ap₂ (λ a as'. a ∷ as') ((e.beq_iff x y).0 (and-true h).0) (list_beq→eq xs ys (and-true h).1)

  list_beq_refl : (xs : List A) → list_beq xs xs ≡ true
  unfolding list_beq
  list_beq_refl [] = refl
  list_beq_refl (x ∷ xs) = rw (==_refl x) (list_beq_refl xs)

  pub list_beq_iff : (xs ys : List A) → (list_beq xs ys ≡ true) ↔ (xs ≡ ys)
  list_beq_iff xs ys = (list_beq→eq xs ys, λ h. rw h (list_beq_refl ys))

-- Also Go strings and byte slices under `slices.Equal`.
instance abbrev pub list_equal {ℓ} : {A : Type ℓ} ⦃e : Equal A⦄ → Equal (List A)
list_equal = record { beq = list_beq; beq_iff = list_beq_iff }
