-- ===== src/Common/Maps.antt =====
-- A Go map as an association list with at most one entry read for a key.
use mathlib.Core.Path.{◌≡◌, refl}
use mathlib.Core.Option.{Option, none, some}
use mathlib.Core.List.{List, [], ◌∷◌}
use native.Mathlib.Omega.{arith}
use sigmo.Common.Tests.{if◌then◌else◌}
use sigmo.Common.Lists.{length}
use Prim.Native.Nat.{◌≤◌, ◌<◌}
use sigmo.Common.Eq.{Equal, ◌==◌, ==_refl}

abbrev pub Assoc {ℓ κ} : Type ℓ → Type κ → Type (ℓ ⊔ κ)
Assoc K V = List (K × V)

module _ {ℓ κ} {K : Type ℓ} {V : Type κ} ⦃e : Equal K⦄ where
  -- `v, ok := m[k]`
  unfoldable pub lookup : K → Assoc K V → Option V
  lookup k [] = none
  lookup k ((j, v) ∷ m) = if j == k then some v else lookup k m

  -- `delete(m, k)`
  unfoldable pub delete : K → Assoc K V → Assoc K V
  delete k [] = []
  delete k ((j, v) ∷ m) = let rest = delete k m in if j == k then rest else (j, v) ∷ rest

  -- `m[k] = v`
  unfoldable pub insert : K → V → Assoc K V → Assoc K V
  unfolding delete
  insert k v m = (k, v) ∷ delete k m

  pub lookup-delete :
      (k j : K) (m : Assoc K V) → lookup j (delete k m) ≡ (if k == j then none else lookup j m)
  unfolding lookup delete
  lookup-delete k j [] = ground arith
  lookup-delete k j ((i, v) ∷ m) =
      ground (arith, e.beq_iff i k, e.beq_iff i j, e.beq_iff k j, lookup-delete k j m)

  pub lookup-insert :
      (k j : K) (v : V) (m : Assoc K V)
      → lookup j (insert k v m) ≡ (if k == j then some v else lookup j m)
  unfolding lookup insert
  lookup-insert k j v m = ground (arith, lookup-delete k j m)

  pub lookup-insert_self : (k : K) (v : V) (m : Assoc K V) → lookup k (insert k v m) ≡ some v
  lookup-insert_self k v m = simp (lookup-insert, ==_refl k)

  pub lookup-delete_self : (k : K) (m : Assoc K V) → lookup k (delete k m) ≡ none
  lookup-delete_self k m = simp (lookup-delete, ==_refl k)

  pub lookup_one : (k j : K) (v : V) → lookup j ((k, v) ∷ []) ≡ (if k == j then some v else none)
  unfolding lookup
  lookup_one k j v = refl

  pub length-delete-le : (k : K) (m : Assoc K V) → length (delete k m) ≤ length m
  unfolding delete
  length-delete-le k [] = omega arith
  length-delete-le k ((j, v) ∷ m) = ground (arith, length-delete-le k m)

  pub length-delete-lt :
      (k : K) (m : Assoc K V) {v : V} → lookup k m ≡ some v → length (delete k m) < length m
  unfolding lookup delete
  length-delete-lt k [] h = cc
  length-delete-lt k ((j, w) ∷ m) {v} h =
      ground (arith, length-delete-le k m, length-delete-lt k m {v = v})
