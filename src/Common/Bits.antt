-- ===== src/Common/Bits.antt =====
-- Go's `&` and `|` with a power of two, at a variable.
use Prim.Native.Nat.{
  ℕ, zero, suc, ◌+◌, ◌*◌, ◌/◌, ◌%◌, ◌^◌, ◌≤◌, min, bit_and, digits, bit_and-bitwise,
}
use mathlib.Core.Path.{◌≡◌, refl, ap, ◌∙◌}
use native.Mathlib.Omega.{arith}
use native.Mathlib.Nat.{div-div-eq-div-mul}

-- The binary digit of a number at a place.
abbrev pub digit : ℕ → ℕ → ℕ
digit a k = a / 2 ^ k % 2

pub pow_pos : (k : ℕ) → 1 ≤ 2 ^ k
pow_pos zero = omega arith
pow_pos (suc k) = omega (arith, pow_pos k)

pow_suc : (k : ℕ) → 2 ^ suc k ≡ 2 ^ k * 2
pow_suc k = omega arith

zero-digit : (k : ℕ) → digit 0 k ≡ 0
zero-digit k = grind (arith, pow_pos k)

pub digit-half : (a k : ℕ) → digit (a / 2) k ≡ digit a (suc k)
digit-half a k =
    ap (λ q. q % 2) (div-div-eq-div-mul a 2 (2 ^ k) ∙ ap (λ p. a / p) (omega (arith, pow_suc k)))

-- `and` by digits, with a count that is high enough.
and_nil : (n a : ℕ) → digits (λ b. zero) min n a 0 ≡ 0
and_nil zero a = refl
and_nil (suc n) zero = refl
and_nil (suc n) (suc a) = omega (arith, and_nil n (suc a / 2))

join :
    (low odd top whole p q : ℕ)
    → odd ≡ 0
    → whole ≡ top * p
    → q ≡ p * 2
    → whole * 2 + min low odd ≡ top * q
join low odd top whole p q e f g = grind (arith, e, f, g)

and_power : (k n a : ℕ) → a ≤ n → digits (λ b. zero) min n a (2 ^ k) ≡ digit a k * 2 ^ k
and_power k zero zero h = rw (zero-digit k) (omega arith)
and_power k zero (suc a) h = absurd (omega arith)
and_power k (suc n) zero h = rw (zero-digit k) (omega arith)
and_power zero (suc n) (suc a) h = omega (arith, and_nil n (suc a / 2))
and_power (suc k) (suc n) (suc a) h =
    let half : 2 ^ suc k / 2 ≡ 2 ^ k = omega (arith, pow_suc k) in
    let even : 2 ^ suc k % 2 ≡ 0 = omega (arith, pow_suc k) in
    let upper : digits (λ b. zero) min n (suc a / 2) (2 ^ suc k / 2)
        ≡ digit (suc a) (suc k) * 2 ^ k =
      ap (digits (λ b. zero) min n (suc a / 2)) half
      ∙ and_power k n (suc a / 2) (omega (arith, h))
      ∙ ap (λ c. c * 2 ^ k) (digit-half (suc a) k) in
    join (suc a % 2) (2 ^ suc k % 2) (digit (suc a) (suc k)) _ (2 ^ k) (2 ^ suc k) even upper
      (pow_suc k)

pub bit_and-power : (a k : ℕ) → bit_and a (2 ^ k) ≡ digit a k * 2 ^ k
bit_and-power a k = bit_and-bitwise a (2 ^ k) ∙ and_power k a a (omega arith)

pub digit-le : (a k : ℕ) → digit a k ≤ 1
digit-le a k = omega arith
