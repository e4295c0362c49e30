-- ===== src/Modem/Constants/Masks.antt =====
-- The masks of internal/pkg/modem/constants.go.
use sigmo.Common.{
  ℕ, zero, suc, ◌+◌, ◌*◌, ◌%◌, ◌^◌, ◌≡◌, ◌≢◌, refl, ap, ◌∙◌, false, List, [], ◌∷◌, arith, ◌==◌,
  nat_equal, list_equal, nat_beq_iff, Bool-cases, inl, inr, bit_and,
}
use sigmo.Common.Bits.{digit, bit_and-power, digit-le, pow_pos}
use sigmo.Modem.Constants.{present, unmarshal_bitmask, supported_technologies, any_value}

-- The sum of the values of a list.
abbrev pub total : List ℕ → ℕ
total [] = 0
total (value ∷ values) = value + total values

present_step :
    (b k : ℕ) (values : List ℕ)
    → total (present b (2 ^ k ∷ values)) ≡ digit b k * 2 ^ k + total (present b values)
unfolding present
present_step b k values =
    let e : bit_and b (2 ^ k) ≡ digit b k * 2 ^ k = bit_and-power b k in
    elim (Bool-cases (digit b k == 0)) [
      | inl z ↦
          let none' : digit b k ≡ 0 = (nat_beq_iff (digit b k) 0).0 z in
          let absent : bit_and b (2 ^ k) ≡ 0 = e ∙ rw none' (omega arith) in
          rw (none', absent) (omega arith)
      | inr z ↦
          let one : digit b k ≡ 1 = ground (arith, digit-le b k, z) in
          let found : bit_and b (2 ^ k) ≡ 2 ^ k = e ∙ rw one (omega arith) in
          let positive : (2 ^ k == 0) ≡ false = ground (arith, pow_pos k) in
          rw (one, found, positive) (omega arith)
    ]

-- Powers of two from a place on.
powers : ℕ → ℕ → List ℕ
powers k zero = []
powers k (suc n) = 2 ^ k ∷ powers (suc k) n

digits_sum : ℕ → ℕ → ℕ → ℕ
digits_sum b k zero = 0
digits_sum b k (suc n) = digit b k * 2 ^ k + digits_sum b (suc k) n

present-powers : (b n k : ℕ) → total (present b (powers k n)) ≡ digits_sum b k n
unfolding powers digits_sum
present-powers b zero k = unfold present in refl
present-powers b (suc n) k =
    present_step b k (powers (suc k) n)
    ∙ ap (λ r. digit b k * 2 ^ k + r) (present-powers b n (suc k))

digits_mod : (b : ℕ) → digits_sum b 0 18 ≡ b % 2 ^ 18
unfolding digits_sum
digits_mod b = omega arith

supported_powers : supported_technologies ≡ powers 0 18
unfolding powers
supported_powers = refl

supported_total : (b : ℕ) → total (present b supported_technologies) ≡ b % 2 ^ 18
supported_total b =
    ap (λ values. total (present b values)) supported_powers
    ∙ (present-powers b 18 0 ∙ digits_mod b)

-- A mask is the sum of the technologies that it is read as, up to the bits that have no technology.
-- The mask of all technologies is the one exception.
pub unmarshal_bitmask-total : (b : ℕ) → b ≢ any_value → total (unmarshal_bitmask b) ≡ b % 2 ^ 18
unfolding unmarshal_bitmask
unmarshal_bitmask-total b h =
    let none' : b ≡ 0 → 0 ≡ b % 2 ^ 18 = λ e. omega (arith, e) in
    elim (Bool-cases (b == 0)) [
      | inl z ↦ rw z (none' ((nat_beq_iff b 0).0 z))
      | inr nonzero ↦ elim (Bool-cases (b == any_value)) [
        | inl e ↦ absurd (h ((nat_beq_iff b any_value).0 e))
        | inr e ↦ rw (nonzero, e) (supported_total b)
      ]
    ]
