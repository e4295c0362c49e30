-- ===== src/Modem/Msisdn/Bcd.antt =====
-- internal/pkg/modem/msisdn/msisdn.go: `encodeBCD` packs two digits in a byte, the first one low,
-- and fills an odd number up with 0xF. It is compared with a reader of such bytes.
use sigmo.Common.{
  ℕ, zero, suc, ◌+◌, ◌-◌, ◌*◌, ◌/◌, ◌%◌, ◌<◌, ◌≤◌, ◌≡◌, refl, sym, ap, ◌∙◌, Bool, true, ◌&&◌, [],
  ◌∷◌, ◌++◌, map, some, Bytes, length, all, arith, leb, leb→le, ◌==◌, nat_equal, list_equal,
  nat_beq_iff, ok, and-true, Bool-cases, inl, inr, if◌then◌else◌,
}
use mathlib.Core.Path.{subst}
use native.Mathlib.Decide.{ℕ_discrete}
use sigmo.Modem.Msisdn.{hex_value, hex_decode, swap_nibbles, encode_bcd, is_digit, is_bcd, is_odd}

abbrev pub nibble_digit : ℕ → Bytes
nibble_digit n = if n == 15 then [] else (b'0' + n) ∷ []

-- What a phone reads: the low nibble of each byte first, without the filler.
unfoldable pub bcd_digits : Bytes → Bytes
bcd_digits [] = []
bcd_digits (b ∷ bs) = nibble_digit (b % 16) ++ (nibble_digit (b / 16) ++ bcd_digits bs)

-- Whether the nibbles of each byte below `n` change places.
unfoldable swaps_below : ℕ → Bool
swaps_below zero = true
swaps_below (suc n) = (swap_nibbles n == (n % 16 * 16 + n / 16)) && swaps_below n

swaps_below_256 : swaps_below 256 ≡ true
unfolding swaps_below swap_nibbles
swaps_below_256 = refl

swaps_below-at : (m n : ℕ) → swaps_below m ≡ true → n < m → swap_nibbles n ≡ n % 16 * 16 + n / 16
unfolding swaps_below
swaps_below-at zero n s h = absurd (omega arith)
swaps_below-at (suc m) n s n<m = elim (ℕ_discrete n m) [
  | yes e ↦
      subst (λ k. swap_nibbles k ≡ k % 16 * 16 + k / 16) (sym e)
        ((nat_beq_iff _ _).0 (and-true {a = swap_nibbles m == (m % 16 * 16 + m / 16)} s).0)
  | no ne ↦
      swaps_below-at m n (and-true {a = swap_nibbles m == (m % 16 * 16 + m / 16)} s).1 (omega arith)
]

swap_nibbles_of : (hi lo : ℕ) → hi < 16 → lo < 16 → swap_nibbles (hi * 16 + lo) ≡ lo * 16 + hi
swap_nibbles_of hi lo h l =
    swaps_below-at 256 (hi * 16 + lo) swaps_below_256 (omega arith) ∙ (ground arith)

digit_bounds : (c : ℕ) → is_digit c ≡ true → (b'0' ≤ c) × (c ≤ b'9')
digit_bounds c h =
    let both : (leb b'0' c ≡ true) × (leb c b'9' ≡ true) = and-true h in
    (leb→le _ _ both.0, leb→le _ _ both.1)

hex_value_digit : (c : ℕ) → is_digit c ≡ true → hex_value c ≡ some (c - b'0')
unfolding hex_value
hex_value_digit c h = rw (h)

-- The bytes of `v`, filled up to an even number of digits.
abbrev filled_up : Bytes → Bytes
filled_up v = if is_odd v then v ++ b'F' ∷ [] else v

record Packed (v : Bytes) : Type 0 where
  ids : Bytes
  decoded : hex_decode (filled_up v) ≡ some ids
  reads : bcd_digits (map swap_nibbles ids) ≡ v
  short : length ids ≤ (length v + 1) / 2

is_odd_two : (a b : ℕ) (s : Bytes) → is_odd (a ∷ b ∷ s) ≡ is_odd s
is_odd_two a b s = ground arith

filled_up_two : (a b : ℕ) (s : Bytes) → filled_up (a ∷ b ∷ s) ≡ a ∷ b ∷ filled_up s
filled_up_two a b s = elim (Bool-cases (is_odd s)) [
  | inl e ↦ rw (is_odd_two a b s, e)
  | inr e ↦ rw (is_odd_two a b s, e)
]

nibble_digit-of : (c : ℕ) → (b'0' ≤ c) × (c ≤ b'9') → nibble_digit (c - b'0') ≡ c ∷ []
nibble_digit-of c h = ground arith

-- The two nibbles of a packed byte come out in the other order.
swapped :
    (hi lo : ℕ)
    → hi < 16
    → lo < 16
    → (swap_nibbles (hi * 16 + lo) % 16 ≡ hi) × (swap_nibbles (hi * 16 + lo) / 16 ≡ lo)
swapped hi lo h l =
    let e : swap_nibbles (hi * 16 + lo) ≡ lo * 16 + hi = swap_nibbles_of hi lo h l in
    (ap (λ k. k % 16) e ∙ (omega arith), ap (λ k. k / 16) e ∙ (omega arith))

packed : (v : Bytes) → all is_digit v ≡ true → Packed v
unfolding hex_decode bcd_digits
packed [] h = record { ids = []; decoded = refl; reads = refl; short = omega arith }
packed (a ∷ []) h =
    let da : is_digit a ≡ true = (and-true h).0 in
    let sw : (swap_nibbles ((a - b'0') * 16 + 15) % 16 ≡ a - b'0')
        × (swap_nibbles ((a - b'0') * 16 + 15) / 16 ≡ 15) =
      swapped (a - b'0') 15 (ground (arith, digit_bounds a da)) (omega arith) in
    record {
      ids = ((a - b'0') * 16 + 15) ∷ [];
      decoded = rw (hex_decode, hex_value_digit a da);
      reads = rw (sw.0, sw.1, nibble_digit-of a (digit_bounds a da));
      short = omega arith;
    }
packed (a ∷ b ∷ s) h =
    let hs : (is_digit a ≡ true) × (all is_digit (b ∷ s) ≡ true) = and-true h in
    let ht : (is_digit b ≡ true) × (all is_digit s ≡ true) = and-true hs.1 in
    let rest : Packed s = packed s ht.1 in
    let sw : (swap_nibbles ((a - b'0') * 16 + (b - b'0')) % 16 ≡ a - b'0')
        × (swap_nibbles ((a - b'0') * 16 + (b - b'0')) / 16 ≡ b - b'0') =
      swapped (a - b'0') (b - b'0') (ground (arith, digit_bounds a hs.0))
        (ground (arith, digit_bounds b ht.0)) in
    record {
      ids = ((a - b'0') * 16 + (b - b'0')) ∷ rest.ids;
      decoded = rw (
        filled_up_two a b s,
        hex_decode,
        hex_value_digit a hs.0,
        hex_value_digit b ht.0,
        rest.decoded,
      );
      reads = rw (
        sw.0,
        sw.1,
        nibble_digit-of a (digit_bounds a hs.0),
        nibble_digit-of b (digit_bounds b ht.0),
        rest.reads,
      );
      short = ground (arith, rest.short);
    }

digits-are-bcd : (v : Bytes) → all is_digit v ≡ true → all is_bcd v ≡ true
digits-are-bcd [] h = refl
digits-are-bcd (a ∷ s) h =
    let hs : (is_digit a ≡ true) × (all is_digit s ≡ true) = and-true h in
    rw (hs.0, digits-are-bcd s hs.1)

-- Every string of decimal digits is encoded, in half as many bytes (rounded up), and a reader of
-- the bytes gets the same digits back.
pub bcd_digits-encode_bcd :
    (value : Bytes)
    → all is_digit value ≡ true
    → (id : Bytes) × (encode_bcd value ≡ ok id)
      × (bcd_digits id ≡ value)
      × (length id ≤ (length value + 1) / 2)
unfolding encode_bcd
bcd_digits-encode_bcd value h =
    let p : Packed value = packed value h in
    (
      map swap_nibbles p.ids,
      rw (digits-are-bcd value h, p.decoded),
      p.reads,
      (ground (arith, p.short, length-map swap_nibbles p.ids)),
    )
  where
    length-map : (f : ℕ → ℕ) (xs : Bytes) → length (map f xs) ≡ length xs
    length-map f [] = refl
    length-map f (x ∷ xs) = ap suc (length-map f xs)
