-- ===== src/Modem/Msisdn/Record.antt =====
-- internal/pkg/modem/msisdn/msisdn.go: the record that `update` writes. It is compared with a
-- reader of such records: name, length of the number, type of number, number, two trailing bytes.
use sigmo.Common.{
  ℕ, zero, suc, ◌+◌, ◌-◌, ◌/◌, ◌%◌, ◌≤◌, ◌≡◌, refl, ap, ◌∙◌, Bool, true, false, ◌&&◌, [], ◌∷◌, ◌++◌,
  Bytes, length, get_or, take, drop, replicate, all, arith, ltb, leb, ge→ltb, leb→le, nat_equal,
  list_equal, Result, ok, append_assoc, take-append_left, length-replicate, length-append, and-true,
  append-nil, Bool-cases, inl, inr, if◌then◌else◌,
}
use mathlib.Core.Path.{subst}
use sigmo.Modem.Msisdn.{
  MsisdnError, record_len, record_bytes, encode_bcd, pad_right, trim_plus, has_plus, matches_phone,
  is_digit, update,
}
use sigmo.Modem.Msisdn.Bcd.{bcd_digits, bcd_digits-encode_bcd}

-- The number in a record of `n` bytes: as many bytes as its length says, the type of number left out.
unfoldable pub record_number : ℕ → Bytes → Bytes
unfolding bcd_digits
record_number n r = bcd_digits (take (get_or r (n - 14) 0 - 1) (drop (n - 12) r))

length-pad_right : (v : Bytes) (n : ℕ) → length v ≤ n → length (pad_right v n) ≡ n
unfolding pad_right
length-pad_right v n le = elim (Bool-cases (leb n (length v))) [
  | inl e ↦ rw (e) (ground (arith, leb→le n (length v) e, le))
  | inr e ↦
      rw
        (
          e,
          length-append v (replicate (n - length v) 0xFF),
          length-replicate {A = ℕ} (n - length v) 0xFF,
        )
        (omega arith)
]

take-pad_right : (v : Bytes) (n : ℕ) (more : Bytes) → take (length v) (pad_right v n ++ more) ≡ v
unfolding pad_right
take-pad_right v n more = elim (Bool-cases (leb n (length v))) [
  | inl e ↦ rw (e, take-append_left v more)
  | inr e ↦ rw (e, append_assoc v (replicate (n - length v) 0xFF) more) (take-append_left v _)
]

get_or-append : (xs ys : Bytes) (n d : ℕ) → length xs ≡ n → get_or (xs ++ ys) n d ≡ get_or ys 0 d
get_or-append [] ys zero d e = refl
get_or-append [] ys (suc n) d e = absurd (omega arith)
get_or-append (x ∷ xs) ys zero d e = absurd (omega arith)
get_or-append (x ∷ xs) ys (suc n) d e = get_or-append xs ys n d (omega arith)

drop-append : (xs ys : Bytes) (n k : ℕ) → length xs + k ≡ n → drop n (xs ++ ys) ≡ drop k ys
drop-append [] ys n k e = ap (λ m. drop m ys) (omega arith)
drop-append (x ∷ xs) ys zero k e = absurd (omega arith)
drop-append (x ∷ xs) ys (suc n) k e = drop-append xs ys n k (omega arith)

-- What a record holds: the length that the card asked for, the name and the number.
abbrev pub Holds : ℕ → Bytes → Bytes → Bytes → Type 0
Holds n name number r =
    (length r ≡ n) × (take (length name) r ≡ name) × (record_number n r ≡ number)

-- The record that holds a name and packed digits.
abbrev laid_out : ℕ → Bool → Bytes → Bytes → Bytes
laid_out n plus name nb =
    pad_right name (n - 14)
    ++ (((length nb + 1) % 256) ∷ (if plus then 0x91 else 0x81) ∷ pad_right nb 12)

laid_out-Holds :
    (n : ℕ) (plus : Bool) (name nb : Bytes)
    → length name + 14 ≤ n
    → length nb ≤ 12
    → Holds n name (bcd_digits nb) (laid_out n plus name nb)
unfolding record_number
laid_out-Holds n plus name nb fits short =
    let front : Bytes = pad_right name (n - 14) in
    let ton : ℕ = if plus then 0x91 else 0x81 in
    let len : ℕ = (length nb + 1) % 256 in
    let front_len : length front ≡ n - 14 = length-pad_right name (n - 14) (omega arith) in
    let back_len : length (pad_right nb 12) ≡ 12 = length-pad_right nb 12 short in
    let body_eq : drop (n - 12) (laid_out n plus name nb) ≡ pad_right nb 12 =
      drop-append front (len ∷ ton ∷ pad_right nb 12) (n - 12) 2 (ground (arith, front_len)) in
    let len_eq : get_or (laid_out n plus name nb) (n - 14) 0 ≡ len =
      get_or-append front (len ∷ ton ∷ pad_right nb 12) (n - 14) 0 front_len in
    (
      ground (arith, front_len, back_len, length-append front (len ∷ ton ∷ pad_right nb 12)),
      take-pad_right name (n - 14) (len ∷ ton ∷ pad_right nb 12),
      rw (len_eq, body_eq, cut nb 12 ((length nb + 1) % 256 - 1) (omega arith)),
    )
  where
    cut : (v : Bytes) (m k : ℕ) → k ≡ length v → take k (pad_right v m) ≡ v
    cut v m k e =
        ap (λ j. take j (pad_right v m)) e
        ∙ (subst (λ p. take (length v) p ≡ v) (append-nil _) (take-pad_right v m []))

-- When the number is a phone number, the card's answer gives a record length and the name fits in
-- the record with its last 14 bytes, `Update` writes one record: it has the length that the card
-- asked for, starts with the name, and holds the number's digits without the plus sign.
pub update-Holds :
    (select : Result MsisdnError Bytes) (run : Bytes → Result MsisdnError (Unit {0}))
    (name number : Bytes) (n : ℕ)
    → matches_phone number ≡ true
    → record_len select ≡ ok n
    → length name + 14 ≤ n
    → (r : Bytes) × (update select run name number ≡ run r) × Holds n name (trim_plus number) r
unfolding update record_bytes matches_phone
update-Holds select run name number n phone len fits =
    let m : (all is_digit (trim_plus number) ≡ true)
        × ((leb 1 (length (trim_plus number)) && leb (length (trim_plus number)) 15) ≡ true) =
      and-true phone in
    let bound : length (trim_plus number) ≤ 15 =
      leb→le _ _ ((and-true {a = leb 1 (length (trim_plus number))} m.1).1) in
    let enc : (id : Bytes) × (encode_bcd (trim_plus number) ≡ ok id)
        × (bcd_digits id ≡ trim_plus number)
        × (length id ≤ (length (trim_plus number) + 1) / 2) =
      bcd_digits-encode_bcd (trim_plus number) m.0 in
    let nb : Bytes = enc.0 in
    let e : encode_bcd (trim_plus number) ≡ ok nb = enc.1 in
    let fits' : ltb n (length name + 14) ≡ false = ge→ltb _ _ fits in
    (
      laid_out n (has_plus number) name nb,
      rw (phone, len, fits', e),
      subst (λ d. Holds n name d (laid_out n (has_plus number) name nb)) enc.2
          (laid_out-Holds n (has_plus number) name nb fits (ground (arith, bound, enc.3))),
    )
