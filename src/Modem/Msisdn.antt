-- ===== src/Modem/Msisdn.antt =====
-- internal/pkg/modem/msisdn/msisdn.go: writing the subscriber number record of a SIM. Strings are
-- their bytes. The runner that talks to the card is a parameter.
pub mod Bcd
pub mod Record
pub mod Tlv
use sigmo.Common.{
  ℕ, zero, suc, ◌+◌, ◌-◌, ◌*◌, ◌/◌, ◌%◌, ◌^◌, Bool, false, not, ◌&&◌, ◌||◌, [], ◌∷◌, ◌++◌, map,
  Option, none, some, Bytes, length, get_or, take, drop, replicate, all, ltb, leb, ◌==◌, nat_equal,
  list_equal, Result, ok, err, ◌>>=◌, ◌>>◌, refuse_if, if◌then◌else◌, bit_or,
}
use mathlib.Core.Option

pub data MsisdnError : Type 0 where
  invalid_phone_number name_too_long unexpected_response invalid_value : MsisdnError
  runner_failed : ℕ → MsisdnError

abbrev pub is_digit : ℕ → Bool
is_digit c = leb b'0' c && leb c b'9'

-- `strings.TrimPrefix(number, "+")`
unfoldable pub trim_plus : Bytes → Bytes
trim_plus [] = []
trim_plus (c ∷ s) = if c == b'+' then s else c ∷ s

abbrev pub has_plus : Bytes → Bool
has_plus [] = false
has_plus (c ∷ s) = c == b'+'

-- `^\+?[0-9]{1,15}$`
unfoldable pub matches_phone : Bytes → Bool
unfolding trim_plus
matches_phone number =
    let digits : Bytes = trim_plus number in
    all is_digit digits && (leb 1 (length digits) && leb (length digits) 15)

-- The value of a hexadecimal digit.
unfoldable pub hex_value : ℕ → Option ℕ
hex_value c =
    if is_digit c
    then some (c - b'0')
    else if leb b'a' c && leb c b'f'
    then some (c - b'a' + 10)
    else if leb b'A' c && leb c b'F'
    then some (c - b'A' + 10)
    else none

-- `hex.DecodeString`
unfoldable pub hex_decode : Bytes → Option Bytes
unfolding hex_value
hex_decode [] = some []
hex_decode (_ ∷ []) = none
hex_decode (a ∷ b ∷ s) = elim (hex_value a) [
  | none ↦ none
  | some hi ↦ elim (hex_value b) [
    | none ↦ none
    | some lo ↦ Option.map (λ bs. (hi * 16 + lo) ∷ bs) (hex_decode s)
  ]
]

abbrev pub is_bcd : ℕ → Bool
is_bcd c = is_digit c || ((c == b'f') || (c == b'F'))

abbrev pub is_odd : Bytes → Bool
is_odd value = not (length value % 2 == 0)

-- `id[index]>>4 | id[index]<<4`
unfoldable pub swap_nibbles : ℕ → ℕ
swap_nibbles b = bit_or (b / 2 ^ 4) (b * 2 ^ 4 % 256)

unfoldable pub encode_bcd : Bytes → Result MsisdnError Bytes
unfolding hex_decode swap_nibbles
encode_bcd value =
    if not (all is_bcd value)
    then err invalid_value
    else elim (hex_decode (if is_odd value then value ++ b'F' ∷ [] else value)) [
      | none ↦ err invalid_value
      | some id ↦ ok (map swap_nibbles id)
    ]

unfoldable pub pad_right : Bytes → ℕ → Bytes
pad_right value n =
    if leb n (length value) then value else value ++ replicate (n - length value) 0xFF

-- The loop of `findTag`. Each round passes two bytes at least, so as much fuel as bytes is enough.
find_tag_loop : ℕ → ℕ → Bytes → Bytes
find_tag_loop zero tag bs = []
find_tag_loop (suc fuel) tag (t ∷ n ∷ bs) =
    let rest = find_tag_loop fuel tag (drop n bs) in
    if ltb (length bs) n then [] else if t == tag then t ∷ n ∷ take n bs else rest
find_tag_loop (suc fuel) tag _ = []

unfoldable pub find_tag : Bytes → ℕ → Bytes
unfolding find_tag_loop
find_tag (_ ∷ _ ∷ bs) tag = find_tag_loop (length bs) tag bs
find_tag _ tag = []

-- `select` is what `m.runner.Select` answers.
unfoldable pub record_len : Result MsisdnError Bytes → Result MsisdnError ℕ
unfolding find_tag
record_len select = do
  b ← select
  let found : Bytes = find_tag b 0x82
  refuse_if (ltb (length found) 6) unexpected_response
  ok (get_or found 4 0 * 2 ^ 8 + get_or found 5 0)

-- The record that `update` hands to `m.runner.Run`.
unfoldable pub record_bytes :
    Result MsisdnError Bytes → Bool → Bytes → Bytes → Result MsisdnError Bytes
unfolding record_len encode_bcd pad_right trim_plus
record_bytes select plus name number = do
  n ← record_len select
  refuse_if (ltb n (length name + 14)) name_too_long
  nb ← encode_bcd (trim_plus number)
  ok (
      pad_right name (n - 14)
      ++ (((length nb + 1) % 256) ∷ (if plus then 0x91 else 0x81) ∷ pad_right nb 12))

-- `Update`: the number is checked, the record built and written by `run`.
unfoldable pub update :
    Result MsisdnError Bytes
    → (Bytes → Result MsisdnError (Unit {0}))
    → Bytes
    → Bytes
    → Result MsisdnError (Unit {0})
unfolding matches_phone record_bytes
update select run name number = do
  refuse_if (not (matches_phone number)) invalid_phone_number
  record' ← record_bytes select (has_plus number) name number
  run record'
