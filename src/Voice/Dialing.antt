-- ===== src/Voice/Dialing.antt =====
-- Numbers as users type them: pro/call/call_normalize.go, for calls, and
-- internal/pkg/message/recipient.go, for short messages. A text is its code points.
pub mod Stable
use sigmo.Common.{
  ℕ, Bool, true, false, ◌&&◌, ◌||◌, List, [], ◌∷◌, ◌++◌, Option, none, some, Text, codes, leb, ◌==◌,
  nat_equal, list_equal, Result, ok, err, if◌then◌else◌, trim_space, has_prefix,
}

-- `ErrNumberRequired` and `ErrRecipientRequired`, `ErrInvalidNumber` and `ErrRecipientInvalid`.
pub data NumberError : Type 0 where
  required invalid : NumberError

abbrev pub is_digit : ℕ → Bool
is_digit r = leb b'0' r && leb r b'9'

abbrev pub is_separator : ℕ → Bool
is_separator r = r == b' ' || (r == b'-' || (r == b'.' || (r == b'(' || r == b')')))

-- One round of the loops of both files, on the text that was built.
abbrev pub take_rune : Text → ℕ → Option Text
take_rune built r =
    if is_digit r
    then some (built ++ r ∷ [])
    else if r == b'+' && built == []
    then some (built ++ r ∷ [])
    else if is_separator r
    then some built
    else none

take_runes : Text → Text → Option Text
take_runes built [] = some built
take_runes built (r ∷ value) = elim (take_rune built r) [
  | none ↦ none
  | some longer ↦ take_runes longer value
]

-- The end of `compactDialString`.
abbrev pub compacted : Option Text → Option Text
compacted none = none
compacted (some number) = if number == codes "+" then none else some number

unfoldable pub compact_dial_string : Text → Option Text
unfolding take_runes
compact_dial_string value = compacted (take_runes [] value)

abbrev pub normalized_of : Option Text → Result NumberError Text
normalized_of none = err invalid
normalized_of (some normalized) = if normalized == [] then err required else ok normalized

unfoldable pub normalize_dial_string : Text → Result NumberError Text
unfolding compact_dial_string
normalize_dial_string number = normalized_of (compact_dial_string number)

abbrev pub is_ussd_dial_string : Text → Bool
is_ussd_dial_string number = has_prefix number (codes "*") || has_prefix number (codes "#")

abbrev pub recipient_of : Option Text → Result NumberError Text
recipient_of none = err invalid
recipient_of (some recipient) =
    if recipient == []
    then err required
    else if recipient == codes "+"
    then err invalid
    else ok recipient

unfoldable pub normalize_sms_address : Text → Result NumberError Text
unfolding take_runes
normalize_sms_address text =
    let value = trim_space text in
    if value == [] then err required else recipient_of (take_runes [] value)
