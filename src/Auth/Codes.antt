-- ===== src/Auth/Codes.antt =====
-- How internal/app/auth/store.go turns random draws into codes and tokens. A failed draw is `none`.
use sigmo.Common.{
  ℕ, zero, suc, ◌+◌, ◌-◌, ◌*◌, ◌/◌, ◌%◌, ◌^◌, ◌<◌, ◌≤◌, ◌≡◌, [], ◌∷◌, Option, none, some, Bytes,
  Text, length, All, arith, ltb, nat_equal, list_equal, Result, ok, err, if◌then◌else◌,
}

-- The source's errors: both codes can fail to be drawn, and a code can be asked for too soon.
pub data AuthError : Type 0 where
  generating_otp generating_token otp_cooldown : AuthError

abbrev pub otp_max_value : ℕ
otp_max_value = 1000000

abbrev pub otp_length : ℕ
otp_length = 6

-- `%0*d`: the last `width` decimal digits, which are all of them below 10 ^ width.
pad_digits : ℕ → ℕ → Text
pad_digits zero n = []
pad_digits (suc width) n = (b'0' + n / 10 ^ width % 10) ∷ pad_digits width n

-- `rand.Int` draws below `otp_max_value`.
unfoldable pub generate_otp : Option ℕ → Result AuthError Text
unfolding pad_digits
generate_otp none = err generating_otp
generate_otp (some n) = ok (pad_digits otp_length n)

unfoldable pub hex_digit : ℕ → ℕ
hex_digit d = if ltb d 10 then b'0' + d else b'a' + (d - 10)

-- `hex.EncodeToString`
unfoldable pub hex_encode : Bytes → Text
unfolding hex_digit
hex_encode [] = []
hex_encode (b ∷ bs) = hex_digit (b / 16) ∷ hex_digit (b % 16) ∷ hex_encode bs

-- `rand.Read` fills 32 bytes.
unfoldable pub generate_token : Option Bytes → Result AuthError Text
generate_token none = err generating_token
generate_token (some drawn) = ok (hex_encode drawn)

-- What the decimal digits of a code spell.
abbrev pub spelled : ℕ → Text → ℕ
spelled acc [] = acc
spelled acc (c ∷ s) = spelled (acc * 10 + (c - b'0')) s

abbrev pub IsDigit : ℕ → Type 0
IsDigit c = (b'0' ≤ c) × (c ≤ b'9')

-- Every code that is generated has six decimal digits, which spell the number drawn: different draws
-- give different codes.
pub generate_otp_digits :
    (n : ℕ) {code : Text}
    → n < otp_max_value
    → generate_otp (some n) ≡ ok code
    → (length code ≡ otp_length) × All IsDigit code × (spelled 0 code ≡ n)
unfolding generate_otp
generate_otp_digits n {code} lt h =
    let e : pad_digits otp_length n ≡ code = cc in rw (← e) (omega arith, omega arith, omega arith)
