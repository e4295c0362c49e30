-- ===== src/Modem/Atr.antt =====
-- internal/pkg/modem/atr.go: whether the answer to reset of a card says that it is an eUICC. The byte
-- at an index is read by get_or, after the code's own test that the index is in range.
pub mod Ends
pub mod Described
pub mod Reading
pub mod Finds
use sigmo.Common.{
  ℕ, zero, suc, ◌+◌, ◌/◌, ◌%◌, ◌^◌, Bool, true, false, not, ◌&&◌, ◌||◌, List, [], ◌∷◌, Option, none,
  some, Bytes, length, get_or, drop, any, ltb, leb, ◌==◌, nat_equal, list_equal, if◌then◌else◌,
  bit_and, bit_xor,
}

-- The variables of the loop in `atrT15GlobalTB`.
pub record AtrState : Type 0 where
  pub y : ℕ
  pub index : ℕ
  pub protocol : ℕ
  pub group : ℕ
  pub tb : ℕ
  pub found : Bool
  pub needs_checksum : Bool

-- How the loop ends.
pub data AtrEnd : Type 0 where
  out_of_fuel refused : AtrEnd
  reached : AtrState → AtrEnd

-- `y & bit != 0`, for a power of two.
abbrev pub has_bit : ℕ → ℕ → Bool
has_bit y bit = not (y / bit % 2 == 0)

-- A byte that `y` announces is passed, if there is one.
abbrev pub pass_byte : Bool → Bytes → ℕ → Option ℕ
pass_byte announced atr index =
    if not announced then some index else if leb (length atr) index then none else some (index + 1)

-- TB counts in a group after the second that T=15 began.
abbrev pub note_tb : Bytes → ℕ → AtrState → AtrState
note_tb atr index s =
    if has_bit s.y 2 && (s.protocol == 0x0F && ltb 2 s.group)
    then record s { tb = get_or atr index 0; found = true }
    else s

-- TA, TB and TC of a group.
unfoldable pub pass_interface : Bytes → AtrState → Option AtrState
pass_interface atr s = elim (pass_byte (has_bit s.y 1) atr s.index) [
  | none ↦ none
  | some i ↦ elim (pass_byte (has_bit s.y 2) atr i) [
    | none ↦ none
    | some j ↦ elim (pass_byte (has_bit s.y 4) atr j) [
      | none ↦ none
      | some k ↦ some (record (note_tb atr i s) { index = k })
    ]
  ]
]

-- TD begins the next group.
abbrev pub next_group : ℕ → AtrState → AtrState
next_group td s = record s {
  y = td / 2 ^ 4;
  protocol = td % 2 ^ 4;
  group = s.group + 1;
  index = s.index + 1;
  needs_checksum = s.needs_checksum || not (td % 2 ^ 4 == 0);
}

-- `for { ... }`. A round that goes on passes a byte, so one round more than there are bytes is enough.
pub atr_loop : ℕ → Bytes → AtrState → AtrEnd
unfolding pass_interface
atr_loop zero atr s = out_of_fuel
atr_loop (suc fuel) atr s = elim (pass_interface atr s) [
  | none ↦ refused
  | some s' ↦
      let rest = atr_loop fuel atr (next_group (get_or atr s'.index 0) s') in
      if not (has_bit s'.y 8)
      then reached s'
      else if leb (length atr) s'.index
      then refused
      else rest
]

-- `checksum ^= b`
unfoldable pub checksum : Bytes → ℕ
checksum [] = 0
checksum (b ∷ bs) = bit_xor b (checksum bs)

-- After the loop: the historical bytes, and a checksum if one is needed.
abbrev pub finish_atr : Bytes → ℕ → AtrState → Option ℕ
finish_atr atr historical_len s =
    let end = s.index + historical_len in
    let answer = if s.found then some s.tb else none in
    if s.needs_checksum
    then (if not (end + 1 == length atr)
        then none
        else if not (checksum (drop 1 atr) == 0)
        then none
        else answer)
    else if not (end == length atr)
    then none
    else answer

abbrev pub ended : Bytes → ℕ → AtrEnd → Option ℕ
ended atr historical_len out_of_fuel = none
ended atr historical_len refused = none
ended atr historical_len (reached s) = finish_atr atr historical_len s

abbrev pub first_group : ℕ → AtrState
first_group t0 = record {
  y = t0 / 2 ^ 4;
  index = 2;
  protocol = 0;
  group = 1;
  tb = 0;
  found = false;
  needs_checksum = false;
}

-- The run of the loop over the bytes.
unfoldable pub read_atr : Bytes → AtrEnd
unfolding atr_loop
read_atr (ts ∷ t0 ∷ rest) =
    atr_loop (suc (length (ts ∷ t0 ∷ rest))) (ts ∷ t0 ∷ rest) (first_group t0)
read_atr _ = refused

-- TB, where it is found.
unfoldable pub atr_t15_global_tb : Bytes → Option ℕ
unfolding read_atr checksum
atr_t15_global_tb (ts ∷ t0 ∷ rest) =
    if not (ts == 0x3B) && not (ts == 0x3F)
    then none
    else ended (ts ∷ t0 ∷ rest) (t0 % 2 ^ 4) (read_atr (ts ∷ t0 ∷ rest))
atr_t15_global_tb _ = none

abbrev pub known_atrs : List Bytes
known_atrs =
    (0x3B ∷ 0x9F ∷ 0x96 ∷ 0x80 ∷ 0x3F ∷ 0xC7 ∷ 0x82 ∷ 0x80 ∷ 0x31 ∷ 0xE0 ∷ 0x73 ∷ 0xFE ∷ 0x21 ∷ 0x15
      ∷ 0x57 ∷ 0x65 ∷ 0x73 ∷ 0x74 ∷ 0x6B ∷ 0x2E ∷ 0x6D ∷ 0x65 ∷ 0x63 ∷ [])
    ∷ (0x3B ∷ 0x9F ∷ 0x96 ∷ 0x80 ∷ 0x1F ∷ 0xC7 ∷ 0x80 ∷ 0x31 ∷ 0xE0 ∷ 0x73 ∷ 0xFE ∷ 0x21 ∷ 0x15
        ∷ 0x57 ∷ 0x65 ∷ 0x73 ∷ 0x74 ∷ 0x6B ∷ 0x2E ∷ 0x6D ∷ 0x65 ∷ 0xC1 ∷ [])
    ∷ (0x3B ∷ 0xBF ∷ 0x93 ∷ 0x00 ∷ 0x80 ∷ 0x1F ∷ 0xC6 ∷ 0x80 ∷ 0x31 ∷ 0xE0 ∷ 0x73 ∷ 0xFE ∷ 0x21
        ∷ 0x13 ∷ 0x57 ∷ 0x65 ∷ 0x73 ∷ 0x74 ∷ 0x6B ∷ 0x2E ∷ 0x6D ∷ 0x65 ∷ 0xE3 ∷ [])
    ∷ (0x3B ∷ 0x9F ∷ 0x96 ∷ 0x80 ∷ 0x1F ∷ 0xC7 ∷ 0x80 ∷ 0x31 ∷ 0xE0 ∷ 0x73 ∷ 0xFE ∷ 0x21 ∷ 0x1B
        ∷ 0x57 ∷ 0xAA ∷ 0x86 ∷ 0x60 ∷ 0xF0 ∷ 0x02 ∷ 0x00 ∷ 0x02 ∷ 0x5C ∷ [])
    ∷ (0x3B ∷ 0x9F ∷ 0x96 ∷ 0x80 ∷ 0x1F ∷ 0xC7 ∷ 0x80 ∷ 0x31 ∷ 0xE0 ∷ 0x73 ∷ 0xFE ∷ 0x21 ∷ 0x1B
        ∷ 0x57 ∷ 0xAA ∷ 0x86 ∷ 0x60 ∷ 0x16 ∷ 0x01 ∷ 0x00 ∷ 0x01 ∷ 0xBA ∷ [])
    ∷ []

unfoldable pub atr_supports_euicc : Bytes → Bool
unfolding atr_t15_global_tb
atr_supports_euicc atr =
    elim (atr_t15_global_tb atr) [ none ↦ false | some tb ↦ bit_and tb 0x82 == 0x82 ]
    || any (λ k. k == atr) known_atrs
