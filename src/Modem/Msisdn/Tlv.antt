-- ===== src/Modem/Msisdn/Tlv.antt =====
-- internal/pkg/modem/msisdn/msisdn.go: `findTag` on a well-formed file description, a list of
-- objects of a tag, a length and a value.
use sigmo.Common.{
  ℕ, zero, suc, ◌≤◌, ◌≡◌, refl, false, List, [], ◌∷◌, ◌++◌, Bytes, length, arith, ltb, ge→ltb, ◌==◌,
  nat_equal, list_equal, take-append_left, drop-append_left, length-append, if◌then◌else◌,
}
use sigmo.Modem.Msisdn.{find_tag, find_tag_loop}

pub record Tlv : Type 0 where
  pub tag : ℕ
  pub value : Bytes

unfoldable pub tlv_bytes : List Tlv → Bytes
tlv_bytes [] = []
tlv_bytes (t ∷ ts) = t.tag ∷ length t.value ∷ (t.value ++ tlv_bytes ts)

-- The bytes of the first object with the tag.
unfoldable pub first_tlv : List Tlv → ℕ → Bytes
first_tlv [] tag = []
first_tlv (t ∷ ts) tag =
    let rest : Bytes = first_tlv ts tag in
    if t.tag == tag then t.tag ∷ length t.value ∷ t.value else rest

find_tag_loop-tlvs :
    (fuel tag : ℕ) (ts : List Tlv)
    → length (tlv_bytes ts) ≤ fuel
    → find_tag_loop fuel tag (tlv_bytes ts) ≡ first_tlv ts tag
unfolding find_tag_loop tlv_bytes first_tlv
find_tag_loop-tlvs zero tag [] le = refl
find_tag_loop-tlvs (suc fuel) tag [] le = refl
find_tag_loop-tlvs zero tag (t ∷ ts) le = absurd (omega arith)
find_tag_loop-tlvs (suc fuel) tag (t ∷ ts) le =
    let long : ltb (length (t.value ++ tlv_bytes ts)) (length t.value) ≡ false =
      ge→ltb _ _ (ground (arith, length-append t.value (tlv_bytes ts))) in
    let ih : find_tag_loop fuel tag (tlv_bytes ts) ≡ first_tlv ts tag =
      find_tag_loop-tlvs fuel tag ts (ground (arith, le, length-append t.value (tlv_bytes ts))) in
    rw (long, take-append_left t.value (tlv_bytes ts), drop-append_left t.value (tlv_bytes ts), ih)

-- On a two-byte head and well-formed objects, `findTag` gives the first object with the tag, its
-- tag and length included, and nothing when there is none.
pub find_tag-tlv_bytes :
    (head₀ head₁ tag : ℕ) (ts : List Tlv)
    → find_tag (head₀ ∷ head₁ ∷ tlv_bytes ts) tag ≡ first_tlv ts tag
unfolding find_tag
find_tag-tlv_bytes head₀ head₁ tag ts =
    find_tag_loop-tlvs (length (tlv_bytes ts)) tag ts (omega arith)
