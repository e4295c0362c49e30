-- ===== src/Scenarios/Numbers.antt =====
-- Runs of internal/pkg/modem/msisdn/msisdn.go on a card whose number records have 28 bytes, and of
-- internal/pkg/modem/atr.go on an answer to reset.
use sigmo.Common.{
  none, some, inl, inr, drop, ◌≡◌, refl, true, List, [], ◌∷◌, Bytes, codes, Result, ok, arith,
}
use sigmo.Voice.Dialing.{normalize_dial_string, normalize_sms_address}
use sigmo.Voice.Dialing.Stable.{Accepted, normalized-Accepted_again}
use sigmo.Common.{arith, list_beq, nat_equal, list_equal}
use sigmo.Modem.Msisdn.{MsisdnError, matches_phone, trim_plus, find_tag, record_len, update}
use sigmo.Modem.Atr.{checksum, atr_t15_global_tb}
use sigmo.Modem.Atr.Described.{Interface, group_bytes, global_tb}
use sigmo.Modem.Atr.Finds.{AtrDescription, atr_bytes, atr_t15_global_tb-atr_bytes}
use sigmo.Modem.Msisdn.Tlv.{Tlv, tlv_bytes}
use sigmo.Modem.Msisdn.Record.{Holds, update-Holds}

-- The descriptor of a record file, behind a life cycle byte.
abbrev objects : List Tlv
objects =
    record { tag = 0x8A; value = 5 ∷ [] }
    ∷ record { tag = 0x82; value = 0x42 ∷ 0x21 ∷ 0 ∷ 28 ∷ 4 ∷ [] }
    ∷ []

abbrev selected : Result MsisdnError Bytes
selected = ok (0x62 ∷ 0x0A ∷ tlv_bytes objects)

record_of_28 : record_len selected ≡ ok 28
unfolding record_len find_tag tlv_bytes
record_of_28 = refl

plus_number : matches_phone (codes "+12345") ≡ true
unfolding matches_phone trim_plus
plus_number = refl

update-Holds_example :
    (r : Bytes) × (update selected (λ r. ok tt) (codes "me") (codes "+12345") ≡ ok tt)
    × Holds 28 (codes "me") (trim_plus (codes "+12345")) r
update-Holds_example =
    update-Holds selected (λ r. ok tt) (codes "me") (codes "+12345") 28 plus_number record_of_28
      (omega arith)

-- Three groups, the last with TB.
abbrev no_bytes : Interface
no_bytes = record { ta = none; tb = none; tc = none }

abbrev described : AtrDescription
described = record {
  ts = 0x3B;
  first = no_bytes;
  groups = (0, no_bytes) ∷ (15, record no_bytes { tb = some 0x82 }) ∷ [];
  historical = [];
  check = 0xAD;
}

described_checked : checksum (drop 1 (atr_bytes described)) ≡ 0
unfolding checksum atr_bytes group_bytes
described_checked = refl

atr_t15_global_tb-atr_bytes_example :
    atr_t15_global_tb (atr_bytes described) ≡ global_tb 1 0 described.first described.groups none
atr_t15_global_tb-atr_bytes_example =
    atr_t15_global_tb-atr_bytes described (inl refl) (omega arith) (omega arith, (omega arith, tt))
      (inr described_checked)

-- The same bytes.
abbrev euicc_atr : Bytes
euicc_atr = 0x3B ∷ 0x80 ∷ 0x80 ∷ 0x2F ∷ 0x82 ∷ 0xAD ∷ []

normalized-Accepted_again_example :
    Accepted (codes "+4930123")
    × (normalize_dial_string (codes "+4930123") ≡ ok (codes "+4930123"))
    × (normalize_sms_address (codes "+4930123") ≡ ok (codes "+4930123"))
unfolding normalize_dial_string sigmo.Voice.Dialing.compact_dial_string list_beq
normalized-Accepted_again_example =
    normalized-Accepted_again (codes "+49 (30) 123") (codes "+4930123") (inl refl)
