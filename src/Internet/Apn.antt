-- ===== src/Internet/Apn.antt =====
-- internal/pkg/internet/apn.go: the access point name of a connection. The entries of apns.json are
-- an argument, decoded. Texts are taken to be ASCII where the code compares bytes or letters.
pub mod Best
pub mod First
use sigmo.Common.{
  ℕ, ◌+◌, Bool, true, false, not, ◌&&◌, ◌||◌, List, [], ◌∷◌, ◌++◌, Option, none, some, Text, codes,
  length, take, ltb, leb, ◌==◌, nat_equal, list_equal, if◌then◌else◌, Assoc, lookup, insert,
  trim_space, has_prefix,
}
use sigmo.Common.{to_lower, to_upper}

pub record ApnEntry : Type 0 where
  pub mcc : Text
  pub mnc : Text
  pub gid1 : Text
  pub spn : Text
  pub iccid : Text
  pub imsi : Text
  pub apn : Text
  pub protocol : Text
  pub user : Text
  pub password : Text
  pub auth_type : Option ℕ

pub record ApnProfile : Type 0 where
  pub apn : Text
  pub ip_type : Text
  pub username : Text
  pub password : Text
  pub auth : Text

pub record ApnCriteria : Type 0 where
  pub gid1 : Text
  pub spn : Text
  pub iccid : Text
  pub imsi : Text

pub record ApnRecord : Type 0 where
  pub operator_identifier : Text
  pub criteria : ApnCriteria
  pub profile : ApnProfile

pub record ApnSelection : Type 0 where
  pub requested : Text
  pub bearer : Text
  pub remembered : Text
  pub operator_identifier : Text
  pub criteria : ApnCriteria
  pub default_apns : List ApnRecord

abbrev pub normalize_gid1 : Text → Text
normalize_gid1 s = to_upper (trim_space s)

abbrev pub normalize_spn : Text → Text
normalize_spn s = to_upper (trim_space s)

abbrev pub normalize_iccid : Text → Text
normalize_iccid s = trim_space s

abbrev pub normalize_imsi : Text → Text
normalize_imsi s = to_upper (trim_space s)

unfoldable pub clean_apn_criteria : ApnCriteria → ApnCriteria
clean_apn_criteria c = record {
  gid1 = normalize_gid1 c.gid1;
  spn = normalize_spn c.spn;
  iccid = normalize_iccid c.iccid;
  imsi = normalize_imsi c.imsi;
}

unfoldable pub clean_apn_profile : ApnProfile → ApnProfile
clean_apn_profile p = record p {
  apn = trim_space p.apn;
  ip_type = to_lower (trim_space p.ip_type);
  username = trim_space p.username;
  auth = to_lower (trim_space p.auth);
}

-- `parts = append(parts, label+value)`, joined by `|`, if the value is not empty.
abbrev pub key_part : Text → Text → Text
key_part label value = if value == [] then [] else b'|' ∷ (label ++ value)

unfoldable pub apn_key : Text → ApnCriteria → Text
unfolding clean_apn_criteria
apn_key operator_identifier criteria =
    let c = clean_apn_criteria criteria in
    trim_space operator_identifier
    ++ (key_part (codes "gid1=") c.gid1
        ++ (key_part (codes "spn=") c.spn
            ++ (key_part (codes "iccid=") c.iccid ++ key_part (codes "imsi=") c.imsi)))

unfoldable pub android_protocol : Text → Text
android_protocol value =
    let v = to_upper (trim_space value) in
    if v == codes "IP"
    then codes "ipv4"
    else if v == codes "IPV6"
    then codes "ipv6"
    else if v == codes "IPV4V6"
    then codes "ipv4v6"
    else []

unfoldable pub android_auth_type : Option ℕ → Text
android_auth_type none = []
android_auth_type (some v) =
    if v == 0
    then codes "none"
    else if v == 1
    then codes "pap"
    else if v == 2
    then codes "chap"
    else if v == 3
    then codes "pap|chap"
    else []

-- `for i := range pattern`, where the pattern is not longer than the number.
pattern_loop : Text → Text → Bool
pattern_loop [] imsi = true
pattern_loop (p ∷ ps) [] = false
pattern_loop (p ∷ ps) (c ∷ cs) = ((p == b'X') || (p == c)) && pattern_loop ps cs

unfoldable pub imsi_pattern_matches : Text → Text → Bool
unfolding pattern_loop
imsi_pattern_matches pattern' imsi' =
    let p : Text = normalize_imsi pattern' in
    let i : Text = normalize_imsi imsi' in
    if (p == []) || ltb (length i) (length p) then false else pattern_loop p i

unfoldable pub imsi_specificity : Text → ℕ
imsi_specificity [] = 0
imsi_specificity (c ∷ s) = (if c == b'X' then 1 else 2) + imsi_specificity s

-- One criterion: not asked for, or met and worth the points.
abbrev pub criterion : Text → Bool → ℕ → Option ℕ → Option ℕ
criterion want met points none = none
criterion want met points (some score) =
    if want == [] then some score else if met then some (score + points) else none

-- The score, or `none` for no match.
unfoldable pub apn_match_score : ApnCriteria → ApnCriteria → Option ℕ
apn_match_score want got =
    criterion want.imsi (not (got.imsi == []) && imsi_pattern_matches want.imsi got.imsi)
      (3000 + imsi_specificity want.imsi)
      (criterion want.iccid (not (got.iccid == []) && has_prefix got.iccid want.iccid)
        (4000 + length want.iccid)
        (criterion want.spn (got.spn == want.spn) (1000 + length want.spn)
          (criterion want.gid1 (got.gid1 == want.gid1) (2000 + length want.gid1) (some 0))))

-- The score of a record of the operator.
unfoldable pub record_score : Text → ApnCriteria → ApnRecord → Option ℕ
unfolding apn_match_score
record_score operator criteria r =
    if not (r.operator_identifier == operator) then none else apn_match_score r.criteria criteria

-- One round: the best score so far and its record, `none` for -1.
abbrev pub better : Option ℕ → ApnRecord → Option (ℕ × ApnRecord) → Option (ℕ × ApnRecord)
better none r best = best
better (some score) r none = some (score, r)
better (some score) r (some (best, b)) = if leb score best then some (best, b) else some (score, r)

best_from : Text → ApnCriteria → List ApnRecord → Option (ℕ × ApnRecord) → Option (ℕ × ApnRecord)
best_from operator criteria [] best = best
best_from operator criteria (r ∷ apns) best =
    best_from operator criteria apns (better (record_score operator criteria r) r best)

abbrev pub empty_profile : ApnProfile
empty_profile = record { apn = []; ip_type = []; username = []; password = []; auth = [] }

abbrev pub profile_of : Option (ℕ × ApnRecord) → ApnProfile
profile_of none = empty_profile
profile_of (some (score, r)) = r.profile

unfoldable pub default_apn_profile_from : List ApnRecord → Text → ApnCriteria → ApnProfile
unfolding best_from
default_apn_profile_from apns operator_identifier criteria = clean_apn_profile (
    profile_of (best_from (trim_space operator_identifier) (clean_apn_criteria criteria) apns none))

abbrev pub default_apn_from : List ApnRecord → Text → ApnCriteria → Text
default_apn_from apns operator_identifier criteria =
    let p : ApnProfile = default_apn_profile_from apns operator_identifier criteria in p.apn

unfoldable pub first_apn : List Text → Text
first_apn [] = []
first_apn (value ∷ values) =
    let rest = first_apn values in let apn = trim_space value in if apn == [] then rest else apn

unfoldable pub select_apn : ApnSelection → Text
unfolding first_apn
select_apn s =
    let apn : Text = first_apn (s.requested ∷ s.bearer ∷ s.remembered ∷ []) in
    if apn == [] then default_apn_from s.default_apns s.operator_identifier s.criteria else apn

abbrev pub apn_record_of : ApnEntry → ApnRecord
apn_record_of e = record {
  operator_identifier = trim_space e.mcc ++ trim_space e.mnc;
  criteria =
      clean_apn_criteria (record { gid1 = e.gid1; spn = e.spn; iccid = e.iccid; imsi = e.imsi });
  profile = record {
    apn = trim_space e.apn;
    ip_type = android_protocol e.protocol;
    username = trim_space e.user;
    password = e.password;
    auth = android_auth_type e.auth_type;
  };
}

abbrev pub entry_key : ApnEntry → Text
entry_key e =
    apn_key (trim_space e.mcc ++ trim_space e.mnc)
      (record { gid1 = e.gid1; spn = e.spn; iccid = e.iccid; imsi = e.imsi })

abbrev pub incomplete : ApnEntry → Bool
incomplete e = (trim_space e.apn == []) || ((trim_space e.mcc == []) || (trim_space e.mnc == []))

collect_from : Assoc Text (Unit {0}) → List ApnEntry → List ApnRecord
collect_from seen [] = []
collect_from seen (e ∷ entries) =
    let skip = collect_from seen entries in
    let take' = apn_record_of e ∷ collect_from (insert (entry_key e) tt seen) entries in
    if incomplete e then skip else elim (lookup (entry_key e) seen) [ some u ↦ skip | none ↦ take' ]

-- `defaultAPNsFromJSON`, once decoded.
unfoldable pub collect_apns : List ApnEntry → List ApnRecord
unfolding collect_from
collect_apns entries = collect_from [] entries
