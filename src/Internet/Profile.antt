-- ===== src/Internet/Profile.antt =====
-- What a user asks of a connection, and what its bearer tells: the preferences of
-- internal/pkg/internet/connection.go, and bearerPreferences, currentBearer, mergeDNS and what they
-- call in internal/pkg/internet/bearer_config.go. The answers of a bearer are fields, since no call
-- here changes it. Texts are taken to be ASCII where the code looks at letters.
pub mod View
pub mod Current
pub mod Dns
use sigmo.Common.{
  ℕ, Bool, true, false, not, ◌&&◌, ◌||◌, List, [], ◌∷◌, ◌++◌, Option, none, some, Bytes, Text,
  codes, any, ◌==◌, nat_equal, list_equal, Result, ok, err, ◌>>=◌, if◌then◌else◌, trim_space,
  length, Result-cases,
}
use sigmo.Common.{to_lower, equal_fold}
use sigmo.Internet.Route.{family_ipv4, family_ipv6}
use sigmo.Internet.Apn.{
  ApnCriteria, ApnProfile, ApnRecord, ApnSelection, select_apn, default_apn_profile_from,
}
use sigmo.Internet.Bearer.{BearerIpConfig, IpPrefix, BearerError, prefix_from_ip_config}

pub record Preferences : Type 0 where
  pub apn : Text
  pub ip_type : Text
  pub apn_username : Text
  pub apn_password : Text
  pub apn_auth : Text
  pub default_route : Bool
  pub proxy_enabled : Bool
  pub always_on : Bool

unfoldable pub normalize_preferences : Preferences → Preferences
normalize_preferences prefs = record prefs {
  apn = trim_space prefs.apn;
  ip_type = to_lower (trim_space prefs.ip_type);
  apn_username = trim_space prefs.apn_username;
  apn_auth = to_lower (trim_space prefs.apn_auth);
}

unfoldable pub has_internet_preference : Preferences → Bool
unfolding normalize_preferences
has_internet_preference given =
    let prefs = normalize_preferences given in
    not (prefs.apn == [])
    || (not (prefs.ip_type == []) && not (prefs.ip_type == codes "ipv4v6"))
    || not (prefs.apn_username == [])
    || not (prefs.apn_password == [])
    || not (prefs.apn_auth == [])
    || prefs.default_route
    || prefs.proxy_enabled

pub record BearerProperties : Type 0 where
  pub apn : Text
  pub ip_type : Text
  pub username : Text
  pub password : Text
  pub allowed_auth : Text

pub record BearerStats : Type 0 where
  pub rx_bytes : ℕ
  pub tx_bytes : ℕ
  pub duration : ℕ

-- What a bearer answers to each question.
pub record BearerView : Type 0 where
  pub path : Text
  pub properties : Result ℕ BearerProperties
  pub connected : Result ℕ Bool
  pub interface : Result ℕ Text
  pub ip4_config : Result ℕ BearerIpConfig
  pub ip6_config : Result ℕ BearerIpConfig
  pub stats : Result ℕ BearerStats

-- `Bearer.APN`
abbrev pub bearer_apn : BearerView → Result ℕ Text
bearer_apn b = elim b.properties [ err e ↦ err e | ok p ↦ ok p.apn ]

-- The first text unless it is empty.
abbrev pub unless_empty : Text → Text → Text
unless_empty text other = if not (text == []) then text else other

unfoldable pub bearer_preferences : BearerView → Preferences → Preferences
unfolding normalize_preferences
bearer_preferences bearer given =
    let prefs = normalize_preferences given in
    elim bearer.properties [
      | err e ↦ prefs
      | ok p ↦ record prefs {
        apn = unless_empty p.apn prefs.apn;
        ip_type = unless_empty p.ip_type prefs.ip_type;
        apn_username = unless_empty p.username prefs.apn_username;
        apn_password = unless_empty p.password prefs.apn_password;
        apn_auth = unless_empty p.allowed_auth prefs.apn_auth;
      }
    ]

-- What the modem answers about its SIM.
pub record ModemView : Type 0 where
  pub operator_identifier : Text
  pub gid1 : Text
  pub spn : Text
  pub iccid : Text
  pub imsi : Text

abbrev pub modem_apn_criteria : ModemView → ApnCriteria
modem_apn_criteria modem = record {
  gid1 = trim_space modem.gid1;
  spn = trim_space modem.spn;
  iccid = trim_space modem.iccid;
  imsi = trim_space modem.imsi;
}

module _ (default_apns : List ApnRecord) where
  abbrev pub apn_for_modem : ModemView → Text → Text → Text → Text
  apn_for_modem modem requested bearer remembered = select_apn (record {
    requested = requested;
    bearer = bearer;
    remembered = remembered;
    operator_identifier = trim_space modem.operator_identifier;
    criteria = modem_apn_criteria modem;
    default_apns = default_apns;
  })

  unfoldable pub preferences_with_default_apn_credentials : ModemView → Preferences → Preferences
  unfolding normalize_preferences equal_fold
  preferences_with_default_apn_credentials modem prefs =
      let profile : ApnProfile =
        default_apn_profile_from default_apns (trim_space modem.operator_identifier)
          (modem_apn_criteria modem) in
      if profile.apn == [] || not (equal_fold (trim_space prefs.apn) profile.apn)
      then normalize_preferences prefs
      else normalize_preferences (record prefs {
        ip_type = if trim_space prefs.ip_type == [] then profile.ip_type else prefs.ip_type;
        apn_username =
            if trim_space prefs.apn_username == [] then profile.username else prefs.apn_username;
        apn_password = if prefs.apn_password == [] then profile.password else prefs.apn_password;
        apn_auth = if trim_space prefs.apn_auth == [] then profile.auth else prefs.apn_auth;
      })

  unfoldable pub preferences_with_selected_apn : ModemView → Preferences → Preferences
  unfolding preferences_with_default_apn_credentials
  preferences_with_selected_apn modem prefs =
      preferences_with_default_apn_credentials modem
        (record prefs { apn = apn_for_modem modem [] [] prefs.apn })

-- One round of the inner loop of `mergeDNS`.
abbrev pub note_dns : List Text → Text → List Text
note_dns result text =
    let dns = trim_space text in
    if dns == [] || any (λ d. d == dns) result then result else result ++ dns ∷ []

unfoldable pub merge_group : List Text → List Text → List Text
merge_group result [] = result
merge_group result (text ∷ group) = merge_group (note_dns result text) group

merge_groups : List Text → List (List Text) → List Text
unfolding merge_group
merge_groups result [] = result
merge_groups result (group ∷ groups) = merge_groups (merge_group result group) groups

unfoldable pub merge_dns : List (List Text) → List Text
unfolding merge_groups
merge_dns groups = merge_groups [] groups

pub data ViewError : Type 0 where
  read_state read_interface read_ipv4 read_ipv6 list_bearers : ℕ → ViewError
  bad_config : BearerError → ViewError
  unsupported : ViewError

abbrev pub or_fail : {A : Type 0} → (ℕ → ViewError) → Result ℕ A → Result ViewError A
or_fail wrap (ok a) = ok a
or_fail wrap (err e) = err (wrap e)

-- A bearer without a name of an access point is no fallback.
abbrev pub has_apn : BearerView → Bool
has_apn b = elim (bearer_apn b) [ err e ↦ false | ok apn ↦ not (trim_space apn == []) ]

-- The first bearer with a name, of those seen.
abbrev pub note_fallback : Option BearerView → BearerView → Option BearerView
note_fallback (some b) bearer = some b
note_fallback none bearer = if has_apn bearer then some bearer else none

-- The round of the loop for a bearer that answers so; `rest` is the result of the rounds after it.
abbrev pub after_answer :
    Result ℕ Bool
    → BearerView
    → Result ViewError (Option BearerView × Bool)
    → Result ViewError (Option BearerView × Bool)
after_answer (err e) bearer rest = err (read_state e)
after_answer (ok true) bearer rest = ok (some bearer, true)
after_answer (ok false) bearer rest = rest

find_current : Option BearerView → List BearerView → Result ViewError (Option BearerView × Bool)
find_current fallback [] = ok (fallback, false)
find_current fallback (bearer ∷ bearers) =
    let rest = find_current (note_fallback fallback bearer) bearers in
    after_answer bearer.connected bearer rest

-- The bearer, if there is one, and whether it is connected.
unfoldable pub current_bearer :
    Result ℕ (List BearerView) → Result ViewError (Option BearerView × Bool)
unfolding find_current
current_bearer (err e) = err (list_bearers e)
current_bearer (ok bearers) = find_current none bearers

abbrev pub apn_of_current : Option BearerView → Text
apn_of_current none = []
apn_of_current (some b) = elim (bearer_apn b) [ err e ↦ [] | ok apn ↦ trim_space apn ]

unfoldable pub apn_from_bearers : Result ℕ (List BearerView) → Result ViewError Text
unfolding current_bearer
apn_from_bearers bearers = do
  (current, is_connected) ← current_bearer bearers
  ok (apn_of_current current)
