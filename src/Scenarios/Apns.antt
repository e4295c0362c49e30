-- ===== src/Scenarios/Apns.antt =====
-- Runs of internal/pkg/internet/apn.go: two records of one operator.
use sigmo.Common.{ℕ, ◌≡◌, List, [], ◌∷◌, codes, ◌⊎◌, trim_space}
use sigmo.Internet.Apn.{
  ApnCriteria, ApnRecord, clean_apn_criteria, clean_apn_profile, empty_profile,
  default_apn_profile_from,
}
use sigmo.Internet.Apn.Best.{NoMatch, FirstBest, default_apn_profile_from-FirstBest}

abbrev anyone : ApnCriteria
anyone = record { gid1 = []; spn = []; iccid = []; imsi = [] }

abbrev apns : List ApnRecord
apns =
    record {
      operator_identifier = codes "26201";
      criteria = anyone;
      profile = record empty_profile { apn = codes "internet" };
    }
    ∷ record {
      operator_identifier = codes "26201";
      criteria = record anyone { spn = codes "RESELLER" };
      profile = record empty_profile { apn = codes "resold" };
    }
    ∷ []

default_apn_profile_from-FirstBest_example :
    (NoMatch
        (trim_space (codes "26201"))
        (clean_apn_criteria (record anyone { spn = codes "Reseller" }))
        apns
      × (default_apn_profile_from apns (codes "26201") (record anyone { spn = codes "Reseller" })
          ≡ clean_apn_profile empty_profile))
    ⊎ ((score : ℕ) × (found : ApnRecord) × FirstBest
          (trim_space (codes "26201"))
          (clean_apn_criteria (record anyone { spn = codes "Reseller" }))
          apns
          score
          found
        × (default_apn_profile_from apns (codes "26201") (record anyone { spn = codes "Reseller" })
            ≡ clean_apn_profile found.profile))
default_apn_profile_from-FirstBest_example =
    default_apn_profile_from-FirstBest apns (codes "26201")
      (record anyone { spn = codes "Reseller" })
