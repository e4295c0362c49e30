-- ===== src/Internet/Apn/Best.antt =====
-- The default access point of internal/pkg/internet/apn.go is the best match.
use sigmo.Common.{
  ℕ, ◌<◌, ◌≤◌, ◌≡◌, refl, sym, ap, ◌∙◌, List, [], ◌∷◌, ◌++◌, Option, none, some, Text, All,
  All-append, arith, leb, leb→le, append_assoc, append-nil, Bool-cases, inl, inr, ◌⊎◌, Option-cases,
  trim_space,
}
use mathlib.Core.Path.{subst}
use sigmo.Internet.Apn.{
  ApnCriteria, ApnRecord, clean_apn_criteria, clean_apn_profile, record_score, better, best_from,
  empty_profile, profile_of, default_apn_profile_from,
}

-- No record scores more.
abbrev pub NoneAbove : Text → ApnCriteria → ℕ → List ApnRecord → Type 0
NoneAbove operator criteria score = All (λ r.
    (record_score operator criteria r ≡ none)
    ⊎ ((s : ℕ) × (record_score operator criteria r ≡ some s) × (s ≤ score)))

-- No record scores as much.
abbrev pub AllBelow : Text → ApnCriteria → ℕ → List ApnRecord → Type 0
AllBelow operator criteria score = All (λ r.
    (record_score operator criteria r ≡ none)
    ⊎ ((s : ℕ) × (record_score operator criteria r ≡ some s) × (s < score)))

abbrev pub NoMatch : Text → ApnCriteria → List ApnRecord → Type 0
NoMatch operator criteria = All (λ r. record_score operator criteria r ≡ none)

-- The first of the records with the highest score.
pub record FirstBest (operator : Text) (criteria : ApnCriteria) (apns : List ApnRecord) (score : ℕ)
    (found : ApnRecord) : Type 0 where
  pub before : List ApnRecord
  pub after : List ApnRecord
  pub splits : apns ≡ before ++ found ∷ after
  pub scores : record_score operator criteria found ≡ some score
  pub below : AllBelow operator criteria score before
  pub above : NoneAbove operator criteria score after

BestOf : Text → ApnCriteria → List ApnRecord → Option (ℕ × ApnRecord) → Type 0
BestOf operator criteria apns none = NoMatch operator criteria apns
BestOf operator criteria apns (some (score, found)) = FirstBest operator criteria apns score found

NoMatch-AllBelow :
    (op : Text) (c : ApnCriteria) (score : ℕ) (rs : List ApnRecord)
    → NoMatch op c rs
    → AllBelow op c score rs
NoMatch-AllBelow op c score [] h = tt
NoMatch-AllBelow op c score (r ∷ rs) h = (inl h.0, NoMatch-AllBelow op c score rs h.1)

AllBelow-raise :
    (op : Text) (c : ApnCriteria) (low high : ℕ) (rs : List ApnRecord)
    → low < high
    → AllBelow op c low rs
    → AllBelow op c high rs
AllBelow-raise op c low high [] lt h = tt
AllBelow-raise op c low high (r ∷ rs) lt h = (
  elim (h.0) [ inl e ↦ inl e | inr (s, e, le) ↦ inr (s, e, omega (arith, le, lt)) ],
  AllBelow-raise op c low high rs lt h.1,
)

NoneAbove-raise :
    (op : Text) (c : ApnCriteria) (low high : ℕ) (rs : List ApnRecord)
    → low < high
    → NoneAbove op c low rs
    → AllBelow op c high rs
NoneAbove-raise op c low high [] lt h = tt
NoneAbove-raise op c low high (r ∷ rs) lt h = (
  elim (h.0) [ inl e ↦ inl e | inr (s, e, le) ↦ inr (s, e, omega (arith, le, lt)) ],
  NoneAbove-raise op c low high rs lt h.1,
)

-- The record found so far stays, and the next one does not score more.
keep-FirstBest :
    (op : Text) (c : ApnCriteria) (apns : List ApnRecord) (score : ℕ) (b r : ApnRecord)
    → FirstBest op c apns score b
    → (record_score op c r ≡ none) ⊎ ((s : ℕ) × (record_score op c r ≡ some s) × (s ≤ score))
    → FirstBest op c (apns ++ r ∷ []) score b
keep-FirstBest op c apns score b r f h = record {
  before = f.before;
  after = f.after ++ r ∷ [];
  splits = ap (λ l. l ++ r ∷ []) f.splits ∙ append_assoc f.before (b ∷ f.after) (r ∷ []);
  scores = f.scores;
  below = f.below;
  above = All-append _ f.after (r ∷ []) f.above (h, tt);
}

take-FirstBest :
    (op : Text) (c : ApnCriteria) (apns : List ApnRecord) (score : ℕ) (r : ApnRecord)
    → AllBelow op c score apns
    → record_score op c r ≡ some score
    → FirstBest op c (apns ++ r ∷ []) score r
take-FirstBest op c apns score r h e = record {
  before = apns;
  after = [];
  splits = refl;
  scores = e;
  below = h;
  above = tt;
}

FirstBest-AllBelow :
    (op : Text) (c : ApnCriteria) (apns : List ApnRecord) (low high : ℕ) (b : ApnRecord)
    → low < high
    → FirstBest op c apns low b
    → AllBelow op c high apns
FirstBest-AllBelow op c apns low high b lt f = subst (AllBelow op c high) (sym f.splits) (
    All-append _ f.before (b ∷ f.after) (AllBelow-raise op c low high f.before lt f.below)
      (inr (low, f.scores, lt), NoneAbove-raise op c low high f.after lt f.above))

better-BestOf :
    (op : Text) (c : ApnCriteria) (apns : List ApnRecord) (r : ApnRecord)
    (best : Option (ℕ × ApnRecord))
    → BestOf op c apns best
    → BestOf op c (apns ++ r ∷ []) (better (record_score op c r) r best)
unfolding BestOf
better-BestOf op c apns r none h = elim (Option-cases (record_score op c r)) [
  | inl e ↦ rw e (All-append _ apns (r ∷ []) h (e, tt))
  | inr (s, e) ↦ rw e (take-FirstBest op c apns s r (NoMatch-AllBelow op c s apns h) e)
]
better-BestOf op c apns r (some (score, b)) h = elim (Option-cases (record_score op c r)) [
  | inl e ↦ rw e (keep-FirstBest op c apns score b r h (inl e))
  | inr (s, e) ↦ elim (Bool-cases (leb s score)) [
    | inl le ↦ rw (e, le) (keep-FirstBest op c apns score b r h (inr (s, e, leb→le s score le)))
    | inr gt ↦
        rw (e, gt)
          (take-FirstBest op c apns s r
            (FirstBest-AllBelow op c apns score s b (ground (arith, gt)) h) e)
  ]
]

best_from-BestOf :
    (op : Text) (c : ApnCriteria) (seen apns : List ApnRecord) (best : Option (ℕ × ApnRecord))
    → BestOf op c seen best
    → BestOf op c (seen ++ apns) (best_from op c apns best)
unfolding best_from
best_from-BestOf op c seen [] best h = subst (λ l. BestOf op c l best) (sym (append-nil seen)) h
best_from-BestOf op c seen (r ∷ apns) best h =
    subst (λ l. BestOf op c l (best_from op c apns (better (record_score op c r) r best)))
      (append_assoc seen (r ∷ []) apns)
      (best_from-BestOf op c (seen ++ r ∷ []) apns (better (record_score op c r) r best)
        (better-BestOf op c seen r best h))

-- From any records, the profile of the first record of the operator with the highest score is chosen
-- and cleaned, or an empty one if no record of the operator matches.
pub default_apn_profile_from-FirstBest :
    (apns : List ApnRecord) (operator : Text) (criteria : ApnCriteria)
    → (NoMatch (trim_space operator) (clean_apn_criteria criteria) apns
        × (default_apn_profile_from apns operator criteria ≡ clean_apn_profile empty_profile))
      ⊎ ((score : ℕ) × (found : ApnRecord) × FirstBest
            (trim_space operator)
            (clean_apn_criteria criteria)
            apns
            score
            found
          × (default_apn_profile_from apns operator criteria ≡ clean_apn_profile found.profile))
unfolding default_apn_profile_from BestOf
default_apn_profile_from-FirstBest apns operator criteria =
    let op : Text = trim_space operator in
    let c : ApnCriteria = clean_apn_criteria criteria in
    chosen (best_from op c apns none) (best_from-BestOf op c [] apns none tt)
  where
    chosen :
        (o : Option (ℕ × ApnRecord))
        → BestOf (trim_space operator) (clean_apn_criteria criteria) apns o
        → (NoMatch (trim_space operator) (clean_apn_criteria criteria) apns
            × (clean_apn_profile (profile_of o) ≡ clean_apn_profile empty_profile))
          ⊎ ((score : ℕ) × (found : ApnRecord) × FirstBest
                (trim_space operator)
                (clean_apn_criteria criteria)
                apns
                score
                found
              × (clean_apn_profile (profile_of o) ≡ clean_apn_profile found.profile))
    chosen none h = inl (h, refl)
    chosen (some (score, found)) h = inr (score, found, h, refl)
