-- ===== src/Internet/Apn/First.antt =====
-- Which name internal/pkg/internet/apn.go selects.
use sigmo.Common.{
  ◌≡◌, ◌≢◌, refl, ap, List, [], ◌∷◌, ◌++◌, Text, All, arith, ◌==◌, nat_equal, list_equal,
  list_beq_iff, Bool-cases, inl, inr, ◌⊎◌, trim_space,
}
use sigmo.Internet.Apn.{first_apn}

abbrev pub Blank : Text → Type 0
Blank s = trim_space s ≡ []

-- The first value that is not blank.
pub record FirstNamed (values : List Text) (apn : Text) : Type 0 where
  pub before : List Text
  pub found : Text
  pub after : List Text
  pub splits : values ≡ before ++ found ∷ after
  pub blanks : All Blank before
  pub named : trim_space found ≢ []
  pub taken : apn ≡ trim_space found

-- From any values, the trimmed first one that is not blank is taken, or none if all are blank.
pub first_apn-FirstNamed :
    (values : List Text)
    → (All Blank values × (first_apn values ≡ [])) ⊎ FirstNamed values (first_apn values)
unfolding first_apn
first_apn-FirstNamed [] = inl (tt, refl)
first_apn-FirstNamed (v ∷ values) = elim (Bool-cases (trim_space v == [])) [
  | inl e ↦ elim (first_apn-FirstNamed values) [
    | inl (blank, none') ↦ inl (((list_beq_iff (trim_space v) []).0 e, blank), rw e none')
    | inr f ↦ inr (record {
      before = v ∷ f.before;
      found = f.found;
      after = f.after;
      splits = ap (λ t. v ∷ t) f.splits;
      blanks = ((list_beq_iff (trim_space v) []).0 e, f.blanks);
      named = f.named;
      taken = rw e f.taken;
    })
  ]
  | inr e ↦ inr (record {
    before = [];
    found = v;
    after = values;
    splits = refl;
    blanks = tt;
    named = λ q. ground (arith, e, q, list_beq_iff (trim_space v) []);
    taken = rw e refl;
  })
]
