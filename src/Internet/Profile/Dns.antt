-- ===== src/Internet/Profile/Dns.antt =====
-- What mergeDNS of internal/pkg/internet/bearer_config.go makes of the servers of a bearer.
use sigmo.Common.{
  ◌≡◌, refl, sym, ap, ◌∙◌, Bool, true, false, not, ◌&&◌, ◌||◌, List, [], ◌∷◌, ◌++◌, Text, any,
  arith, ◌==◌, nat_equal, list_equal, list_beq_iff, Bool-cases, inl, inr, trim_space,
}
use mathlib.Core.Path.{subst}
use sigmo.Internet.Profile.{note_dns, merge_group, merge_groups, merge_dns}

abbrev pub occurs : Text → List Text → Bool
occurs d = any (λ x. x == d)

-- The text names the server, blanks around it left out.
abbrev pub names_server : Text → Text → Bool
names_server d text = not (trim_space text == []) && trim_space text == d

abbrev pub Distinct : List Text → Type 0
Distinct [] = Unit
Distinct (x ∷ xs) = (occurs x xs ≡ false) × Distinct xs

occurs-append :
    (d : Text) (xs : List Text) (y : Text) → occurs d (xs ++ y ∷ []) ≡ occurs d xs || y == d
occurs-append d [] y = ground arith
occurs-append d (x ∷ xs) y = ground (arith, occurs-append d xs y)

Distinct-append :
    (xs : List Text) (y : Text) → Distinct xs → occurs y xs ≡ false → Distinct (xs ++ y ∷ [])
Distinct-append [] y h e = (refl, tt)
Distinct-append (x ∷ xs) y h e =
    let other : (y == x) ≡ false = ground (arith, e, list_beq_iff y x, list_beq_iff x y) in
    (ground (arith, occurs-append x xs y, h.0, other), Distinct-append xs y h.1 (ground (arith, e)))

or_false : (b : Bool) → (b || false) ≡ b
or_false b = ground arith

-- A server that is there already may be named again.
occurs_again :
    (result : List Text) (dns d : Text)
    → occurs dns result ≡ true
    → occurs d result ≡ occurs d result || dns == d
occurs_again result dns d old = elim (Bool-cases (dns == d)) [
  | inr other ↦ rw other (sym (or_false (occurs d result)))
  | inl same ↦
      let there : occurs d result ≡ true =
        subst (λ t. occurs t result ≡ true) ((list_beq_iff dns d).0 same) old in
      ground (arith, there)
]

note_dns-occurs :
    (result : List Text) (text d : Text)
    → occurs d (note_dns result text) ≡ occurs d result || names_server d text
note_dns-occurs result text d = elim (Bool-cases (trim_space text == [])) [
  | inl blank ↦ rw blank (sym (or_false (occurs d result)))
  | inr named ↦ elim (Bool-cases (occurs (trim_space text) result)) [
    | inl old ↦ rw (named, old) (occurs_again result (trim_space text) d old)
    | inr new ↦ rw (named, new) (occurs-append d result (trim_space text))
  ]
]

note_dns-Distinct :
    (result : List Text) (text : Text) → Distinct result → Distinct (note_dns result text)
note_dns-Distinct result text h = elim (Bool-cases (trim_space text == [])) [
  | inl blank ↦ rw blank h
  | inr named ↦ elim (Bool-cases (occurs (trim_space text) result)) [
    | inl old ↦ rw (named, old) h
    | inr new ↦ rw (named, new) (Distinct-append result (trim_space text) h new)
  ]
]

or_assoc : (a b c : Bool) → ((a || b) || c) ≡ (a || (b || c))
or_assoc a b c = ground arith

merge_group-occurs :
    (result group : List Text) (d : Text)
    → occurs d (merge_group result group) ≡ occurs d result || any (names_server d) group
unfolding merge_group
merge_group-occurs result [] d = sym (or_false (occurs d result))
merge_group-occurs result (text ∷ group) d =
    merge_group-occurs (note_dns result text) group d
    ∙ ap (λ b. b || any (names_server d) group) (note_dns-occurs result text d)
    ∙ or_assoc (occurs d result) (names_server d text) (any (names_server d) group)

merge_group-Distinct :
    (result group : List Text) → Distinct result → Distinct (merge_group result group)
unfolding merge_group
merge_group-Distinct result [] h = h
merge_group-Distinct result (text ∷ group) h =
    merge_group-Distinct (note_dns result text) group (note_dns-Distinct result text h)

merge_groups-occurs :
    (result : List Text) (groups : List (List Text)) (d : Text)
    → occurs d (merge_groups result groups) ≡ occurs d result || any (any (names_server d)) groups
unfolding merge_groups
merge_groups-occurs result [] d = sym (or_false (occurs d result))
merge_groups-occurs result (group ∷ groups) d =
    merge_groups-occurs (merge_group result group) groups d
    ∙ ap (λ b. b || any (any (names_server d)) groups) (merge_group-occurs result group d)
    ∙ or_assoc (occurs d result) (any (names_server d) group) (any (any (names_server d)) groups)

merge_groups-Distinct :
    (result : List Text) (groups : List (List Text))
    → Distinct result
    → Distinct (merge_groups result groups)
unfolding merge_groups
merge_groups-Distinct result [] h = h
merge_groups-Distinct result (group ∷ groups) h =
    merge_groups-Distinct (merge_group result group) groups (merge_group-Distinct result group h)

-- For all groups of servers, the merged list holds no server twice, and holds exactly the servers
-- that some group names, with the blanks around them left out, where nothing but blanks is no server.
pub merge_dns-Distinct :
    (groups : List (List Text))
    → Distinct (merge_dns groups)
      × ((d : Text) → occurs d (merge_dns groups) ≡ any (any (names_server d)) groups)
unfolding merge_dns
merge_dns-Distinct groups =
    (merge_groups-Distinct [] groups tt, λ d. merge_groups-occurs [] groups d)
