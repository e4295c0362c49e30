-- ===== src/Common/Trim.antt =====
-- Laws of `strings.TrimSpace`.
use Prim.Native.Nat.{ℕ}
use mathlib.Core.Path.{◌≡◌, refl, sym, ap, ◌∙◌, subst}
use mathlib.Core.Bool.{false}
use mathlib.Core.List.{[], ◌∷◌, ◌++◌, reverse, reverse-reverse, reverse-append, reverse-cons}
use mathlib.Core.Logic.{inl, inr}
use sigmo.Common.Tests.{Bool-cases}
use sigmo.Common.Lists.{All, All-append}
use sigmo.Common.Strings.{Text, is_space, trim_left, trim_space}

-- The text is empty or starts with another character than a space.
abbrev pub Flush : Text → Type 0
Flush [] = Unit {0}
Flush (c ∷ s) = is_space c ≡ false

trim_left-Flush : (s : Text) → Flush (trim_left s)
unfolding trim_left
trim_left-Flush [] = tt
trim_left-Flush (c ∷ s) = elim (Bool-cases (is_space c)) [
  | inl e ↦ rw e (trim_left-Flush s)
  | inr e ↦ rw e e
]

trim_left-of_Flush : (s : Text) → Flush s → trim_left s ≡ s
unfolding trim_left
trim_left-of_Flush [] h = refl
trim_left-of_Flush (c ∷ s) h = rw h refl

-- What `trim_left` takes off stands in front.
trim_left-split : (s : Text) → (w : Text) × (w ++ trim_left s ≡ s)
unfolding trim_left
trim_left-split [] = ([], refl)
trim_left-split (c ∷ s) = elim (Bool-cases (is_space c)) [
  | inl e ↦ let (w, h) = trim_left-split s in (c ∷ w, rw e (ap {B = Text} (λ r. c ∷ r) h))
  | inr e ↦ ([], rw e refl)
]

Flush-append_left : (p q : Text) → Flush (p ++ q) → Flush p
Flush-append_left [] q h = tt
Flush-append_left (c ∷ p) q h = h

Flush-trim_space : (s : Text) → Flush (trim_space s)
unfolding trim_space
Flush-trim_space s =
    let u : Text = trim_left s in
    let v : Text = trim_left (reverse u) in
    let (w, h) = trim_left-split (reverse u) in
    let e : u ≡ reverse v ++ reverse w =
      sym (reverse-reverse u) ∙ (ap reverse (sym h) ∙ reverse-append w v) in
    Flush-append_left (reverse v) (reverse w) (subst Flush e (trim_left-Flush s))

-- Trimming a second time changes nothing.
pub trim_space_idem : (s : Text) → trim_space (trim_space s) ≡ trim_space s
unfolding trim_space
trim_space_idem s =
    let v : Text = trim_left (reverse (trim_left s)) in
    rw
      (
        trim_left-of_Flush (reverse v) (Flush-trim_space s),
        reverse-reverse v,
        trim_left-of_Flush v (trim_left-Flush (reverse (trim_left s))),
      )
      refl

abbrev pub NoSpace : Text → Type 0
NoSpace = All (λ c. is_space c ≡ false)

NoSpace-Flush : (s : Text) → NoSpace s → Flush s
NoSpace-Flush [] h = tt
NoSpace-Flush (c ∷ s) h = h.0

NoSpace-reverse : (s : Text) → NoSpace s → NoSpace (reverse s)
NoSpace-reverse [] h = tt
NoSpace-reverse (c ∷ s) h =
    rw (reverse-cons c s) (All-append _ (reverse s) (c ∷ []) (NoSpace-reverse s h.1) (h.0, tt))

-- A text with no space in it is left as it is.
pub trim_space-of_NoSpace : (s : Text) → NoSpace s → trim_space s ≡ s
unfolding trim_space
trim_space-of_NoSpace s h =
    rw
      (
        trim_left-of_Flush s (NoSpace-Flush s h),
        trim_left-of_Flush (reverse s) (NoSpace-Flush (reverse s) (NoSpace-reverse s h)),
        reverse-reverse s,
      )
      refl

Flush-reverse-trim_space : (s : Text) → Flush (reverse (trim_space s))
unfolding trim_space
Flush-reverse-trim_space s =
    let u : Text = reverse (trim_left s) in rw (reverse-reverse (trim_left u)) (trim_left-Flush u)

Flush-append : (p q : Text) → Flush p → Flush q → Flush (p ++ q)
Flush-append [] q h k = k
Flush-append (c ∷ p) q h k = h

-- A prefix with no space at its ends, before a trimmed text.
pub trim_space-append :
    (c : ℕ) (p s : Text)
    → is_space c ≡ false
    → Flush (reverse (c ∷ p))
    → trim_space ((c ∷ p) ++ trim_space s) ≡ (c ∷ p) ++ trim_space s
unfolding trim_space
trim_space-append c p s h k =
    let t : Text = trim_space s in
    let whole : Text = (c ∷ p) ++ t in
    let last : Flush (reverse whole) =
      rw (reverse-append (c ∷ p) t)
        (Flush-append (reverse t) (reverse (c ∷ p)) (Flush-reverse-trim_space s) k) in
    rw (trim_left-of_Flush whole h, trim_left-of_Flush (reverse whole) last, reverse-reverse whole)
      refl
