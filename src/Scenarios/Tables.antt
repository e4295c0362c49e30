-- ===== src/Scenarios/Tables.antt =====
-- A database that is a list of rows, for runs of internal/pkg/storage/app_state.go.
use sigmo.Common.{
  ◌≡◌, refl, sym, Bool, true, false, ◌&&◌, List, [], ◌∷◌, Option, none, some, Text, All, Any, arith,
  ◌==◌, Equal, nat_equal, list_equal, list_beq_iff, ==_refl, ok, ok-injective, and-true, Bool-cases,
  inl, inr, ◌↔◌, if◌then◌else◌, Assoc, lookup, insert, delete, lookup-insert, lookup-delete,
  has_prefix,
}
use mathlib.Core.Path.{subst}
use mathlib.Core.Path.{ap₂}
use sigmo.Storage.{Database}
use sigmo.Storage.Cells.{DatabaseLaws}

abbrev Key : Type 0
Key = Text × Text

abbrev same_key : Key → Key → Bool
same_key a b = (a.0 == b.0) && (a.1 == b.1)

same_key_iff : (a b : Key) → (same_key a b ≡ true) ↔ (a ≡ b)
same_key_iff (s, k) (t, l) = (
  λ h.
      ap₂ (λ x y. (x, y)) ((list_beq_iff s t).0 (and-true h).0)
        ((list_beq_iff k l).0 (and-true h).1),
  λ h. subst (λ c. same_key (s, k) c ≡ true) h (ground (arith, ==_refl s, ==_refl k)),
)

instance abbrev key_equal : Equal Key
key_equal = record { beq = same_key; beq_iff = same_key_iff }

abbrev pub Rows : Type 0
Rows = Assoc Key Text

-- The rows of a scope prefix and a key, each with the value that the whole table has.
unfoldable pub add_row : Text → Option Text → Bool → List (Text × Text) → List (Text × Text)
add_row s none b rest = rest
add_row s (some w) b rest = if b then (s, w) ∷ rest else rest

unfoldable pub rows_of : Rows → Text → Text → Rows → List (Text × Text)
unfolding add_row
rows_of whole p k [] = []
rows_of whole p k (((s, l), v) ∷ m) =
    add_row s (lookup (s, k) whole) ((l == k) && has_prefix s p) (rows_of whole p k m)

unfoldable pub rows_database : Database Rows
unfolding rows_of
rows_database = record {
  upsert = λ s k v m. (insert (s, k) v m, none);
  select_value = λ s k m. ok (lookup (s, k) m);
  delete_scope = λ s m. (m, some 1);
  delete_value = λ s k m. (delete (s, k) m, none);
  list_values = λ p k m. ok (rows_of m p k m);
}

values_added :
    (whole : Rows) (k s : Text) (o : Option Text) (b : Bool) (rest : List (Text × Text))
    → lookup (s, k) whole ≡ o
    → All (λ row. lookup (row.0, k) whole ≡ some row.1) rest
    → All (λ row. lookup (row.0, k) whole ≡ some row.1) (add_row s o b rest)
unfolding add_row
values_added whole k s none b rest e h = h
values_added whole k s (some w) true rest e h = (e, h)
values_added whole k s (some w) false rest e h = h

pub values_agree :
    (whole : Rows) (p k : Text) (m : Rows)
    → All (λ row. lookup (row.0, k) whole ≡ some row.1) (rows_of whole p k m)
unfolding rows_of
values_agree whole p k [] = tt
values_agree whole p k (((s, l), v) ∷ m) =
    values_added whole k s (lookup (s, k) whole) ((l == k) && has_prefix s p) (rows_of whole p k m)
      refl (values_agree whole p k m)

kept_added :
    (t s v : Text) (o : Option Text) (b : Bool) (rest : List (Text × Text))
    → Any (λ row. (row.0 ≡ s) × (row.1 ≡ v)) rest
    → Any (λ row. (row.0 ≡ s) × (row.1 ≡ v)) (add_row t o b rest)
unfolding add_row
kept_added t s v none b rest h = h
kept_added t s v (some w) true rest h = inr h
kept_added t s v (some w) false rest h = h

pub some_row :
    (whole : Rows) (p k : Text) (m : Rows) (s v u : Text)
    → has_prefix s p ≡ true
    → lookup (s, k) whole ≡ some v
    → lookup (s, k) m ≡ some u
    → Any (λ row. (row.0 ≡ s) × (row.1 ≡ v)) (rows_of whole p k m)
unfolding rows_of
some_row whole p k [] s v u h e f = absurd (unfold lookup in ground (arith, f))
some_row whole p k (((t, l), w) ∷ m) s v u h e f = elim (Bool-cases (same_key (t, l) (s, k))) [
  | inl hit ↦
      let here : (t ≡ s) × (l ≡ k) =
        ((list_beq_iff t s).0 (and-true hit).0, (list_beq_iff l k).0 (and-true hit).1) in
      unfold add_row in rw (here.0, here.1, e, ==_refl k, h) (inl (refl, refl))
  | inr miss ↦
      kept_added t s v (lookup (t, k) whole) ((l == k) && has_prefix t p) (rows_of whole p k m)
        (some_row whole p k m s v u h e (unfold lookup in rw miss at f))
]

unfoldable pub rows_laws : DatabaseLaws rows_database
unfolding rows_database
rows_laws = record {
  cell = λ m s k. lookup (s, k) m;
  selects = λ s k m h. sym (ok-injective h);
  upserts = λ s k v m h t l. lookup-insert (s, k) (t, l) v m;
  upsert_fails = λ s k v m h t l. cc;
  deletes = λ s k m h t l. lookup-delete (s, k) (t, l) m;
  delete_fails = λ s k m h t l. cc;
  lists = λ p k m h s h' e. rw (← ok-injective h) (some_row m p k m s _ _ h' e e);
  all_listed = λ p k m h. rw (← ok-injective h) (values_agree m p k m);
}
