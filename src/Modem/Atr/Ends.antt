-- ===== src/Modem/Atr/Ends.antt =====
-- The loop of internal/pkg/modem/atr.go ends on every input.
use sigmo.Common.{
  ℕ, zero, suc, ◌+◌, ◌<◌, ◌≤◌, ◌≡◌, ◌≢◌, ap, Bool, [], ◌∷◌, some, Bytes, length, get_or, arith, inl,
  inr, Option-cases,
}
use sigmo.Modem.Atr.{
  AtrState, out_of_fuel, has_bit, pass_byte, note_tb, pass_interface, next_group, atr_loop,
  read_atr, first_group,
}

pass_byte-index :
    (announced : Bool) (atr : Bytes) (i j : ℕ) → pass_byte announced atr i ≡ some j → i ≤ j
pass_byte-index announced atr i j h = ground arith

note_tb-index : (atr : Bytes) (i : ℕ) (s : AtrState) → (note_tb atr i s).index ≡ s.index
note_tb-index atr i s = ground arith

pass_interface-index :
    (atr : Bytes) (s s' : AtrState) → pass_interface atr s ≡ some s' → s.index ≤ s'.index
unfolding pass_interface
pass_interface-index atr s s' h = elim (Option-cases (pass_byte (has_bit s.y 1) atr s.index)) [
  | inl e ↦ ground (arith, e, h)
  | inr (i, e) ↦ elim (Option-cases (pass_byte (has_bit s.y 2) atr i)) [
    | inl f ↦ ground (arith, e, f, h)
    | inr (j, f) ↦ elim (Option-cases (pass_byte (has_bit s.y 4) atr j)) [
      | inl g ↦ ground (arith, e, f, g, h)
      | inr (k, g) ↦
          let same : record (note_tb atr i s) { index = k } ≡ s' = ground (arith, e, f, g, h) in
          omega (
            arith,
            ap (λ t. t.index) same,
            pass_byte-index (has_bit s.y 1) atr s.index i e,
            pass_byte-index (has_bit s.y 2) atr i j f,
            pass_byte-index (has_bit s.y 4) atr j k g,
          )
    ]
  ]
]

atr_loop-ends :
    (fuel : ℕ) (atr : Bytes) (s : AtrState)
    → length atr < s.index + fuel
    → s.index ≤ length atr
    → atr_loop fuel atr s ≢ out_of_fuel
unfolding atr_loop
atr_loop-ends zero atr s lt le = absurd (omega arith)
atr_loop-ends (suc fuel) atr s lt le = elim (Option-cases (pass_interface atr s)) [
  | inl e ↦ ground (arith, e)
  | inr (s', e) ↦ ground (
    arith,
    e,
    lt,
    pass_interface-index atr s s' e,
    atr_loop-ends fuel atr (next_group (get_or atr s'.index 0) s'),
  )
]

-- On every answer to reset the loop ends within its fuel: it refuses the bytes or reads them.
pub read_atr_ends : (atr : Bytes) → read_atr atr ≢ out_of_fuel
unfolding read_atr
read_atr_ends [] = cc
read_atr_ends (ts ∷ []) = cc
read_atr_ends (ts ∷ t0 ∷ rest) =
    atr_loop-ends (suc (length (ts ∷ t0 ∷ rest))) (ts ∷ t0 ∷ rest) (first_group t0) (omega arith)
      (omega arith)
