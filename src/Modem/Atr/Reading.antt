-- ===== src/Modem/Atr/Reading.antt =====
-- What the loop of internal/pkg/modem/atr.go reads in bytes that are built from a description.
use sigmo.Common.{
  ℕ, zero, suc, ◌+◌, ◌*◌, ◌/◌, ◌%◌, ◌^◌, ◌<◌, ◌≡◌, refl, sym, ap, ◌∙◌, Bool, true, false, not, ◌||◌,
  List, [], ◌∷◌, ◌++◌, Option, none, some, Bytes, length, get_or, arith, ◌==◌, nat_equal,
  list_equal, append_assoc, length-append, inl, inr, Option-cases,
}
use sigmo.Modem.Atr.{
  AtrState, reached, has_bit, pass_byte, note_tb, pass_interface, next_group, atr_loop,
}
use sigmo.Modem.Atr.Described.{
  Interface, present, opt_byte, interface_bytes, flag, more, announced, group_bytes, noted,
  global_tb, answer, Nibbles, asks_checksum,
}

get_or-append :
    (pre : Bytes) (b : ℕ) (post : Bytes) (i : ℕ) → length pre ≡ i → get_or (pre ++ b ∷ post) i 0 ≡ b
get_or-append [] b post zero e = refl
get_or-append [] b post (suc i) e = absurd (omega arith)
get_or-append (x ∷ pre) b post zero e = absurd (omega arith)
get_or-append (x ∷ pre) b post (suc i) e = get_or-append pre b post i (omega arith)

pass_byte-opt :
    (o : Option ℕ) (pre post : Bytes)
    → pass_byte (present o) (pre ++ (opt_byte o ++ post)) (length pre)
      ≡ some (length pre + length (opt_byte o))
pass_byte-opt none pre post = ap some (omega arith)
pass_byte-opt (some b) pre post = ground (arith, length-append pre (b ∷ post))

announced-bits :
    (g : Interface) (rest : List (ℕ × Interface))
    → (has_bit (announced g rest) 1 ≡ present g.ta)
      × (has_bit (announced g rest) 2 ≡ present g.tb)
      × (has_bit (announced g rest) 4 ≡ present g.tc)
      × (has_bit (announced g rest) 8 ≡ more rest)
announced-bits g rest = bits (present g.ta) (present g.tb) (present g.tc) (more rest)
  where
    bits :
        (a b c d : Bool)
        → let y = flag a 1 + (flag b 2 + (flag c 4 + flag d 8)) in
          (has_bit y 1 ≡ a) × (has_bit y 2 ≡ b) × (has_bit y 4 ≡ c) × (has_bit y 8 ≡ d)
    bits true true true true = (refl, refl, refl, refl)
    bits true true true false = (refl, refl, refl, refl)
    bits true true false true = (refl, refl, refl, refl)
    bits true true false false = (refl, refl, refl, refl)
    bits true false true true = (refl, refl, refl, refl)
    bits true false true false = (refl, refl, refl, refl)
    bits true false false true = (refl, refl, refl, refl)
    bits true false false false = (refl, refl, refl, refl)
    bits false true true true = (refl, refl, refl, refl)
    bits false true true false = (refl, refl, refl, refl)
    bits false true false true = (refl, refl, refl, refl)
    bits false true false false = (refl, refl, refl, refl)
    bits false false true true = (refl, refl, refl, refl)
    bits false false true false = (refl, refl, refl, refl)
    bits false false false true = (refl, refl, refl, refl)
    bits false false false false = (refl, refl, refl, refl)

pass_at :
    (o : Option ℕ) (b : Bool) (atr pre post : Bytes) (i : ℕ)
    → b ≡ present o
    → atr ≡ pre ++ (opt_byte o ++ post)
    → i ≡ length pre
    → pass_byte b atr i ≡ some (i + length (opt_byte o))
pass_at o b atr pre post i e f h = rw (e, f, h) (pass_byte-opt o pre post)

note_tb-noted :
    (g : Interface) (atr pre post : Bytes) (i : ℕ) (s : AtrState)
    → has_bit s.y 2 ≡ present g.tb
    → atr ≡ pre ++ (opt_byte g.tb ++ post)
    → i ≡ length pre
    → answer (note_tb atr i s) ≡ noted s.group s.protocol g (answer s)
note_tb-noted g atr pre post i s e f h = elim (Option-cases g.tb) [
  | inl none' ↦ ground (arith, none', e)
  | inr (b, some') ↦
      let byte : get_or atr i 0 ≡ b =
        ap (λ l. get_or l i 0) (f ∙ ap (λ o. pre ++ (opt_byte o ++ post)) some')
        ∙ get_or-append pre b post i (sym h) in
      ground (arith, some', e, byte)
]

-- The state after the interface bytes of a group.
record Passed (g : Interface) (atr : Bytes) (s : AtrState) : Type 0 where
  next : AtrState
  passes : pass_interface atr s ≡ some next
  same_y : next.y ≡ s.y
  moved : next.index ≡ s.index + length (interface_bytes g)
  answers : answer next ≡ noted s.group s.protocol g (answer s)
  same_group : next.group ≡ s.group
  same_checksum : next.needs_checksum ≡ s.needs_checksum

passed :
    (g : Interface) (rest : List (ℕ × Interface)) (atr pre post : Bytes) (s : AtrState)
    → atr ≡ pre ++ (interface_bytes g ++ post)
    → s.y ≡ announced g rest
    → s.index ≡ length pre
    → Passed g atr s
unfolding pass_interface
passed g rest atr pre post s f y i =
    let bits : (has_bit (announced g rest) 1 ≡ present g.ta)
        × (has_bit (announced g rest) 2 ≡ present g.tb)
        × (has_bit (announced g rest) 4 ≡ present g.tc)
        × (has_bit (announced g rest) 8 ≡ more rest) =
      announced-bits g rest in
    let A : Bytes = opt_byte g.ta in
    let B : Bytes = opt_byte g.tb in
    let C : Bytes = opt_byte g.tc in
    let f₁ : atr ≡ pre ++ (A ++ (B ++ (C ++ post))) =
      f
      ∙ ap (λ l. pre ++ l)
          (append_assoc A (B ++ C) post ∙ ap (λ l. A ++ l) (append_assoc B C post)) in
    let f₂ : atr ≡ (pre ++ A) ++ (B ++ (C ++ post)) =
      f₁ ∙ sym (append_assoc pre A (B ++ (C ++ post))) in
    let f₃ : atr ≡ ((pre ++ A) ++ B) ++ (C ++ post) =
      f₂ ∙ sym (append_assoc (pre ++ A) B (C ++ post)) in
    let i₁ : ℕ = s.index + length A in
    let i₂ : ℕ = i₁ + length B in
    let i₃ : ℕ = i₂ + length C in
    let h₁ : i₁ ≡ length (pre ++ A) = omega (arith, i, length-append pre A) in
    let h₂ : i₂ ≡ length ((pre ++ A) ++ B) = omega (arith, h₁, length-append (pre ++ A) B) in
    let p₁ : pass_byte (has_bit s.y 1) atr s.index ≡ some i₁ =
      pass_at g.ta (has_bit s.y 1) atr pre _ s.index (ap (λ k. has_bit k 1) y ∙ bits.0) f₁ i in
    let p₂ : pass_byte (has_bit s.y 2) atr i₁ ≡ some i₂ =
      pass_at g.tb (has_bit s.y 2) atr (pre ++ A) _ i₁ (ap (λ k. has_bit k 2) y ∙ bits.1) f₂ h₁ in
    let p₃ : pass_byte (has_bit s.y 4) atr i₂ ≡ some i₃ =
      pass_at g.tc (has_bit s.y 4) atr ((pre ++ A) ++ B) _ i₂ (ap (λ k. has_bit k 4) y ∙ bits.2) f₃
        h₂ in
    record {
      next = record (note_tb atr i₁ s) { index = i₃ };
      passes = ground (arith, p₁, p₂, p₃);
      same_y = ground arith;
      moved = omega (arith, length-append A (B ++ C), length-append B C);
      answers =
          note_tb-noted g atr (pre ++ A) (C ++ post) i₁ s (ap (λ k. has_bit k 2) y ∙ bits.1) f₂ h₁;
      same_group = ground arith;
      same_checksum = ground arith;
    }

pub record Reads (fuel : ℕ) (atr : Bytes) (s : AtrState) (g : Interface)
    (rest : List (ℕ × Interface)) : Type 0 where
  pub final : AtrState
  pub reaches : atr_loop fuel atr s ≡ reached final
  pub moved : final.index ≡ s.index + length (group_bytes g rest)
  pub answers : answer final ≡ global_tb s.group s.protocol g rest (answer s)
  pub checks : final.needs_checksum ≡ (s.needs_checksum || asks_checksum rest)

loop_on :
    (fuel : ℕ) (atr : Bytes) (s next : AtrState)
    → pass_interface atr s ≡ some next
    → has_bit next.y 8 ≡ true
    → next.index < length atr
    → atr_loop (suc fuel) atr s ≡ atr_loop fuel atr (next_group (get_or atr next.index 0) next)
unfolding atr_loop
loop_on fuel atr s next e more' lt = ground (arith, e, more')

-- The nibbles of a byte that begins a group.
pub td-nibbles : (a q b : ℕ) → q < 16 → b ≡ a * 16 + q → (b / 2 ^ 4 ≡ a) × (b % 2 ^ 4 ≡ q)
td-nibbles a q b lt e = (omega arith, omega arith)

pub reads :
    (fuel : ℕ) (g : Interface) (rest : List (ℕ × Interface)) (atr pre tail : Bytes) (s : AtrState)
    → Nibbles rest
    → length rest < fuel
    → atr ≡ pre ++ (group_bytes g rest ++ tail)
    → s.y ≡ announced g rest
    → s.index ≡ length pre
    → Reads fuel atr s g rest
unfolding atr_loop group_bytes global_tb
reads zero g rest atr pre tail s nib lt f y i = absurd (omega arith)
reads (suc fuel) g [] atr pre tail s nib lt f y i =
    let p : Passed g atr s = passed g [] atr pre tail s f y i in
    let last : has_bit p.next.y 8 ≡ false =
      ap (λ k. has_bit k 8) (p.same_y ∙ y) ∙ (announced-bits g []).3 in
    record {
      final = p.next;
      reaches = ground (arith, p.passes, last);
      moved = p.moved;
      answers = p.answers;
      checks = ground (arith, p.same_checksum);
    }
reads (suc fuel) g ((q, h) ∷ rest) atr pre tail s nib lt f y i =
    let td : ℕ = announced h rest * 16 + q in
    let later : Bytes = group_bytes h rest in
    let f₁ : atr ≡ pre ++ (interface_bytes g ++ td ∷ (later ++ tail)) =
      f ∙ ap (λ l. pre ++ l) (append_assoc (interface_bytes g) (td ∷ later) tail) in
    let p : Passed g atr s = passed g ((q, h) ∷ rest) atr pre (td ∷ (later ++ tail)) s f₁ y i in
    let goes_on : has_bit p.next.y 8 ≡ true =
      ap (λ k. has_bit k 8) (p.same_y ∙ y) ∙ (announced-bits g ((q, h) ∷ rest)).3 in
    let front : Bytes = pre ++ interface_bytes g in
    let f₂ : atr ≡ front ++ td ∷ (later ++ tail) =
      f₁ ∙ sym (append_assoc pre (interface_bytes g) (td ∷ (later ++ tail))) in
    let f₃ : atr ≡ (front ++ td ∷ []) ++ (later ++ tail) =
      f₂ ∙ sym (append_assoc front (td ∷ []) (later ++ tail)) in
    let at : p.next.index ≡ length front =
      omega (arith, p.moved, i, length-append pre (interface_bytes g)) in
    let byte : get_or atr p.next.index 0 ≡ td =
      ap (λ l. get_or l p.next.index 0) f₂
      ∙ get_or-append front td (later ++ tail) p.next.index (sym at) in
    let inside : p.next.index < length atr =
      omega (arith, at, ap length f₂, length-append front (td ∷ (later ++ tail))) in
    let nibbles : (get_or atr p.next.index 0 / 2 ^ 4 ≡ announced h rest)
        × (get_or atr p.next.index 0 % 2 ^ 4 ≡ q) =
      td-nibbles (announced h rest) q (get_or atr p.next.index 0) nib.0 byte in
    let s' : AtrState = next_group (get_or atr p.next.index 0) p.next in
    let r : Reads fuel atr s' h rest =
      reads fuel h rest atr (front ++ td ∷ []) tail s' nib.1 (omega arith) f₃ nibbles.0
        (omega (arith, at, length-append front (td ∷ []))) in
    record {
      final = r.final;
      reaches = loop_on fuel atr s p.next p.passes goes_on inside ∙ r.reaches;
      moved = omega (arith, r.moved, p.moved, length-append (interface_bytes g) (td ∷ later));
      answers = r.answers ∙ (rw (p.same_group, nibbles.1, p.answers) refl);
      checks =
          r.checks
          ∙ (rw (nibbles.1, p.same_checksum)
              (or_assoc s.needs_checksum (not (q == 0)) (asks_checksum rest)));
    }
  where
    or_assoc : (a b c : Bool) → ((a || b) || c) ≡ (a || (b || c))
    or_assoc a b c = ground arith
