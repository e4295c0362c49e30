-- ===== src/Modem/Atr/Finds.antt =====
-- internal/pkg/modem/atr.go finds TB in every answer to reset that is built from its description.
use sigmo.Common.{
  ℕ, suc, ◌+◌, ◌*◌, ◌/◌, ◌%◌, ◌^◌, ◌<◌, ◌≤◌, ◌≡◌, refl, ap, ◌∙◌, false, not, ◌&&◌, List, [], ◌∷◌,
  ◌++◌, Option, none, Bytes, length, drop, arith, ◌==◌, nat_equal, list_equal, length-append,
  Bool-cases, inl, inr, ◌⊎◌, if◌then◌else◌,
}
use sigmo.Modem.Atr.{
  AtrState, finish_atr, ended, read_atr, first_group, checksum, atr_t15_global_tb,
}
use sigmo.Modem.Atr.Described.{
  Interface, interface_bytes, announced, group_bytes, global_tb, answer, Nibbles, asks_checksum,
}
use sigmo.Modem.Atr.Reading.{Reads, reads, td-nibbles}

-- An answer to reset: the first character, the groups, the historical bytes and the checksum, which
-- is written where a protocol other than T=0 asks for it.
pub record AtrDescription : Type 0 where
  pub ts : ℕ
  pub first : Interface
  pub groups : List (ℕ × Interface)
  pub historical : Bytes
  pub check : ℕ

abbrev pub closing : AtrDescription → Bytes
closing d = d.historical ++ (if asks_checksum d.groups then d.check ∷ [] else [])

unfoldable pub atr_bytes : AtrDescription → Bytes
unfolding group_bytes
atr_bytes d =
    d.ts
    ∷ (announced d.first d.groups * 16 + length d.historical)
    ∷ (group_bytes d.first d.groups ++ closing d)

groups-le :
    (g : Interface) (rest : List (ℕ × Interface)) → length rest ≤ length (group_bytes g rest)
unfolding group_bytes
groups-le g [] = omega arith
groups-le g ((p, h) ∷ rest) = omega (
  arith,
  groups-le h rest,
  length-append (interface_bytes g) ((announced h rest * 16 + p) ∷ group_bytes h rest),
)

length-closing :
    (d : AtrDescription)
    → length (closing d) ≡ length d.historical + (if asks_checksum d.groups then 1 else 0)
length-closing d = elim (Bool-cases (asks_checksum d.groups)) [
  | inl e ↦ rw e (length-append d.historical (d.check ∷ []))
  | inr e ↦ rw e (length-append d.historical [])
]

-- For every described answer to reset, with at most fifteen historical bytes, protocols below sixteen
-- and, where it asks for a checksum, bytes after the first that cancel out, the TB that is found is
-- that of the last group after the second with T=15 that has one.
pub atr_t15_global_tb-atr_bytes :
    (d : AtrDescription)
    → (d.ts ≡ 0x3B) ⊎ (d.ts ≡ 0x3F)
    → length d.historical < 16
    → Nibbles d.groups
    → (asks_checksum d.groups ≡ false) ⊎ (checksum (drop 1 (atr_bytes d)) ≡ 0)
    → atr_t15_global_tb (atr_bytes d) ≡ global_tb 1 0 d.first d.groups none
unfolding atr_t15_global_tb atr_bytes read_atr
atr_t15_global_tb-atr_bytes d ts hist nib check =
    let t0 : ℕ = announced d.first d.groups * 16 + length d.historical in
    let body : Bytes = group_bytes d.first d.groups in
    let atr : Bytes = d.ts ∷ t0 ∷ (body ++ closing d) in
    let len : length (body ++ closing d) ≡ length body + length (closing d) =
      length-append body (closing d) in
    let halves : (t0 / 2 ^ 4 ≡ announced d.first d.groups) × (t0 % 2 ^ 4 ≡ length d.historical) =
      td-nibbles (announced d.first d.groups) (length d.historical) t0 hist refl in
    let r : Reads (suc (length atr)) atr (first_group t0) d.first d.groups =
      reads (suc (length atr)) d.first d.groups atr (d.ts ∷ t0 ∷ []) (closing d) (first_group t0)
        nib (omega (arith, len, groups-le d.first d.groups)) refl halves.0 (omega arith) in
    let fin : finish_atr atr (t0 % 2 ^ 4) r.final ≡ answer r.final =
      finishes atr (t0 % 2 ^ 4) r.final (omega (arith, len, length-closing d, halves.1, r.moved))
        r.checks check in
    let run : ended atr (t0 % 2 ^ 4) (read_atr atr) ≡ finish_atr atr (t0 % 2 ^ 4) r.final =
      ap (ended atr (t0 % 2 ^ 4)) r.reaches in
    started ts ∙ run ∙ fin ∙ r.answers
  where
    started :
        {x : Option ℕ}
        → (d.ts ≡ 0x3B) ⊎ (d.ts ≡ 0x3F)
        → (if not (d.ts == 0x3B) && not (d.ts == 0x3F) then none else x) ≡ x
    started (inl e) = rw e refl
    started (inr e) = rw e refl

    finishes :
        (atr : Bytes) (h : ℕ) (s : AtrState)
        → s.index + h + (if asks_checksum d.groups then 1 else 0) ≡ length atr
        → s.needs_checksum ≡ asks_checksum d.groups
        → (asks_checksum d.groups ≡ false) ⊎ (checksum (drop 1 atr) ≡ 0)
        → finish_atr atr h s ≡ answer s
    finishes atr h s e c (inl none') = ground (arith, e, c, none')
    finishes atr h s e c (inr zero') = ground (arith, e, c, zero')
