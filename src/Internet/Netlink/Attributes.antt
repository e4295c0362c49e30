-- ===== src/Internet/Netlink/Attributes.antt =====
-- What parseAttrs of internal/pkg/netlink/netlink.go reads of what appendAttr has written.
use sigmo.Common.{
  nat_equal, ℕ, zero, suc, ◌+◌, ◌-◌, ◌*◌, ◌/◌, ◌%◌, ◌^◌, ◌<◌, ◌≤◌, ◌≡◌, refl, sym, ap, ◌∙◌, ◌||◌,
  List, [], ◌∷◌, ◌++◌, some, Bytes, length, take, drop, replicate, All, arith, ltb, ge→ltb, ltb→ge,
  append_assoc, take-append_left, drop-append_left, length-replicate, length-append, length-drop,
  Bool-cases, inl, inr, insert,
}
use sigmo.Internet.Netlink.{
  Attrs, uint16, rta_align, attr_bytes, parse_attrs_loop, ended, parse_attrs,
}

uint16-put_uint16 : (n : ℕ) → n < 2 ^ 16 → n % 256 + n / 256 % 256 * 256 ≡ n
uint16-put_uint16 n h = omega arith

le-rta_align : (n : ℕ) → n ≤ rta_align n
unfolding rta_align
le-rta_align n = omega arith

-- A round that finds an attribute.
attr_found :
    (f : ℕ) (bytes : Bytes) (attrs : Attrs) (l t : ℕ) (v rest : Bytes)
    → uint16 bytes ≡ l
    → uint16 (drop 2 bytes) ≡ t
    → take (l - 4) (drop 4 bytes) ≡ v
    → drop (rta_align l) bytes ≡ rest
    → 4 ≤ l
    → rta_align l ≤ length bytes
    → parse_attrs_loop (suc f) bytes attrs ≡ parse_attrs_loop f rest (insert t v attrs)
unfolding parse_attrs_loop
attr_found f bytes attrs l t v rest el et ev er four fits =
    let l_fits : l ≤ length bytes = omega (arith, le-rta_align l, fits) in
    rw
      (
        el,
        et,
        ev,
        er,
        ge→ltb (length bytes) 4 (omega (arith, four, l_fits)),
        ge→ltb l 4 four,
        ge→ltb (length bytes) l l_fits,
        ge→ltb (length bytes) (rta_align l) fits,
      )
      refl

attr_round :
    (f t : ℕ) (v rest : Bytes) (attrs : Attrs)
    → t < 2 ^ 16
    → 4 + length v < 2 ^ 16
    → parse_attrs_loop (suc f) (attr_bytes t v ++ rest) attrs
      ≡ parse_attrs_loop f rest (insert t v attrs)
attr_round f t v rest attrs ht hv =
    let l : ℕ = 4 + length v in
    let pad : Bytes = replicate (rta_align l - l) 0 in
    let bytes : Bytes = attr_bytes t v ++ rest in
    let less : l - 4 ≡ length v = omega arith in
    let value : take (l - 4) ((v ++ pad) ++ rest) ≡ v =
      ap (λ n. take n ((v ++ pad) ++ rest)) less
      ∙ (ap (take (length v)) (append_assoc v pad rest) ∙ take-append_left v (pad ++ rest)) in
    let total' : length (attr_bytes t v) ≡ rta_align l =
      omega (
        arith,
        length-append v pad,
        length-replicate {A = ℕ} (rta_align l - l) 0,
        le-rta_align l,
      ) in
    let rest' : drop (rta_align l) bytes ≡ rest =
      ap (λ n. drop n bytes) (sym total') ∙ drop-append_left (attr_bytes t v) rest in
    attr_found f bytes attrs l t v rest (uint16-put_uint16 l hv) (uint16-put_uint16 t ht) value
      rest' (omega arith) (omega (arith, length-append (attr_bytes t v) rest, total'))

parse_nothing : (f : ℕ) (attrs : Attrs) → parse_attrs_loop (suc f) [] attrs ≡ some attrs
unfolding parse_attrs_loop
parse_nothing f attrs = refl

-- Attributes one after the other.
abbrev pub attrs_bytes : List (ℕ × Bytes) → Bytes
attrs_bytes [] = []
attrs_bytes ((t, v) ∷ entries) = attr_bytes t v ++ attrs_bytes entries

-- The map that has taken them in one after the other.
abbrev pub inserted : List (ℕ × Bytes) → Attrs → Attrs
inserted [] attrs = attrs
inserted ((t, v) ∷ entries) attrs = inserted entries (insert t v attrs)

-- The type and the length of an attribute have 16 bits.
abbrev pub Encodable : List (ℕ × Bytes) → Type 0
Encodable = All (λ e. (e.0 < 2 ^ 16) × (4 + length e.1 < 2 ^ 16))

loop-attrs_bytes :
    (f : ℕ) (entries : List (ℕ × Bytes)) (attrs : Attrs)
    → length entries < f
    → Encodable entries
    → parse_attrs_loop f (attrs_bytes entries) attrs ≡ some (inserted entries attrs)
loop-attrs_bytes zero entries attrs h e = absurd (omega (arith, h))
loop-attrs_bytes (suc f) [] attrs h e = parse_nothing f attrs
loop-attrs_bytes (suc f) ((t, v) ∷ entries) attrs h e =
    attr_round f t v (attrs_bytes entries) attrs e.0.0 e.0.1
    ∙ loop-attrs_bytes f entries (insert t v attrs) (omega (arith, h)) e.1

count-le-length : (entries : List (ℕ × Bytes)) → length entries ≤ length (attrs_bytes entries)
count-le-length [] = omega arith
count-le-length ((t, v) ∷ entries) =
    omega (arith, count-le-length entries, length-append (attr_bytes t v) (attrs_bytes entries))

-- If types and lengths have 16 bits, then reading back attributes that were appended one after the
-- other gives the map that has taken them in, in that order.
pub parse_attrs-attrs_bytes :
    (entries : List (ℕ × Bytes))
    → Encodable entries
    → parse_attrs (attrs_bytes entries) ≡ inserted entries []
unfolding parse_attrs
parse_attrs-attrs_bytes entries e = ap ended (
    loop-attrs_bytes (suc (length (attrs_bytes entries))) entries []
      (omega (arith, count-le-length entries)) e)

-- For any bytes, whatever lengths stand in them, the loop comes to its end: with one round more than
-- there are bytes, or more rounds, it does not run out of rounds.
pub parse_attrs_loop_ends :
    (f : ℕ) (bytes : Bytes) (attrs : Attrs)
    → length bytes < f
    → (result : Attrs) × (parse_attrs_loop f bytes attrs ≡ some result)
unfolding parse_attrs_loop
parse_attrs_loop_ends zero bytes attrs h = absurd (omega (arith, h))
parse_attrs_loop_ends (suc f) bytes attrs h =
    let l : ℕ = uint16 bytes in
    let next : Attrs = insert (uint16 (drop 2 bytes)) (take (l - 4) (drop 4 bytes)) attrs in
    elim (Bool-cases (ltb (length bytes) 4)) [
      | inl e ↦ (attrs, rw e refl)
      | inr e ↦ elim (Bool-cases (ltb l 4 || ltb (length bytes) l)) [
        | inl e' ↦ (attrs, rw (e, e') refl)
        | inr e' ↦ elim (Bool-cases (ltb (length bytes) (rta_align l))) [
          | inl e'' ↦ (attrs, rw (e, e', e'') refl)
          | inr e'' ↦
              let four : 4 ≤ l = ground (arith, e') in
              let (result, done) = parse_attrs_loop_ends f (drop (rta_align l) bytes) next (
                omega (
                  arith,
                  length-drop (rta_align l) bytes,
                  le-rta_align l,
                  four,
                  h,
                  ltb→ge _ _ e,
                )) in
              (result, rw (e, e', e'') done)
        ]
      ]
    ]
