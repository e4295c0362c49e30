-- ===== src/Modem/Atr/Described.antt =====
-- Descriptions of the bytes that the loop of internal/pkg/modem/atr.go reads, and what it reads in them.
use sigmo.Common.{
  ℕ, ◌+◌, ◌*◌, ◌<◌, Bool, true, false, not, ◌&&◌, ◌||◌, List, [], ◌∷◌, ◌++◌, Option, none, some,
  Bytes, All, ltb, ◌==◌, nat_equal, list_equal, if◌then◌else◌,
}
use sigmo.Modem.Atr.{AtrState}

-- The interface bytes of a group.
pub record Interface : Type 0 where
  pub ta : Option ℕ
  pub tb : Option ℕ
  pub tc : Option ℕ

abbrev pub present : Option ℕ → Bool
present none = false
present (some b) = true

abbrev pub opt_byte : Option ℕ → Bytes
opt_byte none = []
opt_byte (some b) = b ∷ []

abbrev pub interface_bytes : Interface → Bytes
interface_bytes g = opt_byte g.ta ++ (opt_byte g.tb ++ opt_byte g.tc)

abbrev pub flag : Bool → ℕ → ℕ
flag true n = n
flag false n = 0

abbrev pub more : List (ℕ × Interface) → Bool
more [] = false
more (g ∷ gs) = true

-- What is announced: TA, TB, TC and a further group.
abbrev pub announced : Interface → List (ℕ × Interface) → ℕ
announced g rest =
    flag (present g.ta) 1 + (flag (present g.tb) 2 + (flag (present g.tc) 4 + flag (more rest) 8))

-- A group, and the further ones with their protocols.
unfoldable pub group_bytes : Interface → List (ℕ × Interface) → Bytes
group_bytes g [] = interface_bytes g
group_bytes g ((p, h) ∷ rest) =
    interface_bytes g ++ (announced h rest * 16 + p) ∷ group_bytes h rest

-- TB of the last group after the second with T=15 that has it.
abbrev pub noted : ℕ → ℕ → Interface → Option ℕ → Option ℕ
noted group protocol g best = elim (g.tb) [
  | none ↦ best
  | some b ↦ if (protocol == 0x0F) && ltb 2 group then some b else best
]

unfoldable pub global_tb : ℕ → ℕ → Interface → List (ℕ × Interface) → Option ℕ → Option ℕ
global_tb group protocol g [] best = noted group protocol g best
global_tb group protocol g ((p, h) ∷ rest) best =
    global_tb (group + 1) p h rest (noted group protocol g best)

abbrev pub answer : AtrState → Option ℕ
answer s = if s.found then some s.tb else none

abbrev pub Nibbles : List (ℕ × Interface) → Type 0
Nibbles = All (λ q. q.0 < 16)

-- A protocol other than T=0 asks for a checksum.
abbrev pub asks_checksum : List (ℕ × Interface) → Bool
asks_checksum [] = false
asks_checksum ((p, h) ∷ rest) = not (p == 0) || asks_checksum rest
