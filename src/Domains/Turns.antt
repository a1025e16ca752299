-- ===== src/Domains/Turns.antt =====
-- Threads that take domains from both ends, in any order of their turns.
use givemail.Base.{ℕ, suc, ◌≡◌, false, Option, none, some, List, [], ◌∷◌, ◌++◌}
use givemail.Base.Text.{is_empty}
use givemail.Domains.{Domain, DomainsMap, get_top_domain, get_bottom_domain}

pub data Turn : Type 0 where
  top : Turn
  bottom : Turn

-- What the turns give: the domains taken from the top, first one first, those taken from the
-- bottom, last one first, and the map they leave.
pub record Given : Type 0 where
  pub tops : List Domain
  pub bottoms : List Domain
  pub left : DomainsMap

abbrev add_top : Option Domain → Given → Given
add_top none g = g
add_top (some d) g = record g { tops = d ∷ g.tops }

abbrev add_bottom : Option Domain → Given → Given
add_bottom none g = g
add_bottom (some d) g = record g { bottoms = g.bottoms ++ d ∷ [] }

unfoldable pub take_turns : List Turn → DomainsMap → Given
take_turns [] m = record { tops = []; bottoms = []; left = m }
take_turns (top ∷ turns) m = let r = get_top_domain m in add_top r.0 (take_turns turns r.1)
take_turns (bottom ∷ turns) m = let r = get_bottom_domain m in add_bottom r.0 (take_turns turns r.1)

-- An entry of the map, as listDomains inserts it.
abbrev pub IsNamed : Domain → Type 0
IsNamed d = is_empty d.name ≡ false

abbrev pub top_turns : List Turn → ℕ
top_turns [] = 0
top_turns (top ∷ turns) = suc (top_turns turns)
top_turns (bottom ∷ turns) = top_turns turns
