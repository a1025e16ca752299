-- ===== src/Domains.antt =====
-- src/DomainsMap.cc: the domains that are left, by their numbers of recipients, shared by the
-- threads that take the top ones and the one that takes the bottom ones. The multimap is the list of
-- its entries in order; a method runs under the lock, as one step.
mod Turns
mod Tests
use givemail.Base.{
  ℕ, Bool, true, false, ◌&&◌, Option, none, some, List, [], ◌∷◌, ◌++◌, ◌==◌, if◌then◌else◌, reverse,
}
use givemail.Base.Text.{Text, str_eq}

pub record Domain : Type 0 where
  pub count : ℕ
  pub name : Text

-- The map, and the low watermark.
pub record DomainsMap : Type 0 where
  pub domains : List Domain
  pub lowest : Domain

-- The test for the low watermark.
pub is_at : Domain → Domain → Bool
is_at lowest d = (lowest.count == d.count) && str_eq lowest.name d.name

-- getTopDomain
pub get_top_domain : DomainsMap → Option Domain × DomainsMap
get_top_domain m = elim m.domains [
  | [] ↦ (none, m)
  | d ∷ ds ↦ if is_at m.lowest d then (none, m) else (some d, record m { domains = ds })
]

abbrev pub first : List Domain → Option Domain
first [] = none
first (d ∷ ds) = some d

-- The loop of getBottomDomain, over the entries from the last: the one above the watermark.
pub next_above : Domain → List Domain → Option Domain
next_above lowest [] = none
next_above lowest (d ∷ ds) =
    let later = next_above lowest ds in if is_at lowest d then first ds else later

-- getBottomDomain
pub get_bottom_domain : DomainsMap → Option Domain × DomainsMap
get_bottom_domain m = elim (next_above m.lowest (reverse m.domains)) [
  | none ↦ (none, m)
  | some d ↦ (some d, record m { lowest = d })
]
