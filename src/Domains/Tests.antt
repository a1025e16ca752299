-- ===== src/Domains/Tests.antt =====
-- Turns of the threads at a map of three domains.
use givemail.Base.{some, ◌≡◌, refl, List, [], ◌∷◌}
use givemail.Base.Text.{codes, str_eq}
use givemail.Domains.{Domain, is_at, get_top_domain, next_above, get_bottom_domain}
use givemail.Domains.Turns.{Turn, top, bottom, take_turns}

abbrev a : Domain
a = record { count = 1; name = codes "a" }

abbrev b : Domain
b = record { count = 2; name = codes "b" }

abbrev c : Domain
c = record { count = 2; name = codes "c" }

abbrev mark : Domain
mark = record { count = 0; name = [] }

abbrev turns : List Turn
turns = bottom ∷ top ∷ bottom ∷ top ∷ []

runs :
    take_turns turns (record { domains = a ∷ b ∷ c ∷ []; lowest = mark })
    ≡ record { tops = a ∷ b ∷ []; bottoms = []; left = record { domains = c ∷ []; lowest = mark } }
unfolding take_turns get_top_domain get_bottom_domain next_above is_at str_eq
runs = refl

-- With an entry at the watermark, the one in front of it is given and becomes the watermark.
marked :
    get_bottom_domain (record { domains = a ∷ b ∷ c ∷ []; lowest = c })
    ≡ (some b, record { domains = a ∷ b ∷ c ∷ []; lowest = b })
unfolding get_bottom_domain next_above is_at str_eq
marked = refl
