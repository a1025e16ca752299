-- ===== src/Limits/Tests.antt =====
-- Limits that are found and kept, and the theorem at them.
use givemail.Base.{◌≡◌, refl, Bool, true, false, some, [], ◌∷◌, if◌then◌else◌, null}
use givemail.Base.Text.{Text, codes, str_eq}
use givemail.Session.{DomainLimits}
use givemail.Session.Tests.{mx_1, address_2}
use givemail.Limits.{NameServer, Configuration, find_limits, find_domain_limits, query_servers}
use givemail.Limits.Cached.{find_domain_limits-keeps}

-- A name server that knows the addresses of the domain only.
abbrev names : NameServer
names = record {
  query_mx_records = λ log name records. (false, records);
  query_a_records = λ log name records. (true, address_2 ∷ []);
}

abbrev limits : DomainLimits
limits = record {
  domain_name = codes "d";
  max_msgs_per_server = 10;
  use_submission_port = false;
  mx_records = [];
}

abbrev other : DomainLimits
other = record limits { domain_name = codes "e"; mx_records = mx_1 ∷ [] }

abbrev config : Configuration
config = record { domain_limits = other ∷ []; log = [] }

abbrev kept : Configuration
kept = (find_domain_limits names true limits config).2

falls_back : (find_domain_limits names true limits config).1.mx_records ≡ address_2 ∷ []
unfolding find_domain_limits find_limits query_servers str_eq
falls_back = refl

find_domain_limits-keeps_example :
    ((n : Text)
      → find_limits n kept.domain_limits ≡ (
          if str_eq (codes "d") n
          then some (find_domain_limits names true limits config).1
          else find_limits n (other ∷ [])))
    × ((fallback : Bool) (k : DomainLimits)
        → k.domain_name ≡ codes "d"
        → null (find_domain_limits names true limits config).1.mx_records ≡ false
        → find_domain_limits names fallback k kept
          ≡ (true, (find_domain_limits names true limits config).1, kept))
find_domain_limits-keeps_example = find_domain_limits-keeps names true limits config refl
