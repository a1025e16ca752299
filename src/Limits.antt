-- ===== src/Limits.antt =====
-- findDomainLimits of src/ConfigurationFile.cc: the limits of the domains with the mail servers that
-- were found for them. The set of limits is a list with one entry for a name, its order left out, since
-- findDomainLimits does not look at it. The name server's answers are parameters: functions of the
-- queries so far, newest first, of the name, and of the records that the answer is added to.
mod Cached
mod Tests
use givemail.Base.{
  Bool, true, false, not, Option, none, some, List, [], ◌∷◌, if◌then◌else◌, filter, null,
}
use givemail.Base.Text.{Text, str_eq}
use givemail.Resolver.{Resource}
use givemail.Session.{DomainLimits}

pub data Query : Type 0 where
  mx_queried : (name : Text) → Query
  a_queried : (name : Text) → Query

-- Resolver::queryMXRecords and queryARecords
pub record NameServer : Type 0 where
  pub query_mx_records : List Query → Text → List Resource → Bool × List Resource
  pub query_a_records : List Query → Text → List Resource → Bool × List Resource

-- m_domainLimits, and the log.
pub record Configuration : Type 0 where
  pub domain_limits : List DomainLimits
  pub log : List Query

-- m_domainLimits.find
unfoldable pub find_limits : Text → List DomainLimits → Option DomainLimits
find_limits name [] = none
find_limits name (l ∷ rest) =
    let later = find_limits name rest in if str_eq l.domain_name name then some l else later

-- m_domainLimits.erase
unfoldable pub erase_limits : Text → List DomainLimits → List DomainLimits
erase_limits name ls = filter (λ l. not (str_eq l.domain_name name)) ls

-- m_domainLimits.insert, which keeps what is there
unfoldable pub insert_limits : DomainLimits → List DomainLimits → List DomainLimits
insert_limits l [] = l ∷ []
insert_limits l (k ∷ rest) =
    let kept = insert_limits l rest in
    if str_eq k.domain_name l.domain_name then k ∷ rest else k ∷ kept

-- The queries: whether the domain can be used, its limits, and the log.
unfoldable pub query_servers :
    NameServer → Bool → DomainLimits → List Query → Bool × DomainLimits × List Query
query_servers names fallback l log =
    let name = l.domain_name in
    let (has_mx, found) = names.query_mx_records log name l.mx_records in
    let log' = mx_queried name ∷ log in
    let (has_a, found') = names.query_a_records log' name found in
    if has_mx
    then (true, record l { mx_records = found }, log')
    else if fallback
    then (has_a, record l { mx_records = found' }, a_queried name ∷ log')
    else (false, record l { mx_records = found }, log')

-- findDomainLimits
unfoldable pub find_domain_limits :
    NameServer → Bool → DomainLimits → Configuration → Bool × DomainLimits × Configuration
find_domain_limits names fallback l config =
    let cached = find_limits l.domain_name config.domain_limits in
    let given : DomainLimits = elim cached [ none ↦ l | some c ↦ c ] in
    let (usable, found, log) = query_servers names fallback given config.log in
    let left : List DomainLimits = elim cached [
      | none ↦ config.domain_limits
      | some c ↦ erase_limits c.domain_name config.domain_limits
    ] in
    if null given.mx_records
    then (usable, found, record { domain_limits = insert_limits found left; log = log })
    else (true, given, config)
