-- ===== src/Resolver.antt =====
-- src/Resolver.cc: ResourceRecord. `Resource` is a record without m_addresses, as the A records
-- and the records of the configuration are; a `ResourceRecord` is an MX record with the queue of its
-- A records, front first. A std::set of records is the list in the order of operator<. Priorities
-- and times are natural numbers.
use givemail.Base.{ℕ, ◌+◌, Bool, true, false, ◌&&◌, List, ltb, leb, ◌==◌, if◌then◌else◌}
use givemail.Base.Text.{Text, str_eq, str_lt}

pub record Resource : Type 0 where
  pub domain_name : Text
  pub priority : ℕ
  pub host_name : Text
  pub ttl : ℕ
  pub expiry_time : ℕ

pub record ResourceRecord : Type 0 where
  pub resource : Resource
  pub addresses : List Resource

-- The constructor from a query.
abbrev pub new_resource : Text → ℕ → Text → ℕ → ℕ → Resource
new_resource domain_name priority host_name ttl query_time = record {
  domain_name = domain_name;
  priority = priority;
  host_name = host_name;
  ttl = ttl;
  expiry_time = query_time + ttl;
}

-- ResourceRecord::operator==
abbrev pub same : Resource → Resource → Bool
same a b =
    str_eq a.domain_name b.domain_name
    && ((a.priority == b.priority) && (str_eq a.host_name b.host_name && (a.ttl == b.ttl)))

-- ResourceRecord::operator<
unfoldable pub precedes : Resource → Resource → Bool
precedes a b =
    if str_lt a.domain_name b.domain_name
    then true
    else (if str_eq a.domain_name b.domain_name
        then (if ltb b.priority a.priority
            then true
            else (if a.priority == b.priority
                then (if str_lt a.host_name b.host_name
                    then true
                    else (if str_eq a.host_name b.host_name then ltb a.ttl b.ttl else false))
                else false))
        else false)

-- ResourceRecord::hasExpired
unfoldable pub has_expired : Resource → ℕ → Bool
has_expired r now = leb r.expiry_time now
