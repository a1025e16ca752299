-- ===== src/Session/Tests.antt =====
-- A session for a domain with two mail servers, and the theorems at concrete inputs.
use givemail.Base.{
  ◌≡◌, refl, true, false, not, none, some, List, [], ◌∷◌, ◌++◌, arith, if◌then◌else◌, All,
}
use givemail.Base.Text.{Text, codes, str_eq, str_lt}
use givemail.Resolver.{Resource, new_resource, has_expired, precedes}
use givemail.Session.{
  Event, time_read, addresses_queried, server_set, Outside, DomainLimits, SmtpOptions, Context,
  Session,
}
use givemail.Session.Route.{
  is_ip_address, unset, is_discarded, initialize_addresses, top_loop, initialize_top_queue,
  next_loop, queue_next_priority_records, server_port, is_usable, address_loop, set_server, refill,
  cycle_loop, cycle_servers, discard_current_server,
}
use givemail.Session.Safety.{Spares}
use givemail.Session.Current.{HasCurrent, cycle_servers-IsSetTo, discard-cycle_servers}
use givemail.Session.Forever.{cycle_servers_diverges}
use givemail.Session.Priorities.{next_servers, queue_next_priority_records-next_servers}

-- The servers m, at a and b, and n, at c; the provider refuses a.
abbrev address_1 : Resource
address_1 = new_resource (codes "m") 10 (codes "a") 600 100

abbrev pub address_2 : Resource
address_2 = new_resource (codes "m") 10 (codes "b") 600 100

abbrev address_3 : Resource
address_3 = new_resource (codes "n") 10 (codes "c") 600 100

abbrev pub mx_1 : Resource
mx_1 = new_resource (codes "d") 5 (codes "m") 600 100

abbrev mx_2 : Resource
mx_2 = new_resource (codes "d") 9 (codes "n") 600 100

abbrev pub outside : Outside
outside = record {
  time = λ log. 100;
  query_a_records = λ log host.
      some (if str_eq host (codes "m") then address_1 ∷ address_2 ∷ [] else address_3 ∷ []);
  has_session = λ log. true;
  create_session = λ log. true;
  set_server = λ log host port. not (str_eq host (codes "a"));
  start_session = λ log reset. true;
  start_events = λ log reset. [];
  errors = record { dropped_connection = 3; eai_noname = 7; inval = 5 };
  current_error = λ log. none;
  error_message = λ n. [];
  is_connection_error = λ n. false;
}

abbrev options : SmtpOptions
options = record {
  mail_relay_address = [];
  mail_relay_port = 2525;
  mail_relay_user_name = [];
  mail_relay_password = [];
  mail_relay_tls = false;
}

abbrev limits_of : Text → List Resource → DomainLimits
limits_of name records = record {
  domain_name = name;
  max_msgs_per_server = 2;
  use_submission_port = true;
  mx_records = records;
}

abbrev context_of : DomainLimits → Context
context_of limits = record {
  limits = limits;
  options = options;
  has_provider = true;
  dont_send = false;
  outside = outside;
}

-- The set has the record of the higher number first.
abbrev pub context : Context
context = context_of (limits_of (codes "d") (mx_2 ∷ mx_1 ∷ []))

set_order : precedes mx_2 mx_1 ≡ true
unfolding precedes str_eq str_lt
set_order = refl

abbrev pub start : Session
start = record {
  msgs_count = 0;
  msgs_data_size = 0;
  top_priority = unset;
  top_queue = [];
  discarded = [];
  error_num = none;
  error_msg = [];
  log = [];
}

abbrev pub earlier : List Event
earlier =
    server_set (codes "a") 587 false
    ∷ time_read
    ∷ time_read
    ∷ addresses_queried (codes "m")
    ∷ time_read
    ∷ time_read
    ∷ []

abbrev pub served : Session
served = record start {
  top_priority = 5;
  top_queue = record { resource = mx_1; addresses = address_2 ∷ [] } ∷ [];
  log = server_set (codes "b") 587 true ∷ earlier;
}

pub first_cycle : cycle_servers 2 context start ≡ some (true, served)
unfolding cycle_servers cycle_loop set_server address_loop is_usable is_discarded has_expired
    server_port refill queue_next_priority_records next_loop initialize_top_queue top_loop
    initialize_addresses is_ip_address str_eq
first_cycle = refl

cycle_servers-IsSetTo_example : HasCurrent context served
cycle_servers-IsSetTo_example = cycle_servers-IsSetTo 2 context start served first_cycle

abbrev pub found : List Event
found =
    server_set (codes "c") 587 true
    ∷ time_read
    ∷ addresses_queried (codes "n")
    ∷ time_read
    ∷ time_read
    ∷ time_read
    ∷ []

-- Then b is discarded, and the other server is found.
abbrev pub ended : Session
ended = record served {
  top_priority = 9;
  top_queue = record { resource = mx_2; addresses = address_3 ∷ [] } ∷ [];
  discarded = codes "b" ∷ [];
  log = found ++ served.log;
}

second_cycle : cycle_servers 2 context (discard_current_server served) ≡ some (true, ended)
unfolding cycle_servers cycle_loop set_server address_loop is_usable is_discarded has_expired
    server_port refill queue_next_priority_records next_loop initialize_top_queue top_loop
    initialize_addresses is_ip_address str_eq discard_current_server
second_cycle = refl

discard-cycle_servers_example :
    (ended.discarded ≡ codes "b" ∷ [])
    × ((added : List Event) × (ended.log ≡ added ++ served.log)
        × All (Spares (codes "b" ∷ [])) added)
discard-cycle_servers_example =
    discard-cycle_servers 2 2 context start served ended (codes "b") 587 true true earlier
      first_cycle refl second_cycle

-- A domain that is an address, of a provider that refuses all.
abbrev refusing : Context
refusing = record context {
  limits = limits_of (codes "7.1") [];
  outside = record outside { set_server = λ log host port. false };
}

cycle_servers_diverges_example : cycle_servers 1000 refusing start ≡ none
unfolding is_ip_address
cycle_servers_diverges_example =
    cycle_servers_diverges refusing 100 refl refl refl refl (λ log. refl) (λ log port. refl) 1000
      start refl refl

queue_next_priority_records-next_servers_example :
    (queue_next_priority_records context served).1.top_queue
    ≡ served.top_queue ++ next_servers 100 5 (mx_1 ∷ mx_2 ∷ [])
queue_next_priority_records-next_servers_example =
    queue_next_priority_records-next_servers context served
      ((omega arith), ((omega arith), tt), ((omega arith), tt, tt))
