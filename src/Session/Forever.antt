-- ===== src/Session/Forever.antt =====
-- cycleServers does not return where servers are found again and again, and refused.
use givemail.Base.{
  ℕ, zero, suc, ◌≡◌, refl, true, false, not, ◌||◌, none, List, [], ◌∷◌, arith, null,
}
use givemail.Base.Text.{is_empty}
use givemail.Resolver.{Resource, ResourceRecord, has_expired, new_resource}
use givemail.Session.{Event, server_set, time_read, Context, Session, note}
use givemail.Session.Route.{
  is_ip_address, unset, is_discarded, next_loop, queue_next_priority_records, initialize_top_queue,
  server_port, is_usable, address_loop, set_server, refill, cycle_loop, cycle_servers,
}

-- A domain given as an IP address and without MX records, to a provider that refuses it.
module _ (x : Context) (now : ℕ) (provider : x.has_provider ≡ true)
    (ip : is_ip_address x.limits.domain_name ≡ true) (named : is_empty x.limits.domain_name ≡ false)
    (no_mx : x.limits.mx_records ≡ []) (clock : (log : List Event) → x.outside.time log ≡ now)
    (refused : (log : List Event) (port : ℕ)
      → x.outside.set_server log x.limits.domain_name port ≡ false) where
  abbrev own : Resource
  own = new_resource x.limits.domain_name 10 x.limits.domain_name 36000 now

  abbrev server : ResourceRecord
  server = record { resource = own; addresses = own ∷ [] }

  alive : has_expired own now ≡ false
  unfolding has_expired
  alive = ground arith

  try_first : (s : Session) → s.discarded ≡ [] → is_usable own now s ≡ true
  unfolding is_usable is_discarded
  try_first s d = rw (d, alive) refl

  abbrev after : Session → Session
  after s = note (server_set own.host_name (server_port x own own) false) (note time_read s)

  set_server-server :
      (s : Session)
      → s.discarded ≡ []
      → set_server x server s ≡ (false, record { resource = own; addresses = [] }, after s)
  unfolding set_server address_loop
  set_server-server s d =
      let g : (not x.has_provider || is_empty x.limits.domain_name) ≡ false =
        rw (provider, named) refl in
      let r = refused (time_read ∷ s.log) (server_port x own own) in
      rw (g, clock s.log, try_first (note time_read s) d, r) refl

  abbrev refilled : Session → Session
  refilled s = record s {
    top_priority = unset;
    top_queue = server ∷ [];
    log = time_read ∷ time_read ∷ time_read ∷ s.log;
  }

  refill-empty : (s : Session) → s.top_queue ≡ [] → refill x s ≡ (true, refilled s)
  unfolding refill queue_next_priority_records initialize_top_queue next_loop
  refill-empty s q = rw (no_mx, q, ip, clock, clock) refl

  cycle_loop_forever :
      (fuel : ℕ) (s : Session) → s.discarded ≡ [] → cycle_loop fuel x now (server ∷ []) s ≡ none
  unfolding cycle_loop
  cycle_loop_forever zero s d = refl
  cycle_loop_forever (suc fuel) s d =
      let popped : Session = record s { top_queue = [] } in
      let next = refilled (after popped) in
      rw (alive, set_server-server popped d, refill-empty (after popped) refl)
        (cycle_loop_forever fuel next d)

  -- cycleServers never returns, whatever the fuel, for a domain given as an IP address that has a
  -- name and whose limits hold no MX record, where there is a provider and it refuses that address
  -- each time, at any port: no server is queued and none is discarded, whatever the top priority is,
  -- and the clock stands still.
  pub cycle_servers_diverges :
      (fuel : ℕ) (s : Session) → s.top_queue ≡ [] → s.discarded ≡ [] → cycle_servers fuel x s ≡ none
  unfolding cycle_servers
  cycle_servers_diverges fuel s q d =
      let e : null s.top_queue ≡ true = rw q refl in
      rw (e, refill-empty s q, clock) (cycle_loop_forever fuel (note time_read (refilled s)) d)
