-- ===== src/Session/Progress.antt =====
-- cycleServers returns where the first server of the queue has an address that serves.
use givemail.Base.{
  ℕ, suc, ◌≡◌, refl, Bool, true, false, not, ◌&&◌, ◌||◌, some, List, [], ◌∷◌, ◌++◌, any, null,
  by_test,
}
use givemail.Base.Text.{str_eq, is_empty}
use givemail.Resolver.{Resource, ResourceRecord, has_expired}
use givemail.Session.{Event, time_read, Context, Session, note}
use givemail.Session.Route.{
  is_discarded, server_port, is_usable, address_loop, set_server, cycle_loop, cycle_servers,
  push_server,
}
use givemail.Session.Safety.{done, after_try, after_try-Follows}

some_left : (a : Resource) (before after : List Resource) → null (before ++ a ∷ after) ≡ false
some_left a [] after = refl
some_left a (b ∷ before) after = refl

module _ (x : Context) (mx : ResourceRecord) (before after : List Resource) (a : Resource)
    (alive : (log : List Event) → has_expired a (x.outside.time log) ≡ false)
    (taken : (log : List Event)
      → x.outside.set_server log a.host_name (server_port x mx.resource a) ≡ true) where
  address_loop-finds :
      (now : ℕ) (skipped : List Resource) (s : Session)
      → has_expired a now ≡ false
      → any (str_eq a.host_name) s.discarded ≡ false
      → (address_loop x now mx (skipped ++ a ∷ after) s).0 ≡ true
  unfolding address_loop is_usable is_discarded
  address_loop-finds now [] s e d = rw (d, e, taken s.log) refl
  address_loop-finds now (front ∷ skipped) s e d =
      let t = after_try x now mx front s in
      let kept = (after_try-Follows x now mx front s).discarded_kept in
      by_test (λ (r : Bool × List Resource × Session). r.0 ≡ true)
        (is_usable front now s && done x now mx front s) (λ _. refl)
        (λ _. address_loop-finds now skipped t e (rw kept d))

  module _ (provider : x.has_provider ≡ true) (named : is_empty mx.resource.host_name ≡ false)
      (addresses : mx.addresses ≡ before ++ a ∷ after) where
    set_server-finds :
        (s : Session) → any (str_eq a.host_name) s.discarded ≡ false → (set_server x mx s).0 ≡ true
    unfolding set_server address_loop
    set_server-finds s d =
        let g : (not x.has_provider || is_empty mx.resource.host_name) ≡ false =
          rw (provider, named) refl in
        let n : null mx.addresses ≡ false = rw addresses (some_left a before after) in
        let found =
          address_loop-finds (x.outside.time s.log) before (note time_read s) (alive s.log) d in
        rw (g, n, addresses) found

    -- Where there is a provider, the first record of the queue of servers is alive and has a name, and
    -- one of its addresses is alive, not discarded, and taken by the provider whenever it is set,
    -- cycleServers returns true, with fuel for a single round.
    pub cycle_servers_returns :
        (fuel : ℕ) (s : Session) (rest : List ResourceRecord)
        → ((log : List Event) → has_expired mx.resource (x.outside.time log) ≡ false)
        → any (str_eq a.host_name) s.discarded ≡ false
        → s.top_queue ≡ mx ∷ rest
        → (t : Session) × (cycle_servers (suc fuel) x s ≡ some (true, t))
    unfolding cycle_servers cycle_loop
    cycle_servers_returns fuel s rest e d q =
        let start = note time_read s in
        let popped : Session = record start { top_queue = rest } in
        let n : null s.top_queue ≡ false = rw q refl in
        let found = set_server-finds popped d in
        let tried = set_server x mx popped in
        (push_server tried.1 tried.2, rw (n, q, e s.log, found) refl)
