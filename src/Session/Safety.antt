-- ===== src/Session/Safety.antt =====
-- What the search for a server asks of the provider: the hosts that were discarded are never set.
use givemail.Base.{
  ℕ, zero, suc, ◌≡◌, refl, inl, inr, Bool, true, false, not, ◌&&◌, Option, none, some, List, [],
  ◌∷◌, ◌++◌, arith, if◌then◌else◌, any, null, All, append_assoc, All-append, by_test, reverse,
  Option-cases, ◌||◌, ltb, ◌==◌,
}
use givemail.Base.Text.{Text, str_eq, is_empty}
use givemail.Resolver.{Resource, ResourceRecord, has_expired}
use givemail.Session.{
  Event, time_read, addresses_queried, session_created, session_destroyed, authentication_enabled,
  start_tls_enabled, server_set, session_started, status_updated, message_queued, recipient_added,
  Context, Session, note,
}
use givemail.Session.Route.{
  is_ip_address, unset, is_discarded, initialize_addresses, top_loop, initialize_top_queue,
  queue_next_priority_records, server_port, is_usable, address_loop, try_addresses, set_server,
  refill, cycle_loop, cycle_servers, push_server,
}

-- An event that sets no server whose name is in `names`, and is none of a message's.
abbrev pub Spares : List Text → Event → Type 0
Spares names time_read = Unit
Spares names (addresses_queried host) = Unit
Spares names (session_created done) = Unit
Spares names session_destroyed = Unit
Spares names (authentication_enabled realm user_name password) = Unit
Spares names start_tls_enabled = Unit
Spares names (server_set host port done) = any (str_eq host) names ≡ false
Spares names (session_started reset done) = Unit
Spares names status_updated = Unit
Spares names message_queued = ⊥
Spares names (recipient_added email_address) = ⊥

-- A state that follows another by calls that spare its discarded names, which it keeps.
pub record Follows (s t : Session) : Type 0 where
  pub count_kept : t.msgs_count ≡ s.msgs_count
  pub size_kept : t.msgs_data_size ≡ s.msgs_data_size
  pub discarded_kept : t.discarded ≡ s.discarded
  pub added : List Event
  pub log_grows : t.log ≡ added ++ s.log
  pub spared : All (Spares s.discarded) added

abbrev pub stays : (s : Session) → Follows s s
stays s = record {
  count_kept = refl;
  size_kept = refl;
  discarded_kept = refl;
  added = [];
  log_grows = refl;
  spared = tt;
}

pub follows_trans : (s t u : Session) → Follows s t → Follows t u → Follows s u
follows_trans s t u f g = record {
  count_kept = cc (f.count_kept, g.count_kept);
  size_kept = cc (f.size_kept, g.size_kept);
  discarded_kept = cc (f.discarded_kept, g.discarded_kept);
  added = g.added ++ f.added;
  log_grows = cc (f.log_grows, g.log_grows, append_assoc g.added f.added s.log);
  spared = All-append _ g.added f.added (rw f.discarded_kept at (g.spared)) f.spared;
}

abbrev pub noted : (e : Event) (s : Session) → Spares s.discarded e → Follows s (note e s)
noted e s h = record {
  count_kept = refl;
  size_kept = refl;
  discarded_kept = refl;
  added = e ∷ [];
  log_grows = refl;
  spared = (h, tt);
}

pub usable_spared :
    (front : Resource) (now : ℕ) (s : Session)
    → is_usable front now s ≡ true
    → any (str_eq front.host_name) s.discarded ≡ false
unfolding is_usable is_discarded
usable_spared front now s u = ground arith

module _ (x : Context) (now : ℕ) (mx : ResourceRecord) (front : Resource) (s : Session) where
  abbrev pub done : Bool
  done = x.outside.set_server s.log front.host_name (server_port x mx.resource front)

  -- The state once an address was tried, if it is.
  abbrev pub after_try : Session
  after_try =
      if is_usable front now s
      then note (server_set front.host_name (server_port x mx.resource front) done) s
      else s

  pub after_try-Follows : Follows s after_try
  after_try-Follows =
      by_test (Follows s) (is_usable front now s)
        (λ u.
          noted (server_set front.host_name (server_port x mx.resource front) done) s
            (usable_spared front now s u))
        (λ u. stays s)

address_loop-Follows :
    (x : Context) (now : ℕ) (mx : ResourceRecord) (queue : List Resource) (s : Session)
    → Follows s (address_loop x now mx queue s).2
unfolding address_loop
address_loop-Follows x now mx [] s = stays s
address_loop-Follows x now mx (front ∷ rest) s =
    let f = after_try-Follows x now mx front s in
    let t = after_try x now mx front s in
    by_test (λ (r : Bool × List Resource × Session). Follows s r.2)
      (is_usable front now s && done x now mx front s) (λ _. f)
      (λ _. follows_trans s t _ f (address_loop-Follows x now mx rest t))

initialize_addresses-Follows :
    (x : Context) (mx : ResourceRecord) (s : Session) → Follows s (initialize_addresses x mx s).2
unfolding initialize_addresses
initialize_addresses-Follows x mx s =
    by_test (λ (r : Bool × ResourceRecord × Session). Follows s r.2)
      (is_ip_address mx.resource.host_name) (λ _. noted time_read s tt)
      (λ _. elim (Option-cases (x.outside.query_a_records s.log mx.resource.host_name)) [
        | inl e ↦ rw e (noted (addresses_queried mx.resource.host_name) s tt)
        | inr (found, e) ↦ rw e (noted (addresses_queried mx.resource.host_name) s tt)
      ])

try_addresses-Follows :
    (x : Context) (mx : ResourceRecord) (s : Session) → Follows s (try_addresses x mx s).2
try_addresses-Follows x mx s =
    follows_trans s (note time_read s) _ (noted time_read s tt)
      (address_loop-Follows x (x.outside.time s.log) mx mx.addresses (note time_read s))

set_server-Follows :
    (x : Context) (mx : ResourceRecord) (s : Session) → Follows s (set_server x mx s).2
unfolding set_server
set_server-Follows x mx s =
    let filled = initialize_addresses x mx s in
    let f = initialize_addresses-Follows x mx s in
    let P : Bool × ResourceRecord × Session → Type 0 = λ r. Follows s r.2 in
    by_test P (not x.has_provider || is_empty mx.resource.host_name) (λ _. stays s)
      (λ _.
        by_test P (null mx.addresses)
          (λ _.
            by_test P filled.0
              (λ _. follows_trans s filled.2 _ f (try_addresses-Follows x filled.1 filled.2))
              (λ _. f))
          (λ _. try_addresses-Follows x mx s))

-- A change of other members.
abbrev pub alike :
    (s t : Session)
    → t.msgs_count ≡ s.msgs_count
    → t.msgs_data_size ≡ s.msgs_data_size
    → t.discarded ≡ s.discarded
    → t.log ≡ s.log
    → Follows s t
alike s t c z d l = record {
  count_kept = c;
  size_kept = z;
  discarded_kept = d;
  added = [];
  log_grows = l;
  spared = tt;
}

top_loop-Follows :
    (x : Context) (now : ℕ) (rs : List Resource) (s : Session) → Follows s (top_loop x now rs s)
unfolding top_loop
top_loop-Follows x now [] s = stays s
top_loop-Follows x now (r ∷ rs) s =
    let p = (s.top_priority == unset) && ltb r.priority s.top_priority in
    let chosen : Session = record s { top_priority = r.priority } in
    let u : Session = if p then chosen else s in
    let f : Follows s u =
      by_test (Follows s) p (λ _. alike s chosen refl refl refl refl) (λ _. stays s) in
    let tried = initialize_addresses x (record { resource = r; addresses = [] }) u in
    let g : Follows u tried.2 =
      initialize_addresses-Follows x (record { resource = r; addresses = [] }) u in
    let done = push_server tried.1 tried.2 in
    let next : Session = if has_expired r now then u else (if tried.0 then done else tried.2) in
    let h : Follows u next =
      by_test (Follows u) (has_expired r now) (λ _. stays u)
        (λ _.
          by_test (Follows u) tried.0
            (λ _. follows_trans u tried.2 done g (alike tried.2 done refl refl refl refl))
            (λ _. g)) in
    by_test (Follows s) (ltb u.top_priority r.priority) (λ _. f)
      (λ _. follows_trans s u _ f (follows_trans u next _ h (top_loop-Follows x now rs next)))

initialize_top_queue-Follows : (x : Context) (s : Session) → Follows s (initialize_top_queue x s).1
unfolding initialize_top_queue
initialize_top_queue-Follows x s =
    let read = note time_read s in
    let g : Follows s read = noted time_read s tt in
    by_test (λ (r : Bool × Session). Follows s r.1) (is_ip_address x.limits.domain_name)
      (λ _.
        let again = note time_read read in
        let h = follows_trans s read again g (noted time_read read tt) in
        follows_trans s again _ h (alike again _ refl refl refl refl))
      (λ _.
        follows_trans s read _ g
          (top_loop-Follows x (x.outside.time s.log) (reverse x.limits.mx_records) read))

refill-Follows : (x : Context) (s : Session) → Follows s (refill x s).1
unfolding refill queue_next_priority_records
refill-Follows x s =
    let next = queue_next_priority_records x s in
    let n = next.1 in
    let f : Follows s n =
      follows_trans s (note time_read s) n (noted time_read s tt)
        (alike (note time_read s) n refl refl refl refl) in
    by_test (λ (r : Bool × Session). Follows s r.1) next.0 (λ _. f)
      (λ _. follows_trans s n _ f (initialize_top_queue-Follows x n))

-- A property of the result of a loop that may run out of fuel.
abbrev pub Returned : (Bool → Session → Type 0) → Option (Bool × Session) → Type 0
Returned P none = Unit
Returned P (some r) = P r.0 r.1

pub later :
    (s u : Session) (o : Option (Bool × Session))
    → Follows s u
    → Returned (λ _ t. Follows u t) o
    → Returned (λ _ t. Follows s t) o
later s u none f h = tt
later s u (some (ok, t)) f h = follows_trans s u t f h

cycle_loop-Follows :
    (fuel : ℕ) (x : Context) (now : ℕ) (queue : List ResourceRecord) (s : Session)
    → Returned (λ _ t. Follows s t) (cycle_loop fuel x now queue s)
unfolding cycle_loop
cycle_loop-Follows zero x now queue s = tt
cycle_loop-Follows (suc fuel) x now [] s = stays s
cycle_loop-Follows (suc fuel) x now (front ∷ rest) s =
    let popped : Session = record s { top_queue = rest } in
    let kept : Bool × ResourceRecord × Session = (false, front, popped) in
    let expired = has_expired front.resource now in
    let tried = if expired then kept else set_server x front popped in
    let left = tried.2 in
    let f : Follows s left =
      by_test (λ (r : Bool × ResourceRecord × Session). Follows s r.2) expired
        (λ _. alike s popped refl refl refl refl)
        (λ _.
          follows_trans s popped _ (alike s popped refl refl refl refl)
            (set_server-Follows x front popped)) in
    let going : Bool × Session = (true, left) in
    let filled = if null rest then refill x left else going in
    let g : Follows s filled.1 =
      by_test (λ (r : Bool × Session). Follows s r.1) (null rest)
        (λ _. follows_trans s left _ f (refill-Follows x left)) (λ _. f) in
    let P : Option (Bool × Session) → Type 0 = Returned (λ _ t. Follows s t) in
    let done = push_server tried.1 left in
    by_test P tried.0 (λ _. follows_trans s left done f (alike left done refl refl refl refl))
      (λ _.
        by_test P filled.0
          (λ _. later s filled.1 _ g (cycle_loop-Follows fuel x now filled.1.top_queue filled.1))
          (λ _. g))

pub cycle_servers-Follows :
    (fuel : ℕ) (x : Context) (s : Session) → Returned (λ _ t. Follows s t) (cycle_servers fuel x s)
unfolding cycle_servers
cycle_servers-Follows fuel x s =
    let going : Bool × Session = (true, s) in
    let filled = if null s.top_queue then refill x s else going in
    let start = filled.1 in
    let f : Follows s start =
      by_test (λ (r : Bool × Session). Follows s r.1) (null s.top_queue) (λ _. refill-Follows x s)
        (λ _. stays s) in
    let g = follows_trans s start (note time_read start) f (noted time_read start tt) in
    by_test (Returned (λ _ t. Follows s t)) filled.0
      (λ _. later s (note time_read start) _ g (
        cycle_loop-Follows fuel x (x.outside.time start.log) start.top_queue
          (note time_read start)))
      (λ _. f)
