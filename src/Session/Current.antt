-- ===== src/Session/Current.antt =====
-- The server that a successful search leaves: its records stand at the back of their queues, and
-- discardCurrentServer discards it.
use givemail.Base.{
  ◌⊎◌, inl, inr, Bool-cases, ℕ, zero, suc, ◌≡◌, refl, ap, Bool, true, false, not, ◌&&◌, ◌||◌, some,
  List, [], ◌∷◌, ◌++◌, arith, if◌then◌else◌, any, null, All, by_test, last, last-append,
}
use givemail.Base.Text.{Text, str_eq_iff, str_eq, is_empty}
use givemail.Resolver.{Resource, ResourceRecord, has_expired}
use givemail.Session.{Event, server_set, Context, Session, note}
use givemail.Session.Route.{
  initialize_addresses, server_port, is_usable, address_loop, set_server, refill, cycle_loop,
  cycle_servers, discard_current_server,
}
use givemail.Session.Safety.{
  Spares, Follows, Returned, usable_spared, done, after_try, cycle_servers-Follows,
}

-- The relay is the domain of the MX record, or that of the address, or its host.
abbrev IsRelay : Context → Resource → Resource → Type 0
IsRelay x own front =
    let relay = x.options.mail_relay_address in
    (relay ≡ own.domain_name) ⊎ ((relay ≡ front.domain_name) ⊎ (relay ≡ front.host_name))

-- The port for an address: that of the relay, or the submission port, or that of SMTP.
pub data IsPort (x : Context) (own front : Resource) (port : ℕ) : Type 0 where
  relayed : IsRelay x own front → port ≡ x.options.mail_relay_port → IsPort x own front port
  submission :
      (IsRelay x own front → ⊥)
      → x.limits.use_submission_port ≡ true
      → port ≡ 587
      → IsPort x own front port
  plain :
      (IsRelay x own front → ⊥)
      → x.limits.use_submission_port ≡ false
      → port ≡ 25
      → IsPort x own front port

pub server_port-IsPort :
    (x : Context) (own front : Resource) → IsPort x own front (server_port x own front)
unfolding server_port
server_port-IsPort x own front =
    let relay = x.options.mail_relay_address in
    let (a, a') = str_eq_iff relay own.domain_name in
    let (b, b') = str_eq_iff relay front.domain_name in
    let (c, c') = str_eq_iff relay front.host_name in
    let named =
      str_eq relay own.domain_name
      || (str_eq relay front.domain_name || str_eq relay front.host_name) in
    by_test (IsPort x own front) named
      (λ h.
        relayed
          (elim (Bool-cases (str_eq relay own.domain_name)) [
            | inl e ↦ inl (a e)
            | inr n ↦ elim (Bool-cases (str_eq relay front.domain_name)) [
              | inl e ↦ inr (inl (b e))
              | inr m ↦ inr (inr (c (ground (arith, h, n, m))))
            ]
          ])
          refl)
      (λ h.
        let other : IsRelay x own front → ⊥ = λ r. elim r [
          | inl e ↦ let e' = a' e in absurd (ground (arith, h, e'))
          | inr (inl e) ↦ let e' = b' e in absurd (ground (arith, h, e'))
          | inr (inr e) ↦ let e' = c' e in absurd (ground (arith, h, e'))
        ] in
        elim (Bool-cases x.limits.use_submission_port) [
          | inl u ↦ submission other u (rw u refl)
          | inr u ↦ plain other u (rw u refl)
        ])

-- The provider was last set to the last address of `mx`, which it took, at the port for it, and
-- which is not discarded.
pub record IsSetTo (x : Context) (mx : ResourceRecord) (t : Session) : Type 0 where
  pub address : Resource
  pub earlier : List Event
  pub at_back : last mx.addresses ≡ some address
  pub set_last :
      t.log ≡ server_set address.host_name (server_port x mx.resource address) true ∷ earlier
  pub port_chosen : IsPort x mx.resource address (server_port x mx.resource address)
  pub spared : any (str_eq address.host_name) t.discarded ≡ false

abbrev Sets : Context → Bool × ResourceRecord × Session → Type 0
Sets x r = r.0 ≡ true → IsSetTo x r.1 r.2

abbrev with_queue :
    ResourceRecord → Bool × List Resource × Session → Bool × ResourceRecord × Session
with_queue mx r = (r.0, record mx { addresses = r.1 }, r.2)

address_loop-Sets :
    (x : Context) (now : ℕ) (mx : ResourceRecord) (queue : List Resource) (s : Session)
    → Sets x (with_queue mx (address_loop x now mx queue s))
unfolding address_loop
address_loop-Sets x now mx [] s = λ e. cc e
address_loop-Sets x now mx (front ∷ rest) s =
    let t = after_try x now mx front s in
    by_test (λ (r : Bool × List Resource × Session). Sets x (with_queue mx r))
      (is_usable front now s && done x now mx front s)
      (λ u _.
        let usable : is_usable front now s ≡ true = ground (arith, u) in
        let taken : done x now mx front s ≡ true = ground (arith, u) in
        record {
          address = front;
          earlier = s.log;
          at_back = last-append rest front;
          set_last = rw usable (
              ap (λ b. server_set front.host_name (server_port x mx.resource front) b ∷ s.log)
                taken);
          port_chosen = server_port-IsPort x mx.resource front;
          spared = rw usable (usable_spared front now s usable);
        })
      (λ _. address_loop-Sets x now mx rest t)

set_server-Sets : (x : Context) (mx : ResourceRecord) (s : Session) → Sets x (set_server x mx s)
unfolding set_server
set_server-Sets x mx s =
    let filled = initialize_addresses x mx s in
    by_test (Sets x) (not x.has_provider || is_empty mx.resource.host_name) (λ _ e. cc e)
      (λ _.
        by_test (Sets x) (null mx.addresses)
          (λ _.
            by_test (Sets x) filled.0
              (λ _. address_loop-Sets x (x.outside.time filled.2.log) filled.1 filled.1.addresses _)
              (λ n e. cc (n, e)))
          (λ _. address_loop-Sets x (x.outside.time s.log) mx mx.addresses _))

-- The record at the back of the queue of servers is the one in use.
abbrev pub HasCurrent : Context → Session → Type 0
HasCurrent x t = (mx : ResourceRecord) × (last t.top_queue ≡ some mx) × IsSetTo x mx t

abbrev Serves : Context → Bool → Session → Type 0
Serves x ok t = ok ≡ true → HasCurrent x t

cycle_loop-Serves :
    (fuel : ℕ) (x : Context) (now : ℕ) (queue : List ResourceRecord) (s : Session)
    → Returned (Serves x) (cycle_loop fuel x now queue s)
unfolding cycle_loop
cycle_loop-Serves zero x now queue s = tt
cycle_loop-Serves (suc fuel) x now [] s = λ e. cc e
cycle_loop-Serves (suc fuel) x now (front ∷ rest) s =
    let popped : Session = record s { top_queue = rest } in
    let kept : Bool × ResourceRecord × Session = (false, front, popped) in
    let expired = has_expired front.resource now in
    let tried = if expired then kept else set_server x front popped in
    let left = tried.2 in
    let going : Bool × Session = (true, left) in
    let filled = if null rest then refill x left else going in
    let h : Sets x tried =
      by_test (Sets x) expired (λ _ e. cc e) (λ _. set_server-Sets x front popped) in
    by_test (Returned (Serves x)) tried.0
      (λ b _.
        let i = h b in
        (
          tried.1,
          last-append left.top_queue tried.1,
          record {
            address = i.address;
            earlier = i.earlier;
            at_back = i.at_back;
            set_last = i.set_last;
            port_chosen = i.port_chosen;
            spared = i.spared;
          },
        ))
      (λ _.
        by_test (Returned (Serves x)) filled.0
          (λ _. cycle_loop-Serves fuel x now filled.1.top_queue filled.1) (λ _ e. cc e))

cycle_servers-Serves :
    (fuel : ℕ) (x : Context) (s : Session) → Returned (Serves x) (cycle_servers fuel x s)
unfolding cycle_servers
cycle_servers-Serves fuel x s =
    let going : Bool × Session = (true, s) in
    let filled = if null s.top_queue then refill x s else going in
    let start = filled.1 in
    by_test (Returned (Serves x)) filled.0
      (λ _. cycle_loop-Serves fuel x (x.outside.time start.log) start.top_queue (note _ start))
      (λ n e. cc e)

module _ (fuel : ℕ) (x : Context) (s t : Session) where
  -- Where cycleServers returns true, the provider was last set to the last address of the last
  -- record of the queue of servers, and took it; its port is the relay's
  -- where the relay is the domain of that record, of that address or its host, else 587 with the
  -- submission port in the limits and 25 without; and its name is not discarded.
  pub cycle_servers-IsSetTo : cycle_servers fuel x s ≡ some (true, t) → HasCurrent x t
  cycle_servers-IsSetTo e = rw e at (cycle_servers-Serves fuel x s) refl

  -- cycleServers keeps the discarded names, whatever it returns, and sets the provider to none of
  -- them: the calls it adds to the log spare them.
  pub cycle_servers-Spares :
      (ok : Bool)
      → cycle_servers fuel x s ≡ some (ok, t)
      → (t.discarded ≡ s.discarded)
        × ((added : List Event) × (t.log ≡ added ++ s.log) × All (Spares s.discarded) added)
  cycle_servers-Spares ok e =
      let f : Follows s t = rw e at (cycle_servers-Follows fuel x s) in
      (f.discarded_kept, (f.added, f.log_grows, f.spared))

pub discard-HasCurrent :
    (t : Session) (mx : ResourceRecord) (a : Resource)
    → last t.top_queue ≡ some mx
    → last mx.addresses ≡ some a
    → discard_current_server t ≡ record t { discarded = a.host_name ∷ t.discarded }
unfolding discard_current_server
discard-HasCurrent t mx a e f = rw (discard_current_server, e) (rw f refl)

-- After cycleServers returned true, having set the provider to `host` last, discardCurrentServer
-- discards that name, and a later cycleServers, whatever it returns, never sets the provider to it
-- or to any name discarded before.
pub discard-cycle_servers :
    (fuel more : ℕ) (x : Context) (s t u : Session) (host : Text) (port : ℕ) (done ok : Bool)
    (older : List Event)
    → cycle_servers fuel x s ≡ some (true, t)
    → t.log ≡ server_set host port done ∷ older
    → cycle_servers more x (discard_current_server t) ≡ some (ok, u)
    → (u.discarded ≡ host ∷ t.discarded)
      × ((added : List Event) × (u.log ≡ added ++ t.log) × All (Spares (host ∷ t.discarded)) added)
discard-cycle_servers fuel more x s t u host port taken ok older e l e' =
    let (mx, back, i) = cycle_servers-IsSetTo fuel x s t e in
    let h : i.address.host_name ≡ host = cc (l, i.set_last) in
    let d : discard_current_server t ≡ record t { discarded = host ∷ t.discarded } =
      rw h at (discard-HasCurrent t mx i.address back i.at_back) in
    cycle_servers-Spares more x (record t { discarded = host ∷ t.discarded }) u ok (rw d at e')
