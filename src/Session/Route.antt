-- ===== src/Session/Route.antt =====
-- The choice of the server: isIPAddress, initializeAddresses, initializeTopQueue,
-- queueNextPriorityRecords, setServer, discardCurrentServer, isDiscarded and cycleServers of
-- src/SMTPSession.cc. A method that returns a bool gives it beside the new state.
use givemail.Base.{
  ℕ, zero, suc, Bool, true, false, not, ◌&&◌, ◌||◌, Option, none, some, List, [], ◌∷◌, ◌++◌, ltb,
  leb, ◌==◌, if◌then◌else◌, last, filter, any, null, reverse,
}
use givemail.Base.Text.{Text, str_eq, is_empty}
use givemail.Resolver.{Resource, ResourceRecord, new_resource, has_expired}
use givemail.Session.{time_read, addresses_queried, server_set, Context, Session, note}

-- isIPAddress
unfoldable pub is_ip_address : Text → Bool
is_ip_address [] = true
is_ip_address (c ∷ s) = if (leb b'0' c && leb c b'9') || (c == b'.') then is_ip_address s else false

-- The priority that is not set.
abbrev pub unset : ℕ
unset = 1000000

-- isDiscarded
unfoldable pub is_discarded : Resource → Session → Bool
is_discarded r s = any (str_eq r.host_name) s.discarded

-- initializeAddresses, from the records that were found.
abbrev pub fill_addresses :
    ResourceRecord → List Resource → Session → Bool × ResourceRecord × Session
fill_addresses mx found s =
    let kept = filter (λ a. not (is_discarded a s)) found in
    (not (null kept), record mx { addresses = kept }, s)

-- initializeAddresses
unfoldable pub initialize_addresses :
    Context → ResourceRecord → Session → Bool × ResourceRecord × Session
initialize_addresses x mx s =
    let r = mx.resource in
    let own = new_resource r.domain_name 10 r.host_name 36000 (x.outside.time s.log) in
    let asked = note (addresses_queried r.host_name) s in
    if is_ip_address r.host_name
    then fill_addresses mx (own ∷ []) (note time_read s)
    else elim (x.outside.query_a_records s.log r.host_name) [
      | none ↦ (false, mx, asked)
      | some found ↦ fill_addresses mx found asked
    ]

abbrev pub push_server : ResourceRecord → Session → Session
push_server mx s = record s { top_queue = s.top_queue ++ mx ∷ [] }

-- The loop of initializeTopQueue, over the records in the order it takes them.
unfoldable pub top_loop : Context → ℕ → List Resource → Session → Session
top_loop x now [] s = s
top_loop x now (r ∷ rs) s =
    let set : Session =
      if (s.top_priority == unset) && ltb r.priority s.top_priority
      then record s { top_priority = r.priority }
      else s in
    let tried = initialize_addresses x (record { resource = r; addresses = [] }) set in
    let next : Session =
      if has_expired r now
      then set
      else (if tried.0 then push_server tried.1 tried.2 else tried.2) in
    let rest = top_loop x now rs next in if ltb set.top_priority r.priority then set else rest

-- initializeTopQueue
unfoldable pub initialize_top_queue : Context → Session → Bool × Session
initialize_top_queue x s =
    let name = x.limits.domain_name in
    let read = note time_read s in
    let own = new_resource name 10 name 36000 (x.outside.time s.log) in
    let address = new_resource name 10 name 36000 (x.outside.time read.log) in
    let mx : ResourceRecord = record { resource = own; addresses = address ∷ [] } in
    let filled = top_loop x (x.outside.time s.log) (reverse x.limits.mx_records) read in
    if is_ip_address name
    then (true, push_server mx (note time_read read))
    else (not (null filled.top_queue), filled)

-- The loop of queueNextPriorityRecords: the current priority and the queue.
unfoldable pub next_loop : ℕ → ℕ → List Resource → ℕ → List ResourceRecord → ℕ × List ResourceRecord
next_loop now top [] current queue = (current, queue)
next_loop now top (r ∷ rs) current queue =
    let current' = if (current == unset) && ltb r.priority current then r.priority else current in
    let mx : ResourceRecord = record { resource = r; addresses = [] } in
    let skipped = next_loop now top rs current queue in
    let pushed =
      next_loop now top rs current' (if has_expired r now then queue else queue ++ mx ∷ []) in
    if leb r.priority top
    then skipped
    else (if ltb r.priority current' then (current', queue) else pushed)

-- queueNextPriorityRecords
unfoldable pub queue_next_priority_records : Context → Session → Bool × Session
queue_next_priority_records x s =
    let after =
      next_loop (x.outside.time s.log) s.top_priority (reverse x.limits.mx_records) unset
        s.top_queue in
    (not (null after.1), record (note time_read s) { top_priority = after.0; top_queue = after.1 })

-- The port of setServer.
unfoldable pub server_port : Context → Resource → Resource → ℕ
server_port x own front =
    let relay = x.options.mail_relay_address in
    if str_eq relay own.domain_name
      || (str_eq relay front.domain_name || str_eq relay front.host_name)
    then x.options.mail_relay_port
    else (if x.limits.use_submission_port then 587 else 25)

-- Whether setServer tries an address.
unfoldable pub is_usable : Resource → ℕ → Session → Bool
is_usable front now s = not (is_discarded front s) && not (has_expired front now)

-- The loop of setServer, over the queue of addresses: the queue it leaves, and the state.
unfoldable pub address_loop :
    Context → ℕ → ResourceRecord → List Resource → Session → Bool × List Resource × Session
address_loop x now mx [] s = (false, [], s)
address_loop x now mx (front ∷ rest) s =
    let port = server_port x mx.resource front in
    let done = x.outside.set_server s.log front.host_name port in
    let usable = is_usable front now s in
    let s' : Session = if usable then note (server_set front.host_name port done) s else s in
    let next = address_loop x now mx rest s' in
    if usable && done then (true, rest ++ front ∷ [], s') else next

-- setServer, from the queue of addresses on.
abbrev pub try_addresses : Context → ResourceRecord → Session → Bool × ResourceRecord × Session
try_addresses x mx s =
    let tried = address_loop x (x.outside.time s.log) mx mx.addresses (note time_read s) in
    (tried.0, record mx { addresses = tried.1 }, tried.2)

-- setServer
unfoldable pub set_server : Context → ResourceRecord → Session → Bool × ResourceRecord × Session
set_server x mx s =
    let filled = initialize_addresses x mx s in
    if not x.has_provider || is_empty mx.resource.host_name
    then (false, mx, s)
    else (if null mx.addresses
        then (if filled.0 then try_addresses x filled.1 filled.2 else filled)
        else try_addresses x mx s)

-- discardCurrentServer; the set of discarded names is a list.
unfoldable pub discard_current_server : Session → Session
discard_current_server s = elim (last s.top_queue) [
  | none ↦ s
  | some mx ↦ elim (last mx.addresses) [
    | none ↦ s
    | some a ↦ record s { discarded = a.host_name ∷ s.discarded }
  ]
]

-- The next priority, or all MX records again.
unfoldable pub refill : Context → Session → Bool × Session
refill x s =
    let next = queue_next_priority_records x s in
    if next.0 then next else initialize_top_queue x next.1

-- The loop of cycleServers; `none` where the fuel runs out.
unfoldable pub cycle_loop :
    ℕ → Context → ℕ → List ResourceRecord → Session → Option (Bool × Session)
cycle_loop zero x now queue s = none
cycle_loop (suc fuel) x now [] s = some (false, s)
cycle_loop (suc fuel) x now (front ∷ rest) s =
    let popped : Session = record s { top_queue = rest } in
    let tried : Bool × ResourceRecord × Session =
      if has_expired front.resource now
      then (false, front, popped)
      else set_server x front popped in
    let left = tried.2 in
    let filled : Bool × Session = if null rest then refill x left else (true, left) in
    let next = cycle_loop fuel x now filled.1.top_queue filled.1 in
    if tried.0
    then some (true, push_server tried.1 left)
    else (if filled.0 then next else some (false, filled.1))

-- cycleServers
unfoldable pub cycle_servers : ℕ → Context → Session → Option (Bool × Session)
cycle_servers fuel x s =
    let filled : Bool × Session = if null s.top_queue then refill x s else (true, s) in
    let start = filled.1 in
    if filled.0
    then cycle_loop fuel x (x.outside.time start.log) start.top_queue (note time_read start)
    else some (false, start)
