-- ===== src/Session/Dispatch.antt =====
-- createSession, destroySession and dispatchMessages of src/SMTPSession.cc. Where the search for a
-- server runs out of fuel the result is `none`.
use givemail.Base.{
  ℕ, Bool, true, false, not, ◌&&◌, ◌||◌, Option, none, some, [], ltb, ◌==◌, if◌then◌else◌,
}
use givemail.Base.Text.{codes, str_eq, is_empty, find_text}
use givemail.Session.{
  session_created, session_destroyed, authentication_enabled, start_tls_enabled, session_started,
  status_updated, Context, Session, note,
}
use givemail.Session.Recording.{reset_error, record_error, run_events}
use givemail.Session.Route.{cycle_servers, discard_current_server}

-- What goes on where the fuel sufficed.
abbrev pub and_then :
    Option (Bool × Session) → (Bool × Session → Option (Bool × Session)) → Option (Bool × Session)
and_then none f = none
and_then (some r) f = f r

-- The end of createSession, once a server is set.
unfoldable pub enable_options : Context → Session → Session
enable_options x s =
    let o = x.options in
    let is_relay = str_eq o.mail_relay_address x.limits.domain_name in
    let authentication =
      if is_relay && not (is_empty o.mail_relay_user_name)
      then authentication_enabled o.mail_relay_address o.mail_relay_user_name o.mail_relay_password
      else authentication_enabled [] [] [] in
    let s' = note authentication s in
    if is_relay && o.mail_relay_tls then note start_tls_enabled s' else s'

-- createSession
unfoldable pub create_session : ℕ → Context → Session → Option (Bool × Session)
create_session fuel x s =
    let done = x.outside.create_session s.log in
    let created = note (session_created done) s in
    let cycled =
      and_then (cycle_servers fuel x created)
        (λ r. some (if r.0 then (true, enable_options x r.1) else r)) in
    if not x.has_provider
    then some (false, s)
    else (if x.outside.has_session s.log
        then some (true, s)
        else (if done then cycled else some (false, created)))

-- Whether dispatchMessages takes the failure for one of the connection.
unfoldable pub is_connection_failure : Context → Session → Bool
is_connection_failure x s =
    x.outside.is_connection_error s.error_num
    || elim (find_text (codes "onnect") s.error_msg) [ none ↦ false | some i ↦ true ]

-- startSession, with what the provider's callback does to the error meanwhile, and what is recorded
-- of it.
unfoldable pub start_session : Context → Bool → Session → Bool × Session
start_session x reset s =
    let done = x.outside.start_session s.log reset in
    let told = run_events x.outside.errors x (x.outside.start_events s.log reset) s in
    let started = note (session_started reset done) told in
    (done, if done then started else record_error x started)

-- The second try, on another server.
unfoldable pub try_again : ℕ → Context → Session → Option (Bool × Session)
try_again fuel x s = and_then (cycle_servers fuel x (discard_current_server s)) (λ r.
    let again = start_session x true r.1 in
    some (if r.0 then (true, if again.0 then reset_error again.1 else again.1) else r))

-- The end of dispatchMessages: the session is made anew for the next batch.
unfoldable pub renew : ℕ → Context → Bool → Session → Option (Bool × Session)
renew fuel x ok s =
    let told = if ok then note status_updated s else s in
    let emptied : Session = record told { msgs_count = 0; msgs_data_size = 0 } in
    and_then (create_session fuel x (note session_destroyed emptied)) (λ r. some (ok && r.0, r.1))

-- dispatchMessages from the call of startSession on.
unfoldable pub send : ℕ → Context → Session → Option (Bool × Session)
send fuel x s =
    let first = start_session x false (reset_error s) in
    let tried : Option (Bool × Session) =
      if is_connection_failure x first.1 then try_again fuel x first.1 else some first in
    and_then tried (λ r. renew fuel x r.0 r.1)

-- dispatchMessages
unfoldable pub dispatch_messages : ℕ → Context → Bool → Session → Option (Bool × Session)
dispatch_messages fuel x force s =
    if not x.has_provider || (s.msgs_count == 0)
    then some (true, s)
    else (if ltb s.msgs_count x.limits.max_msgs_per_server && not force
        then some (true, s)
        else (if x.dont_send
            then some (true, record s { msgs_count = 0; msgs_data_size = 0 })
            else send fuel x s))
