-- ===== src/Session/Recording.antt =====
-- setError and recordError of src/SMTPSession.cc, and eventCallback of src/LibESMTPProvider.cc, which
-- calls them. The numbers of libesmtp's errors are parameters. The callback is given a session.
use givemail.Base.{
  ℕ, Bool, true, false, not, ◌&&◌, Option, none, some, List, [], ◌∷◌, ◌==◌, if◌then◌else◌,
}
use givemail.Session.{
  EventNum, connect, mail_status, rcpt_status, message_data, message_sent, disconnect, weak_cipher,
  starttls_ok, invalid_peer_certificate, no_peer_certificate, wrong_peer_certificate,
  no_client_certificate, unknown, Errors, Context, Session,
}

-- recordError(true)
abbrev pub reset_error : Session → Session
reset_error s = record s { error_num = none; error_msg = [] }

-- recordError(), with setError, where there is a provider
unfoldable pub record_error : Context → Session → Session
record_error x s =
    let num = x.outside.current_error s.log in
    record s { error_num = num; error_msg = x.outside.error_message num }

-- An error number is `none` for -1.
abbrev pub is_error : ℕ → Option ℕ → Bool
is_error n none = false
is_error n (some e) = e == n

-- SMTPSession::setError
unfoldable pub set_error : Context → ℕ → Session → Session
set_error x n s =
    if x.has_provider
    then record s { error_num = some n; error_msg = x.outside.error_message (some n) }
    else s

abbrev pub is_disconnect : EventNum → Bool
is_disconnect disconnect = true
is_disconnect e = false

-- The switch: the session, and what is left in *ok.
unfoldable pub handle_event : Errors → Context → EventNum → Session → ℕ → Session × ℕ
handle_event errors x connect s ok = (set_error x errors.dropped_connection s, ok)
handle_event errors x no_peer_certificate s ok = (s, 1)
handle_event errors x wrong_peer_certificate s ok = (s, 1)
handle_event errors x no_client_certificate s ok = (s, 1)
handle_event errors x mail_status s ok = (s, ok)
handle_event errors x rcpt_status s ok = (s, ok)
handle_event errors x message_data s ok = (s, ok)
handle_event errors x message_sent s ok = (s, ok)
handle_event errors x disconnect s ok = (s, ok)
handle_event errors x weak_cipher s ok = (s, ok)
handle_event errors x starttls_ok s ok = (s, ok)
handle_event errors x invalid_peer_certificate s ok = (s, ok)
handle_event errors x unknown s ok = (s, ok)

-- eventCallback
unfoldable pub event_callback : Errors → Context → EventNum → Session → ℕ → Session × ℕ
event_callback errors x e s ok =
    handle_event errors x e
      (if is_error errors.dropped_connection s.error_num && not (is_disconnect e)
        then reset_error s
        else s)
      ok

-- The session after a series of events.
unfoldable pub run_events : Errors → Context → List EventNum → Session → Session
run_events errors x [] s = s
run_events errors x (e ∷ es) s = run_events errors x es (event_callback errors x e s 0).0
