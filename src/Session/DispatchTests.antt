-- ===== src/Session/DispatchTests.antt =====
-- Batches that are sent, on a server that takes them and on one that fails first.
use givemail.Base.{
  if◌then◌else◌, ◌≡◌, refl, inr, true, false, some, List, [], ◌∷◌, ◌++◌, arith, All,
}
use givemail.Base.Text.{codes, str_eq, starts, find_text}
use givemail.Resolver.{has_expired}
use givemail.Session.{
  connect, mail_status, message_sent, disconnect, Event, session_started, status_updated,
  session_destroyed, Context, Session,
}
use givemail.Session.Route.{
  is_ip_address, is_discarded, initialize_addresses, top_loop, initialize_top_queue, next_loop,
  queue_next_priority_records, server_port, is_usable, address_loop, set_server, refill, cycle_loop,
  cycle_servers, discard_current_server,
}
use givemail.Session.Progress.{cycle_servers_returns}
use givemail.Session.Safety.{Spares}
use givemail.Session.Dispatch.{
  create_session, is_connection_failure, start_session, try_again, renew, send, dispatch_messages,
}
use givemail.Session.Recording.{
  run_events, event_callback, handle_event, set_error, is_error, record_error,
}
use givemail.Session.Current.{server_port-IsPort}
use givemail.Session.Batch.{first_try, dispatch_messages-emptied, send-discards}
use givemail.Session.Tests.{address_2, mx_1, earlier, outside, context, served, found, ended}

abbrev batch : Session
batch = record served { msgs_count = 2; msgs_data_size = 640 }

abbrev sent : Session
sent = record served {
  log = session_destroyed ∷ status_updated ∷ session_started false true ∷ served.log;
}

sends : dispatch_messages 2 context false batch ≡ some (true, sent)
unfolding dispatch_messages send renew try_again start_session run_events record_error
    is_connection_failure create_session starts find_text
sends = refl

dispatch_messages-emptied_example : (sent.msgs_count ≡ 0) × (sent.msgs_data_size ≡ 0)
dispatch_messages-emptied_example =
    dispatch_messages-emptied 2 context false batch sent true refl (omega arith) (inr (omega arith))
      sends

-- The first connection is dropped at once, and startSession returns true; the second one serves.
abbrev failing : Context
failing = record context {
  outside = record outside {
    start_events = λ log reset.
        connect ∷ (if reset then mail_status ∷ message_sent ∷ disconnect ∷ [] else disconnect ∷ []);
    is_connection_error = is_error 3;
  };
}

abbrev sent_again : Session
sent_again = record ended {
  log =
      session_destroyed ∷ status_updated ∷ session_started true true ∷ found
      ++ session_started false true ∷ served.log;
}

sends_again : send 2 failing batch ≡ some (true, sent_again)
unfolding dispatch_messages send renew try_again start_session run_events event_callback
    handle_event set_error record_error is_connection_failure create_session starts find_text
    cycle_servers cycle_loop set_server address_loop is_usable is_discarded has_expired server_port
    refill queue_next_priority_records next_loop initialize_top_queue top_loop initialize_addresses
    is_ip_address str_eq discard_current_server
sends_again = refl

failed : is_connection_failure failing (first_try failing batch) ≡ true
unfolding is_connection_failure start_session run_events event_callback handle_event set_error
failed = refl

send-discards_example :
    (sent_again.discarded ≡ codes "b" ∷ [])
    × ((added : List Event) × (sent_again.log ≡ added ++ session_started false true ∷ served.log)
        × All (Spares (codes "b" ∷ [])) added)
unfolding start_session run_events event_callback handle_event set_error record_error server_port
    str_eq
send-discards_example =
    send-discards 2 failing batch sent_again true
      (
        record { resource = mx_1; addresses = address_2 ∷ [] },
        refl,
        record {
          address = address_2;
          earlier = earlier;
          at_back = refl;
          set_last = refl;
          port_chosen = server_port-IsPort failing mx_1 address_2;
          spared = refl;
        },
      )
      failed sends_again

-- The server in use is set again.
cycle_servers_returns_example : (t : Session) × (cycle_servers 1 context served ≡ some (true, t))
unfolding has_expired str_eq
cycle_servers_returns_example =
    cycle_servers_returns context (record { resource = mx_1; addresses = address_2 ∷ [] }) [] []
      address_2 (λ log. refl) (λ log. refl) refl refl refl 0 served [] (λ log. refl) refl refl
