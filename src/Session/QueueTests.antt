-- ===== src/Session/QueueTests.antt =====
-- Messages that are queued, signed and sent, or not, and the theorems at concrete inputs.
use givemail.Base.{arith, Bool, length, ◌+◌, ◌≡◌, ◌≢◌, refl, true, false, some, List, [], ◌∷◌, ◌++◌}
use givemail.Base.Text.{Text, codes, str_eq, starts, find_text, find_byte}
use givemail.Details.{is_recipient_personalized, check_fields, content_of}
use givemail.Details.Tests.{empty_details}
use givemail.Message.{Message, add_header, add_smtp_header, substitute}
use givemail.Message.Tests.{new_message, templates}
use givemail.Session.{
  message_queued, recipient_added, session_started, session_destroyed, status_updated, Session,
}
use givemail.Session.Dispatch.{
  create_session, is_connection_failure, start_session, try_again, renew, send, dispatch_messages,
}
use givemail.Session.Recording.{run_events, record_error}
use givemail.Session.Fill.{
  RecipientType, as_to, as_cc, Destination, Mailer, append_value_and_path, join_address,
  name_recipient, notify, set_specific_headers, find_return_path, strip_equals, unsubscribe_link_of,
  link_unsubscription, take_recipient, fill_batch,
}
use givemail.Session.Queue.{
  add_substituted, set_headers, sign_message, start_batch, end_round, queue_loop, queue_message,
}
use givemail.Session.Generate.{Generator, dsn_of, queue_common, force_send, generate_messages}
use givemail.Session.Mailed.{mailed, newest_first}
use givemail.Session.Queued.{queue_message_mails}
use givemail.Session.Delivered.{generate_messages_delivers}
use givemail.Session.Returns.{queue_message_returns}
use givemail.Session.Unsent.{generate_messages_refuses}
use givemail.Session.Tests.{context, served}

abbrev someone : Text → RecipientType → Destination
someone address kind = record {
  recipient = record {
    id = address;
    name = codes "N";
    status = codes "Waiting";
    email_address = address;
  };
  return_path_email_address = [];
  custom_fields = [];
  recipient_type = kind;
}

-- Every message has the signature s.
abbrev pub mailer : Mailer
mailer = record {
  hide_recipients = false;
  verify_signatures = false;
  can_sign = true;
  sign = λ full m. some (codes "s");
  verify = λ full m. true;
  message_data = λ m. codes "data";
  templates = templates;
  junk = 7;
}

abbrev pub generator : Generator
generator = record {
  mailer = mailer;
  has_field = λ text field. false;
  new_message = λ n fields d dsn. new_message;
  dsn_notify = [];
}

named_runs : append_value_and_path (codes "N") (codes "a@b") ≡ codes "N <a@b>"
unfolding append_value_and_path
named_runs = refl

strip_runs : strip_equals 6 (codes "ab==c=") (some 2) ≡ codes "abc"
unfolding strip_equals find_byte
strip_runs = refl

abbrev two : List Destination
two = someone (codes "a") as_to ∷ someone (codes "b") as_cc ∷ []

abbrev one : List Destination
one = someone (codes "a") as_to ∷ []

-- One message is sent at the end.
abbrev sent : Session
sent = record served {
  log =
      session_destroyed
      ∷ status_updated
      ∷ session_started false true
      ∷ recipient_added (codes "a")
      ∷ message_queued
      ∷ served.log;
}

sends : generate_messages 9 generator context empty_details one served ≡ some (true, sent)
unfolding generate_messages is_recipient_personalized check_fields content_of queue_common dsn_of
    str_eq queue_message create_session queue_loop start_batch fill_batch take_recipient
    set_specific_headers name_recipient join_address append_value_and_path notify find_return_path
    link_unsubscription unsubscribe_link_of set_headers add_substituted substitute add_header
    add_smtp_header sign_message end_round dispatch_messages send renew try_again start_session
    run_events record_error is_connection_failure starts find_text force_send
sends = refl

generate_messages_delivers_example :
    (mailed sent.log ≡ newest_first one (mailed served.log)) × (sent.msgs_count ≡ 0)
generate_messages_delivers_example =
    generate_messages_delivers 9 generator context empty_details (someone (codes "a") as_to) []
      served sent sends

-- A batch that is full is sent at once.
abbrev full : Session
full = record served {
  log =
      session_destroyed
      ∷ status_updated
      ∷ session_started false true
      ∷ recipient_added (codes "b")
      ∷ recipient_added (codes "a")
      ∷ message_queued
      ∷ served.log;
}

-- The last batch is full: all is sent, and the result is false all the same.
sends_full : generate_messages 9 generator context empty_details two served ≡ some (false, full)
unfolding generate_messages is_recipient_personalized check_fields content_of queue_common dsn_of
    str_eq queue_message create_session queue_loop start_batch fill_batch take_recipient
    set_specific_headers name_recipient join_address append_value_and_path notify find_return_path
    link_unsubscription unsubscribe_link_of set_headers add_substituted substitute add_header
    add_smtp_header sign_message end_round dispatch_messages send renew try_again start_session
    run_events record_error is_connection_failure starts find_text force_send
sends_full = refl

abbrev named : Message
named = record new_message {
  headers =
      record { name = codes "To"; value = codes "N <a>"; path = [] }
      ∷ record { name = codes "CC"; value = codes "N <b>"; path = [] }
      ∷ [];
  signature_header = codes "s";
  sub_id = 2;
}

queues : queue_message 9 mailer context new_message two false served ≡ some (true, named, full)
unfolding queue_message create_session queue_loop start_batch fill_batch take_recipient
    set_specific_headers name_recipient join_address append_value_and_path notify find_return_path
    link_unsubscription unsubscribe_link_of set_headers add_substituted substitute add_header
    add_smtp_header sign_message end_round dispatch_messages send renew try_again start_session
    run_events record_error is_connection_failure starts find_text
queues = refl

queue_message_mails_example :
    (taken : List Destination) × (rest : List Destination) × (two ≡ taken ++ rest)
    × (mailed full.log ≡ newest_first taken (mailed served.log))
    × (true ≡ true → rest ≡ [])
queue_message_mails_example =
    queue_message_mails 9 mailer context new_message two false served full named true queues

-- Without signatures the message stays where it is.
abbrev unsigned : Generator
unsigned = record generator { mailer = record mailer { can_sign = false } }

abbrev left : Session
left = record served {
  msgs_count = 1;
  log = recipient_added (codes "a") ∷ message_queued ∷ served.log;
}

sends_nothing : generate_messages 9 unsigned context empty_details one served ≡ some (false, left)
unfolding generate_messages is_recipient_personalized check_fields content_of queue_common dsn_of
    str_eq queue_message create_session queue_loop start_batch fill_batch take_recipient
    set_specific_headers name_recipient join_address append_value_and_path notify find_return_path
    link_unsubscription unsubscribe_link_of set_headers add_substituted substitute add_header
    add_smtp_header sign_message end_round dispatch_messages send renew try_again start_session
    run_events record_error is_connection_failure starts find_text force_send
sends_nothing = refl

generate_messages_refuses_example :
    generate_messages 9 unsigned context empty_details one served ≢ some (true, left)
generate_messages_refuses_example =
    generate_messages_refuses 9 unsigned context empty_details refl (someone (codes "a") as_to) []
      served left refl

queue_message_returns_example :
    (ok : Bool) × (m' : Message) × (t : Session) × (queue_message 9 mailer context new_message one
        false served
      ≡ some (ok, m', t))
    × (t.msgs_count ≡ served.msgs_count + length one)
    × (mailed t.log ≡ newest_first one (mailed served.log))
queue_message_returns_example =
    queue_message_returns mailer context new_message refl 7 one served refl (λ log. refl)
      (omega arith) (omega arith) (refl, tt)
