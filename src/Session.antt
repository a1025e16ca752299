-- ===== src/Session.antt =====
-- src/SMTPSession.h, src/SMTPSession.cc and what it keeps of src/DomainLimits.h and
-- src/SMTPOptions.h: the state of a session, and the calls it makes of the clock, the name server
-- and the SMTP provider. Their answers are parameters: functions of the log of all calls so far,
-- newest first, so that an answer may change from one call to the next.
pub mod Recording
mod Route
mod Safety
mod Current
mod Forever
mod Progress
mod Priorities
pub mod Dispatch
mod Starting
mod Batch
pub mod Tests
mod DispatchTests
pub mod Fill
mod Queue
pub mod Generate
mod Mailed
mod Queued
mod Delivered
mod Unsent
mod Returns
pub mod QueueTests
use givemail.Base.{ℕ, Bool, Option, List, ◌∷◌}
use givemail.Base.Text.{Text}
use givemail.Resolver.{Resource, ResourceRecord}

pub data Event : Type 0 where
  time_read : Event
  addresses_queried : (host : Text) → Event
  session_created : (done : Bool) → Event
  session_destroyed : Event
  authentication_enabled : (realm user_name password : Text) → Event
  start_tls_enabled : Event
  server_set : (host : Text) (port : ℕ) (done : Bool) → Event
  session_started : (reset done : Bool) → Event
  status_updated : Event
  message_queued : Event
  recipient_added : (email_address : Text) → Event

-- SMTP_EV_..., what libesmtp tells eventCallback of src/LibESMTPProvider.cc.
pub data EventNum : Type 0 where
  connect : EventNum
  mail_status : EventNum
  rcpt_status : EventNum
  message_data : EventNum
  message_sent : EventNum
  disconnect : EventNum
  weak_cipher : EventNum
  starttls_ok : EventNum
  invalid_peer_certificate : EventNum
  no_peer_certificate : EventNum
  wrong_peer_certificate : EventNum
  no_client_certificate : EventNum
  unknown : EventNum

-- SMTP_ERR_DROPPED_CONNECTION, SMTP_ERR_EAI_NONAME and SMTP_ERR_INVAL
pub record Errors : Type 0 where
  pub dropped_connection : ℕ
  pub eai_noname : ℕ
  pub inval : ℕ

-- An error number is `none` for -1. `start_events` are the events that the callback is told while
-- startSession runs; a provider without the callback has none.
pub record Outside : Type 0 where
  pub time : List Event → ℕ
  pub query_a_records : List Event → Text → Option (List Resource)
  pub has_session : List Event → Bool
  pub create_session : List Event → Bool
  pub set_server : List Event → Text → ℕ → Bool
  pub start_session : List Event → Bool → Bool
  pub start_events : List Event → Bool → List EventNum
  pub errors : Errors
  pub current_error : List Event → Option ℕ
  pub error_message : Option ℕ → Text
  pub is_connection_error : Option ℕ → Bool

-- DomainLimits
pub record DomainLimits : Type 0 where
  pub domain_name : Text
  pub max_msgs_per_server : ℕ
  pub use_submission_port : Bool
  pub mx_records : List Resource

-- The part of SMTPOptions that routes.
pub record SmtpOptions : Type 0 where
  pub mail_relay_address : Text
  pub mail_relay_port : ℕ
  pub mail_relay_user_name : Text
  pub mail_relay_password : Text
  pub mail_relay_tls : Bool

-- The members of a session that do not change, and its surroundings.
pub record Context : Type 0 where
  pub limits : DomainLimits
  pub options : SmtpOptions
  pub has_provider : Bool
  pub dont_send : Bool
  pub outside : Outside

-- The members of a session that change, and the log.
pub record Session : Type 0 where
  pub msgs_count : ℕ
  pub msgs_data_size : ℕ
  pub top_priority : ℕ
  pub top_queue : List ResourceRecord
  pub discarded : List Text
  pub error_num : Option ℕ
  pub error_msg : Text
  pub log : List Event

abbrev pub note : Event → Session → Session
note e s = record s { log = e ∷ s.log }
