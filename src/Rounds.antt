-- ===== src/Rounds.antt =====
-- sendToDomain of src/givemail.cc: the rounds in which the recipients of a domain are read from the
-- database and mailed. What getRecipients answers, what other threads do to g_mustQuit and what the
-- provider tells the updater in the middle of a batch are parameters. Timers and output are left out.
mod Tally
mod Tests
use givemail.Base.{
  ℕ, zero, suc, ◌+◌, ◌*◌, ◌%◌, ◌^◌, Bool, true, false, not, ◌&&◌, ◌||◌, Option, none, some, List,
  [], ◌∷◌, map, ltb, leb, if◌then◌else◌, length,
}
use givemail.Base.Text.{Text}
use givemail.Details.{MessageDetails}
use givemail.Session.{Context, Session}
use givemail.Session.Fill.{Destination}
use givemail.Session.Generate.{Generator, generate_messages}
use givemail.Updater.{Updater, Database, record_failures, clear}

-- The locals of sendToDomain with g_mustQuit, and whether g_returnCode asks for a restart.
pub record Round : Type 0 where
  pub session : Session
  pub updater : Updater
  pub api_failures : ℕ
  pub must_quit : Bool
  pub restart : Bool

-- The arguments and the surroundings. `told` is the updater that a batch leaves, of the session behind
-- the batch and the updater before it.
pub record Mailing : Type 0 where
  pub generator : Generator
  pub context : Context
  pub details : MessageDetails
  pub database : Database
  pub is_internal_error : Option ℕ → Bool
  pub waiting : Round → ℕ → Option (List Destination)
  pub quits : Round → Bool
  pub told : Session → Updater → Updater

-- maxRecipientsCount, with getTopMXServersCount
unfoldable pub max_recipients : Context → Session → ℕ
max_recipients x s =
    let servers = x.limits.max_msgs_per_server * (length s.top_queue % 2 ^ 32) % 2 ^ 32 in
    if ltb 100 servers then servers else 100

-- SMTPSession::isInternalError
unfoldable pub is_internal : Mailing → Session → Bool
is_internal w s = if not w.context.has_provider then true else w.is_internal_error s.error_num

-- The failures of the API.
unfoldable pub count_failure : Bool → Round → Round
count_failure internal st =
    let failures = (st.api_failures + 1) % 2 ^ 32 in
    let counted : Round = record st { api_failures = failures } in
    if internal
    then (if leb 3 failures then record counted { restart = true; must_quit = true } else counted)
    else record st { api_failures = 0 }

-- A round behind the batch, of the recipients that it had.
unfoldable pub settle : Mailing → List Destination → Bool → Session → Round → Round
settle w rs ok s st =
    let u = w.told s st.updater in
    let addresses = map (λ (r : Destination). r.recipient.email_address) rs in
    let failed = record_failures w.database s.error_msg addresses u in
    let after : Round =
      if ok
      then record st { session = s; updater = u }
      else count_failure (is_internal w s) (record st { session = s; updater = failed }) in
    record after { updater = clear after.updater }

-- The condition of the loop.
unfoldable pub goes_on : Mailing → Round → Bool
goes_on w st = not (st.must_quit || w.quits st) && w.database.is_open

-- The loop, on fuel for the rounds and for each batch.
unfoldable pub send_rounds : ℕ → ℕ → Mailing → Round → Option Round
send_rounds zero fuel w st = none
send_rounds (suc n) fuel w st =
    let batch : Option Round = elim (w.waiting st (max_recipients w.context st.session)) [
      | none ↦ some st
      | some rs ↦ elim (generate_messages fuel w.generator w.context w.details rs st.session) [
        | none ↦ none
        | some (ok, s) ↦ send_rounds n fuel w (settle w rs ok s st)
      ]
    ] in
    if goes_on w st then batch else some st

-- sendToDomain, of details that are not null
unfoldable pub send_to_domain : ℕ → ℕ → Mailing → Session → Updater → Option Round
send_to_domain n fuel w s u =
    send_rounds n fuel w
      (record { session = s; updater = u; api_failures = 0; must_quit = false; restart = false })
