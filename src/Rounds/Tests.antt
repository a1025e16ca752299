-- ===== src/Rounds/Tests.antt =====
-- A mailing without a provider, and the theorems at it.
use givemail.Base.{◌+◌, ◌≤◌, ◌≡◌, refl, true, false, some, List, [], leb}
use givemail.Details.Tests.{empty_details}
use givemail.Session.{Context}
use givemail.Session.Generate.{generate_messages}
use givemail.Session.Tests.{context, start}
use givemail.Session.QueueTests.{generator}
use givemail.Updater.{record_failures}
use givemail.Updater.Tests.{database, earlier}
use givemail.Rounds.{
  Round, Mailing, is_internal, count_failure, settle, goes_on, send_rounds, send_to_domain,
}
use givemail.Rounds.Tally.{
  Outcome, tally, Rounds, Ended, started, send_to_domain-restart, send_to_domain_returns,
}

abbrev unprovided : Context
unprovided = record context { has_provider = false }

abbrev mailing : Mailing
mailing = record {
  generator = generator;
  context = unprovided;
  details = empty_details;
  database = database;
  is_internal_error = λ n. false;
  waiting = λ st n. some [];
  quits = λ st. false;
  told = λ s u. u;
}

abbrev given_up : Round
given_up = record {
  session = start;
  updater = record earlier { status = [] };
  api_failures = 3;
  must_quit = true;
  restart = true;
}

gives_up : send_to_domain 4 9 mailing start earlier ≡ some given_up
unfolding send_to_domain send_rounds goes_on generate_messages settle is_internal count_failure
    record_failures
gives_up = refl

send_to_domain-restart_example :
    (os : List Outcome) × Rounds 9 mailing (started start earlier) os given_up
    × Ended mailing given_up
    × (tally 0 os ≤ 3)
    × (true ≡ leb 3 (tally 0 os))
send_to_domain-restart_example = send_to_domain-restart 4 9 mailing start earlier given_up gives_up

send_to_domain_returns_example :
    (st : Round) × (send_to_domain (4 + 2) 9 mailing start earlier ≡ some st)
send_to_domain_returns_example = send_to_domain_returns 2 9 mailing start earlier refl
