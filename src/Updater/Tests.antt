-- ===== src/Updater/Tests.antt =====
-- Statuses that are recorded, and the theorem at concrete inputs.
use givemail.Base.{◌≡◌, refl, true, none, some, [], ◌∷◌, any}
use givemail.Base.Text.{codes, str_eq}
use givemail.Updater.{
  Updater, Database, find_status, insert_status, write_line, update_recipient, status_value,
  record_failures,
}
use givemail.Updater.Failures.{failed_status, record_failures-failed_status}

abbrev pub database : Database
database = record {
  is_open = true;
  escape = λ text. text;
  execute = λ sql. true;
  print = λ n. codes "0";
  campaign_id = codes "1";
}

-- The recipient a was sent its message.
abbrev pub earlier : Updater
earlier = record {
  status = (codes "a", 250) ∷ [];
  status_file = some [];
  recipients_count = 0;
  statements = [];
}

first_status_stays :
    (update_recipient database (codes "a") 0 [] earlier).status ≡ (codes "a", 250) ∷ []
unfolding update_recipient insert_status str_eq
first_status_stays = refl

status_is_written :
    (update_recipient database (codes "b") 0 (codes "m") earlier).status_file
    ≡ some (codes "0,b,m\n")
unfolding update_recipient write_line
status_is_written = refl

-- A code 0 without a text counts as sent, with a text as failed.
sent_runs : status_value 0 none ≡ codes "Sent"
unfolding status_value
sent_runs = refl

failed_runs : status_value 0 (some []) ≡ codes "Failed"
unfolding status_value
failed_runs = refl

record_failures-failed_status_example :
    find_status
      (codes "b")
      (record_failures database (codes "e") (codes "a" ∷ codes "b" ∷ []) earlier).status
    ≡ failed_status
        (find_status (codes "b") earlier.status)
        (any (λ b. str_eq b (codes "b")) (codes "a" ∷ codes "b" ∷ []))
record_failures-failed_status_example =
    record_failures-failed_status database (codes "e") refl (codes "b") (codes "a" ∷ codes "b" ∷ [])
      earlier
