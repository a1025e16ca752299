-- ===== src/Updater.antt =====
-- src/StatusUpdater.cc and src/DBStatusUpdater.cc: the statuses of a batch of recipients, and the
-- loop of sendToDomain in src/givemail.cc that records the recipients of a batch that failed. The
-- database is its answer to each statement, the printing of a number that of the stream library.
-- Codes are natural numbers; log output is left out.
mod Failures
pub mod Tests
use givemail.Base.{
  ℕ, ◌+◌, ◌%◌, ◌^◌, Bool, true, false, ◌&&◌, ◌||◌, Option, none, some, List, [], ◌∷◌, ◌++◌, ◌==◌,
  if◌then◌else◌, take,
}
use givemail.Base.Text.{Text, codes, str_eq}

-- The members of both updaters; `status_file` has what was written to it, if it is open, and
-- `statements` what was sent to the database, the newest first.
pub record Updater : Type 0 where
  pub status : List (Text × ℕ)
  pub status_file : Option Text
  pub recipients_count : ℕ
  pub statements : List Text

-- The database and what is known of the campaign.
pub record Database : Type 0 where
  pub is_open : Bool
  pub escape : Text → Text
  pub execute : Text → Bool
  pub print : ℕ → Text
  pub campaign_id : Text

-- m_status.find
unfoldable pub find_status : Text → List (Text × ℕ) → Option ℕ
find_status key [] = none
find_status key ((k, code) ∷ rest) =
    let later = find_status key rest in if str_eq k key then some code else later

-- m_status.insert, which keeps what is there
unfoldable pub insert_status : Text → ℕ → List (Text × ℕ) → List (Text × ℕ)
insert_status key code [] = (key, code) ∷ []
insert_status key code ((k, c) ∷ rest) =
    let kept = insert_status key code rest in if str_eq k key then (k, c) ∷ rest else (k, c) ∷ kept

-- A line put behind an open file.
unfoldable pub write_line : Text → Option Text → Option Text
write_line line none = none
write_line line (some file) = some (file ++ (line ++ codes "\n"))

-- StatusUpdater::updateRecipientsStatus
unfoldable pub update_domain : Database → Text → ℕ → Updater → Updater
update_domain db domain_name code u = record u {
  status = insert_status domain_name code u.status;
  status_file = write_line (db.print code ++ (codes "," ++ domain_name)) u.status_file;
}

-- StatusUpdater::updateRecipientStatus
unfoldable pub update_recipient : Database → Text → ℕ → Text → Updater → Updater
update_recipient db email_address code msg_id u = record u {
  status = insert_status email_address code u.status;
  status_file =
      write_line (db.print code ++ (codes "," ++ (email_address ++ (codes "," ++ msg_id))))
        u.status_file;
}

-- clear
abbrev pub clear : Updater → Updater
clear u = record u { status = [] }

-- "Sent" or "Failed"
unfoldable pub status_value : ℕ → Option Text → Text
status_value code none = if (code == 250) || (code == 0) then codes "Sent" else codes "Failed"
status_value code (some text) = if code == 250 then codes "Sent" else codes "Failed"

-- The code and the text
unfoldable pub status_text : Database → ℕ → Option Text → Text
status_text db code none = db.print code
status_text db code (some text) = db.print code ++ (codes " " ++ (text ++ codes "\n"))

-- The statement, up to its condition.
unfoldable pub update_sql : Database → ℕ → Option Text → Text
update_sql db code text =
    codes "UPDATE evaa_emailrecipient SET status='"
    ++ (status_value code text
        ++ (codes "', statuscode='"
            ++ (take 255 (db.escape (status_text db code text))
                ++ codes "', timesent=UNIX_TIMESTAMP(), numattempts=numattempts+1")))

-- DBStatusUpdater::updateRecipientsStatus
unfoldable pub db_update_domain : Database → Text → ℕ → Option Text → Updater → Updater
db_update_domain db domain_name code text u =
    let sql =
      update_sql db code text
      ++ (codes " WHERE domainname='"
          ++ (domain_name
              ++ (codes "' AND evaa_emailcampaignid=" ++ (db.campaign_id ++ codes ";")))) in
    if db.is_open
    then update_domain db domain_name code (record u { statements = sql ∷ u.statements })
    else u

-- DBStatusUpdater::updateRecipientStatus
unfoldable pub db_update_recipient : Database → Text → ℕ → Option Text → Text → Updater → Updater
db_update_recipient db email_address code text msg_id u =
    let sql =
      update_sql db code text
      ++ (codes " WHERE emailaddress='"
          ++ (email_address
              ++ (codes "' AND evaa_emailcampaignid=" ++ (db.campaign_id ++ codes ";")))) in
    let counted =
      if db.execute sql then (u.recipients_count + 1) % 2 ^ 32 else u.recipients_count in
    if db.is_open
    then update_recipient db email_address code msg_id
        (record u { statements = sql ∷ u.statements; recipients_count = counted })
    else u

-- One round of the loop over a batch that failed.
unfoldable pub record_failure : Database → Text → Text → Updater → Updater
record_failure db err_msg email_address u = elim (find_status email_address u.status) [
  | none ↦ db_update_recipient db email_address 0 (some err_msg) [] u
  | some code ↦ u
]

-- The loop over a batch that failed. The status is that of the updater, by reference.
unfoldable pub record_failures : Database → Text → List Text → Updater → Updater
record_failures db err_msg [] u = u
record_failures db err_msg (a ∷ addresses) u =
    record_failures db err_msg addresses (record_failure db err_msg a u)
