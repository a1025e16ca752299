-- ===== src/Updater/Failures.antt =====
-- The statuses behind a batch that failed.
use givemail.Base.{
  ℕ, ◌≡◌, refl, ◌∙◌, inl, inr, Bool, true, false, ◌||◌, Option, none, some, List, [], ◌∷◌, arith,
  if◌then◌else◌, any, Bool-cases, Option-cases,
}
use givemail.Base.Text.{Text, str_eq, str_eq_iff}
use givemail.Updater.{
  Updater, Database, find_status, insert_status, update_recipient, db_update_recipient,
  record_failure, record_failures,
}

find_status-insert_status :
    (a key : Text) (code : ℕ) (m : List (Text × ℕ))
    → find_status key m ≡ none
    → find_status a (insert_status key code m)
      ≡ (if str_eq key a then some code else find_status a m)
unfolding find_status insert_status
find_status-insert_status a key code [] h = refl
find_status-insert_status a key code ((k, c) ∷ m) h = ground (
  arith,
  str_eq_iff k key,
  str_eq_iff k a,
  str_eq_iff key a,
  find_status-insert_status a key code m,
  h,
)

-- The status of a recipient behind a failure, from the one before and whether it was in the batch.
abbrev pub failed_status : Option ℕ → Bool → Option ℕ
failed_status (some code) b = some code
failed_status none true = some 0
failed_status none false = none

kept : (o : Option ℕ) → o ≡ failed_status o false
kept none = refl
kept (some code) = refl

joined :
    (o : Option ℕ) (b c : Bool) → failed_status (failed_status o b) c ≡ failed_status o (b || c)
joined none true c = refl
joined none false c = refl
joined (some code) b c = refl

module _ (db : Database) (err_msg : Text) (open_db : db.is_open ≡ true) where
  updated_status :
      (b : Text) (code : ℕ) (text : Option Text) (msg_id : Text) (u : Updater)
      → (db_update_recipient db b code text msg_id u).status ≡ insert_status b code u.status
  unfolding db_update_recipient update_recipient
  updated_status b code text msg_id u = rw open_db refl

  record_failure-failed_status :
      (a b : Text) (u : Updater)
      → find_status a (record_failure db err_msg b u).status
        ≡ failed_status (find_status a u.status) (str_eq b a)
  unfolding record_failure
  record_failure-failed_status a b u = elim (Option-cases (find_status b u.status)) [
    | inl e ↦
        let put = find_status-insert_status a b 0 u.status e in
        rw (record_failure, e, updated_status b 0 (some err_msg) [] u, put)
          (elim (Bool-cases (str_eq b a)) [
            | inl h ↦
                let same : find_status a u.status ≡ none = rw ((str_eq_iff b a).0 h) at e in
                rw (h, same) refl
            | inr h ↦ rw h (kept (find_status a u.status))
          ])
    | inr (code, e) ↦
        rw (record_failure, e)
          (elim (Bool-cases (str_eq b a)) [
            | inl h ↦
                let same : find_status a u.status ≡ some code = rw ((str_eq_iff b a).0 h) at e in
                rw (h, same) refl
            | inr h ↦ rw h (kept (find_status a u.status))
          ])
  ]

  -- Behind a batch that failed, each recipient of the batch has a status: the one that it had, or 0;
  -- any other has the status that it had, or none.
  pub record_failures-failed_status :
      (a : Text) (addresses : List Text) (u : Updater)
      → find_status a (record_failures db err_msg addresses u).status
        ≡ failed_status (find_status a u.status) (any (λ b. str_eq b a) addresses)
  unfolding record_failures
  record_failures-failed_status a [] u = kept (find_status a u.status)
  record_failures-failed_status a (b ∷ addresses) u =
      record_failures-failed_status a addresses (record_failure db err_msg b u)
      ∙ rw (record_failure-failed_status a b u)
          (joined (find_status a u.status) (str_eq b a) (any (λ b. str_eq b a) addresses))
