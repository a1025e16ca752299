-- ===== src/Recipient.antt =====
-- src/Recipient.cc: statuses, the order of recipients, and extractNameAndEmailAddress, where
-- positions are numbers below 2 ^ 64 and string::npos is the last of them.
mod Address
mod Tests
use givemail.Base.{
  ℕ, ◌+◌, ◌-◌, ◌%◌, ◌^◌, ◌<◌, Bool, true, false, not, ◌&&◌, ◌||◌, Option, none, some, List, [], ◌∷◌,
  ltb, ◌==◌, if◌then◌else◌, any,
}
use givemail.Base.Text.{Text, codes, is_empty, str_eq, str_lt, find_byte, substr}

pub record Recipient : Type 0 where
  pub id : Text
  pub name : Text
  pub status : Text
  pub email_address : Text

-- g_validStatus
abbrev pub valid_statuses : List Text
valid_statuses = codes "Waiting" ∷ codes "Sent" ∷ codes "Failed" ∷ []

-- isValidStatus
abbrev pub is_valid_status : Text → Bool
is_valid_status status = any (str_eq status) valid_statuses

-- hasValidStatus
abbrev pub has_valid_status : Recipient → Bool
has_valid_status r = is_valid_status r.status

-- operator<
abbrev pub comes_before : Recipient → Recipient → Bool
comes_before a b = if str_lt a.id b.id then true else (str_eq a.id b.id && str_lt a.name b.name)

-- What string::find returns.
abbrev pub position : Option ℕ → ℕ
position none = 2 ^ 64 - 1
position (some i) = i

-- The name and the address of extractNameAndEmailAddress.
pub name_and_address : Text → Text × Text
name_and_address details =
    let lt = position (find_byte b'<' details) in
    let gt = position (find_byte b'>' details) in
    let npos = position none in
    if not (lt == npos) || (not (gt == npos) || ltb lt gt)
    then (
      substr details 0 lt,
      substr details ((lt + 1) % 2 ^ 64) ((gt + 2 ^ 64 - lt + 2 ^ 64 - 1) % 2 ^ 64),
    )
    else (if (lt == npos) && (gt == npos) then ([], details) else ([], []))

-- extractNameAndEmailAddress
pub extract_name_and_email_address : Text → Recipient
extract_name_and_email_address details =
    let found = name_and_address details in
    let given = if is_empty details then ([], []) else found in
    record { id = given.1; name = given.0; status = codes "Ready"; email_address = given.1 }
