-- ===== src/Message.antt =====
-- src/SMTPMessage.cc: the headers of a message, its addresses and its parts. The templates and the
-- printing of a number, by the stream library, are parameters. Message.Headers has buildHeaders.
pub mod Headers
pub mod Dump
pub mod Keeps
pub mod Listed
pub mod Tests
use givemail.Base.{
  ℕ, ◌+◌, ◌%◌, ◌^◌, Bool, true, false, not, ◌&&◌, ◌||◌, Option, none, some, List, [], ◌∷◌, ◌++◌,
  ltb, if◌then◌else◌,
}
use givemail.Base.Text.{Text, codes, is_empty}
use givemail.Details.{MessageDetails, is_report, get_attachment_count}

-- SMTPHeader
pub record SmtpHeader : Type 0 where
  pub name : Text
  pub value : Text
  pub path : Text

-- DSNNotification
pub data DsnNotification : Type 0 where
  never : DsnNotification
  success : DsnNotification
  failure : DsnNotification

pub record Message : Type 0 where
  pub details : Option MessageDetails
  pub field_values : List (Text × Text)
  pub dsn_flags : DsnNotification
  pub msg_id : Text
  pub msg_id_suffix : Text
  pub complaints : Text
  pub plain_content : Text
  pub html_content : Text
  pub smtp_from : Text
  pub all_headers : Text
  pub headers : List SmtpHeader
  pub env_id : Text
  pub reverse_path : Text
  pub signature_header : Text
  pub sub_id : ℕ
  -- m_headersDump of a LibESMTPMessage; none of another
  pub headers_dump : Option Text

-- The templates, given an id, a text and the values, and operator<< of a number.
pub record Templates : Type 0 where
  pub substitute : Text → Text → List (Text × Text) → Text
  pub print : ℕ → Text

-- SMTPMessage::addHeader
unfoldable pub add_smtp_header : Text → Text → Text → Message → Message × Bool
add_smtp_header header value path m =
    let h : SmtpHeader = record { name = header; value = value; path = path } in
    if is_empty header
    then (m, false)
    else if is_empty value && is_empty path
    then (m, false)
    else (record m { headers = m.headers ++ h ∷ [] }, true)

-- headerStr
unfoldable pub header_str : SmtpHeader → Text
header_str h =
    let value = if is_empty h.value then [] else b' ' ∷ h.value in
    let path = if is_empty h.path then [] else codes " <" ++ (h.path ++ codes ">") in
    h.name ++ (b':' ∷ (value ++ (path ++ codes "\r\n")))

-- LibESMTPMessage::addHeader, of a message whose dump is given
unfoldable pub add_esmtp_header : Text → Text → Text → Text → Message → Message × Bool
add_esmtp_header text header value path m =
    let (added, done) = add_smtp_header header value path m in
    let h : SmtpHeader = record { name = header; value = value; path = path } in
    if not done
    then (added, false)
    else if is_empty header
    then (added, false)
    else if is_empty value && is_empty path
    then (added, false)
    else (record added { headers_dump = some (text ++ header_str h) }, true)

-- addHeader, which is virtual
unfoldable pub add_header : Text → Text → Text → Message → Message × Bool
add_header header value path m = elim m.headers_dump [
  | none ↦ add_smtp_header header value path m
  | some text ↦ add_esmtp_header text header value path m
]

-- appendHeader
unfoldable pub append_header : Text → Text → Text → Message → Message
append_header header value path m =
    let (added, done) = add_header header value path m in
    if done
    then record added {
      all_headers = if is_empty m.all_headers then header else m.all_headers ++ b':' ∷ header;
    }
    else added

-- substitute
unfoldable pub substitute : Templates → Text → Message → Text × Message
substitute t content m = (
  t.substitute (m.msg_id ++ t.print m.sub_id) content m.field_values,
  record m { sub_id = (m.sub_id + 1) % 2 ^ 32 },
)

-- appendHeader of a text that is substituted
unfoldable pub append_substituted : Templates → Text → Text → Message → Message
append_substituted t header value m =
    let (text, m') = substitute t value m in append_header header text [] m'

-- getUserAgent; `package_name` is PACKAGE_NAME.
unfoldable pub get_user_agent : Text → Message → Text
get_user_agent package_name m = elim m.details [
  | none ↦ package_name
  | some d ↦ if is_empty d.user_agent then package_name else d.user_agent
]

-- isDeliveryReceipt and isReadNotification
unfoldable pub is_delivery_receipt : Message → Bool
is_delivery_receipt m = elim m.details [
  | none ↦ false
  | some d ↦ is_report (codes "message/delivery-status") d
]

unfoldable pub is_read_notification : Message → Bool
is_read_notification m = elim m.details [
  | none ↦ false
  | some d ↦ is_report (codes "message/disposition-notification") d
]

-- requiresMixedParts, requiresAlternativeParts and requiresRelatedParts
unfoldable pub requires_mixed_parts : Message → Bool
requires_mixed_parts m = elim m.details [
  | none ↦ false
  | some d ↦ ltb 0 (get_attachment_count false d)
]

unfoldable pub requires_alternative_parts : Message → Bool
requires_alternative_parts m = not (is_empty m.plain_content) && not (is_empty m.html_content)

unfoldable pub requires_related_parts : Message → Bool
requires_related_parts m = elim m.details [
  | none ↦ false
  | some d ↦ ltb 0 (get_attachment_count true d)
]

-- getFromEmailAddress and getSenderEmailAddress
unfoldable pub get_from_email_address : Message → Text
get_from_email_address m = elim m.details [ none ↦ [] | some d ↦ d.from_email_address ]

unfoldable pub get_sender_email_address : Message → Text
get_sender_email_address m = elim m.details [ none ↦ [] | some d ↦ d.sender_email_address ]

-- SMTPMessage::setSignatureHeader
unfoldable pub set_smtp_signature_header : Text → Text → Message → Message × Bool
set_smtp_signature_header header value m =
    if is_empty header || is_empty value
    then (m, false)
    else (record m { signature_header = header ++ (codes ": " ++ value) }, true)

-- LibESMTPMessage::setSignatureHeader, of a message whose dump is given
unfoldable pub set_esmtp_signature_header : Text → Text → Text → Message → Message × Bool
set_esmtp_signature_header text header value m =
    let (signed, done) = set_smtp_signature_header header value m in
    if not done
    then (signed, false)
    else (record signed { headers_dump = some (signed.signature_header ++ text) }, true)

-- setSignatureHeader, which is virtual
unfoldable pub set_signature_header : Text → Text → Message → Message × Bool
set_signature_header header value m = elim m.headers_dump [
  | none ↦ set_smtp_signature_header header value m
  | some text ↦ set_esmtp_signature_header text header value m
]

-- setReversePath
abbrev pub set_reverse_path : Text → Message → Message
set_reverse_path path m = record m { reverse_path = path }

-- getReversePath
unfoldable pub get_reverse_path : Message → Text
get_reverse_path m =
    if not (is_empty m.reverse_path)
    then m.reverse_path
    else if not (is_empty (get_sender_email_address m))
    then get_sender_email_address m
    else get_from_email_address m
