-- ===== src/Message/Headers.antt =====
-- buildHeaders of src/SMTPMessage.cc. The random numbers of an id are those of its place, as lrand48
-- gives them, printed.
use givemail.Base.{ℕ, Bool, true, false, Option, none, some, [], if◌then◌else◌, drop}
use givemail.Base.Text.{Text, codes, is_empty, find_byte}
use givemail.Details.{MessageDetails}
use givemail.Details.Ids.{create_message_id}
use givemail.Message.{
  Message, Templates, append_header, substitute, append_substituted, get_user_agent,
}

-- What the id of a place takes from outside.
pub record Chance : Type 0 where
  pub junk : ℕ
  pub first : ℕ → Text
  pub second : ℕ → Text

abbrev pub new_id : Chance → ℕ → Text → Bool → MessageDetails → Option Text
new_id r place = create_message_id r.junk (r.first place) (r.second place)

-- The header of an id.
unfoldable pub append_id : Text → Option Text → Message → Option Message
append_id header none m = none
append_id header (some id) m = some (append_header header id [] m)

-- The Sender and Resent-From headers, and the suffix of the ids.
unfoldable pub build_sender : Templates → MessageDetails → Message → Text × Message
build_sender t d m =
    let (sender, m') = substitute t d.sender_email_address m in
    let suffix : Text = elim (find_byte b'@' sender) [
      | none ↦ m.msg_id_suffix
      | some at ↦ drop at sender
    ] in
    if is_empty d.sender_email_address then (m.msg_id_suffix, m) else (
      suffix,
      append_header (codes "Resent-From") [] sender (append_header (codes "Sender") sender [] m'),
    )

-- References and In-Reply-To
unfoldable pub build_replies : Chance → MessageDetails → Text → Message → Option Message
build_replies r d suffix m = elim (append_id (codes "References") (new_id r 1 suffix true d) m) [
  | none ↦ none
  | some m1 ↦ append_id (codes "In-Reply-To") (new_id r 2 suffix true d) m1
]

-- Resent-Message-Id, Message-Id, and those of a reply
unfoldable pub build_ids : Chance → MessageDetails → Text → Message → Option Message
build_ids r d suffix m =
    elim (append_id (codes "Resent-Message-Id") (new_id r 0 suffix false d) m) [
      | none ↦ none
      | some m1 ↦
          let m2 = append_header (codes "Message-Id") m.msg_id [] m1 in
          if d.is_reply then build_replies r d suffix m2 else some m2
    ]

-- From
unfoldable pub build_from : Templates → MessageDetails → Message → Message
build_from t d m =
    let (from, m1) = substitute t d.from_email_address m in
    let (name, m2) = substitute t d.from_name (record m1 { smtp_from = from }) in
    if is_empty d.from_email_address then m else append_header (codes "From") name from m2

-- Reply-To: the order in which its two arguments are substituted is the compiler's; here the name is
-- the first.
unfoldable pub build_reply_to : Templates → MessageDetails → Message → Message
build_reply_to t d m =
    let (name, m1) = substitute t d.reply_to_name m in
    let (address, m2) = substitute t d.reply_to_email_address m1 in
    if is_empty d.reply_to_email_address
    then m
    else append_header (codes "Reply-To") name address m2

-- MIME-Version, User-Agent or X-Mailer, and X-Complaints-To
unfoldable pub build_agent : Text → Bool → Message → Message
build_agent package_name use_x_mailer m =
    let agent = get_user_agent package_name m in
    let agent_header = if use_x_mailer then codes "X-Mailer" else codes "User-Agent" in
    let m1 = append_header (codes "MIME-Version") (codes "1.0") [] m in
    let m2 = if is_empty agent then m1 else append_header agent_header agent [] m1 in
    if is_empty m.complaints then m2 else append_header (codes "X-Complaints-To") m.complaints [] m2

-- Subject
unfoldable pub build_subject : Templates → MessageDetails → Message → Message
build_subject t d m =
    if is_empty d.subject then m else append_substituted t (codes "Subject") d.subject m

-- The headers that the details give.
unfoldable pub build_details : Templates → Chance → MessageDetails → Message → Option Message
build_details t r d m =
    let (suffix, m1) = build_sender t d (build_subject t d m) in
    elim (build_ids r d suffix m1) [
      | none ↦ none
      | some m2 ↦ some (build_reply_to t d (build_from t d m2))
    ]

-- buildHeaders
unfoldable pub build_headers : Templates → Chance → Text → Message → Option Message
build_headers t r package_name m = elim m.details [
  | none ↦ some (build_agent package_name false m)
  | some d ↦ build_details t r d (build_agent package_name d.use_x_mailer m)
]
