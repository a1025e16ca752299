-- ===== src/Esmtp/Content.antt =====
-- The constructor of LibESMTPMessage, its buildHeaders and qpEncode, of src/LibESMTPProvider.cc, with
-- substituteContent of src/SMTPMessage.cc. The constructor of SMTPMessage comes before. The text of the
-- date is a parameter, none where the time cannot be told or printed.
use givemail.Base.{
  ℕ, zero, suc, ◌+◌, Option, none, some, List, [], ◌++◌, if◌then◌else◌, length, take, drop,
}
use givemail.Base.Text.{Text, codes, is_empty, find_byte}
use givemail.QuotedPrintable
use givemail.Details.{load_attachments}
use givemail.Message.{Message, Templates, append_header}
use givemail.Message.Headers.{Chance, build_headers}
use givemail.Esmtp.{crlf}
use givemail.Esmtp.Callback.{c_string}

-- The loop of qpEncode, at a position of the encoded text, on fuel: each round passes a line feed.
unfoldable pub crlf_loop : ℕ → Text → Text
crlf_loop zero s = s
crlf_loop (suc fuel) s = elim (find_byte b'\n' (c_string s)) [
  | none ↦ s
  | some line_len ↦
      let rest = drop (line_len + 1) s in
      let later = crlf_loop fuel rest in
      take line_len s ++ (crlf ++ (if is_empty rest then [] else later))
]

-- qpEncode: a content that is not encoded stays.
unfoldable pub qp_encode : Text → Text
qp_encode content = if is_empty content then content else elim (QuotedPrintable.encode content) [
  | none ↦ content
  | some encoded ↦ crlf_loop (length encoded + 1) encoded
]

-- The plain and the HTML template, given the id of their dictionary and the values.
pub record Contents : Type 0 where
  pub plain : Text → List (Text × Text) → Text
  pub html : Text → List (Text × Text) → Text

-- substituteContent
unfoldable pub substitute_content : Contents → Message → Message
substitute_content t m = elim m.details [
  | none ↦ m
  | some d ↦ record m {
    plain_content = t.plain (m.msg_id ++ codes "p") m.field_values;
    html_content = t.html (m.msg_id ++ codes "h") m.field_values;
  }
]

-- LibESMTPMessage::buildHeaders; `agent` is what getUserAgent gives where the details have none.
unfoldable pub build_esmtp_headers :
    Templates → Chance → Option Text → Text → Message → Option Message
build_esmtp_headers t r date agent m =
    let dated : Option Text → Message =
      λ o. elim o [ none ↦ m | some text ↦ append_header (codes "Date") text [] m ] in
    build_headers t r agent (elim m.details [ none ↦ m | some d ↦ dated date ])

-- The contents and the attachments, which are loaded.
unfoldable pub encode_content : Contents → (Text → Option Text) → Message → Message
encode_content t load_raw m =
    let m1 = substitute_content t m in
    elim m.details [
      | none ↦ m
      | some d ↦ record m1 {
        details = some (load_attachments load_raw d);
        plain_content = qp_encode m1.plain_content;
        html_content = qp_encode m1.html_content;
      }
    ]

-- LibESMTPMessage::LibESMTPMessage
unfoldable pub new_esmtp_message :
    Contents
    → (Text → Option Text)
    → Templates
    → Chance
    → Option Text
    → Text
    → Message
    → Option Message
new_esmtp_message contents load_raw t r date agent m =
    build_esmtp_headers t r date agent
      (encode_content contents load_raw (record m { headers_dump = some [] }))
