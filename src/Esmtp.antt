-- ===== src/Esmtp.antt =====
-- src/LibESMTPProvider.cc: how a message is handed to libesmtp, piece by piece. The members of a
-- LibESMTPMessage that change while it is read are the record `Cursor`. A null pointer that is
-- followed is a fault, the outer `none`. Base64 text is made anew for each line, where the code keeps
-- that of the first. Esmtp.Content has what the constructor makes of a message.
pub mod Blocks
pub mod Callback
pub mod Content
mod Encoded
mod Reads
mod Wrap
mod Lines
mod Parts
mod Sequence
mod Stream
pub mod Tree
mod Document
mod Unopened
mod New
mod Decoded
mod Events
mod Tests
mod NewTests
use givemail.Base.{
  ℕ, zero, suc, ◌+◌, ◌-◌, ◌%◌, ◌^◌, Bool, true, false, not, ◌&&◌, ◌||◌, Option, none, some, [], ◌∷◌,
  ◌++◌, ltb, leb, if◌then◌else◌, length, take, drop,
}
use givemail.Base.Text.{Text, codes, is_empty}
use givemail.Base64
use givemail.Base64.{◌>>=◌}
use givemail.Details.{
  Attachment, MessageDetails, get_attachment_count, get_attachment, get_file_name,
}
use givemail.Message.{
  Message, requires_mixed_parts, requires_alternative_parts, requires_related_parts,
}

-- Stage; `beyond` is any value past END.
pub data Stage : Type 0 where
  extra_headers : Stage
  start_mixed : Stage
  start_alt : Stage
  start_plain : Stage
  plain : Stage
  end_plain : Stage
  alt_transition : Stage
  start_related : Stage
  start_html : Stage
  html : Stage
  end_html : Stage
  start_inline : Stage
  inline_headers : Stage
  inline_line : Stage
  inline_line_end : Stage
  end_inline : Stage
  next_inline : Stage
  end_related : Stage
  end_alt : Stage
  start_attachment : Stage
  attachment_headers : Stage
  attachment_line : Stage
  attachment_line_end : Stage
  end_attachment : Stage
  next_attachment : Stage
  end_mixed : Stage
  end : Stage
  beyond : Stage

-- (Stage)((int)pMsg->m_stage + 1)
unfoldable pub next : Stage → Stage
next extra_headers = start_mixed
next start_mixed = start_alt
next start_alt = start_plain
next start_plain = plain
next plain = end_plain
next end_plain = alt_transition
next alt_transition = start_related
next start_related = start_html
next start_html = html
next html = end_html
next end_html = start_inline
next start_inline = inline_headers
next inline_headers = inline_line
next inline_line = inline_line_end
next inline_line_end = end_inline
next end_inline = next_inline
next next_inline = end_related
next end_related = end_alt
next end_alt = start_attachment
next start_attachment = attachment_headers
next attachment_headers = attachment_line
next attachment_line = attachment_line_end
next attachment_line_end = end_attachment
next end_attachment = next_attachment
next next_attachment = end_mixed
next end_mixed = end
next end = beyond
next beyond = beyond

pub record Cursor : Type 0 where
  pub stage : Stage
  pub current_attachment : ℕ
  pub encoded_pos : ℕ
  pub has_more_lines : Bool

abbrev pub to : Stage → Cursor → Cursor
to s c = record c { stage = s }

-- What a call gives: the piece, null at the end.
abbrev pub Step : Type 0
Step = Option (Option Text × Cursor)

abbrev pub give : Text → Cursor → Step
give text c = some (some text, c)

-- What the code takes from memory: what a new buffer holds, and what is read from the string that
-- held a text and is gone.
pub record Memory : Type 0 where
  pub junk : ℕ
  pub stale : Text → Text

abbrev pub crlf : Text
crlf = b'\r' ∷ b'\n' ∷ []

-- g_startMixed, g_startAlt, g_startAltNoMulti
abbrev pub start_mixed_text : Text
start_mixed_text =
    codes
      "Content-Type: multipart/mixed;\r\n\tboundary=\"----=_NextMixedPart\"\r\n\r\nThis is a message in multipart MIME format. Your mail client should not be displaying this. Consider upgrading your mail client to view this message correctly.\r\n\r\n------=_NextMixedPart\r\n"

abbrev pub start_alt_text : Text
start_alt_text =
    codes
      "Content-Type: multipart/alternative;\r\n\tboundary=\"----=_NextAltPart\"\r\n\r\n\r\n------=_NextAltPart\r\n"

abbrev pub start_alt_no_multi_text : Text
start_alt_no_multi_text =
    codes
      "Content-Type: multipart/alternative;\r\n\tboundary=\"----=_NextAltPart\"\r\n\r\nThis is a multi-part message in MIME format.\r\n\r\n------=_NextAltPart\r\n"

-- g_startPlain, g_altTransition, g_startRelated, g_startHtml
abbrev pub start_plain_text : Text
start_plain_text =
    codes
      "Content-Type: text/plain; charset=\"utf-8\"\r\nContent-Transfer-Encoding: quoted-printable\r\n\r\n"

abbrev pub alt_transition_text : Text
alt_transition_text = codes "------=_NextAltPart\r\n"

abbrev pub start_related_text : Text
start_related_text =
    codes
      "Content-Type: multipart/related;\r\n\tboundary=\"----=_NextRelatedPart\"\r\n\r\n------=_NextRelatedPart\r\n"

abbrev pub start_html_text : Text
start_html_text =
    codes
      "Content-Type: text/html; charset=\"utf-8\"\r\nContent-Transfer-Encoding: quoted-printable\r\n\r\n"

-- g_startInline, g_endRelated, g_endAlt, g_startAttachment, g_endMixed
abbrev pub start_inline_text : Text
start_inline_text = codes "------=_NextRelatedPart\r\n"

abbrev pub end_related_text : Text
end_related_text = codes "\r\n------=_NextRelatedPart--\r\n\r\n"

abbrev pub end_alt_text : Text
end_alt_text = codes "\r\n------=_NextAltPart--\r\n\r\n"

abbrev pub start_attachment_text : Text
start_attachment_text = codes "------=_NextMixedPart\r\n"

abbrev pub end_mixed_text : Text
end_mixed_text = codes "\r\n------=_NextMixedPart--\r\n\r\n"
