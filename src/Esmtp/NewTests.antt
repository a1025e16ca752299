-- ===== src/Esmtp/NewTests.antt =====
-- A message that is made of a plain template, and the theorem at it.
use givemail.Base.{
  none, ◌∷◌, ◌<◌, Bool, true, false, ◌^◌, length, ℕ, suc, ◌+◌, ◌<◌, ◌≡◌, refl, Bool, true, false,
  none, some, [], ◌++◌, arith, length, ◌^◌,
}
use givemail.Base.Text.{Text, codes}
use givemail.Esmtp.Content.{
  crlf_loop, substitute_content, build_esmtp_headers, encode_content, qp_encode, Contents,
  new_esmtp_message,
}
use givemail.Message.Dump.{header_lines}
use givemail.Message.Keeps.{Random}
use givemail.Esmtp.Document.{IsShown}
use givemail.Esmtp.New.{plain_of, html_of, new_esmtp_message-header_lines}
use givemail.Details.{MessageDetails}
use givemail.Details.Parts.{made, parts}
use givemail.Details.Tests.{empty_details}
use givemail.Message.{
  SmtpHeader, Message, add_smtp_header, header_str, add_esmtp_header, add_header, append_header,
  substitute, append_substituted, get_user_agent,
}
use givemail.Message.Headers.{
  append_id, build_sender, build_replies, build_ids, build_from, build_reply_to, build_agent,
  build_subject, build_details, build_headers,
}
use givemail.Details.Ids.{create_message_id}
use givemail.QuotedPrintable.{is_ws, is_simple, needs_cut, encode_loop, encode}
use givemail.Details.{load_attachments}
use givemail.Esmtp.Callback.{c_string}
use givemail.Base.Text.{find_byte}
use givemail.Message.Tests.{new_message, templates, chance}
use givemail.Esmtp.Callback.{get_message_data, dump}
use givemail.Esmtp.Stream.{IsPlainText, all_nonzero, all_nonzero-IsNonzero}
use givemail.Esmtp.Tree.{print, message_entity}
use givemail.Esmtp.Tests.{memory, at_the_end}

abbrev details : MessageDetails
details = record empty_details { msg_id = codes "i" }

abbrev blank : Message
blank = record new_message { details = some details }

abbrev contents : Contents
contents = record { plain = λ id values. codes "p"; html = λ id values. [] }

abbrev new_header : Text → Text → Text → SmtpHeader
new_header name value path = record { name = name; value = value; path = path }

abbrev made_mailing : Message
made_mailing = record blank {
  plain_content = codes "p";
  smtp_from = codes "a@b";
  all_headers = codes "MIME-Version:User-Agent:Resent-Message-Id:Message-Id:From";
  headers =
      new_header (codes "MIME-Version") (codes "1.0") []
      ∷ new_header (codes "User-Agent") (codes "agent") []
      ∷ new_header (codes "Resent-Message-Id") (codes "i") []
      ∷ new_header (codes "Message-Id") (codes "i") []
      ∷ new_header (codes "From") [] (codes "a@b")
      ∷ [];
  sub_id = 2;
  headers_dump = some (
      codes
        "MIME-Version: 1.0\r\nUser-Agent: agent\r\nResent-Message-Id: i\r\nMessage-Id: i\r\nFrom: <a@b>\r\n");
}

makes :
    new_esmtp_message contents (λ path. none) templates chance none (codes "agent") blank
    ≡ some made_mailing
unfolding new_esmtp_message substitute_content build_esmtp_headers encode_content qp_encode
    crlf_loop add_smtp_header header_str add_esmtp_header add_header append_header substitute
    append_substituted get_user_agent append_id build_sender build_replies build_ids build_from
    build_reply_to build_agent build_subject build_details build_headers create_message_id is_ws
    is_simple needs_cut encode_loop encode load_attachments c_string find_byte
makes = refl

made_mailing-IsPlainText : IsPlainText memory made_mailing (load_attachments (λ path. none) details)
unfolding all_nonzero load_attachments
made_mailing-IsPlainText = record {
  headers = all_nonzero-IsNonzero (dump made_mailing) refl;
  plain = all_nonzero-IsNonzero (codes "p") refl;
  html = tt;
  inline_parts = tt;
  attachments = tt;
}

details-Random : Random chance (load_attachments (λ path. none) details)
unfolding load_attachments
details-Random place = (b'1', codes "2", refl, omega arith)

details_few :
    (inline_parts : Bool)
    → length (parts inline_parts (load_attachments (λ path. none) details)) < 2 ^ 32
unfolding load_attachments
details_few inline_parts = omega arith

details-IsShown :
    IsShown
      (plain_of contents blank)
      (html_of contents blank)
      (parts true (load_attachments (λ path. none) details))
unfolding qp_encode crlf_loop is_ws is_simple needs_cut encode_loop encode c_string find_byte
    load_attachments
details-IsShown = refl

new_esmtp_message-header_lines_example :
    (n : ℕ) × ((k : ℕ)
      → get_message_data memory made_mailing (suc (n + k)) at_the_end
        ≡ some (
            header_lines made_mailing.headers
            ++ print
                (message_entity memory
                  (parts true (load_attachments (λ path. none) details))
                  (parts false (load_attachments (λ path. none) details))
                  (plain_of contents blank)
                  (html_of contents blank))
                []))
new_esmtp_message-header_lines_example =
    new_esmtp_message-header_lines contents (λ path. none) templates chance none (codes "agent")
      blank details refl refl refl details-Random memory at_the_end (made details refl refl refl)
      details_few made_mailing makes made_mailing-IsPlainText details-IsShown
