-- ===== src/Esmtp/Tests.antt =====
-- A message with both contents, an inline part and an attachment, and the theorems at it.
use givemail.Base.{
  none, ◌⊎◌, All, ◌∷◌, ◌<◌, Bool, true, false, ◌^◌, length, ℕ, suc, ◌+◌, ◌<◌, ◌≡◌, refl, Bool, true,
  false, none, some, [], ◌++◌, arith, length, ◌^◌, ◌⊎◌, All,
}
use givemail.Base.Text.{Text, codes, IsNonzero}
use givemail.Base64
use givemail.Base64.Encoder.{encoding}
use givemail.QuotedPrintable
use givemail.QuotedPrintable.Reader.{Means}
use givemail.Session.Tests.{context, start}
use givemail.Esmtp.{start_plain_text, crlf}
use givemail.Esmtp.Blocks.{inline_block}
use givemail.Esmtp.Wrap.{wrap}
use givemail.Esmtp.Content.{qp_encode}
use givemail.Esmtp.Encoded.{to_crlf, qp_encode-to_crlf}
use givemail.Esmtp.Decoded.{decode-wrap}
use givemail.Session.{connect, mail_status, disconnect, Errors}
use givemail.Session.Recording.{run_events}
use givemail.Esmtp.Events.{is_connection_error, run_events_connected}
use givemail.Esmtp.Tree.{leaf, print_parts, related_boundary, entities_of}
use givemail.Esmtp.Unopened.{get_message_data-unopened}
use givemail.Details.{Attachment, MessageDetails, add_attachment, get_file_name, find_last_of}
use givemail.Details.Parts.{made, added, parts}
use givemail.Details.Tests.{empty_details}
use givemail.Message.{Message}
use givemail.QuotedPrintable.{is_ws, hex_digit, is_simple, needs_cut, encode_loop, encode}
use givemail.Message.Tests.{new_message}
use givemail.Esmtp.{Cursor, beyond, Memory}
use givemail.Esmtp.Blocks.{headers_of}
use givemail.Esmtp.Callback.{get_message_data, dump}
use givemail.Esmtp.Stream.{IsLoaded, IsPlainText, all_nonzero, all_nonzero-IsNonzero}
use givemail.Esmtp.Tree.{print, message_entity}
use givemail.Esmtp.Document.{get_message_data-message_entity}

abbrev picture : Attachment
picture = record {
  file_path = codes "/p.png";
  content_type = codes "image/png";
  content_id = codes "i";
  encoding = codes "base64";
  content = some (codes "abcd");
}

abbrev letter : Attachment
letter = record {
  file_path = codes "l.txt";
  content_type = codes "text/plain";
  content_id = [];
  encoding = codes "base64";
  content = none;
}

abbrev two_parts : MessageDetails
two_parts = (add_attachment (some letter) (add_attachment (some picture) empty_details).0).0

abbrev mailing : Message
mailing = record new_message {
  details = some two_parts;
  plain_content = codes "p";
  html_content = codes "<h>";
  headers_dump = some (codes "Subject: s\r\n");
}

abbrev pub memory : Memory
memory = record { junk = 7; stale = λ text. text }

abbrev pub at_the_end : Cursor
at_the_end = record {
  stage = beyond;
  current_attachment = 3;
  encoded_pos = 2;
  has_more_lines = false;
}

two_parts_few : (inline_parts : Bool) → length (parts inline_parts two_parts) < 2 ^ 32
unfolding add_attachment
two_parts_few true = omega arith
two_parts_few false = omega arith

mailing-IsLoaded : IsLoaded mailing two_parts
mailing-IsLoaded = record {
  given = refl;
  built = added (some letter) (added (some picture) (made empty_details refl refl refl));
  few = two_parts_few;
}

mailing-IsPlainText : IsPlainText memory mailing two_parts
unfolding add_attachment headers_of all_nonzero get_file_name find_last_of
mailing-IsPlainText = record {
  headers = all_nonzero-IsNonzero (dump mailing) refl;
  plain = all_nonzero-IsNonzero mailing.plain_content refl;
  html = all_nonzero-IsNonzero mailing.html_content refl;
  inline_parts = ((all_nonzero-IsNonzero (headers_of picture) refl, omega arith), tt);
  attachments = ((all_nonzero-IsNonzero (headers_of letter) refl, tt), tt);
}

get_message_data-message_entity_example :
    (n : ℕ) × ((k : ℕ)
      → get_message_data memory mailing (suc (n + k)) at_the_end
        ≡ some (
            dump mailing
            ++ print
                (message_entity memory
                  (parts true two_parts)
                  (parts false two_parts)
                  mailing.plain_content
                  mailing.html_content)
                []))
get_message_data-message_entity_example =
    get_message_data-message_entity memory mailing two_parts at_the_end mailing-IsLoaded
      mailing-IsPlainText refl

-- The same without HTML content and without the attachment.
abbrev one_part : MessageDetails
one_part = (add_attachment (some picture) empty_details).0

abbrev plain_mailing : Message
plain_mailing = record mailing { details = some one_part; html_content = [] }

one_part_few : (inline_parts : Bool) → length (parts inline_parts one_part) < 2 ^ 32
unfolding add_attachment
one_part_few true = omega arith
one_part_few false = omega arith

plain_mailing-IsLoaded : IsLoaded plain_mailing one_part
plain_mailing-IsLoaded = record {
  given = refl;
  built = added (some picture) (made empty_details refl refl refl);
  few = one_part_few;
}

plain_mailing-IsPlainText : IsPlainText memory plain_mailing one_part
unfolding add_attachment headers_of all_nonzero get_file_name find_last_of
plain_mailing-IsPlainText = record {
  headers = all_nonzero-IsNonzero (dump plain_mailing) refl;
  plain = all_nonzero-IsNonzero plain_mailing.plain_content refl;
  html = tt;
  inline_parts = ((all_nonzero-IsNonzero (headers_of picture) refl, omega arith), tt);
  attachments = tt;
}

get_message_data-unopened_example :
    (n : ℕ) × ((k : ℕ)
      → get_message_data memory plain_mailing (suc (n + k)) at_the_end
        ≡ some (
            dump plain_mailing
            ++ print
                (leaf start_plain_text plain_mailing.plain_content (
                  crlf
                  ++ print_parts related_boundary
                      (entities_of (inline_block memory) (parts true one_part))
                      crlf))
                []))
unfolding add_attachment
get_message_data-unopened_example =
    get_message_data-unopened memory plain_mailing one_part at_the_end plain_mailing-IsLoaded
      plain_mailing-IsPlainText refl refl refl refl

qp_encode-to_crlf_example :
    ((qp_encode (codes "a=\nb") ≡ codes "a=\nb") × (QuotedPrintable.encode (codes "a=\nb") ≡ none))
    ⊎ ((encoded : Text) × Means encoded (codes "a=\nb")
        × (qp_encode (codes "a=\nb") ≡ to_crlf encoded)
        × All IsNonzero (qp_encode (codes "a=\nb")))
qp_encode-to_crlf_example = qp_encode-to_crlf (codes "a=\nb") (omega arith)

decode-wrap_example :
    Base64.decode 7 (wrap 76 (encoding (codes "abcd")) ++ (crlf ++ 0 ∷ [])) 12
    ≡ some (some (codes "abcd" ++ 0 ∷ [], 4))
decode-wrap_example = decode-wrap 7 11 b'a' (codes "bcd") (omega arith)

abbrev errors : Errors
errors = record { dropped_connection = 7; eai_noname = 8; inval = 9 }

run_events_connected_example :
    ((run_events errors context (connect ∷ mail_status ∷ disconnect ∷ []) start).error_num ≡ none)
    × (is_connection_error errors
          (run_events errors context (connect ∷ mail_status ∷ disconnect ∷ []) start).error_num
        ≡ false)
run_events_connected_example =
    run_events_connected errors context (mail_status ∷ disconnect ∷ []) start refl
      (refl, (refl, tt))
