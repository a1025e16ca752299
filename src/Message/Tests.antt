-- ===== src/Message/Tests.antt =====
-- The headers of a reply, and the theorem at it.
use givemail.Base.{◌≡◌, refl, true, false, none, some, [], arith}
use givemail.Base.Text.{codes}
use givemail.Details.{MessageDetails}
use givemail.Details.Tests.{empty_details}
use givemail.Message.{
  DsnNotification, Message, Templates, add_smtp_header, set_smtp_signature_header, add_header,
  append_header, set_signature_header, get_reverse_path, get_sender_email_address,
}
use givemail.Message.Headers.{Chance, build_headers}
use givemail.Message.Dump.{Listed}
use givemail.Message.Listed.{build_headers-Listed}

abbrev reply : MessageDetails
reply = record empty_details {
  subject = codes "s";
  sender_email_address = codes "x@y";
  is_reply = true;
}

abbrev pub new_message : Message
new_message = record {
  details = some reply;
  field_values = [];
  dsn_flags = DsnNotification.never;
  msg_id = codes "i";
  msg_id_suffix = codes "@h";
  complaints = [];
  plain_content = [];
  html_content = [];
  smtp_from = [];
  all_headers = [];
  headers = [];
  env_id = [];
  reverse_path = [];
  signature_header = [];
  sub_id = 0;
  headers_dump = none;
}

-- Templates without fields.
abbrev pub templates : Templates
templates = record { substitute = λ id text values. text; print = λ n. codes "0" }

abbrev pub chance : Chance
chance = record { junk = 7; first = λ n. codes "12"; second = λ n. codes "34" }

two_headers :
    (append_header
      (codes "B")
      (codes "2")
      []
      (append_header (codes "A") [] (codes "1") new_message)).all_headers
    ≡ codes "A:B"
unfolding append_header add_header add_smtp_header
two_headers = refl

no_value : add_header (codes "A") [] [] new_message ≡ (new_message, false)
unfolding add_header add_smtp_header
no_value = refl

signed :
    (set_signature_header (codes "S") (codes "v") new_message).0.signature_header ≡ codes "S: v"
unfolding set_signature_header set_smtp_signature_header
signed = refl

returned_to_sender : get_reverse_path new_message ≡ codes "x@y"
unfolding get_reverse_path get_sender_email_address
returned_to_sender = refl

build_headers-Listed_example :
    (m' : Message) × (build_headers templates chance (codes "givemail") new_message ≡ some m')
    × Listed m'
build_headers-Listed_example =
    build_headers-Listed chance reply (λ place. (b'1', codes "2", refl, omega arith)) templates
      (codes "givemail") new_message refl
      (record { named = tt; listed = refl; dumped = λ text e. cc })
