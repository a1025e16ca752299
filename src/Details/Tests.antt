-- ===== src/Details/Tests.antt =====
-- Details of a message that are filled and read, and the theorems at concrete inputs.
use givemail.Base.{
  ℕ, ◌≤◌, ◌≡◌, refl, Bool, true, false, not, ◌&&◌, none, some, [], ◌∷◌, ◌++◌, arith, if◌then◌else◌,
  length, All, get_elem?,
}
use givemail.Base.Text.{Text, codes, str_eq, find_text, starts, is_empty}
use givemail.Base64
use givemail.Details.{
  Attachment, MessageDetails, find_last_of, get_file_name, guess_type, resolve_content_type,
  new_attachment, add_attachment, add_files, set_attachments, get_attachment_count, get_attachment,
  found, set_piece, set_content_piece, has_piece, content_of, encoding_of, same_kind,
}
use givemail.Details.Parts.{Built, parts, get_attachment-parts}
use givemail.Details.Pieces.{Apart, set_content_piece-reads}
use givemail.Details.Ids.{
  encode_recipient_id, create_message_id, IsAlnum, strip_loop, create_message_id_lem,
  decode-encode_recipient_id,
}

type_runs :
    (new_attachment (codes "/a/b.c/x.tar.pdf") [] [] []).content_type ≡ codes "application/pdf"
unfolding new_attachment resolve_content_type get_file_name find_last_of guess_type str_eq
type_runs = refl

no_type_runs : (new_attachment (codes "/a.b/readme") [] [] []).content_type ≡ []
unfolding new_attachment resolve_content_type get_file_name find_last_of
no_type_runs = refl

strip_runs : strip_loop 6 0 (codes "a+b/c=") ≡ codes "abc"
unfolding strip_loop
strip_runs = refl

abbrev pub empty_details : MessageDetails
empty_details = record {
  subject = [];
  to = [];
  cc = [];
  from_name = [];
  reply_to_name = [];
  reply_to_email_address = [];
  sender_email_address = [];
  user_agent = [];
  use_x_mailer = false;
  unsubscribe_link = [];
  from_email_address = codes "a@b";
  report_type = [];
  msg_id = [];
  is_reply = false;
  content_pieces = [];
  attachments = [];
  attachments_count = 0;
  inline_parts_count = 0;
}

-- One inline part and one other.
abbrev inline_part : Attachment
inline_part = record {
  file_path = codes "x";
  content_type = codes "t";
  content_id = codes "i";
  encoding = [];
  content = none;
}

abbrev two_parts : MessageDetails
two_parts =
    (add_attachment (some inline_part) (set_attachments (codes "f.txt" ∷ []) true empty_details)).0

two_parts-Built : Built two_parts
two_parts-Built = Built.added _ (Built.appended _ (Built.made _ refl refl refl))

get_attachment-parts_example :
    (get_attachment_count true two_parts ≡ length (parts true two_parts))
    × ((num : ℕ) → get_attachment num true two_parts ≡ get_elem? (parts true two_parts) num)
unfolding set_attachments add_files add_attachment new_attachment
get_attachment-parts_example = get_attachment-parts true two_parts-Built (omega arith)

abbrev html : Text
html = codes "text/html"

-- A message with a text.
abbrev worded : MessageDetails
worded = (set_content_piece (codes "text/plain") (codes "hi") (codes "7bit") false empty_details).0

set_content_piece-reads_example :
    (content_of html (set_content_piece html (codes "b") (codes "q") true worded).0.content_pieces
      ≡ codes "b")
    × (encoding_of html
          (set_content_piece html (codes "b") (codes "q") true worded).0.content_pieces
        ≡ codes "q")
    × (has_piece html (set_content_piece html (codes "b") (codes "q") true worded).0.content_pieces
        ≡ true)
    × ((text' encoding' : Text) (personalize' : Bool)
        → set_content_piece html text' encoding' personalize'
            (set_content_piece html (codes "b") (codes "q") true worded).0
          ≡ set_content_piece html text' encoding' personalize' worded)
    × ((other : Text)
        → found (find_text other html) ≡ false
        → All (Apart html (codes "b") (codes "q") true other) worded.content_pieces
        → content_of other
            (set_content_piece html (codes "b") (codes "q") true worded).0.content_pieces
          ≡ content_of other worded.content_pieces)
set_content_piece-reads_example = set_content_piece-reads html (codes "b") (codes "q") true worded

plain_stays :
    content_of
      (codes "/plain")
      (set_content_piece html (codes "b") (codes "q") true worded).0.content_pieces
    ≡ codes "hi"
unfolding set_content_piece set_piece content_of find_text starts
plain_stays = refl

create_message_id_lem_example :
    (id : Text) × (create_message_id 7 (codes "12") (codes "34") (codes "@h") false empty_details
      ≡ some (if same_kind false false && not (is_empty []) then [] else id ++ codes "@h"))
    × All IsAlnum id
    × (length id ≤ 40)
create_message_id_lem_example =
    create_message_id_lem 7 b'1' (codes "2") (codes "34") (codes "@h") false empty_details
      (omega arith)

decode-encode_recipient_id_example :
    (text : Text) × (encode_recipient_id 7 (codes "42") ≡ some text)
    × (Base64.decode 8 (text ++ 0 ∷ []) (length text)
        ≡ some (some (codes "&recipientId=42&" ++ 0 ∷ [], 16)))
decode-encode_recipient_id_example = decode-encode_recipient_id 7 8 (codes "42") (omega arith)
