-- ===== src/Details.antt =====
-- src/MessageDetails.cc: attachments and pieces of content; Details.Ids has the ids. The character
-- set, the version and the substituters are left out. A pointer to a content and its length are an `Option` of
-- the text; the file system and the templates' fields are parameters.
pub mod Parts
mod Pieces
pub mod Ids
pub mod Tests
use givemail.Base.{
  ℕ, zero, suc, ◌+◌, ◌%◌, ◌^◌, Bool, true, false, not, ◌&&◌, ◌||◌, Option, none, some, List, [],
  ◌∷◌, ◌++◌, map, ◌==◌, if◌then◌else◌, length, drop, filter,
}
use givemail.Base.Text.{Text, codes, is_empty, str_eq, find_text}

pub record Attachment : Type 0 where
  pub file_path : Text
  pub content_type : Text
  pub content_id : Text
  pub encoding : Text
  pub content : Option Text

pub record ContentPiece : Type 0 where
  pub content_type : Text
  pub encoding : Text
  pub personalize : Bool
  pub content : Option Text

pub record MessageDetails : Type 0 where
  pub subject : Text
  pub to : Text
  pub cc : Text
  pub from_name : Text
  pub from_email_address : Text
  pub reply_to_name : Text
  pub reply_to_email_address : Text
  pub sender_email_address : Text
  pub user_agent : Text
  pub use_x_mailer : Bool
  pub unsubscribe_link : Text
  pub report_type : Text
  pub msg_id : Text
  pub is_reply : Bool
  pub content_pieces : List ContentPiece
  pub attachments : List Attachment
  pub attachments_count : ℕ
  pub inline_parts_count : ℕ

-- string::find_last_of
unfoldable pub find_last_of : ℕ → Text → Option ℕ
find_last_of b [] = none
find_last_of b (c ∷ s) = elim (find_last_of b s) [
  | some i ↦ some (suc i)
  | none ↦ if c == b then some 0 else none
]

-- getFileName
unfoldable pub get_file_name : Text → Text
get_file_name file_path = elim (find_last_of b'/' file_path) [
  | some last ↦ drop (last + 1) file_path
  | none ↦ if is_empty file_path then codes "Attachment" else file_path
]

-- The type of a file extension.
unfoldable pub guess_type : Text → Text
guess_type e =
    if str_eq e (codes "pdf")
    then codes "application/pdf"
    else if str_eq e (codes "rtf")
    then codes "application/rtf"
    else if str_eq e (codes "doc")
    then codes "application/vnd.ms-word"
    else if str_eq e (codes "xls")
    then codes "application/vnd.ms-excel"
    else if str_eq e (codes "ppt")
    then codes "application/vnd.ms-powerpoint"
    else if str_eq e (codes "html") || str_eq e (codes "htm")
    then codes "text/html"
    else if str_eq e (codes "txt")
    then codes "text/plain"
    else if str_eq e (codes "gif")
    then codes "image/gif"
    else if str_eq e (codes "jpg")
    then codes "image/jpeg"
    else if str_eq e (codes "png")
    then codes "image/png"
    else codes "application/octet-stream"

-- resolveContentType
unfoldable pub resolve_content_type : Text → Text → Text
resolve_content_type content_type file_path =
    let name = get_file_name file_path in
    if not (is_empty content_type) then content_type else elim (find_last_of b'.' name) [
      | some last ↦ guess_type (drop (last + 1) name)
      | none ↦ content_type
    ]

-- Attachment::Attachment
unfoldable pub new_attachment : Text → Text → Text → Text → Attachment
new_attachment file_path content_type content_id encoding = record {
  file_path = file_path;
  content_type = resolve_content_type content_type file_path;
  content_id = content_id;
  encoding = encoding;
  content = none;
}

-- isInline
abbrev pub is_inline : Attachment → Bool
is_inline a = not (is_empty a.content_id)

-- addAttachment, of a pointer that may be null
unfoldable pub add_attachment : Option Attachment → MessageDetails → MessageDetails × Bool
add_attachment none d = (d, false)
add_attachment (some a) d =
    let one_more : MessageDetails =
      if is_inline a
      then record d { inline_parts_count = (d.inline_parts_count + 1) % 2 ^ 32 }
      else record d { attachments_count = (d.attachments_count + 1) % 2 ^ 32 } in
    (record one_more { attachments = d.attachments ++ a ∷ [] }, true)

-- The loop of setAttachments; base64 is the encoding by default.
unfoldable pub add_files : List Text → MessageDetails → MessageDetails
add_files [] d = d
add_files (path ∷ paths) d =
    add_files paths (add_attachment (some (new_attachment path [] [] (codes "base64"))) d).0

-- setAttachments
unfoldable pub set_attachments : List Text → Bool → MessageDetails → MessageDetails
set_attachments paths append d =
    add_files paths (if append then d else record d { attachments = [] })

-- One round of loadAttachments; a content of length 0 is loaded again.
unfoldable pub load_attachment : (Text → Option Text) → Attachment → Attachment
load_attachment load_raw a =
    let loaded : Attachment = record a { content = load_raw a.file_path } in
    if is_empty a.file_path
    then a
    else elim a.content [ none ↦ loaded | some content ↦ if is_empty content then loaded else a ]

-- loadAttachments
unfoldable pub load_attachments : (Text → Option Text) → MessageDetails → MessageDetails
load_attachments load_raw d = record d {
  attachments = map (load_attachment load_raw) d.attachments;
}

-- getAttachmentCount
unfoldable pub get_attachment_count : Bool → MessageDetails → ℕ
get_attachment_count inline_parts d =
    if inline_parts then d.inline_parts_count else d.attachments_count

-- operator== on bool
abbrev pub same_kind : Bool → Bool → Bool
same_kind a b = if a then b else not b

-- The loop of getAttachment, at position `pos` of those of its kind.
unfoldable pub attachment_loop : ℕ → Bool → ℕ → List Attachment → Option Attachment
attachment_loop num inline_parts pos [] = none
attachment_loop num inline_parts pos (a ∷ rest) =
    let skipped = attachment_loop num inline_parts pos rest in
    let next = attachment_loop num inline_parts (pos + 1) rest in
    if not (same_kind (is_inline a) inline_parts)
    then skipped
    else if pos == num
    then some a
    else next

-- getAttachment
unfoldable pub get_attachment : ℕ → Bool → MessageDetails → Option Attachment
get_attachment num inline_parts d = attachment_loop num inline_parts 0 d.attachments

-- find(contentType) != npos
abbrev pub found : Option ℕ → Bool
found none = false
found (some i) = true

abbrev pub has_type : Text → ContentPiece → Bool
has_type content_type p = found (find_text content_type p.content_type)

-- The search and the replacement of setContentPiece.
unfoldable pub set_piece : Text → Text → Text → Bool → List ContentPiece → List ContentPiece
set_piece content_type text encoding personalize [] =
    record {
      content_type = content_type;
      encoding = encoding;
      personalize = personalize;
      content = some text;
    }
    ∷ []
set_piece content_type text encoding personalize (p ∷ rest) =
    let kept = p ∷ set_piece content_type text encoding personalize rest in
    if has_type content_type p
    then record p { encoding = encoding; personalize = personalize; content = some text } ∷ rest
    else kept

-- setContentPiece, which returns false; the content is a C string.
unfoldable pub set_content_piece :
    Text → Text → Text → Bool → MessageDetails → MessageDetails × Bool
set_content_piece content_type text encoding personalize d = (
  record d { content_pieces = set_piece content_type text encoding personalize d.content_pieces },
  false,
)

-- isReport
unfoldable pub is_report : Text → MessageDetails → Bool
is_report content_type d = elim (find_text content_type d.report_type) [
  | none ↦ false
  | some i ↦ i == 0
]

-- hasContentPiece
unfoldable pub has_piece : Text → List ContentPiece → Bool
has_piece content_type [] = false
has_piece content_type (p ∷ rest) = has_type content_type p || has_piece content_type rest

-- getContent
unfoldable pub content_of : Text → List ContentPiece → Text
content_of content_type [] = []
content_of content_type (p ∷ rest) =
    let later = content_of content_type rest in
    if has_type content_type p then elim p.content [ none ↦ later | some text ↦ text ] else later

-- getEncoding
unfoldable pub encoding_of : Text → List ContentPiece → Text
encoding_of content_type [] = []
encoding_of content_type (p ∷ rest) =
    let later = encoding_of content_type rest in
    if has_type content_type p then p.encoding else later

-- checkFields; `has_field` is CTemplateSubstituter::hasField.
unfoldable pub check_fields : (Text → Text → Bool) → Text → MessageDetails → Bool
check_fields has_field content_type d =
    let text = content_of content_type d.content_pieces in
    if is_empty text
    then false
    else (has_field text (codes "Name") || has_field text (codes "emailaddress"))
      || has_field text (codes "recipientId")

-- isRecipientPersonalized
unfoldable pub is_recipient_personalized : (Text → Text → Bool) → MessageDetails → Bool
is_recipient_personalized has_field d =
    check_fields has_field (codes "text/plain") d || check_fields has_field (codes "/html") d
