-- ===== src/Esmtp/Blocks.antt =====
-- The two blocks of messageDataCallback in src/LibESMTPProvider.cc that give the attachments, those
-- that are inline and the others, with getAttachmentHeaders and getAttachmentLine. The blocks are the
-- same code but for what `Block` holds.
use givemail.Base.{
  ℕ, ◌+◌, ◌-◌, ◌%◌, ◌^◌, Bool, true, false, Option, none, some, ◌++◌, ltb, leb, if◌then◌else◌, take,
  drop,
}
use givemail.Base.Text.{Text, codes, is_empty}
use givemail.Base64
use givemail.Base64.{◌>>=◌}
use givemail.Details.{Attachment, get_attachment_count, get_attachment, get_file_name}
use givemail.Message.{Message}
use givemail.Esmtp.{
  Stage, inline_headers, inline_line, inline_line_end, end_inline, next_inline, end_html,
  end_related, attachment_headers, attachment_line, attachment_line_end, end_attachment,
  next_attachment, end_alt, end_mixed, Cursor, to, Step, give, Memory, crlf, start_inline_text,
  start_attachment_text,
}

-- m_pDetails->getAttachmentCount(inlineParts)
unfoldable pub count : Bool → Message → Option ℕ
count inline_parts m = elim m.details [
  | none ↦ none
  | some d ↦ some (get_attachment_count inline_parts d)
]

-- m_pDetails->getAttachment(m_currentAttachment, inlineParts); the outer `none` is the fault.
unfoldable pub current : Bool → Message → Cursor → Option (Option Attachment)
current inline_parts m c = elim m.details [
  | none ↦ none
  | some d ↦ some (get_attachment c.current_attachment inline_parts d)
]

-- The text that getAttachmentHeaders makes.
unfoldable pub headers_of : Attachment → Text
headers_of a =
    let file_name = get_file_name a.file_path in
    let disposition : Text =
      if is_empty a.content_id
      then codes "Content-Disposition: attachment"
      else codes "Content-ID: <" ++ (a.content_id ++ codes ">\r\nContent-Disposition: inline") in
    codes "Content-Type: "
    ++ (a.content_type
        ++ (codes ";\r\n\tname=\""
            ++ (file_name
                ++ (codes "\"\r\nContent-Transfer-Encoding: base64\r\n"
                    ++ (disposition
                        ++ (codes ";\r\n\tfilename=\"" ++ (file_name ++ codes "\"\r\n\r\n")))))))

-- getAttachmentHeaders
unfoldable pub get_attachment_headers : Bool → Message → Cursor → Option Text
get_attachment_headers inline_parts m c = do
  found ← current inline_parts m c
  a ← found
  some (headers_of a)

-- A line of the encoded text, a buffer with its terminator, and its length.
unfoldable pub line_of : Text → ℕ → Cursor → Option Text × Cursor
line_of buf encoded_length c =
    let left = encoded_length - c.encoded_pos in
    let line_len = if ltb left 76 then left else 76 in
    let pos = c.encoded_pos + line_len in
    let none_left : Cursor = record c { has_more_lines = false } in
    let moved : Cursor = record c { encoded_pos = pos; has_more_lines = ltb pos encoded_length } in
    if ltb c.encoded_pos encoded_length
    then (some (take line_len (drop c.encoded_pos buf)), moved)
    else (none, none_left)

-- The line of a content, by way of Base64::encode.
unfoldable pub content_line : Memory → Text → Cursor → Option (Option Text × Cursor)
content_line w content c = do
  encoded ← Base64.encode w.junk content
  some (elim encoded [
    | none ↦ (none, record c { has_more_lines = false })
    | some (buf, encoded_length) ↦ line_of buf encoded_length c
  ])

-- getAttachmentLine
unfoldable pub get_attachment_line :
    Memory → Bool → Message → Cursor → Option (Option Text × Cursor)
get_attachment_line w inline_parts m c = do
  found ← current inline_parts m c
  let no_line : Option Text × Cursor = (none, record c { has_more_lines = false })
  elim found [
    | none ↦ some no_line
    | some a ↦ elim a.content [
      | none ↦ some no_line
      | some content ↦ if is_empty content then some no_line else content_line w content c
    ]
  ]

-- The kind of the attachments of a block, its stages, the stage in front of it and the one behind,
-- its boundary, and what the text of the headers reads as when it is used.
pub record Block : Type 0 where
  pub inline_parts : Bool
  pub headers : Stage
  pub line : Stage
  pub line_end : Stage
  pub end_part : Stage
  pub next_part : Stage
  pub before : Stage
  pub after : Stage
  pub boundary : Text
  pub kept : Text → Text

-- The headers of an inline part are returned from a string that is gone by then.
abbrev pub inline_block : Memory → Block
inline_block w = record {
  inline_parts = true;
  headers = inline_headers;
  line = inline_line;
  line_end = inline_line_end;
  end_part = end_inline;
  next_part = next_inline;
  before = end_html;
  after = end_related;
  boundary = start_inline_text;
  kept = w.stale;
}

-- Those of an attachment are copied.
abbrev pub attachment_block : Memory → Block
attachment_block w = record {
  inline_parts = false;
  headers = attachment_headers;
  line = attachment_line;
  line_end = attachment_line_end;
  end_part = end_attachment;
  next_part = next_attachment;
  before = end_alt;
  after = end_mixed;
  boundary = start_attachment_text;
  kept = λ text. text;
}

-- The cases of a block, the last first; `rest` is the case behind it.
module _ (w : Memory) (b : Block) (m : Message) (rest : Cursor → Step) where
  -- NEXT_INLINE and NEXT_ATTACHMENT
  unfoldable pub at_next_part : Cursor → Step
  at_next_part c = do
    n ← count b.inline_parts m
    if ltb c.current_attachment n then give crlf (to b.before c) else rest (to b.after c)

  -- END_INLINE and END_ATTACHMENT
  unfoldable pub at_end_part : Cursor → Step
  at_end_part c = do
    n ← count b.inline_parts m
    let one_more = (c.current_attachment + 1) % 2 ^ 32
    let c' : Cursor = record c { current_attachment = one_more; encoded_pos = 0 }
    if ltb 0 n
        then give crlf (if leb n one_more then to b.next_part c' else c')
        else at_next_part (to b.next_part c)

  -- INLINE_LINE_END and ATTACHMENT_LINE_END
  unfoldable pub at_line_end : Cursor → Step
  at_line_end c = do
    n ← count b.inline_parts m
    if ltb 0 n
        then give crlf (if c.has_more_lines then to b.headers c else c)
        else at_end_part (to b.end_part c)

  -- A line, which is given unless there is none.
  unfoldable pub give_line : Option Text × Cursor → Step
  give_line (none, c) = at_line_end (to b.line_end c)
  give_line (some text, c) = if is_empty text then at_line_end (to b.line_end c) else give text c

  -- INLINE_LINE and ATTACHMENT_LINE
  unfoldable pub at_line : Cursor → Step
  at_line c = do
    n ← count b.inline_parts m
    if ltb 0 n
        then (do line ← get_attachment_line w b.inline_parts m c; give_line line)
        else at_line_end (to b.line_end c)

  -- The headers, which are given unless they are empty.
  unfoldable pub give_headers : Text → Cursor → Step
  give_headers headers c =
      if is_empty headers then at_line (to b.line c) else give (b.kept headers) c

  -- INLINE_HEADERS and ATTACHMENT_HEADERS
  unfoldable pub at_headers : Cursor → Step
  at_headers c = do
    n ← count b.inline_parts m
    if ltb 0 n
        then (do headers ← get_attachment_headers b.inline_parts m c; give_headers headers c)
        else at_line (to b.line c)

  -- START_INLINE and START_ATTACHMENT
  unfoldable pub at_start : Cursor → Step
  at_start c = do
    n ← count b.inline_parts m
    if ltb 0 n then give b.boundary c else at_headers (to b.headers c)
