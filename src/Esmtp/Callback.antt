-- ===== src/Esmtp/Callback.antt =====
-- messageDataCallback and getMessageData of src/LibESMTPProvider.cc. A case that does not break falls
-- into the one behind it. The call of libesmtp that sets the reverse path is left out.
use givemail.Base.{
  zero, suc, Bool, not, ◌&&◌, ◌||◌, Option, none, some, [], ◌∷◌, ◌++◌, if◌then◌else◌, ◌==◌, ℕ,
  length, get_or,
}
use givemail.Base.Text.{Text, is_empty}
use givemail.Base64.{◌>>=◌}
use givemail.Message.{
  Message, requires_mixed_parts, requires_alternative_parts, requires_related_parts,
}
use givemail.Esmtp
use givemail.Esmtp.{
  Stage, extra_headers, start_mixed, start_alt, start_plain, plain, end_plain, alt_transition,
  start_related, start_html, html, end_html, start_inline, inline_headers, inline_line,
  inline_line_end, end_inline, next_inline, end_related, end_alt, start_attachment,
  attachment_headers, attachment_line, attachment_line_end, end_attachment, next_attachment,
  end_mixed, beyond, next, Cursor, to, Step, give, Memory, crlf, start_mixed_text, start_alt_text,
  start_alt_no_multi_text, start_plain_text, alt_transition_text, start_related_text,
  start_html_text, end_related_text, end_alt_text, end_mixed_text,
}
use givemail.Esmtp.Blocks.{
  inline_block, attachment_block, at_next_part, at_end_part, at_line_end, at_line, at_headers,
  at_start,
}

-- m_headersDump
abbrev pub dump : Message → Text
dump m = elim m.headers_dump [ none ↦ [] | some text ↦ text ]

-- What += reads of a char pointer: the text up to its first zero byte.
unfoldable pub c_string : Text → Text
c_string [] = []
c_string (b ∷ s) = let rest = c_string s in if b == 0 then [] else b ∷ rest

-- content[content.length()] != '\n', where the byte behind the content is its terminator.
unfoldable pub lacks_newline : Text → Bool
lacks_newline content = not (get_or content (length content) 0 == b'\n')

module _ (w : Memory) (m : Message) where
  -- The cases, the last first.
  unfoldable pub at_end : Cursor → Step
  at_end c = some (none, c)

  unfoldable pub at_end_mixed : Cursor → Step
  at_end_mixed c = if requires_mixed_parts m then give end_mixed_text c else at_end (to Esmtp.end c)

  abbrev pub attachments_start : Cursor → Step
  attachments_start = at_start w (attachment_block w) m at_end_mixed

  unfoldable pub at_end_alt : Cursor → Step
  at_end_alt c =
      if requires_alternative_parts m
      then give end_alt_text c
      else attachments_start (to start_attachment c)

  unfoldable pub at_end_related : Cursor → Step
  at_end_related c =
      if requires_related_parts m
      then give end_related_text (record c { current_attachment = 0 })
      else at_end_alt (to end_alt c)

  abbrev pub inline_start : Cursor → Step
  inline_start = at_start w (inline_block w) m at_end_related

  unfoldable pub at_end_html : Cursor → Step
  at_end_html c =
      if not (is_empty m.html_content)
        && lacks_newline m.html_content
        && (requires_alternative_parts m || (requires_related_parts m || requires_mixed_parts m))
      then give crlf c
      else inline_start (to start_inline c)

  unfoldable pub at_html : Cursor → Step
  at_html c =
      if not (is_empty m.html_content) then give m.html_content c else at_end_html (to end_html c)

  unfoldable pub at_start_html : Cursor → Step
  at_start_html c =
      if not (is_empty m.html_content) then give start_html_text c else at_html (to html c)

  unfoldable pub at_start_related : Cursor → Step
  at_start_related c =
      if not (is_empty m.html_content) && requires_related_parts m
      then give start_related_text c
      else at_start_html (to start_html c)

  unfoldable pub at_alt_transition : Cursor → Step
  at_alt_transition c =
      if requires_alternative_parts m
      then give alt_transition_text c
      else at_start_related (to start_related c)

  unfoldable pub at_end_plain : Cursor → Step
  at_end_plain c =
      if not (is_empty m.plain_content)
        && lacks_newline m.plain_content
        && (not (is_empty m.html_content)
            || (requires_alternative_parts m
                || (requires_related_parts m || requires_mixed_parts m)))
      then give crlf c
      else at_alt_transition (to alt_transition c)

  unfoldable pub at_plain : Cursor → Step
  at_plain c =
      if not (is_empty m.plain_content)
      then give m.plain_content c
      else at_end_plain (to end_plain c)

  unfoldable pub at_start_plain : Cursor → Step
  at_start_plain c =
      if not (is_empty m.plain_content) then give start_plain_text c else at_plain (to plain c)

  unfoldable pub at_start_alt : Cursor → Step
  at_start_alt c =
      if requires_alternative_parts m
      then give (if requires_mixed_parts m then start_alt_text else start_alt_no_multi_text) c
      else at_start_plain (to start_plain c)

  unfoldable pub at_start_mixed : Cursor → Step
  at_start_mixed c =
      if requires_mixed_parts m then give start_mixed_text c else at_start_alt (to start_alt c)

  unfoldable pub at_extra_headers : Cursor → Step
  at_extra_headers c =
      if not (is_empty (dump m)) then give (dump m) c else at_start_mixed (to start_mixed c)

  -- switch (pMsg->m_stage)
  unfoldable pub dispatch : Cursor → Step
  dispatch c = elim c.stage [
    | extra_headers ↦ at_extra_headers c
    | start_mixed ↦ at_start_mixed c
    | start_alt ↦ at_start_alt c
    | start_plain ↦ at_start_plain c
    | plain ↦ at_plain c
    | end_plain ↦ at_end_plain c
    | alt_transition ↦ at_alt_transition c
    | start_related ↦ at_start_related c
    | start_html ↦ at_start_html c
    | html ↦ at_html c
    | end_html ↦ at_end_html c
    | start_inline ↦ inline_start c
    | inline_headers ↦ at_headers w (inline_block w) m at_end_related c
    | inline_line ↦ at_line w (inline_block w) m at_end_related c
    | inline_line_end ↦ at_line_end w (inline_block w) m at_end_related c
    | end_inline ↦ at_end_part w (inline_block w) m at_end_related c
    | next_inline ↦ at_next_part w (inline_block w) m at_end_related c
    | end_related ↦ at_end_related c
    | end_alt ↦ at_end_alt c
    | start_attachment ↦ attachments_start c
    | attachment_headers ↦ at_headers w (attachment_block w) m at_end_mixed c
    | attachment_line ↦ at_line w (attachment_block w) m at_end_mixed c
    | attachment_line_end ↦ at_line_end w (attachment_block w) m at_end_mixed c
    | end_attachment ↦ at_end_part w (attachment_block w) m at_end_mixed c
    | next_attachment ↦ at_next_part w (attachment_block w) m at_end_mixed c
    | end_mixed ↦ at_end_mixed c
    | Esmtp.end ↦ at_end c
    | beyond ↦ at_end c
  ]

  -- messageDataCallback with a length: the piece, and the stage behind the one it stopped at.
  unfoldable pub message_data_callback : Cursor → Step
  message_data_callback c = do (piece, c') ← dispatch c; some (piece, to (next c'.stage) c')

  -- messageDataCallback without one rewinds.
  abbrev pub rewind : Cursor → Cursor
  rewind c = record c { stage = extra_headers; current_attachment = 0; encoded_pos = 0 }

  -- The loop of getMessageData.
  unfoldable pub read_pieces : ℕ → Cursor → Option Text
  read_pieces zero c = none
  read_pieces (suc fuel) c = do
    (piece, c') ← message_data_callback c
    elim piece [
      | none ↦ some []
      | some text ↦ do rest ← read_pieces fuel c'; some (c_string text ++ rest)
    ]

  -- getMessageData
  unfoldable pub get_message_data : ℕ → Cursor → Option Text
  get_message_data fuel c = read_pieces fuel (rewind c)
