-- ===== src/Esmtp/Parts.antt =====
-- The attachments as the blocks of messageDataCallback of src/LibESMTPProvider.cc give them.
use givemail.Base.{
  ℕ, zero, suc, ◌+◌, ◌<◌, ◌≤◌, ◌≡◌, refl, sym, ◌∙◌, inl, inr, Bool, true, false, none, some, List,
  [], ◌∷◌, ◌++◌, append_assoc, arith, ltb, ltb→lt, if◌then◌else◌, Bool-cases, Option-cases, length,
  length-append, take, drop, length-drop, All,
}
use givemail.Base.Text.{IsNonzero, Text, is_empty}
use givemail.Base64.Buffer.{IsByte}
use givemail.Base64.Encoder.{encoding}
use givemail.Details.{Attachment}
use givemail.Message.{Message}
use givemail.Esmtp.{next, Cursor, Step, Memory, crlf}
use givemail.Esmtp.Blocks.{
  Block, count, current, headers_of, line_of, get_attachment_line, at_next_part, at_end_part,
  at_line_end, give_line, at_line, at_headers, at_start,
}
use givemail.Esmtp.Callback.{dispatch}
use givemail.Esmtp.Reads.{Reads, reading_piece, reading_same}
use givemail.Esmtp.Wrap.{wrap, wrap-take, wrap_last}
use givemail.Esmtp.Lines.{
  cursor, line_of_long, line_of_last, content_line-encoding, take-drop, length-take, All-take,
  All-drop,
}

-- The content that an attachment has, none being the empty one.
abbrev pub content_of_part : Attachment → Text
content_of_part a = elim a.content [ none ↦ [] | some content ↦ content ]

-- An attachment behind its boundary.
abbrev pub part_text : Block → Attachment → Text
part_text b a = b.kept (headers_of a) ++ (wrap 76 (encoding (content_of_part a)) ++ crlf)

-- Attachments behind one another.
abbrev pub parts_text : Block → List Attachment → Text
parts_text b [] = []
parts_text b (a ∷ []) = b.boundary ++ part_text b a
parts_text b (a ∷ a' ∷ rest) = b.boundary ++ (part_text b a ++ (crlf ++ parts_text b (a' ∷ rest)))

-- Headers that can be read as a C string, and a content of bytes.
abbrev pub IsReadable : Block → Attachment → Type 0
IsReadable b a = All IsNonzero (b.kept (headers_of a)) × All IsByte (content_of_part a)

not_empty : (s : Text) → 0 < length s → is_empty s ≡ false
not_empty [] h = ground arith
not_empty (b ∷ s) h = refl

leb_of_not_ltb : (a b : ℕ) → ltb a b ≡ false → b ≤ a
leb_of_not_ltb a b h = ground arith

-- The stages of a block are where messageDataCallback has its cases.
pub record Placed (w : Memory) (m : Message) (b : Block) (rest : Cursor → Step) : Type 0 where
  pub next_start : next (next b.before) ≡ b.headers
  pub next_headers : next b.headers ≡ b.line
  pub next_line : next b.line ≡ b.line_end
  pub next_line_end : next b.line_end ≡ b.end_part
  pub next_end_part : next b.end_part ≡ b.next_part
  pub next_next_part : next b.next_part ≡ b.after
  pub is_start :
      (k pos : ℕ) (more : Bool)
      → dispatch w m (cursor (next b.before) k pos more)
        ≡ at_start w b m rest (cursor (next b.before) k pos more)
  pub is_headers :
      (k pos : ℕ) (more : Bool)
      → dispatch w m (cursor b.headers k pos more)
        ≡ at_headers w b m rest (cursor b.headers k pos more)
  pub is_line :
      (k pos : ℕ) (more : Bool)
      → dispatch w m (cursor b.line k pos more) ≡ at_line w b m rest (cursor b.line k pos more)
  pub is_line_end :
      (k pos : ℕ) (more : Bool)
      → dispatch w m (cursor b.line_end k pos more)
        ≡ at_line_end w b m rest (cursor b.line_end k pos more)
  pub is_end_part :
      (k pos : ℕ) (more : Bool)
      → dispatch w m (cursor b.end_part k pos more)
        ≡ at_end_part w b m rest (cursor b.end_part k pos more)
  pub is_next_part :
      (k pos : ℕ) (more : Bool)
      → dispatch w m (cursor b.next_part k pos more)
        ≡ at_next_part w b m rest (cursor b.next_part k pos more)
  pub is_after :
      (k pos : ℕ) (more : Bool)
      → dispatch w m (cursor b.after k pos more) ≡ rest (cursor b.after k pos more)

pub crlf-IsNonzero : All IsNonzero crlf
crlf-IsNonzero = omega arith

module _ (w : Memory) (m : Message) (b : Block) (rest : Cursor → Step) (p : Placed w m b rest)
    (n : ℕ) (counted : count b.inline_parts m ≡ some n) (k : ℕ) (a : Attachment)
    (chosen : (c : Cursor) → c.current_attachment ≡ k → current b.inline_parts m c ≡ some (some a))
    (below : k < n) where
  pub some_parts : ltb 0 n ≡ true
  some_parts = ground arith

  -- The end of a line: the next line, or the end of the attachment.
  line_end_Reads :
      (pos : ℕ) (more : Bool) (text : Text)
      → Reads w m (cursor (if more then b.line else b.end_part) k pos more) text
      → Reads w m (cursor b.line_end k pos more) (crlf ++ text)
  unfolding at_line_end
  line_end_Reads pos true text r =
      reading_piece w m (cursor b.line_end k pos true) (cursor b.headers k pos true) crlf text
        (rw (p.is_line_end k pos true, at_line_end, counted, some_parts) refl) crlf-IsNonzero
        (rw p.next_headers r)
  line_end_Reads pos false text r =
      reading_piece w m (cursor b.line_end k pos false) (cursor b.line_end k pos false) crlf text
        (rw (p.is_line_end k pos false, at_line_end, counted, some_parts) refl) crlf-IsNonzero
        (rw p.next_line_end r)

  get_attachment_line-none :
      (c : Cursor)
      → c.current_attachment ≡ k
      → content_of_part a ≡ []
      → get_attachment_line w b.inline_parts m c ≡ some (none, record c { has_more_lines = false })
  unfolding get_attachment_line
  get_attachment_line-none c at e = elim (Option-cases a.content) [
    | inl none_loaded ↦ rw (chosen c at, none_loaded) refl
    | inr (content, loaded) ↦
        let empty : content ≡ [] = rw loaded at e in rw (chosen c at, loaded, empty) refl
  ]

  get_attachment_line-some :
      (c : Cursor) (byte : ℕ) (bytes : Text)
      → c.current_attachment ≡ k
      → content_of_part a ≡ byte ∷ bytes
      → All IsByte (byte ∷ bytes)
      → get_attachment_line w b.inline_parts m c
        ≡ some (line_of (encoding (byte ∷ bytes) ++ 0 ∷ []) (length (encoding (byte ∷ bytes))) c)
  unfolding get_attachment_line
  get_attachment_line-some c byte bytes at e h = elim (Option-cases a.content) [
    | inl none_loaded ↦ let no : [] ≡ byte ∷ bytes = rw none_loaded at e in cc
    | inr (content, loaded) ↦
        let full : content ≡ byte ∷ bytes = rw loaded at e in
        rw (chosen c at, loaded, full) (content_line-encoding w byte bytes c h)
  ]

  -- No line: the case behind.
  pub no_line_Reads :
      (more : Bool) (text : Text)
      → content_of_part a ≡ []
      → Reads w m (cursor b.end_part k 0 false) text
      → Reads w m (cursor b.line k 0 more) (crlf ++ text)
  unfolding at_line give_line
  no_line_Reads more text e r =
      let c = cursor b.line k 0 more in
      reading_same w m c (cursor b.line_end k 0 false) (crlf ++ text)
        (rw
          (
            p.is_line k 0 more,
            p.is_line_end k 0 false,
            at_line,
            counted,
            some_parts,
            get_attachment_line-none c refl e,
          )
          refl)
        (line_end_Reads 0 false text r)

  -- A line that is taken.
  line_Reads :
      (pos pos' : ℕ) (more more' : Bool) (piece text : Text)
      → get_attachment_line w b.inline_parts m (cursor b.line k pos more)
        ≡ some (some piece, cursor b.line k pos' more')
      → is_empty piece ≡ false
      → All IsNonzero piece
      → Reads w m (cursor (if more' then b.line else b.end_part) k pos' more') text
      → Reads w m (cursor b.line k pos more) (piece ++ (crlf ++ text))
  unfolding at_line give_line
  line_Reads pos pos' more more' piece text taken full h r =
      reading_piece w m (cursor b.line k pos more) (cursor b.line k pos' more') piece (crlf ++ text)
        (rw (p.is_line k pos more, at_line, counted, some_parts, taken, full) refl) h
        (rw p.next_line (line_end_Reads pos' more' text r))

  -- The lines from a position on, the text before and behind it given.
  pub lines_Reads :
      (byte : ℕ) (bytes : Text) (fuel : ℕ) (pre s : Text) (more : Bool) (text : Text)
      → content_of_part a ≡ byte ∷ bytes
      → All IsByte (byte ∷ bytes)
      → encoding (byte ∷ bytes) ≡ pre ++ s
      → length s ≤ fuel
      → 0 < length s
      → All IsNonzero s
      → Reads w m (cursor b.end_part k (length (pre ++ s)) false) text
      → Reads w m (cursor b.line k (length pre) more) (wrap 76 s ++ text)
  lines_Reads byte bytes zero pre s more text e h split enough some_left set r =
      absurd (omega arith)
  lines_Reads byte bytes (suc fuel) pre s more text e h split enough some_left set r =
      let c = cursor b.line k (length pre) more in
      elim (Bool-cases (ltb 76 (length s))) [
        | inl p1 ↦
            let long = ltb→lt 76 (length s) p1 in
            let left = length-drop 76 s in
            let piece_size = length-take 76 s (omega arith) in
            let pos : length pre + 76 ≡ length (pre ++ take 76 s) =
              omega (arith, length-append pre (take 76 s), piece_size) in
            let joined : (pre ++ take 76 s) ++ drop 76 s ≡ pre ++ s =
              rw (append_assoc pre (take 76 s) (drop 76 s), take-drop 76 s) refl in
            let taken : get_attachment_line w b.inline_parts m c
                ≡ some (some (take 76 s), cursor b.line k (length (pre ++ take 76 s)) true) =
              rw
                (
                  get_attachment_line-some c byte bytes refl e h,
                  split,
                  line_of_long b.line k more pre s long,
                  pos,
                )
                refl in
            let rest_Reads =
              lines_Reads byte bytes fuel (pre ++ take 76 s) (drop 76 s) true text e h
                (split ∙ sym joined) (omega (arith, left)) (omega (arith, left)) (All-drop 76 s set)
                (rw joined r) in
            rw
              (
                wrap-take 76 s long,
                append_assoc (take 76 s) (crlf ++ wrap 76 (drop 76 s)) text,
                append_assoc crlf (wrap 76 (drop 76 s)) text,
              )
              (line_Reads (length pre) (length (pre ++ take 76 s)) more true (take 76 s)
                (wrap 76 (drop 76 s) ++ text) taken
                (not_empty (take 76 s) (omega (arith, piece_size))) (All-take 76 s set) rest_Reads)
        | inr p2 ↦
            let last = leb_of_not_ltb 76 (length s) p2 in
            let taken : get_attachment_line w b.inline_parts m c
                ≡ some (some s, cursor b.line k (length (pre ++ s)) false) =
              rw
                (
                  get_attachment_line-some c byte bytes refl e h,
                  split,
                  line_of_last b.line k more pre s some_left last,
                )
                refl in
            rw (wrap_last 76 s last, append_assoc s crlf text)
              (line_Reads (length pre) (length (pre ++ s)) more false s text taken
                (not_empty s some_left) set r)
      ]
