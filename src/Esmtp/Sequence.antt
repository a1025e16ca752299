-- ===== src/Esmtp/Sequence.antt =====
-- All attachments of a kind, one behind the other, as a block of messageDataCallback of
-- src/LibESMTPProvider.cc gives them.
use givemail.Base.{
  ℕ, suc, ◌+◌, ◌%◌, ◌^◌, ◌<◌, ◌≡◌, refl, sym, ap, ◌∙◌, Bool, true, false, some, List, [], ◌∷◌, ◌++◌,
  append_assoc, arith, ltb, leb, length, length-append, get_elem?, All,
}
use givemail.Base.Text.{IsNonzero, Text}
use givemail.Base64.Buffer.{IsByte}
use givemail.Base64.Encoder.{encoding}
use givemail.Details.{Attachment}
use givemail.Message.{Message}
use givemail.Esmtp.{next, Cursor, Step, Memory, crlf}
use givemail.Esmtp.Blocks.{
  Block, count, current, headers_of, get_attachment_headers, at_next_part, at_end_part,
  give_headers, at_line, at_line_end, at_headers, at_start,
}
use givemail.Esmtp.Reads.{Reads, reading_piece, reading_same}
use givemail.Esmtp.Wrap.{wrap}
use givemail.Esmtp.Lines.{cursor, encoding-IsNonzero}
use givemail.Esmtp.Parts.{
  content_of_part, part_text, parts_text, IsReadable, Placed, crlf-IsNonzero, no_line_Reads,
  lines_Reads,
}

length-encoding : (byte : ℕ) (bytes : Text) → 0 < length (encoding (byte ∷ bytes))
unfolding encoding
length-encoding a [] = omega arith
length-encoding a (b ∷ []) = omega arith
length-encoding a (b ∷ c ∷ rest) = omega arith

get_elem?-append :
    (done left : List Attachment) (a : Attachment)
    → get_elem? (done ++ a ∷ left) (length done) ≡ some a
get_elem?-append [] left a = refl
get_elem?-append (x ∷ done) left a = get_elem?-append done left a

module _ (w : Memory) (m : Message) (b : Block) (rest : Cursor → Step) (p : Placed w m b rest)
    (n : ℕ) (counted : count b.inline_parts m ≡ some n) (fits : n < 2 ^ 32)
    (bounded : All IsNonzero b.boundary) where
  module _ (k : ℕ) (a : Attachment)
      (chosen : (c : Cursor)
        → c.current_attachment ≡ k
        → current b.inline_parts m c ≡ some (some a))
      (below : k < n) where
    some_parts : ltb 0 n ≡ true
    some_parts = ground arith

    -- The lines of an attachment.
    body_Reads :
        (content : Text) (more : Bool) (text : Text)
        → content_of_part a ≡ content
        → All IsByte content
        → ((pos : ℕ) → Reads w m (cursor b.end_part k pos false) text)
        → Reads w m (cursor b.line k 0 more) (wrap 76 (encoding content) ++ text)
    unfolding wrap encoding
    body_Reads [] more text e h r =
        no_line_Reads w m b rest p n counted k a chosen below more text e (r 0)
    body_Reads (byte ∷ bytes) more text e h r =
        lines_Reads w m b rest p n counted k a chosen below byte bytes
          (length (encoding (byte ∷ bytes))) [] (encoding (byte ∷ bytes)) more text e h refl
          (omega arith) (length-encoding byte bytes) (encoding-IsNonzero (byte ∷ bytes) h) (r _)

    -- An attachment behind its boundary.
    part_Reads :
        (more : Bool) (text : Text)
        → IsReadable b a
        → ((pos : ℕ) → Reads w m (cursor b.end_part k pos false) text)
        → Reads w m (cursor (next b.before) k 0 more) (
            b.boundary
            ++ (b.kept (headers_of a) ++ (wrap 76 (encoding (content_of_part a)) ++ text)))
    unfolding at_start at_headers get_attachment_headers give_headers headers_of
    part_Reads more text (h, bytes) r =
        let c = cursor (next b.before) k 0 more in
        let c' = cursor b.headers k 0 more in
        reading_piece w m c c b.boundary _
          (rw (p.is_start k 0 more, at_start, counted, some_parts) refl) bounded
          (rw p.next_start (
            reading_piece w m c' c' (b.kept (headers_of a)) _
              (rw (p.is_headers k 0 more, at_headers, counted, some_parts, chosen c' refl) refl) h
              (rw p.next_headers (body_Reads (content_of_part a) more text refl bytes r))))

    -- The end of the last attachment.
    last_Reads :
        (pos : ℕ) (text : Text)
        → suc k ≡ n
        → Reads w m (cursor b.after n 0 false) text
        → Reads w m (cursor b.end_part k pos false) (crlf ++ text)
    unfolding at_end_part
    last_Reads pos text e r =
        let one_more : (k + 1) % 2 ^ 32 ≡ n = omega arith in
        let past : leb n n ≡ true = ground arith in
        reading_piece w m (cursor b.end_part k pos false) (cursor b.next_part n 0 false) crlf text
          (rw (p.is_end_part k pos false, at_end_part, counted, some_parts, one_more, past) refl)
          crlf-IsNonzero (rw p.next_next_part r)

    -- The end of another.
    more_Reads :
        (pos : ℕ) (text : Text)
        → suc k < n
        → Reads w m (cursor (next b.before) (suc k) 0 false) text
        → Reads w m (cursor b.end_part k pos false) (crlf ++ (crlf ++ text))
    unfolding at_end_part at_next_part
    more_Reads pos text h r =
        let one_more : (k + 1) % 2 ^ 32 ≡ suc k = omega arith in
        let left : leb n (suc k) ≡ false = ground arith in
        let next_left : ltb (suc k) n ≡ true = ground arith in
        reading_piece w m (cursor b.end_part k pos false) (cursor b.end_part (suc k) 0 false) crlf
          (crlf ++ text)
          (rw (p.is_end_part k pos false, at_end_part, counted, some_parts, one_more, left) refl)
          crlf-IsNonzero
          (rw p.next_end_part (
            reading_piece w m (cursor b.next_part (suc k) 0 false) (cursor b.before (suc k) 0 false)
              crlf text (rw (p.is_next_part (suc k) 0 false, at_next_part, counted, next_left) refl)
              crlf-IsNonzero r))

  module _ (l : List Attachment)
      (listed : (c : Cursor) → current b.inline_parts m c ≡ some (get_elem? l c.current_attachment))
      (size : n ≡ length l) where
    chosen_at :
        (done : List Attachment) (a : Attachment) (left : List Attachment) (c : Cursor)
        → l ≡ done ++ a ∷ left
        → c.current_attachment ≡ length done
        → current b.inline_parts m c ≡ some (some a)
    chosen_at done a left c split at =
        rw (listed c, at, split) (ap some (get_elem?-append done left a))

    left_Reads :
        (done : List Attachment) (a : Attachment) (left : List Attachment) (more : Bool)
        (text : Text)
        → l ≡ done ++ a ∷ left
        → All (IsReadable b) (a ∷ left)
        → Reads w m (cursor b.after n 0 false) text
        → Reads w m (cursor (next b.before) (length done) 0 more) (parts_text b (a ∷ left) ++ text)
    left_Reads done a [] more text split h r =
        let total = ap length split ∙ length-append done (a ∷ []) in
        let body = wrap 76 (encoding (content_of_part a)) in
        rw
          (
            append_assoc b.boundary (part_text b a) text,
            append_assoc (b.kept (headers_of a)) (body ++ crlf) text,
            append_assoc body crlf text,
          )
          (part_Reads (length done) a (λ c at. chosen_at done a [] c split at)
            (omega (arith, total)) more (crlf ++ text) h.0
            (λ pos.
              last_Reads (length done) a (λ c at. chosen_at done a [] c split at)
                (omega (arith, total)) pos text (omega (arith, total)) r))
    left_Reads done a (a' ∷ left) more text split h r =
        let total = ap length split ∙ length-append done (a ∷ a' ∷ left) in
        let body = wrap 76 (encoding (content_of_part a)) in
        let shifted : (done ++ a ∷ []) ++ a' ∷ left ≡ done ++ a ∷ a' ∷ left =
          append_assoc done (a ∷ []) (a' ∷ left) in
        let one_more : length (done ++ a ∷ []) ≡ suc (length done) =
          omega (arith, length-append done (a ∷ [])) in
        let later = parts_text b (a' ∷ left) in
        let next_Reads =
          rw one_more at
            (left_Reads (done ++ a ∷ []) a' left false text (split ∙ sym shifted) h.1 r) in
        let chosen = λ (c : Cursor) (at : c.current_attachment ≡ length done).
          chosen_at done a (a' ∷ left) c split at in
        rw
          (
            append_assoc b.boundary (part_text b a ++ (crlf ++ later)) text,
            append_assoc (part_text b a) (crlf ++ later) text,
            append_assoc crlf later text,
            append_assoc (b.kept (headers_of a)) (body ++ crlf) (crlf ++ (later ++ text)),
            append_assoc body crlf (crlf ++ (later ++ text)),
          )
          (part_Reads (length done) a chosen (omega (arith, total)) more
            (crlf ++ (crlf ++ (later ++ text))) h.0
            (λ pos.
              more_Reads (length done) a chosen (omega (arith, total)) pos (later ++ text)
                (omega (arith, total)) next_Reads))

    -- With no attachment the cases fall through.
    no_parts_Reads :
        (more : Bool) (text : Text)
        → n ≡ 0
        → Reads w m (cursor b.after n 0 more) text
        → Reads w m (cursor (next b.before) 0 0 more) text
    unfolding at_start at_headers at_line at_line_end at_end_part at_next_part
    no_parts_Reads more text e r =
        let none_counted : count b.inline_parts m ≡ some 0 = counted ∙ ap some e in
        reading_same w m (cursor (next b.before) 0 0 more) (cursor b.after 0 0 more) text
          (rw (p.is_start 0 0 more, p.is_after 0 0 more, at_start, none_counted) refl) (rw e at r)

    -- The whole block, from its first case on.
    pub parts_Reads :
        (more : Bool) (text : Text)
        → All (IsReadable b) l
        → ((more : Bool) → Reads w m (cursor b.after n 0 more) text)
        → Reads w m (cursor (next b.before) 0 0 more) (parts_text b l ++ text)
    parts_Reads more text h r =
        let P : List Attachment → Type 0 = λ l'.
          l ≡ l'
          → All (IsReadable b) l'
          → Reads w m (cursor (next b.before) 0 0 more) (parts_text b l' ++ text) in
        elim l as P [
          | [] ↦ λ e _. no_parts_Reads more text (size ∙ ap length e) (r more)
          | a ∷ left ↦ λ e h'. left_Reads [] a left more text e h' (r false)
        ]
          refl h
