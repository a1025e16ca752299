-- ===== src/Esmtp/Unopened.antt =====
-- What getMessageData of src/LibESMTPProvider.cc gives where inline parts come without HTML content.
use givemail.Base.{
  sym, append-nil, ap, ℕ, suc, ◌+◌, ◌≡◌, refl, ap, ◌∙◌, true, false, not, some, List, [], ◌∷◌, ◌++◌,
  null,
}
use givemail.Base.Text.{Text, is_empty}
use givemail.Details.{Attachment, MessageDetails}
use givemail.Details.Parts.{parts}
use givemail.Message.{Message}
use givemail.Esmtp.{start_plain_text, Cursor, Memory, crlf}
use givemail.Esmtp.Blocks.{inline_block, attachment_block}
use givemail.Esmtp.Callback.{dump, get_message_data}
use givemail.Esmtp.Parts.{parts_text}
use givemail.Esmtp.Stream.{IsLoaded, IsPlainText, mixed_text}
use givemail.Esmtp.Tree.{
  leaf, print, print_parts, entities_of, related_boundary, print_parts-parts_text,
}
use givemail.Esmtp.Document.{read_as, lacks_newline_always}

unopened :
    (w : Memory) (p h : Text) (i a : List Attachment)
    → is_empty p ≡ false
    → h ≡ []
    → null i ≡ false
    → a ≡ []
    → mixed_text
        (not (null a))
        (not (null i))
        p
        h
        (parts_text (inline_block w) i)
        (parts_text (attachment_block w) a)
      ≡ print
          (leaf start_plain_text p
            (crlf ++ print_parts related_boundary (entities_of (inline_block w) i) crlf))
          []
unfolding print
unopened w [] h i a ep eh ei ea = cc
unopened w (b ∷ p) h [] a ep eh ei ea = cc
unopened w (b ∷ p) h (y ∷ i) a ep eh ei ea =
    let delimited = print_parts related_boundary (entities_of (inline_block w) (y ∷ i)) crlf in
    let printed = print_parts-parts_text (inline_block w) related_boundary y i crlf refl in
    rw (eh, ea, lacks_newline_always (b ∷ p))
      (ap (λ (t : Text). start_plain_text ++ ((b ∷ p) ++ (crlf ++ t)))
        (sym printed ∙ sym (append-nil delimited)))

-- A plain content, no HTML content and inline parts: what is read, with any fuel from some number of
-- calls on, is the headers' dump and one entity, the plain content, for neither a multipart entity nor
-- its boundary is declared; the inline parts, with their delimiters, stand behind the content in its
-- body. This is so where there are no attachments, on the same conditions on the details and the bytes
-- as with HTML content.
pub get_message_data-unopened :
    (w : Memory) (m : Message) (d : MessageDetails) (c : Cursor)
    → IsLoaded m d
    → IsPlainText w m d
    → is_empty m.plain_content ≡ false
    → m.html_content ≡ []
    → null (parts true d) ≡ false
    → parts false d ≡ []
    → (n : ℕ) × ((k : ℕ)
        → get_message_data w m (suc (n + k)) c
          ≡ some (
              dump m
              ++ print
                  (leaf start_plain_text m.plain_content (
                    crlf
                    ++ print_parts related_boundary
                        (entities_of (inline_block w) (parts true d))
                        crlf))
                  []))
get_message_data-unopened w m d c loaded readable has_plain no_html has_inline no_attachments =
    read_as w m d c _ loaded readable (
      unopened w m.plain_content m.html_content (parts true d) (parts false d) has_plain no_html
        has_inline no_attachments)
