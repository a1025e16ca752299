-- ===== src/Esmtp/Document.antt =====
-- getMessageData of src/LibESMTPProvider.cc gives the entity of MIME that the message stands for.
use givemail.Base.{
  ℕ, suc, ◌+◌, ◌≡◌, refl, ap, ◌∙◌, true, false, not, ◌&&◌, ◌||◌, some, List, [], ◌∷◌, ◌++◌, ltb,
  length, null, arith,
}
use givemail.Base.Text.{Text, is_empty}
use givemail.Details.{Attachment, MessageDetails}
use givemail.Details.Parts.{parts}
use givemail.Message.{Message, requires_mixed_parts, requires_related_parts}
use givemail.Esmtp.{Cursor, Memory, crlf}
use givemail.Esmtp.Blocks.{inline_block, attachment_block}
use givemail.Esmtp.Callback.{dump, lacks_newline, get_message_data}
use givemail.Esmtp.Parts.{parts_text}
use givemail.Esmtp.Stream.{
  IsLoaded, IsPlainText, when, mixed_text, at_message, is_kind, whole_Reads,
}
use givemail.Esmtp.Tree.{
  print, print_parts, mixed_boundary, related_boundary, message_entity, print_parts-parts_text,
}

-- The byte behind a content is no line feed.
pub lacks_newline_always : (s : Text) → lacks_newline s ≡ true
unfolding lacks_newline
lacks_newline_always [] = refl
lacks_newline_always (b ∷ s) = lacks_newline_always s

when_some : (s : Text) → when (not (is_empty s)) s ≡ s
when_some [] = refl
when_some (b ∷ s) = refl

ltb-length : (l : List Attachment) → ltb 0 (length l) ≡ not (null l)
ltb-length [] = ground arith
ltb-length (a ∷ l) = ground arith

-- There is something to show, and the inline parts, if any, are behind HTML content.
abbrev pub IsShown : Text → Text → List Attachment → Type 0
IsShown p h i = (not (is_empty h) || (not (is_empty p) && null i)) ≡ true

module _ (w : Memory) where
  -- The texts of the cases are the entity, by what there is of contents and attachments.
  IsEntity : Text → Text → List Attachment → List Attachment → Type 0
  IsEntity p h i a =
      mixed_text (not (null a)) (not (null i)) p h (parts_text (inline_block w) i)
        (parts_text (attachment_block w) a)
      ≡ print (message_entity w i a p h) []

  plain_only : (b : ℕ) (p : Text) → IsEntity (b ∷ p) [] [] []
  unfolding IsEntity print print_parts
  plain_only b p = rw (lacks_newline_always (b ∷ p)) refl

  plain_attached :
      (b : ℕ) (p : Text) (x : Attachment) (a : List Attachment) → IsEntity (b ∷ p) [] [] (x ∷ a)
  unfolding IsEntity print print_parts
  plain_attached b p x a =
      rw
        (
          lacks_newline_always (b ∷ p),
          print_parts-parts_text (attachment_block w) mixed_boundary x a crlf refl,
        )
        refl

  html_only : (c : ℕ) (h : Text) → IsEntity [] (c ∷ h) [] []
  unfolding IsEntity print print_parts
  html_only c h = rw (lacks_newline_always (c ∷ h)) refl

  html_inline :
      (c : ℕ) (h : Text) (y : Attachment) (i : List Attachment) → IsEntity [] (c ∷ h) (y ∷ i) []
  unfolding IsEntity print print_parts
  html_inline c h y i =
      rw
        (
          lacks_newline_always (c ∷ h),
          print_parts-parts_text (inline_block w) related_boundary y i crlf refl,
        )
        refl

  html_attached :
      (c : ℕ) (h : Text) (x : Attachment) (a : List Attachment) → IsEntity [] (c ∷ h) [] (x ∷ a)
  unfolding IsEntity print print_parts
  html_attached c h x a =
      rw
        (
          lacks_newline_always (c ∷ h),
          print_parts-parts_text (attachment_block w) mixed_boundary x a crlf refl,
        )
        refl

  html_inline_attached :
      (c : ℕ) (h : Text) (y : Attachment) (i : List Attachment) (x : Attachment)
      (a : List Attachment)
      → IsEntity [] (c ∷ h) (y ∷ i) (x ∷ a)
  unfolding IsEntity print print_parts
  html_inline_attached c h y i x a =
      let attached = print_parts-parts_text (attachment_block w) mixed_boundary x a crlf refl in
      rw
        (
          lacks_newline_always (c ∷ h),
          attached,
          print_parts-parts_text (inline_block w) related_boundary y i _ refl,
        )
        refl

  both : (b : ℕ) (p : Text) (c : ℕ) (h : Text) → IsEntity (b ∷ p) (c ∷ h) [] []
  unfolding IsEntity print print_parts
  both b p c h = rw (lacks_newline_always (b ∷ p), lacks_newline_always (c ∷ h)) refl

  both_inline :
      (b : ℕ) (p : Text) (c : ℕ) (h : Text) (y : Attachment) (i : List Attachment)
      → IsEntity (b ∷ p) (c ∷ h) (y ∷ i) []
  unfolding IsEntity print print_parts
  both_inline b p c h y i =
      rw
        (
          lacks_newline_always (b ∷ p),
          lacks_newline_always (c ∷ h),
          print_parts-parts_text (inline_block w) related_boundary y i _ refl,
        )
        refl

  both_attached :
      (b : ℕ) (p : Text) (c : ℕ) (h : Text) (x : Attachment) (a : List Attachment)
      → IsEntity (b ∷ p) (c ∷ h) [] (x ∷ a)
  unfolding IsEntity print print_parts
  both_attached b p c h x a =
      rw
        (
          lacks_newline_always (b ∷ p),
          lacks_newline_always (c ∷ h),
          print_parts-parts_text (attachment_block w) mixed_boundary x a crlf refl,
        )
        refl

  both_inline_attached :
      (b : ℕ) (p : Text) (c : ℕ) (h : Text) (y : Attachment) (i : List Attachment) (x : Attachment)
      (a : List Attachment)
      → IsEntity (b ∷ p) (c ∷ h) (y ∷ i) (x ∷ a)
  unfolding IsEntity print print_parts
  both_inline_attached b p c h y i x a =
      rw
        (
          lacks_newline_always (b ∷ p),
          lacks_newline_always (c ∷ h),
          print_parts-parts_text (attachment_block w) mixed_boundary x a crlf refl,
          print_parts-parts_text (inline_block w) related_boundary y i _ refl,
        )
        refl

  entity : (p h : Text) (i a : List Attachment) → IsShown p h i → IsEntity p h i a
  entity (b ∷ p) [] [] [] shown = plain_only b p
  entity (b ∷ p) [] [] (x ∷ a) shown = plain_attached b p x a
  entity (b ∷ p) [] (y ∷ i) a shown = cc
  entity [] [] i a shown = cc
  entity [] (c ∷ h) [] [] shown = html_only c h
  entity [] (c ∷ h) (y ∷ i) [] shown = html_inline c h y i
  entity [] (c ∷ h) [] (x ∷ a) shown = html_attached c h x a
  entity [] (c ∷ h) (y ∷ i) (x ∷ a) shown = html_inline_attached c h y i x a
  entity (b ∷ p) (c ∷ h) [] [] shown = both b p c h
  entity (b ∷ p) (c ∷ h) (y ∷ i) [] shown = both_inline b p c h y i
  entity (b ∷ p) (c ∷ h) [] (x ∷ a) shown = both_attached b p c h x a
  entity (b ∷ p) (c ∷ h) (y ∷ i) (x ∷ a) shown = both_inline_attached b p c h y i x a

-- What is read, by the texts of the cases.
pub read_as :
    (w : Memory) (m : Message) (d : MessageDetails) (c : Cursor) (text : Text)
    → IsLoaded m d
    → IsPlainText w m d
    → mixed_text
        (not (null (parts false d)))
        (not (null (parts true d)))
        m.plain_content
        m.html_content
        (parts_text (inline_block w) (parts true d))
        (parts_text (attachment_block w) (parts false d))
      ≡ text
    → (n : ℕ) × ((k : ℕ) → get_message_data w m (suc (n + k)) c ≡ some (dump m ++ text))
unfolding get_message_data
read_as w m d c text loaded readable e =
    let (n, r) = whole_Reads w m d loaded readable c in
    let is_mixed : requires_mixed_parts m ≡ not (null (parts false d)) =
      is_kind w m d loaded readable false ∙ ltb-length (parts false d) in
    let is_related : requires_related_parts m ≡ not (null (parts true d)) =
      is_kind w m d loaded readable true ∙ ltb-length (parts true d) in
    let same : when (not (is_empty (dump m))) (dump m) ++ at_message w m d mixed_text
        ≡ dump m ++ text =
      rw (when_some (dump m), is_mixed, is_related, e) refl in
    (n, λ k. r k ∙ ap some same)

-- getMessageData returns: from some number of calls on, any fuel gives the headers' dump and behind
-- it the print of one entity of MIME, the message with its contents and attachments. This is so
-- wherever the cursor stands, where there is HTML content, or plain content and no inline part, the
-- details are built by their methods, with fewer than 2 ^ 32 attachments of each kind, nothing that
-- is read has a zero byte, and the contents of the attachments are bytes. The headers of an inline
-- part are what the memory of a string that is gone reads as.
pub get_message_data-message_entity :
    (w : Memory) (m : Message) (d : MessageDetails) (c : Cursor)
    → IsLoaded m d
    → IsPlainText w m d
    → IsShown m.plain_content m.html_content (parts true d)
    → (n : ℕ) × ((k : ℕ)
        → get_message_data w m (suc (n + k)) c
          ≡ some (
              dump m
              ++ print
                  (message_entity w (parts true d) (parts false d) m.plain_content m.html_content)
                  []))
unfolding IsEntity
get_message_data-message_entity w m d c loaded readable shown =
    read_as w m d c _ loaded readable
      (entity w m.plain_content m.html_content (parts true d) (parts false d) shown)
