-- ===== src/Esmtp/Tree.antt =====
-- The entities of MIME that a message stands for, and how they are printed (RFC 2046, section 5.1).
use givemail.Base.{◌≡◌, refl, ap, List, [], ◌∷◌, ◌++◌, append_assoc, if◌then◌else◌}
use givemail.Base.Text.{Text, codes, is_empty}
use givemail.Base64.Encoder.{encoding}
use givemail.Details.{Attachment}
use givemail.Esmtp.{Memory, crlf, start_plain_text, start_html_text}
use givemail.Esmtp.Blocks.{Block, inline_block, attachment_block, headers_of}
use givemail.Esmtp.Wrap.{wrap}
use givemail.Esmtp.Parts.{content_of_part, part_text, parts_text}

-- A leaf has headers, a body and what follows it; a multipart entity has headers with a preamble, a
-- boundary, parts and an epilogue.
mutual
  pub data Entity : Type 0 where
    leaf : Text → Text → Text → Entity
    multipart : Text → Text → Entities → Text → Entity

  pub data Entities : Type 0 where
    no_more : Entities
    part : Entity → Entities → Entities

-- An entity in front of a text: the delimiters of its parts are its boundary behind two hyphens, at
-- the beginning of a line, and the last ends with two more.
unfoldable mutual
  pub print : Entity → Text → Text
  print (leaf headers body trailer) text = headers ++ (body ++ (trailer ++ text))
  print (multipart headers boundary entities epilogue) text =
      headers ++ print_parts boundary entities (epilogue ++ text)

  pub print_parts : Text → Entities → Text → Text
  print_parts boundary no_more text = codes "--" ++ (boundary ++ (codes "--\r\n" ++ text))
  print_parts boundary (part entity entities) text =
      codes "--"
      ++ (boundary ++ (crlf ++ print entity (crlf ++ print_parts boundary entities text)))

-- The headers of a multipart entity.
abbrev pub multipart_headers : Text → Text → Text → Text
multipart_headers subtype boundary preamble =
    codes "Content-Type: multipart/"
    ++ (subtype ++ (codes ";\r\n\tboundary=\"" ++ (boundary ++ (codes "\"\r\n\r\n" ++ preamble))))

abbrev pub mixed_boundary : Text
mixed_boundary = codes "----=_NextMixedPart"

abbrev pub alternative_boundary : Text
alternative_boundary = codes "----=_NextAltPart"

abbrev pub related_boundary : Text
related_boundary = codes "----=_NextRelatedPart"

-- The entities of attachments: the headers, and the content in lines of base64.
abbrev pub entities_of : Block → List Attachment → Entities
entities_of b [] = no_more
entities_of b (a ∷ rest) =
    part (leaf (b.kept (headers_of a)) (wrap 76 (encoding (content_of_part a))) crlf)
      (entities_of b rest)

module _ (w : Memory) (inline_parts attachments : List Attachment) where
  -- The HTML content, together with the inline parts where there are some.
  abbrev pub html_entity : Text → Text → Entity
  html_entity html trailer = elim inline_parts [
    | [] ↦ leaf start_html_text html trailer
    | a ∷ rest ↦
        multipart (multipart_headers (codes "related") related_boundary []) related_boundary
          (part (leaf start_html_text html []) (entities_of (inline_block w) (a ∷ rest))) trailer
  ]

  -- The contents: one of them, or both as alternatives, the plain one first.
  abbrev pub text_entity : Text → Text → Text → Text → Entity
  text_entity preamble plain html trailer =
      if is_empty plain
      then html_entity html trailer
      else if is_empty html
      then leaf start_plain_text plain []
      else multipart (multipart_headers (codes "alternative") alternative_boundary preamble)
          alternative_boundary
          (part (leaf start_plain_text plain []) (part (html_entity html crlf) no_more)) trailer

  -- The message: its contents, with the attachments behind them where there are some.
  abbrev pub message_entity : Text → Text → Entity
  message_entity plain html = elim attachments [
    | [] ↦
        text_entity (codes "This is a multi-part message in MIME format.\r\n\r\n") plain html
          (elim inline_parts [ [] ↦ if is_empty plain then [] else crlf | a ∷ rest ↦ crlf ])
    | a ∷ rest ↦
        multipart
          (multipart_headers (codes "mixed") mixed_boundary (
            codes
              "This is a message in multipart MIME format. Your mail client should not be displaying this. Consider upgrading your mail client to view this message correctly.\r\n\r\n"))
          mixed_boundary
          (part (text_entity crlf plain html []) (entities_of (attachment_block w) (a ∷ rest))) crlf
  ]

-- Attachments behind one another are printed with the boundary of their block.
pub print_parts-parts_text :
    (b : Block) (boundary : Text) (a : Attachment) (rest : List Attachment) (text : Text)
    → b.boundary ≡ codes "--" ++ (boundary ++ crlf)
    → print_parts boundary (entities_of b (a ∷ rest)) text
      ≡ parts_text b (a ∷ rest) ++ (crlf ++ (codes "--" ++ (boundary ++ (codes "--\r\n" ++ text))))
unfolding print print_parts
print_parts-parts_text b boundary a [] text e =
    let after = crlf ++ (codes "--" ++ (boundary ++ (codes "--\r\n" ++ text))) in
    let body = wrap 76 (encoding (content_of_part a)) in
    rw
      (
        append_assoc b.boundary (part_text b a) after,
        e,
        append_assoc boundary crlf (part_text b a ++ after),
        append_assoc (b.kept (headers_of a)) (body ++ crlf) after,
        append_assoc body crlf after,
      )
      refl
print_parts-parts_text b boundary a (a' ∷ rest) text e =
    let after = crlf ++ (codes "--" ++ (boundary ++ (codes "--\r\n" ++ text))) in
    let body = wrap 76 (encoding (content_of_part a)) in
    let later = parts_text b (a' ∷ rest) in
    let ih = print_parts-parts_text b boundary a' rest text e in
    rw
      (
        append_assoc b.boundary (part_text b a ++ (crlf ++ later)) after,
        append_assoc (part_text b a) (crlf ++ later) after,
        append_assoc crlf later after,
        e,
        append_assoc boundary crlf (part_text b a ++ (crlf ++ (later ++ after))),
        append_assoc (b.kept (headers_of a)) (body ++ crlf) (crlf ++ (later ++ after)),
        append_assoc body crlf (crlf ++ (later ++ after)),
      )
      (ap
        (λ (t : Text).
          codes "--"
          ++ (boundary ++ (crlf ++ (b.kept (headers_of a) ++ (body ++ (crlf ++ (crlf ++ t)))))))
        ih)
