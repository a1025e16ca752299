-- ===== src/Esmtp/New.antt =====
-- What the constructor of LibESMTPMessage, of src/LibESMTPProvider.cc, makes, and how it is read.
use givemail.Base.{
  ℕ, suc, ◌+◌, ◌^◌, ◌<◌, ◌≡◌, refl, sym, ap, subst, ◌∙◌, Bool, true, false, inl, inr, Option, none,
  some, [], ◌++◌, length,
}
use givemail.Base.Text.{Text, codes}
use givemail.Details.{MessageDetails, load_attachments}
use givemail.Details.Parts.{Built, loaded, parts}
use givemail.Message.{SmtpHeader, header_str, Message, Templates, append_header}
use givemail.Message.Headers.{Chance}
use givemail.Message.Dump.{Listed, header_lines, dump_more, add_header-Added}
use givemail.Message.Keeps.{Closed, Random, build_headers_keeps}
use givemail.Message.Listed.{Listed-Closed}
use givemail.Esmtp.{Cursor, Memory}
use givemail.Esmtp.Callback.{dump, get_message_data}
use givemail.Esmtp.Content.{
  Contents, qp_encode, substitute_content, encode_content, build_esmtp_headers, new_esmtp_message,
}
use givemail.Esmtp.Stream.{IsLoaded, IsPlainText}
use givemail.Esmtp.Tree.{print, message_entity}
use givemail.Esmtp.Document.{IsShown, get_message_data-message_entity}

-- A message with a dump that is the lines of its headers, and with these contents and details.
pub record Holds (plain html : Text) (d : MessageDetails) (m : Message) : Type 0 where
  is_plain : m.plain_content ≡ plain
  is_html : m.html_content ≡ html
  given : m.details ≡ some d
  dumped : (text : Text) × (m.headers_dump ≡ some text)
  listed : Listed m

Holds-append :
    (plain html : Text) (d : MessageDetails) (header value path : Text) (m : Message)
    → Holds plain html d m
    → Holds plain html d (append_header header value path m)
unfolding append_header
Holds-append plain html d header value path m l =
    let kept = Listed-Closed.append header value path m l.listed in
    elim (add_header-Added header value path m) [
      | inl e ↦ rw (append_header, e) l
      | inr (n, e) ↦
          let h : SmtpHeader = record { name = header; value = value; path = path } in
          let listed = rw (append_header, e) at kept in
          let (text, dumped) = l.dumped in
          rw (append_header, e)
            (record {
              is_plain = l.is_plain;
              is_html = l.is_html;
              given = l.given;
              dumped = (text ++ header_str h, ap (dump_more h) dumped);
              listed = listed;
            })
    ]

Holds-Closed : (plain html : Text) (d : MessageDetails) → Closed (Holds plain html d)
Holds-Closed plain html d = record {
  append = Holds-append plain html d;
  counted = λ n m l. record {
    is_plain = l.is_plain;
    is_html = l.is_html;
    given = l.given;
    dumped = l.dumped;
    listed = Listed-Closed.counted n m l.listed;
  };
  from_set = λ from m l. record {
    is_plain = l.is_plain;
    is_html = l.is_html;
    given = l.given;
    dumped = l.dumped;
    listed = Listed-Closed.from_set from m l.listed;
  };
}

abbrev dump_text : Option Text → Text
dump_text none = []
dump_text (some text) = text

-- The contents that a template gives, encoded.
abbrev pub plain_of : Contents → Message → Text
plain_of contents m = qp_encode (contents.plain (m.msg_id ++ codes "p") m.field_values)

abbrev pub html_of : Contents → Message → Text
html_of contents m = qp_encode (contents.html (m.msg_id ++ codes "h") m.field_values)

module _ (contents : Contents) (load_raw : Text → Option Text) (t : Templates) (r : Chance)
    (date : Option Text) (agent : Text) (m : Message) (d : MessageDetails)
    (given : m.details ≡ some d) (no_headers : m.headers ≡ []) (no_names : m.all_headers ≡ [])
    (random : Random r (load_attachments load_raw d)) where
  abbrev New : Message → Type 0
  New = Holds (plain_of contents m) (html_of contents m) (load_attachments load_raw d)

  encoded-New : New (encode_content contents load_raw (record m { headers_dump = some [] }))
  unfolding encode_content substitute_content
  encoded-New =
      rw (given, substitute_content, given)
        (record {
          is_plain = refl;
          is_html = refl;
          given = refl;
          dumped = ([], refl);
          listed = record {
            named = rw no_headers tt;
            listed = rw (no_headers, no_names) refl;
            dumped = λ text e. let same : text ≡ [] = cc in rw (no_headers, same) refl;
          };
        })

  new_esmtp_message-New :
      (m' : Message) × (new_esmtp_message contents load_raw t r date agent m ≡ some m') × New m'
  unfolding new_esmtp_message build_esmtp_headers
  new_esmtp_message-New =
      let m0 = encode_content contents load_raw (record m { headers_dump = some [] }) in
      let P = Holds (plain_of contents m) (html_of contents m) (load_attachments load_raw d) in
      let closed =
        Holds-Closed (plain_of contents m) (html_of contents m) (load_attachments load_raw d) in
      let held = encoded-New in
      let with_date : (o : Option Text)
          → P (elim o [ none ↦ m0 | some text ↦ append_header (codes "Date") text [] m0 ]) =
        λ o.
          elim o
            as (λ o.
              P (elim o [ none ↦ m0 | some text ↦ append_header (codes "Date") text [] m0 ])) [
                | none ↦ held
                | some text ↦ closed.append (codes "Date") text [] m0 held
              ] in
      let dated = with_date date in
      rw (new_esmtp_message, build_esmtp_headers, held.given)
        (build_headers_keeps P closed r (load_attachments load_raw d) random t agent _ dated.given
          dated)

  -- A message that the constructor makes, of one that the base class has put no header in, is read,
  -- from wherever the cursor stands, as the lines of its headers and the print of the entity of its
  -- contents, which qpEncode has encoded, and its attachments, which are loaded: with any fuel from
  -- some number on. This is so where the details are built by their methods, with fewer than 2 ^ 32
  -- attachments of each kind; the contents come as HTML, or plain without inline parts; nothing that
  -- is read has a zero byte, and the contents of the attachments are bytes; the random numbers print
  -- as byte strings, the first of each id as one byte or more, and the sender's address is a byte
  -- string. The headers of an inline part are what the memory of a string that is gone reads as.
  pub new_esmtp_message-header_lines :
      (w : Memory) (c : Cursor)
      → Built d
      → ((inline_parts : Bool) → length (parts inline_parts (load_attachments load_raw d)) < 2 ^ 32)
      → (m' : Message) → new_esmtp_message contents load_raw t r date agent m ≡ some m'
      → IsPlainText w m' (load_attachments load_raw d)
      → IsShown
          (plain_of contents m)
          (html_of contents m)
          (parts true (load_attachments load_raw d))
      → (n : ℕ) × ((k : ℕ)
          → get_message_data w m' (suc (n + k)) c
            ≡ some (
                header_lines m'.headers
                ++ print
                    (message_entity w
                      (parts true (load_attachments load_raw d))
                      (parts false (load_attachments load_raw d))
                      (plain_of contents m)
                      (html_of contents m))
                    []))
  new_esmtp_message-header_lines w c built few m' made readable shown =
      let d' = load_attachments load_raw d in
      let (m2, e, h2) = new_esmtp_message-New in
      let same : m2 ≡ m' = let both : some m2 ≡ some m' = sym e ∙ made in cc in
      let h : Holds (plain_of contents m) (html_of contents m) d' m' =
        subst (Holds (plain_of contents m) (html_of contents m) d') same h2 in
      let is_loaded : IsLoaded m' d' = record {
        given = h.given;
        built = loaded load_raw built;
        few = few;
      } in
      let (text, dumped) = h.dumped in
      let lines : dump m' ≡ header_lines m'.headers =
        ap dump_text dumped ∙ h.listed.dumped text dumped in
      let entity_of =
        λ (p : Text) (q : Text). print (message_entity w (parts true d') (parts false d') p q) [] in
      let shown' : IsShown m'.plain_content m'.html_content (parts true d') =
        subst (λ p. IsShown p m'.html_content (parts true d')) (sym h.is_plain)
          (subst (λ q. IsShown (plain_of contents m) q (parts true d')) (sym h.is_html) shown) in
      let (n, r) = get_message_data-message_entity w m' d' c is_loaded readable shown' in
      let printed : dump m' ++ entity_of m'.plain_content m'.html_content
          ≡ header_lines m'.headers ++ entity_of (plain_of contents m) (html_of contents m) =
        ap (λ t. t ++ entity_of m'.plain_content m'.html_content) lines
        ∙ (ap (λ p. header_lines m'.headers ++ entity_of p m'.html_content) h.is_plain
            ∙ ap (λ q. header_lines m'.headers ++ entity_of (plain_of contents m) q) h.is_html) in
      (n, λ k. r k ∙ ap some printed)
