-- ===== src/Message/Dump.antt =====
-- The list of the names of a message's headers, of src/SMTPMessage.cc, and the dump of the headers of a
-- LibESMTPMessage, of src/LibESMTPProvider.cc.
use givemail.Base.{
  ◌≡◌, refl, sym, ap, Bool, true, false, ◌&&◌, Option, some, List, [], ◌∷◌, ◌++◌, append_assoc,
  append-nil, if◌then◌else◌, All, All-append, none, inl, inr, ◌⊎◌, Bool-cases, Option-cases,
}
use givemail.Base.Text.{Text, is_empty}
use givemail.Message.{
  SmtpHeader, Message, add_smtp_header, header_str, add_esmtp_header, add_header, append_header,
}

-- The names, each but the first behind a colon.
abbrev pub behind_colons : List SmtpHeader → Text
behind_colons [] = []
behind_colons (h ∷ hs) = b':' ∷ (h.name ++ behind_colons hs)

abbrev pub joined : List SmtpHeader → Text
joined [] = []
joined (h ∷ hs) = h.name ++ behind_colons hs

abbrev pub Named : SmtpHeader → Type 0
Named h = is_empty h.name ≡ false

-- The lines of the headers.
abbrev pub header_lines : List SmtpHeader → Text
header_lines [] = []
header_lines (h ∷ hs) = header_str h ++ header_lines hs

-- The list of the names is that of the headers, and so is the dump, of a message that has one.
pub record Listed (m : Message) : Type 0 where
  pub named : All Named m.headers
  pub listed : m.all_headers ≡ joined m.headers
  pub dumped : (text : Text) → m.headers_dump ≡ some text → text ≡ header_lines m.headers

behind_colons-append :
    (hs : List SmtpHeader) (h : SmtpHeader)
    → behind_colons (hs ++ h ∷ []) ≡ behind_colons hs ++ b':' ∷ h.name
behind_colons-append [] h = ap (◌∷◌ b':') (append-nil h.name)
behind_colons-append (g ∷ hs) h =
    rw (behind_colons-append hs h)
      (ap (◌∷◌ b':') (sym (append_assoc g.name (behind_colons hs) (b':' ∷ h.name))))

not_empty-append : (s t : Text) → is_empty s ≡ false → is_empty (s ++ t) ≡ false
not_empty-append [] t h = cc h
not_empty-append (c ∷ s) t h = refl

joined-append :
    (hs : List SmtpHeader) (h : SmtpHeader)
    → All Named hs
    → (if is_empty (joined hs) then h.name else joined hs ++ b':' ∷ h.name) ≡ joined (hs ++ h ∷ [])
joined-append [] h n = sym (append-nil h.name)
joined-append (g ∷ hs) h n =
    rw (not_empty-append g.name (behind_colons hs) n.0, behind_colons-append hs h)
      (append_assoc g.name (behind_colons hs) (b':' ∷ h.name))

header_lines-append :
    (hs : List SmtpHeader) (h : SmtpHeader)
    → header_lines (hs ++ h ∷ []) ≡ header_lines hs ++ header_str h
header_lines-append [] h = append-nil (header_str h)
header_lines-append (g ∷ hs) h =
    rw (header_lines-append hs h)
      (sym (append_assoc (header_str g) (header_lines hs) (header_str h)))

-- What a new header makes of the dump.
abbrev pub dump_more : SmtpHeader → Option Text → Option Text
dump_more h none = none
dump_more h (some text) = some (text ++ header_str h)

-- A header is not added, or added with a name to the headers and to the dump.
abbrev pub Added : SmtpHeader → Message → Message × Bool → Type 0
Added h m r =
    (r ≡ (m, false))
    ⊎ ((is_empty h.name ≡ false)
        × (r ≡ (
          record m { headers = m.headers ++ h ∷ []; headers_dump = dump_more h m.headers_dump },
          true,
        )))

add_header-Added_as :
    (dump : Option Text) (header value path : Text) (m : Message)
    → Added
        (record { name = header; value = value; path = path })
        (record m { headers_dump = dump })
        (add_header header value path (record m { headers_dump = dump }))
unfolding add_header add_smtp_header add_esmtp_header
add_header-Added_as none header value path m = elim (Bool-cases (is_empty header)) [
  | inl e ↦ rw (add_header, e) (inl refl)
  | inr e ↦ elim (Bool-cases (is_empty value && is_empty path)) [
    | inl f ↦ rw (add_header, e, f) (inl refl)
    | inr f ↦ rw (add_header, e, f) (inr (refl, refl))
  ]
]
add_header-Added_as (some text) header value path m = elim (Bool-cases (is_empty header)) [
  | inl e ↦ rw (add_header, e) (inl refl)
  | inr e ↦ elim (Bool-cases (is_empty value && is_empty path)) [
    | inl f ↦ rw (add_header, e, f) (inl refl)
    | inr f ↦ rw (add_header, e, f) (inr (refl, refl))
  ]
]

pub add_header-Added :
    (header value path : Text) (m : Message)
    → Added
        (record { name = header; value = value; path = path })
        m
        (add_header header value path m)
add_header-Added header value path m = add_header-Added_as m.headers_dump header value path m

dump_more-Listed :
    (h : SmtpHeader) (m : Message)
    → Listed m
    → (text : Text) → dump_more h m.headers_dump ≡ some text
    → text ≡ header_lines (m.headers ++ h ∷ [])
dump_more-Listed h m l text e = elim (Option-cases m.headers_dump) [
  | inl d ↦ let no : none ≡ some text = rw d at e in cc
  | inr (before, d) ↦
      let grown : some (before ++ header_str h) ≡ some text = rw d at e in
      let same : text ≡ before ++ header_str h = cc in
      rw (same, l.dumped before d) (sym (header_lines-append m.headers h))
]

pub append_header-Listed :
    (header value path : Text) (m : Message) → Listed m → Listed (append_header header value path m)
unfolding append_header
append_header-Listed header value path m l =
    let h : SmtpHeader = record { name = header; value = value; path = path } in
    elim (add_header-Added header value path m) [
      | inl e ↦ rw (append_header, e) l
      | inr (n, e) ↦
          rw (append_header, e)
            (record {
              named = All-append Named m.headers (h ∷ []) l.named (n, tt);
              listed = rw l.listed (joined-append m.headers h l.named);
              dumped = dump_more-Listed h m l;
            })
    ]
