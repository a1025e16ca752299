-- ===== src/Web/Xml/Signed.antt =====
-- What processXml gives to the parser where it has to check the authentication.
use givemail.Base.{
  ℕ, ◌^◌, ◌≤◌, ◌<◌, ◌≡◌, ◌⊎◌, refl, inl, inr, true, false, Option, none, some, arith, ◌==◌, length,
  drop, by_test, Option-cases,
}
use givemail.Base.Text.{Text, codes}
use givemail.Web.Gate.{starts_nocase}
use givemail.Web.Carve.{get_content, carve, get_content-length}
use givemail.Web.Auth.{Services, verify_authentication}
use givemail.Web.Auth.Verdicts.{IsAuthentic, verify_authentication-IsAuthentic}
use givemail.Web.Xml.Layout.{IsLaidOut, carve-IsLaidOut, length-c_string, Fits}
use givemail.Web.Xml.{
  Served, Received, refused, content, receive, date_of, authorize, process_content, process_xml,
}

module _ (s : Services) (auth : Text) (now : ℕ) where
  -- The part of `text` from `from` on, under its date, carries the signature.
  pub record IsSigned (text : Text) (from n : ℕ) : Type 0 where
    pub date : Text
    pub laid_out : IsLaidOut text date from n
    pub authentic : IsAuthentic s date auth now (drop from text)

  abbrev PartSigned : Text → Option (ℕ × ℕ) → Type 0
  PartSigned text none = Unit
  PartSigned text (some (from, n)) = IsSigned text from n

  abbrev AllSigned : Text → Option Served → Type 0
  AllSigned text none = Unit
  AllSigned text (some r) = PartSigned text r.parsed

  module _ (text : Text) (size : ℕ) (size_fits : size < 2 ^ 32)
      (text_fits : length text < 2 ^ 31) where
    authorize-AllSigned :
        (date : Text) (from n : ℕ)
        → date_of text ≡ some date
        → carve text size ≡ some (from, n)
        → (n == 0) ≡ false
        → AllSigned text (authorize s true date auth now text from n)
    unfolding authorize
    authorize-AllSigned date from n d c z =
        elim (Option-cases (verify_authentication s date auth now (drop from text))) [
          | inl e ↦ rw (AllSigned, e) tt
          | inr (v, e) ↦
              rw (AllSigned, e)
                (by_test (PartSigned text) v.good
                  (λ g.
                    let a =
                      verify_authentication-IsAuthentic s date auth now (drop from text) v e g in
                    record {
                      date = date;
                      laid_out =
                          carve-IsLaidOut text date size size_fits text_fits from n c z a.dated d;
                      authentic = a;
                    })
                  (λ _. tt))
        ]

    process_content-AllSigned : AllSigned text (process_content s true auth now text size)
    unfolding process_content
    process_content-AllSigned = elim (Option-cases (date_of text)) [
      | inl d ↦ rw (AllSigned, d) tt
      | inr (date, d) ↦ elim (Option-cases (carve text size)) [
        | inl c ↦ rw (AllSigned, d, c) tt
        | inr ((from, n), c) ↦
            rw (AllSigned, d, c)
              (by_test (AllSigned text) (n == 0) (λ _. tt)
                (λ z. authorize-AllSigned date from n d c z))
      ]
    ]

    parsed-IsSigned :
        (from n : ℕ) (r : Served)
        → process_content s true auth now text size ≡ some r
        → r.parsed ≡ some (from, n)
        → IsSigned text from n
    parsed-IsSigned from n r e p =
        let all : PartSigned text r.parsed = rw e at process_content-AllSigned in rw p at all

-- The cases of what was received.
receive-cases :
    (r : Received)
    → ((message : Text) × (r ≡ refused message))
      ⊎ ((text : Text) × (size : ℕ) × (r ≡ content text size))
receive-cases (refused message) = inl (message, refl)
receive-cases (content text size) = inr (text, size, refl)

module _ (decode : Text → ℕ → Text) (content_type : Text) (declared : ℕ)
    (declared_fits : declared < 2 ^ 31)
    (decoded_fits : (raw : Text) (n : ℕ) → length (decode raw n) ≤ n) where
  receive-Fits : (input : Text) → Fits (receive decode content_type declared input)
  unfolding receive
  receive-Fits input = elim (Option-cases (get_content declared input)) [
    | inl e ↦ rw (receive, e) tt
    | inr (raw, e) ↦
        let decoded = decode raw declared in
        let short = get_content-length declared input raw e in
        rw (receive, e)
          (by_test Fits (starts_nocase (codes "application/x-www-form-urlencoded") content_type)
            (λ _. (
              omega arith,
              omega (arith, length-c_string decoded, decoded_fits raw declared, declared_fits),
            ))
            (λ _.
              by_test Fits (starts_nocase (codes "text/xml") content_type)
                (λ _. (
                  omega (arith, declared_fits),
                  omega (arith, length-c_string raw, short, declared_fits),
                ))
                (λ _. tt)))
  ]

  -- Where processXml has to check the authentication, for a declared length below 2 ^ 31 and a
  -- decoding of URLs that never lengthens: what it gives to the parser starts at the end of the
  -- headers of the received content, which stand in front of the first opening tag, and the Date
  -- header, the signature and the content from there on meet the conditions of
  -- verifyAuthentication. It is not empty and ends with the first closing tag of the content, unless
  -- that tag ends within the headers: then its length goes past the end of the content.
  pub process_xml-IsSigned :
      (s : Services) (auth : Text) (now : ℕ) (input : Text) (r : Served) (from n : ℕ)
      → process_xml s decode true auth content_type declared input now ≡ some r
      → r.parsed ≡ some (from, n)
      → (text : Text) × (size : ℕ) × (receive decode content_type declared input
          ≡ content text size)
        × IsSigned s auth now text from n
  unfolding process_xml
  process_xml-IsSigned s auth now input r from n e p =
      let fits = receive-Fits input in
      elim (receive-cases (receive decode content_type declared input)) [
        | inl (message, m) ↦
            let nothing : r.parsed ≡ none = cc (rw (process_xml, m) at e) in absurd (cc)
        | inr (text, size, m) ↦
            let (a, b) : Fits (content text size) = rw m at fits in
            (
              text,
              size,
              m,
              parsed-IsSigned s auth now text size a b from n r (rw (process_xml, m) at e) p,
            )
      ]
