-- ===== src/Web/Carve.antt =====
-- The part of a posted request that processXml of src/webapi-fcgi.cc parses. The content is the C
-- string up to its first 0; `declared` is the content's length that the client gave.
use givemail.Base.{
  zero, suc, ℕ, ◌+◌, ◌-◌, ◌%◌, ◌^◌, ◌≤◌, ◌<◌, ◌≡◌, refl, ap, ◌⊎◌, inl, inr, Bool-cases,
  Option-cases, true, false, Option, none, some, [], ◌∷◌, arith, ltb, if◌then◌else◌, length, take,
}
use givemail.Base.Text.{Text, codes, find_text}
use givemail.Base.Find.{find_text-length}

-- getContent: at most 1000000 bytes of the input are kept.
unfoldable pub get_content : ℕ → Text → Option Text
get_content declared input =
    let kept = if ltb declared 1000000 then declared else 1000000 in
    if ltb 0 declared then some (take kept input) else none

-- The end of the headers, and the length of what ends them.
unfoldable pub find_headers_end : Text → Option (ℕ × ℕ)
find_headers_end content = elim (find_text (codes "\r\n\r\n") content) [
  | some end ↦ some (end, 4)
  | none ↦ elim (find_text (codes "\n\n") content) [ some end ↦ some (end, 2) | none ↦ none ]
]

-- "</GiveMail>"
abbrev pub closing : Text
closing = codes "</GiveMail>"

-- shavedAtEnd and xmlLength: both are of 32 bits.
abbrev pub shaved_at_end : ℕ → ℕ → ℕ
shaved_at_end declared end = (declared + 2 ^ 32 - (end + 11)) % 2 ^ 32

abbrev pub carved_length : ℕ → ℕ → ℕ → ℕ
carved_length declared shaved_at_start end =
    (declared + 2 ^ 33 - shaved_at_start - shaved_at_end declared end) % 2 ^ 32

-- pXml, as an offset, and xmlLength; `none` for a null pointer.
unfoldable pub carve : Text → ℕ → Option (ℕ × ℕ)
carve content declared = elim (find_text (codes "<GiveMail>") content) [
  | none ↦ none
  | some block ↦ elim (find_headers_end content) [
    | none ↦ some (0, declared)
    | some (end, n) ↦
        let behind : Option (ℕ × ℕ) = elim (find_text closing content) [
          | none ↦ none
          | some last ↦ some (end + n, carved_length declared (end + n) last)
        ] in
        if ltb end block then behind else some (0, declared)
  ]
]

module _ (content : Text) (declared block end n last : ℕ)
    (opened : find_text (codes "<GiveMail>") content ≡ some block)
    (headed : find_headers_end content ≡ some (end, n)) (first : end < block)
    (closed : find_text closing content ≡ some last) (declared_fits : declared < 2 ^ 32)
    (content_fits : length content < 2 ^ 31) where
  pub carve-behind : carve content declared ≡ some (end + n, carved_length declared (end + n) last)
  unfolding carve
  carve-behind =
      let e : ltb end block ≡ true = ground (arith, first) in
      rw (carve, opened, headed) (rw (e, closed) refl)

  -- Where the part ends: at the end of the closing tag, or, where that tag ends within the headers,
  -- past the end of the content, since the length wraps around.
  pub carved_length-extent :
      end + n ≤ length content
      → let size = carved_length declared (end + n) last in
        ((end + n ≤ last + 11) × (end + n + size ≡ last + 11) × (last + 11 ≤ length content))
        ⊎ ((last + 11 < end + n) × (length content < end + n + size))
  carved_length-extent k =
      let within = find_text-length closing content last closed in
      elim (Bool-cases (ltb (last + 11) (end + n))) [
        | inl b ↦
            let h : last + 11 < end + n = ground (arith, b) in
            inr (h, omega (arith, within, declared_fits, content_fits, h, k))
        | inr b ↦
            let h : end + n ≤ last + 11 = ground (arith, b) in
            inl (h, omega (arith, within, declared_fits, content_fits, h), omega (arith, within))
      ]

-- What ends the headers stands within the content.
pub find_headers_end-length :
    (content : Text) (end n : ℕ)
    → find_headers_end content ≡ some (end, n)
    → end + n ≤ length content
unfolding find_headers_end
find_headers_end-length content end n e =
    elim (Option-cases (find_text (codes "\r\n\r\n") content)) [
      | inr (i, f) ↦
          let g : some (i, 4) ≡ some (end, n) = rw (find_headers_end, f) at e in
          let h = find_text-length (codes "\r\n\r\n") content i f in
          let a : i ≡ end = cc g in let b : 4 ≡ n = cc g in omega (arith, h, a, b)
      | inl f ↦ elim (Option-cases (find_text (codes "\n\n") content)) [
        | inr (i, k) ↦
            let g : some (i, 2) ≡ some (end, n) = rw (find_headers_end, f, k) at e in
            let h = find_text-length (codes "\n\n") content i k in
            let a : i ≡ end = cc g in let b : 2 ≡ n = cc g in omega (arith, h, a, b)
        | inl k ↦ let g : none ≡ some (end, n) = rw (find_headers_end, f, k) at e in absurd (cc g)
      ]
    ]

pub length-take : (n : ℕ) (s : Text) → length (take n s) ≤ n
length-take zero s = omega arith
length-take (suc n) [] = omega arith
length-take (suc n) (c ∷ s) = omega (arith, length-take n s)

-- What is read is no longer than what the client declared.
pub get_content-length :
    (declared : ℕ) (input content : Text)
    → get_content declared input ≡ some content
    → length content ≤ declared
unfolding get_content
get_content-length declared input content e =
    let kept = if ltb declared 1000000 then declared else 1000000 in
    elim (Bool-cases (ltb 0 declared)) [
      | inl b ↦
          let f : some (take kept input) ≡ some content = rw b at e in
          let g : take kept input ≡ content = cc f in
          let h : kept ≤ declared = ground arith in
          omega (arith, length-take kept input, ap (λ (t : Text). length t) g, h)
      | inr b ↦ let f : none ≡ some content = rw b at e in absurd (cc f)
    ]

-- Where a client declares more than 1000000 bytes and its request has no headers, the part that is
-- parsed has the declared length, which is more than what was read.
pub carve_unread :
    (declared block : ℕ) (input content : Text)
    → get_content declared input ≡ some content
    → find_text (codes "<GiveMail>") content ≡ some block
    → find_headers_end content ≡ none
    → 1000000 < declared
    → (carve content declared ≡ some (0, declared)) × (length content < declared)
unfolding carve get_content
carve_unread declared block input content read opened headed h =
    let many : ltb declared 1000000 ≡ false = ground arith in
    let given : ltb 0 declared ≡ true = ground arith in
    let kept : some (take 1000000 input) ≡ some content = rw (many, given) at read in
    let same : take 1000000 input ≡ content = cc kept in
    let short : length content ≤ 1000000 =
      omega (arith, length-take 1000000 input, ap (λ (t : Text). length t) same) in
    (rw (carve, opened, headed) refl, omega (arith, short, h))
