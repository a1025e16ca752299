-- ===== src/Web/Xml/Layout.antt =====
-- Where the part of a received content that processXml gives to the parser stands in it, and how long
-- the content is.
use givemail.Base.{
  ℕ, ◌+◌, ◌^◌, ◌≤◌, ◌<◌, ◌≡◌, ◌∙◌, ◌⊎◌, refl, sym, subst, inl, inr, true, false, Option, none, some,
  [], ◌∷◌, arith, ltb, ◌==◌, length, by_test, Option-cases, Bool-cases,
}
use givemail.Base.Text.{Text, codes, find_text, is_empty}
use givemail.Web.{get_header_value}
use givemail.Web.Carve.{
  find_headers_end, carve, closing, carved_length, carve-behind, carved_length-extent,
  find_headers_end-length,
}
use givemail.Web.Xml.{Received, refused, content, c_string, date_of}

-- A text with headers that have a date, a block behind them, and a part that starts at the end of
-- the headers. The part ends with the first closing tag, or, where that tag ends within the headers,
-- past the end of the text.
pub record IsLaidOut (text date : Text) (from n : ℕ) : Type 0 where
  pub end : ℕ
  pub gap : ℕ
  pub block : ℕ
  pub last : ℕ
  pub headed : find_headers_end text ≡ some (end, gap)
  pub opened : find_text (codes "<GiveMail>") text ≡ some block
  pub first : end < block
  pub closed : find_text closing text ≡ some last
  pub dated : get_header_value text end (codes "Date: ") ≡ some date
  pub behind : from ≡ end + gap
  pub extent :
      ((from < last + 11) × (from + n ≡ last + 11) × (last + 11 ≤ length text))
      ⊎ ((last + 11 < from) × (length text < from + n))

abbrev Extent : Text → ℕ → ℕ → ℕ → Type 0
Extent text last from n =
    ((from ≤ last + 11) × (from + n ≡ last + 11) × (last + 11 ≤ length text))
    ⊎ ((last + 11 < from) × (length text < from + n))

date_of-undated :
    (text date : Text) → date_of text ≡ some [] → date_of text ≡ some date → is_empty date ≡ true
date_of-undated text date e f =
    let g : some [] ≡ some date = cc (e, f) in let h : [] ≡ date = cc g in rw (sym h) refl

module _ (text date : Text) (size : ℕ) (size_fits : size < 2 ^ 32)
    (text_fits : length text < 2 ^ 31) (from n : ℕ) (part : carve text size ≡ some (from, n))
    (z : (n == 0) ≡ false) where
  closed-IsLaidOut :
      (end gap block last : ℕ)
      → find_headers_end text ≡ some (end, gap)
      → find_text (codes "<GiveMail>") text ≡ some block
      → end < block
      → find_text closing text ≡ some last
      → get_header_value text end (codes "Date: ") ≡ some date
      → IsLaidOut text date from n
  closed-IsLaidOut end gap block last h o before c dated =
      let whole = carve-behind text size block end gap last o h before c size_fits text_fits in
      let long = carved_length size (end + gap) last in
      let same : ◌≡◌ {A = Option (ℕ × ℕ)} (some (end + gap, long)) (some (from, n)) =
        sym whole ∙ part in
      let start : end + gap ≡ from = cc same in
      let size_read : long ≡ n = cc same in
      let there : Extent text last (end + gap) long =
        carved_length-extent text size block end gap last o h before c size_fits text_fits
          (find_headers_end-length text end gap h) in
      let extent =
        subst (Extent text last from) size_read
          (subst (λ start. Extent text last start long) start there) in
      let some_left : 0 < n = ground (arith, z) in
      record {
        end = end;
        gap = gap;
        block = block;
        last = last;
        headed = h;
        opened = o;
        first = before;
        closed = c;
        dated = dated;
        behind = sym start;
        extent = elim extent [
          | inl (_, stops, within) ↦ inl (omega (arith, stops, some_left), stops, within)
          | inr (early, past) ↦ inr (early, past)
        ];
      }

  module _ (named : is_empty date ≡ false) (dated : date_of text ≡ some date) where
    undated : date_of text ≡ some [] → ⊥
    undated e = let d = date_of-undated text date e dated in cc (d, named)

    pub carve-IsLaidOut : IsLaidOut text date from n
    unfolding carve date_of
    carve-IsLaidOut = elim (Option-cases (find_text (codes "<GiveMail>") text)) [
      | inl o ↦ absurd (undated (rw (date_of, o) refl))
      | inr (block, o) ↦ elim (Option-cases (find_headers_end text)) [
        | inl h ↦ absurd (undated (rw (date_of, o, h) refl))
        | inr ((end, gap), h) ↦ elim (Bool-cases (ltb end block)) [
          | inr b ↦ absurd (undated (rw (date_of, o, h, b) refl))
          | inl b ↦ elim (Option-cases (find_text closing text)) [
            | inl c ↦
                let nothing : none ≡ some (from, n) = rw (carve, o, h, b, c) at part in
                absurd (cc nothing)
            | inr (last, c) ↦
                closed-IsLaidOut end gap block last h o (ground (arith, b)) c
                  (rw (date_of, o, h, b) at dated)
          ]
        ]
      ]
    ]

pub length-c_string : (t : Text) → length (c_string t) ≤ length t
unfolding c_string
length-c_string [] = omega arith
length-c_string (c ∷ t) =
    by_test (λ (u : Text). length u ≤ length (c ∷ t)) (c == 0) (λ _. omega arith)
      (λ _. omega (arith, length-c_string t))

abbrev pub Fits : Received → Type 0
Fits (refused message) = Unit
Fits (content text size) = (size < 2 ^ 32) × (length text < 2 ^ 31)
