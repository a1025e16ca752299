-- ===== src/Esmtp/Encoded.antt =====
-- What qpEncode of src/LibESMTPProvider.cc makes of a content.
use givemail.Base.{
  ℕ, zero, suc, ◌+◌, ◌<◌, ◌≡◌, refl, sym, ap, ◌⊎◌, inl, inr, Option, none, some, [], ◌∷◌, ◌++◌,
  arith, ◌==◌, if◌then◌else◌, Bool-cases, Option-cases, length, take, drop, All, by_test,
}
use givemail.Base.Text.{IsNonzero, Text, is_empty, find_byte}
use givemail.QuotedPrintable
use givemail.QuotedPrintable.Reader.{Means}
use givemail.QuotedPrintable.Meaning.{meaning-encode}
use givemail.QuotedPrintable.Strings.{encode-IsNonzero, encode-nil}
use givemail.Esmtp.{crlf}
use givemail.Esmtp.Reads.{c_string-IsNonzero}
use givemail.Esmtp.Lines.{All-drop}
use givemail.Esmtp.Content.{crlf_loop, qp_encode}

-- A text with a carriage return in front of each line feed.
unfoldable pub to_crlf : Text → Text
to_crlf [] = []
to_crlf (b ∷ s) = let rest = to_crlf s in if b == b'\n' then crlf ++ rest else b ∷ rest

-- The first line of it.
abbrev Split : Text → Option ℕ → Type 0
Split s none = to_crlf s ≡ s
Split s (some i) =
    (to_crlf s ≡ take i s ++ (crlf ++ to_crlf (drop (i + 1) s)))
    × (length (drop (i + 1) s) < length s)

find_byte-Split : (s : Text) → Split s (find_byte b'\n' s)
unfolding find_byte to_crlf
find_byte-Split [] = refl
find_byte-Split (b ∷ s) = elim (Bool-cases (b == b'\n')) [
  | inl e ↦ rw (find_byte, e) (rw e refl, omega arith)
  | inr e ↦ elim (Option-cases (find_byte b'\n' s)) [
    | inl n ↦
        let ih : Split s none = rw n at (find_byte-Split s) in
        rw (find_byte, e, n) (rw e (ap (◌∷◌ b) ih))
    | inr (i, n) ↦
        let ih : Split s (some i) = rw n at (find_byte-Split s) in
        let shift : suc i + 1 ≡ suc (i + 1) = omega arith in
        rw (find_byte, e, n, shift) (rw e (ap (◌∷◌ b) ih.0), omega (arith, ih.1))
  ]
]

unless_empty : (s : Text) → (if is_empty s then [] else to_crlf s) ≡ to_crlf s
unfolding to_crlf
unless_empty [] = refl
unless_empty (b ∷ s) = refl

to_crlf-IsNonzero : (s : Text) → All IsNonzero s → All IsNonzero (to_crlf s)
unfolding to_crlf
to_crlf-IsNonzero [] h = tt
to_crlf-IsNonzero (b ∷ s) (set, h) =
    let ih = to_crlf-IsNonzero s h in
    by_test (All IsNonzero) (b == b'\n') (λ _. (omega arith, (omega arith, ih))) (λ _. (set, ih))

crlf_loop-to_crlf :
    (fuel : ℕ) (s : Text) → length s < fuel → All IsNonzero s → crlf_loop fuel s ≡ to_crlf s
unfolding crlf_loop
crlf_loop-to_crlf zero s h set = absurd (omega arith)
crlf_loop-to_crlf (suc fuel) s h set =
    rw (crlf_loop, c_string-IsNonzero s set)
      (elim (Option-cases (find_byte b'\n' s)) [
        | inl n ↦ let split : Split s none = rw n at (find_byte-Split s) in rw n (sym split)
        | inr (i, n) ↦
            let (split, shorter) : Split s (some i) = rw n at (find_byte-Split s) in
            let ih =
              crlf_loop-to_crlf fuel (drop (i + 1) s) (omega arith) (All-drop (i + 1) s set) in
            rw (n, ih, unless_empty (drop (i + 1) s)) (sym split)
      ])

-- qpEncode either leaves a byte string as it is, where QuotedPrintable::encode gives no result for it,
-- or makes of it a quoted-printable text with a carriage return put in front of each line feed and
-- without a zero byte. Before these are put in, a reader of RFC 2045, who deletes white space at the
-- end of each line, reads in the text the byte string without some or all of the spaces and tabs at
-- its very end.
pub qp_encode-to_crlf :
    (content : Text)
    → All (λ c. c < 256) content
    → ((qp_encode content ≡ content) × (QuotedPrintable.encode content ≡ none))
      ⊎ ((encoded : Text) × Means encoded content
          × (qp_encode content ≡ to_crlf encoded)
          × All IsNonzero (qp_encode content))
unfolding qp_encode
qp_encode-to_crlf [] h = inl (refl, encode-nil)
qp_encode-to_crlf (b ∷ bytes) h = elim (Option-cases (QuotedPrintable.encode (b ∷ bytes))) [
  | inl n ↦ rw n (inl (refl, refl))
  | inr (encoded, e) ↦
      let set = encode-IsNonzero b bytes encoded e in
      let done = crlf_loop-to_crlf (length encoded + 1) encoded (omega arith) set in
      rw (e, done) (inr (encoded, meaning-encode b bytes h e, refl, to_crlf-IsNonzero encoded set))
]
