-- ===== src/QuotedPrintable/Meaning.antt =====
-- What the encoded text means to a reader.
use givemail.Base.{
  ◌∙◌, ltb, subst, Bool, not, ◌&&◌, ℕ, ◌+◌, ◌*◌, ◌<◌, ◌≡◌, refl, ap, true, false, inl, inr, some,
  [], ◌∷◌, ◌++◌, arith, ◌==◌, length, All, Bool-cases,
}
use givemail.Base.Text.{Text}
use givemail.QuotedPrintable.{
  is_simple, is_ws, soft_break, quoted, needs_cut, Written, encode_loop, encode,
}
use givemail.QuotedPrintable.Reader.{
  is_blank, at_line_end, strip_lines, unquote, push, meaning, unquote_break, unquote_plain,
  unquote_quoted, strip_break, strip_quoted, IsBlank, Means,
}
use givemail.QuotedPrintable.Round.{
  lead, after_plain, after_quote, consumed-encode_loop, encode_loop-Rounds,
}

simple_ne : (c : ℕ) → is_simple c ≡ true → (c == b'=') ≡ false
unfolding is_simple
simple_ne c h = ground arith

-- An output that stands behind white space: it begins no line end that would delete it.
abbrev Guards : Bool → Text → Type 0
Guards guarded out = guarded ≡ true → at_line_end (strip_lines out) ≡ true → strip_lines out ≡ []

meaning-nil : (text kept : Text) → strip_lines text ≡ [] → meaning text ≡ some kept → kept ≡ []
unfolding meaning unquote
meaning-nil text kept e m = let n : some [] ≡ some kept = rw e at m in cc n

module _ (c : ℕ) (s out : Text) (ih : Means out s) where
  deleted : strip_lines out ≡ [] → strip_lines (c ∷ out) ≡ [] → IsBlank c → Means (c ∷ out) (c ∷ s)
  unfolding meaning unquote
  deleted e f b =
      let nothing : s ≡ ih.spaces = ih.whole ∙ rw (meaning-nil out ih.kept e ih.read) refl in
      record {
        kept = [];
        spaces = c ∷ ih.spaces;
        read = rw f refl;
        whole = ap (◌∷◌ c) nothing;
        blank = (b, ih.blank);
      }

  stays :
      (c == b'=') ≡ false → strip_lines (c ∷ out) ≡ c ∷ strip_lines out → Means (c ∷ out) (c ∷ s)
  unfolding meaning push
  stays n f = record {
    kept = c ∷ ih.kept;
    spaces = ih.spaces;
    read = rw (f, unquote_plain c (strip_lines out) n, ih.read) refl;
    whole = ap (◌∷◌ c) ih.whole;
    blank = ih.blank;
  }

  -- A byte that is written plain.
  Means-plain :
      (c == b'=') ≡ false
      → Guards (is_blank c) out
      → Means (c ∷ out) (c ∷ s) × Guards (not (c == b'\n')) (c ∷ out)
  unfolding strip_lines at_line_end
  Means-plain n guards = elim (Bool-cases (is_blank c && at_line_end (strip_lines out))) [
    | inl e ↦
        let e' : (is_blank c ≡ true) × (at_line_end (strip_lines out) ≡ true) = ground (arith, e) in
        let none_left = guards e'.0 e'.1 in
        let f : strip_lines (c ∷ out) ≡ [] = rw e none_left in (deleted none_left f e'.0, λ _ _. f)
    | inr e ↦
        let f : strip_lines (c ∷ out) ≡ c ∷ strip_lines out = rw e refl in
        (
          stays n f,
          λ g h. let h' : (c == b'\n') ≡ true = rw f at h in absurd (ground (arith, g, h')),
        )
  ]

  -- A byte that is written quoted.
  Means-quoted : c < 256 → Means (quoted c ++ out) (c ∷ s)
  unfolding meaning push
  Means-quoted h = record {
    kept = c ∷ ih.kept;
    spaces = ih.spaces;
    read = rw (strip_quoted c out, unquote_quoted c (strip_lines out) h, ih.read) refl;
    whole = ap (◌∷◌ c) ih.whole;
    blank = ih.blank;
  }

Means-break : (t s : Text) → Means t s → Means (soft_break ++ t) s
unfolding meaning
Means-break t s m = record {
  kept = m.kept;
  spaces = m.spaces;
  read = rw (strip_break t, unquote_break (strip_lines t), m.read) refl;
  whole = m.whole;
  blank = m.blank;
}

at_quote : (t : Text) → at_line_end (strip_lines (b'=' ∷ t)) ≡ false
unfolding strip_lines is_blank at_line_end
at_quote t = refl

-- What the loop writes for some bytes behind others.
abbrev Result : ℕ → ℕ → Text → Text → Type 0
Result consumed prev s out = Means out s × Guards (ltb 0 consumed && is_blank prev) out

module _ (osize c : ℕ) (s : Text) (consumed nbytes line_len prev : ℕ) where
  Result-lead :
      (t : Text)
      → Means t (c ∷ s)
      → Guards (not (c == b'\n')) t
      → Result consumed prev (c ∷ s) (lead osize c s consumed nbytes line_len prev ++ t)
  unfolding needs_cut is_ws is_blank
  Result-lead t m guards = elim (Bool-cases (needs_cut c consumed line_len prev)) [
    | inl p ↦ rw p (Means-break t (c ∷ s) m, λ g h. absurd (cc (h, at_quote (b'\n' ∷ t))))
    | inr p ↦ rw p (m, λ g h. guards (ground (arith, p, g)) h)
  ]

-- Where the loop consumed all of its input, the output means the input.
meaning-encode_loop :
    (osize : ℕ) (s : Text) (consumed nbytes line_len prev : ℕ)
    → All (λ c. c < 256) s
    → (encode_loop osize s consumed nbytes line_len prev).consumed ≡ consumed + length s
    → Result consumed prev s (encode_loop osize s consumed nbytes line_len prev).out
meaning-encode_loop osize [] consumed nbytes line_len prev h e =
    unfold encode_loop meaning unquote strip_lines in
    (record { kept = []; spaces = []; read = refl; whole = refl; blank = tt }, λ _ _. refl)
meaning-encode_loop osize (c ∷ s) consumed nbytes line_len prev h e =
    elim (encode_loop-Rounds osize c s consumed nbytes line_len prev) [
      | inl (d, _, _) ↦ absurd (omega arith)
      | inr (inl (simple, _, w)) ↦
          let next = after_plain osize c s consumed nbytes line_len prev in
          let k : next.consumed ≡ consumed + 1 + length s =
            omega (arith, ap (λ (v : Written). v.consumed) w) in
          let (m, guards) = meaning-encode_loop osize s (consumed + 1) _ _ _ h.1 k in
          let behind : Guards (is_blank c) next.out = λ g. guards (ground (arith, g)) in
          let (m', g') = Means-plain c s next.out m (simple_ne c simple) behind in
          rw w (Result-lead osize c s consumed nbytes line_len prev _ m' g')
      | inr (inr (_, _, w)) ↦
          let next = after_quote osize c s consumed nbytes line_len prev in
          let k : next.consumed ≡ consumed + 1 + length s =
            omega (arith, ap (λ (v : Written). v.consumed) w) in
          let (m, _) = meaning-encode_loop osize s (consumed + 1) _ _ _ h.1 k in
          let m' = Means-quoted c s next.out m h.0 in
          rw w (
            Result-lead osize c s consumed nbytes line_len prev _ m'
              (λ _ l. absurd (cc (l, at_quote _))))
    ]

-- Whatever QuotedPrintable::encode returns for some bytes, a reader of RFC 2045, who deletes white
-- space at the end of each line, reads in it those bytes without some or all of the spaces and tabs at
-- their very end: white space in front of any other byte, a line end included, is read.
pub meaning-encode :
    (b : ℕ) (bytes : Text) {out : Text}
    → All (λ c. c < 256) (b ∷ bytes)
    → encode (b ∷ bytes) ≡ some out
    → Means out (b ∷ bytes)
unfolding encode
meaning-encode b bytes {out} h e =
    let size = length (b ∷ bytes) in
    let w = encode_loop (size * 3 + 1) (b ∷ bytes) 0 0 0 0 in
    let most = consumed-encode_loop (size * 3 + 1) (b ∷ bytes) 0 0 0 0 in
    let (all, same) : (w.consumed ≡ 0 + size) × (w.out ≡ out) = ground (arith, most, e) in
    subst (λ o. Means o (b ∷ bytes)) same
      (meaning-encode_loop (size * 3 + 1) (b ∷ bytes) 0 0 0 0 h all).0
