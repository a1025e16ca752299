-- ===== src/QuotedPrintable/Overflow.antt =====
-- Whether the output buffer of QuotedPrintable::encode, three bytes for each and one more, is
-- enough. Soft line breaks are not reckoned in it.
use givemail.Base.{
  ℕ, ◌+◌, ◌*◌, ◌≤◌, ◌<◌, ◌≡◌, ◌≢◌, ap, true, false, inl, inr, none, some, [], ◌∷◌, arith, ltb, leb,
  ◌==◌, if◌then◌else◌, length, All, Bool-cases,
}
use givemail.Base.Text.{Text}
use givemail.QuotedPrintable.{is_simple, needs_cut, Written, encode_loop, encode}
use givemail.QuotedPrintable.Reader.{Means}
use givemail.QuotedPrintable.Meaning.{meaning-encode}
use givemail.QuotedPrintable.Round.{
  used, column, after_quote, consumed-encode_loop, encode_loop-Rounds,
}

-- A byte that has to be quoted.
abbrev pub IsQuoted : ℕ → Type 0
IsQuoted c = is_simple c ≡ false

-- Consuming bytes that are all quoted takes three bytes of room for each.
room_of_consumed :
    (osize : ℕ) (s : Text) (consumed nbytes line_len prev : ℕ)
    → All IsQuoted s
    → nbytes ≤ osize
    → (encode_loop osize s consumed nbytes line_len prev).consumed ≡ consumed + length s
    → nbytes + 3 * length s ≤ osize
room_of_consumed osize [] consumed nbytes line_len prev h n e = omega arith
room_of_consumed osize (c ∷ s) consumed nbytes line_len prev h n e =
    elim (encode_loop-Rounds osize c s consumed nbytes line_len prev) [
      | inl (d, _, _) ↦ absurd (omega arith)
      | inr (inl (simple, _, _)) ↦ absurd (ground arith)
      | inr (inr (_, u, w)) ↦
          let k : (after_quote osize c s consumed nbytes line_len prev).consumed
              ≡ consumed + 1 + length s =
            omega (arith, ap (λ (v : Written). v.consumed) w) in
          let ih = room_of_consumed osize s (consumed + 1) _ _ _ h.1 u k in ground (arith, ih)
    ]

module _ (c consumed n prev : ℕ) (q : IsQuoted c) where
  cut_late : 73 ≤ n → needs_cut c consumed n prev ≡ true
  unfolding needs_cut
  cut_late h = ground arith

  no_cut_early : n < 73 → needs_cut c consumed n prev ≡ false
  unfolding needs_cut is_simple
  no_cut_early h = ground arith

-- On the first line the column is the number of bytes written. If the quoted bytes go past that
-- line, its soft break takes the room of the last of them.
too_many :
    (osize : ℕ) (s : Text) (consumed n prev : ℕ)
    → All IsQuoted s
    → n ≤ 75
    → 76 ≤ n + 3 * length s
    → osize ≡ n + 3 * length s + 1
    → (encode_loop osize s consumed n n prev).consumed ≢ consumed + length s
too_many osize [] consumed n prev h m l o e = omega arith
too_many osize (c ∷ s) consumed n prev h m l o e =
    elim (encode_loop-Rounds osize c s consumed n n prev) [
      | inl (d, _, _) ↦ omega arith
      | inr (inl (simple, _, _)) ↦ ground arith
      | inr (inr (_, u, w)) ↦
          let k : (after_quote osize c s consumed n n prev).consumed ≡ consumed + 1 + length s =
            omega (arith, ap (λ (v : Written). v.consumed) w) in
          elim (Bool-cases (leb 73 n)) [
            | inl t ↦
                let p = cut_late c consumed n prev h.0 (ground arith) in
                let ih = room_of_consumed osize s (consumed + 1) _ _ _ h.1 u k in
                ground (arith, ih, p)
            | inr t ↦
                let p = no_cut_early c consumed n prev h.0 (ground arith) in
                too_many osize s (consumed + 1) (n + 3) _ h.1 (ground arith) (omega arith)
                  (omega arith) (rw p at k)
          ]
    ]

-- QuotedPrintable::encode refuses 26 bytes or more that all have to be quoted, such as text in
-- UTF-8 that is not ASCII: the output buffer has no room for the soft line breaks.
pub encode_refuses :
    (b : ℕ) (bytes : Text)
    → All IsQuoted (b ∷ bytes)
    → 26 ≤ length (b ∷ bytes)
    → encode (b ∷ bytes) ≡ none
unfolding encode
encode_refuses b bytes h l =
    let size = length (b ∷ bytes) in
    let u = consumed-encode_loop (size * 3 + 1) (b ∷ bytes) 0 0 0 0 in
    let r = too_many (size * 3 + 1) (b ∷ bytes) 0 0 0 h (omega arith) (omega arith) (omega arith) in
    let w = encode_loop (size * 3 + 1) (b ∷ bytes) 0 0 0 0 in
    let e : ltb w.consumed size ≡ true = ground (arith, u, r) in rw e

abbrev pub IsPlain : ℕ → Type 0
IsPlain c = is_simple c ≡ true

-- Bytes that are written as themselves take at most three bytes each, the soft breaks included.
plain_fits :
    (osize : ℕ) (s : Text) (consumed nbytes line_len prev : ℕ)
    → All IsPlain s
    → nbytes + 3 * length s ≤ osize
    → ((encode_loop osize s consumed nbytes line_len prev).consumed ≡ consumed + length s)
      × (nbytes + length (encode_loop osize s consumed nbytes line_len prev).out
          ≤ nbytes + 3 * length s)
plain_fits osize [] consumed nbytes line_len prev h r = unfold encode_loop in omega arith
plain_fits osize (c ∷ s) consumed nbytes line_len prev h r =
    elim (encode_loop-Rounds osize c s consumed nbytes line_len prev) [
      | inl (_, full, _) ↦ absurd (ground arith)
      | inr (inl (_, u, w)) ↦
          let (e, f) =
            plain_fits osize s (consumed + 1) (used osize c s consumed nbytes line_len prev + 1)
              (if c == b'\n' then 0 else column osize c s consumed nbytes line_len prev + 1) c h.1
              (ground arith) in
          rw w (omega arith, ground (arith, f))
      | inr (inr (q, _, _)) ↦ absurd (ground arith)
    ]

Plain-IsByte : (s : Text) → All IsPlain s → All (λ c. c < 256) s
unfolding is_simple
Plain-IsByte [] h = tt
Plain-IsByte (c ∷ s) h = (ground arith, Plain-IsByte s h.1)

-- QuotedPrintable::encode takes any text of printable ASCII, tabs and newlines without '=', and its
-- output means that text, but for white space at its end.
pub encode_plain :
    (b : ℕ) (bytes : Text)
    → All IsPlain (b ∷ bytes)
    → (out : Text) × (encode (b ∷ bytes) ≡ some out) × Means out (b ∷ bytes)
encode_plain b bytes h =
    let size = length (b ∷ bytes) in
    let w = encode_loop (size * 3 + 1) (b ∷ bytes) 0 0 0 0 in
    let (e, f) = plain_fits (size * 3 + 1) (b ∷ bytes) 0 0 0 0 h (omega arith) in
    let full : ltb w.consumed size ≡ false = ground (arith, e) in
    let fits : ltb (length w.out) (size * 3 + 1) ≡ true = ground (arith, f) in
    let done : encode (b ∷ bytes) ≡ some w.out = unfold encode in rw (full, fits) in
    (w.out, done, meaning-encode b bytes (Plain-IsByte (b ∷ bytes) h) done)
