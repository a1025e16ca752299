-- ===== src/QuotedPrintable/Lines.antt =====
-- The length of the lines that qp_encode writes.
use givemail.Base.{
  ℕ, ◌+◌, ◌*◌, ◌/◌, ◌%◌, ◌≤◌, ◌<◌, ◌≡◌, false, inl, inr, some, [], ◌∷◌, ◌++◌, arith, ◌==◌,
  if◌then◌else◌, length, Bool-cases, append-nil,
}
use givemail.Base.Text.{Text}
use givemail.QuotedPrintable.{hex_digit, is_simple, needs_cut, quoted, encode_loop, encode}
use givemail.QuotedPrintable.Reader.{hex_digit_lem}
use givemail.QuotedPrintable.Round.{lead, column, encode_loop-Rounds}

-- From column `col` on, no line goes past `limit` bytes.
pub Within : ℕ → ℕ → Text → Type 0
Within limit col [] = col ≤ limit
Within limit col (c ∷ s) = (col ≤ limit) × Within limit (if c == b'\n' then 0 else col + 1) s

module _ (osize c : ℕ) (s : Text) (consumed nbytes line_len prev : ℕ) (fits : line_len ≤ 76) where
  -- Behind the soft break, if there is one, the round starts at its column.
  Within-lead :
      (t : Text)
      → Within 77 (column osize c s consumed nbytes line_len prev) t
      → Within 77 line_len (lead osize c s consumed nbytes line_len prev ++ t)
  unfolding Within
  Within-lead t h = elim (Bool-cases (needs_cut c consumed line_len prev)) [
    | inl p ↦ rw p (omega arith, (omega arith, rw p at h))
    | inr p ↦ rw p (rw p at h)
  ]

  -- A round that writes no more than 76 columns of a line.
  column_plain : (column osize c s consumed nbytes line_len prev < 76)
  unfolding needs_cut
  column_plain = elim (Bool-cases (needs_cut c consumed line_len prev)) [
    | inl p ↦ rw p (omega arith)
    | inr p ↦ rw p (ground arith)
  ]

  column_quote : is_simple c ≡ false → column osize c s consumed nbytes line_len prev < 73
  unfolding needs_cut
  column_quote q = elim (Bool-cases (needs_cut c consumed line_len prev)) [
    | inl p ↦ rw p (omega arith)
    | inr p ↦ rw p (ground arith)
  ]

nil_step : (col : ℕ) → col < 76 → Within 77 col []
unfolding Within
nil_step col h = omega arith

plain_step :
    (c col : ℕ) (t : Text)
    → col < 76
    → Within 77 (if c == b'\n' then 0 else col + 1) t
    → Within 77 col (c ∷ t)
unfolding Within
plain_step c col t k h = (omega arith, h)

quote_step :
    (c col : ℕ) (t : Text) → col < 73 → Within 77 (col + 3) t → Within 77 col (quoted c ++ t)
unfolding Within
quote_step c col t k h =
    let (_, d) = hex_digit_lem (c / 16 % 16) (omega arith) in
    let (_, e) = hex_digit_lem (c % 16) (omega arith) in
    let d' : (hex_digit (c / 16 % 16) == b'\n') ≡ false = ground arith in
    let e' : (hex_digit (c % 16) == b'\n') ≡ false = ground arith in
    let a : col + 1 + 1 + 1 ≡ col + 3 = omega arith in
    rw (d', e', a) (omega arith, (omega arith, (omega arith, h)))

-- What the loop writes from a column of at most 76 stays within 77 bytes on each line.
encode_loop-Within :
    (osize : ℕ) (s : Text) (consumed nbytes line_len prev : ℕ)
    → line_len ≤ 76
    → Within 77 line_len (encode_loop osize s consumed nbytes line_len prev).out
encode_loop-Within osize [] consumed nbytes line_len prev fits =
    unfold Within encode_loop in omega arith
encode_loop-Within osize (c ∷ s) consumed nbytes line_len prev fits =
    elim (encode_loop-Rounds osize c s consumed nbytes line_len prev) [
      | inl (_, _, inl e) ↦ rw e (unfold Within in omega arith)
      | inl (_, _, inr e) ↦
          rw (e, ← append-nil (lead osize c s consumed nbytes line_len prev))
            (start [] (nil_step _ (column_plain osize c s consumed nbytes line_len prev fits)))
      | inr (inl (simple, _, w)) ↦
          let k = column_plain osize c s consumed nbytes line_len prev fits in
          rw w (
            start _
              (plain_step c _ _ k (encode_loop-Within osize s (consumed + 1) _ _ _ (ground arith))))
      | inr (inr (q, _, w)) ↦
          let k = column_quote osize c s consumed nbytes line_len prev fits q in
          rw w (
            start _
              (quote_step c _ _ k (encode_loop-Within osize s (consumed + 1) _ _ _ (omega arith))))
    ]
  where
    start :
        (t : Text)
        → Within 77 (column osize c s consumed nbytes line_len prev) t
        → Within 77 line_len (lead osize c s consumed nbytes line_len prev ++ t)
    start = Within-lead osize c s consumed nbytes line_len prev fits

-- QuotedPrintable::encode writes no line of more than 77 bytes.
pub encode-Within :
    (b : ℕ) (bytes : Text) {out : Text} → encode (b ∷ bytes) ≡ some out → Within 77 0 out
unfolding encode
encode-Within b bytes {out} e =
    let w = encode_loop (length (b ∷ bytes) * 3 + 1) (b ∷ bytes) 0 0 0 0 in
    let f : w.out ≡ out = ground arith in
    rw (← f) (encode_loop-Within (length (b ∷ bytes) * 3 + 1) (b ∷ bytes) 0 0 0 0 (omega arith))
