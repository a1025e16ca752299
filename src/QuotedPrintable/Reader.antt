-- ===== src/QuotedPrintable/Reader.antt =====
-- What a quoted-printable text means to a reader of RFC 2045, section 6.7, and what the reader does to
-- what the encoder writes.
use givemail.Base.{
  ◌∙◌, Bool, ◌&&◌, ◌||◌, ℕ, ◌+◌, ◌-◌, ◌*◌, ◌/◌, ◌%◌, ◌≤◌, ◌<◌, ◌≡◌, refl, ap, true, false, Option,
  none, some, [], ◌∷◌, ◌++◌, arith, leb, ◌==◌, if◌then◌else◌, All,
}
use givemail.Base.Tables.{fixes, eq_of_fixes}
use givemail.Base.Text.{Text}
use givemail.QuotedPrintable.{hex_digit, quoted}

-- The value of a hexadecimal digit in upper case.
pub hex_value : ℕ → ℕ
hex_value c = if leb c b'9' then c - b'0' else c - b'7'

unfoldable pub push : ℕ → Option Text → Option Text
push c none = none
push c (some s) = some (c ∷ s)

-- In lines without white space at their ends, a soft line break stands for nothing, "=XY" for a byte,
-- and any other byte for itself.
unfoldable pub unquote : Text → Option Text
unfolding push hex_value
unquote [] = some []
unquote (c ∷ []) = if c == b'=' then none else some (c ∷ [])
unquote (c ∷ d ∷ []) =
    let rest = push c (unquote (d ∷ [])) in
    if c == b'=' then (if d == b'\n' then some [] else none) else rest
unquote (c ∷ d ∷ e ∷ s) =
    let rest = push c (unquote (d ∷ e ∷ s)) in
    let broken = unquote (e ∷ s) in
    let byte = push (hex_value d * 16 + hex_value e) (unquote s) in
    if c == b'=' then (if d == b'\n' then broken else byte) else rest

-- A space or a tab.
unfoldable pub is_blank : ℕ → Bool
is_blank c = (c == b' ') || (c == b'\t')

unfoldable pub at_line_end : Text → Bool
at_line_end [] = true
at_line_end (c ∷ s) = c == b'\n'

-- Rule 3: white space at the end of a line is deleted.
unfoldable pub strip_lines : Text → Text
unfolding is_blank at_line_end
strip_lines [] = []
strip_lines (c ∷ s) =
    let rest = strip_lines s in if is_blank c && at_line_end rest then rest else c ∷ rest

-- What the text means to a reader.
unfoldable pub meaning : Text → Option Text
meaning text = unquote (strip_lines text)

hex_table : fixes (λ k. if leb b'0' (hex_digit k) then hex_value (hex_digit k) else 99) 16 ≡ true
unfolding fixes hex_digit hex_value
hex_table = refl

-- A hexadecimal digit is printed by what has its value, which is no control character.
pub hex_digit_lem : (k : ℕ) → k < 16 → (hex_value (hex_digit k) ≡ k) × (b'0' ≤ hex_digit k)
hex_digit_lem k h = ground (
  arith,
  eq_of_fixes (λ k. if leb b'0' (hex_digit k) then hex_value (hex_digit k) else 99) 16 k h
      hex_table,
)

pub unquote_break : (s : Text) → unquote (b'=' ∷ b'\n' ∷ s) ≡ unquote s
unfolding unquote
unquote_break [] = refl
unquote_break (c ∷ s) = refl

pub unquote_plain : (c : ℕ) (s : Text) → (c == b'=') ≡ false → unquote (c ∷ s) ≡ push c (unquote s)
unfolding unquote
unquote_plain c [] h = rw h
unquote_plain c (d ∷ []) h = rw h
unquote_plain c (d ∷ e ∷ s) h = rw h

pub unquote_quoted :
    (c : ℕ) (s : Text)
    → c < 256
    → unquote (b'=' ∷ hex_digit (c / 16 % 16) ∷ hex_digit (c % 16) ∷ s) ≡ push c (unquote s)
unfolding unquote
unquote_quoted c s h =
    let (e, b) = hex_digit_lem (c / 16 % 16) (omega arith) in
    let (f, _) = hex_digit_lem (c % 16) (omega arith) in
    let t : (hex_digit (c / 16 % 16) == b'\n') ≡ false = ground arith in
    let v : c / 16 % 16 * 16 + c % 16 ≡ c = omega arith in rw (t, e, f, v)

pub strip_break : (t : Text) → strip_lines (b'=' ∷ b'\n' ∷ t) ≡ b'=' ∷ b'\n' ∷ strip_lines t
unfolding strip_lines is_blank
strip_break t = refl

pub strip_digit :
    (k : ℕ) (t : Text) → k < 16 → strip_lines (hex_digit k ∷ t) ≡ hex_digit k ∷ strip_lines t
unfolding strip_lines is_blank
strip_digit k t h =
    let (_, low) = hex_digit_lem k h in
    let e : is_blank (hex_digit k) ≡ false = ground arith in rw e refl

pub strip_quoted : (c : ℕ) (t : Text) → strip_lines (quoted c ++ t) ≡ quoted c ++ strip_lines t
unfolding strip_lines is_blank
strip_quoted c t =
    let high = strip_digit (c / 16 % 16) (hex_digit (c % 16) ∷ t) (omega arith) in
    let low = strip_digit (c % 16) t (omega arith) in
    ap (λ u. b'=' ∷ u) (high ∙ ap (λ u. hex_digit (c / 16 % 16) ∷ u) low)

abbrev pub IsBlank : ℕ → Type 0
IsBlank c = is_blank c ≡ true

-- A text that means some bytes but for white space at their end.
pub record Means (text bytes : Text) : Type 0 where
  pub kept : Text
  pub spaces : Text
  pub read : meaning text ≡ some kept
  pub whole : bytes ≡ kept ++ spaces
  pub blank : All IsBlank spaces
