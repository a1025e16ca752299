-- ===== src/QuotedPrintable.antt =====
-- src/QuotedPrintable.cc: qp_encode and QuotedPrintable::encode. The output is the list of the
-- bytes written, with optr[-1] as an argument of the loop; nbytes is kept beside it, as in the code.
pub mod Round
mod Lines
pub mod Reader
pub mod Meaning
mod Overflow
pub mod Strings
mod Tests
use givemail.Base.{
  ℕ, ◌+◌, ◌-◌, ◌*◌, ◌/◌, ◌%◌, Bool, not, ◌&&◌, ◌||◌, Option, none, some, [], ◌∷◌, ◌++◌, ltb, leb,
  ◌==◌, if◌then◌else◌, length, get_or,
}
use givemail.Base.Text.{Text, codes}

-- QP_LINE_MAX
abbrev pub qp_line_max : ℕ
qp_line_max = 76

-- ISWS
unfoldable pub is_ws : ℕ → Bool
is_ws c = (c == b' ') || (c == b'\t')

-- _hexdigits
unfoldable pub hex_digit : ℕ → ℕ
hex_digit i = get_or (codes "0123456789ABCDEF") i 0

-- simple_char
unfoldable pub is_simple : ℕ → Bool
is_simple c = (leb 32 c && leb c 60) || ((leb 62 c && leb c 126) || ((c == b'\t') || (c == b'\n')))

-- The test in front of a soft line break.
unfoldable pub needs_cut : ℕ → ℕ → ℕ → ℕ → Bool
unfolding is_ws
needs_cut c consumed line_len prev =
    (line_len == qp_line_max)
    || (((c == b'\n') && (ltb 0 consumed && is_ws prev))
        || (not (is_simple c) && leb (qp_line_max - 3) line_len))

-- What the loop leaves: how much it consumed, and what it wrote.
pub record Written : Type 0 where
  pub consumed : ℕ
  pub out : Text

abbrev pub write : Text → Written → Written
write bytes w = record w { out = bytes ++ w.out }

-- "=\n"
abbrev pub soft_break : Text
soft_break = b'=' ∷ b'\n' ∷ []

abbrev pub quoted : ℕ → Text
quoted c = b'=' ∷ hex_digit (c / 16 % 16) ∷ hex_digit (c % 16) ∷ []

-- while (consumed < isize); a stop is a `break` of the loop.
unfoldable pub encode_loop : ℕ → Text → ℕ → ℕ → ℕ → ℕ → Written
unfolding needs_cut
encode_loop osize [] consumed nbytes line_len prev = record { consumed = consumed; out = [] }
encode_loop osize (c ∷ s) consumed nbytes line_len prev =
    let stop : Written = record { consumed = consumed; out = [] } in
    let cuts = needs_cut c consumed line_len prev in
    let nbytes' = if cuts then nbytes + 2 else nbytes in
    let line_len' = if cuts then 0 else line_len in
    let head = if cuts then soft_break else [] in
    let plain = write (c ∷ []) (
      encode_loop osize s (consumed + 1) (nbytes' + 1) (if c == b'\n' then 0 else line_len' + 1)
        c) in
    let quote =
      write (quoted c)
        (encode_loop osize s (consumed + 1) (nbytes' + 3) (line_len' + 3) (hex_digit (c % 16))) in
    if cuts && ltb osize (nbytes + 2)
    then stop
    else write head (
        if is_simple c
        then (if ltb osize (nbytes' + 1) then stop else plain)
        else (if ltb osize (nbytes' + 3) then stop else quote))

-- QuotedPrintable::encode: no result for no data, nor where not all of it was consumed or the
-- output cannot be terminated.
unfoldable pub encode : Text → Option Text
unfolding encode_loop
encode [] = none
encode (b ∷ bytes) =
    let size = length (b ∷ bytes) in
    let output_len = size * 3 + 1 in
    let w = encode_loop output_len (b ∷ bytes) 0 0 0 0 in
    if ltb w.consumed size then none else if ltb (length w.out) output_len then some w.out else none
