-- ===== src/Csv.antt =====
-- src/CSVParser.cc: CSVParser, and RecipientsCSVPrinter::quoteColumn of src/WebAPI.cc. A position
-- is `none` where m_pos is string::npos. The result of a loop on fuel is `none` where the fuel runs
-- out.
mod Unescape
mod Columns
mod Printer
mod Tests
use givemail.Base.{
  ℕ, zero, suc, ◌+◌, ◌-◌, Bool, true, false, ◌&&◌, Option, none, some, List, [], ◌∷◌, ◌++◌, ◌||◌,
  take, ltb, leb, ◌==◌, if◌then◌else◌, length, get_or, drop,
}
use mathlib.Core.Option
use givemail.Base.Text.{
  find_first, find_first_from, Text, codes, find_text_from, find_byte_from, substr, erase, is_empty,
}

abbrev pub quote : ℕ
quote = b'"'

abbrev pub comma : ℕ
comma = b','

abbrev pub two_quotes : Text
two_quotes = quote ∷ quote ∷ []

-- The loop of unescapeColumn, at a pair of quotes.
pub unescape_loop : ℕ → Text → ℕ → Option Text
unescape_loop zero s start = none
unescape_loop (suc fuel) s start =
    let clean = erase s start 1 in
    let start' = start + 1 in
    if ltb (length clean) start'
    then some clean
    else elim (find_text_from two_quotes clean start') [
      | none ↦ some clean
      | some pair ↦ unescape_loop fuel clean pair
    ]

-- unescapeColumn
pub unescape_column : Text → Option Text
unescape_column s = if is_empty s then some [] else elim (find_text_from two_quotes s 0) [
  | none ↦ some s
  | some pair ↦ unescape_loop (length s) s pair
]

-- The members of a parser: the lines that the stream still has, the line and the position.
pub record Parser : Type 0 where
  pub stream : List Text
  pub line : Text
  pub pos : Option ℕ

-- nextLine, where getline takes the next of the lines.
abbrev pub next_line : Parser → Bool × Parser
next_line p = elim p.stream [
  | [] ↦ (false, record p { line = []; pos = some 0 })
  | l ∷ ls ↦ (true, record { stream = ls; line = l; pos = some 0 })
]

-- The search for the quote that closes a column, from the first quote that is found.
pub closing_loop : ℕ → Text → ℕ → Option (Option ℕ)
closing_loop zero s pos = none
closing_loop (suc fuel) s pos =
    if ltb (pos + 1) (length s) && (get_or s (pos + 1) 0 == quote)
    then elim (find_byte_from quote s (pos + 2)) [
      | none ↦ some none
      | some next ↦ closing_loop fuel s next
    ]
    else some (some pos)

-- The end of nextColumn: `start` is m_pos, and `end` what was found.
pub cut_column : Parser → ℕ → ℕ → Option ℕ → Text × Parser
cut_column p increment start end = elim end [
  | none ↦ (drop start p.line, record p { pos = none })
  | some e ↦ (
    substr p.line start (e - start),
    record p {
      pos = if leb (length p.line) (e + increment + increment) then none else some (e + increment);
    },
  )
]

-- nextColumn: the inner `none` is its false.
pub next_column : Parser → Option (Option (Text × Parser))
next_column p = elim p.pos [
  | none ↦ some none
  | some start ↦
      if get_or p.line start 0 == quote
      then elim (find_byte_from quote p.line (start + 1)) [
        | none ↦ some (some (cut_column p 2 (start + 1) none))
        | some first ↦ elim (closing_loop (length p.line) p.line first) [
          | none ↦ none
          | some end ↦ some (some (cut_column p 2 (start + 1) end))
        ]
      ]
      else some (some (cut_column p 1 start (find_byte_from comma p.line start)))
]

-- What quoteColumn looks for.
pub is_special : ℕ → Bool
is_special c = (c == quote) || ((c == b'\r') || (c == b'\n'))

-- What is put in place of such a character.
pub escape : ℕ → Text
escape c = if c == quote then two_quotes else b' ' ∷ []

-- The end of a round of the loop: on to the next character to replace, if there is one.
pub quote_next : (Text → ℕ → Option Text) → Text → ℕ → Option Text
quote_next next s pos =
    if leb (length s) pos
    then some s
    else elim (find_first_from is_special s pos) [ none ↦ some s | some i ↦ next s i ]

-- The loop of quoteColumn, at a character to replace.
pub quote_loop : ℕ → Text → ℕ → Option Text
quote_loop zero s pos = none
quote_loop (suc fuel) s pos =
    let put = escape (get_or s pos 0) in
    quote_next (quote_loop fuel) (take pos s ++ (put ++ drop (pos + 1) s)) (pos + length put)

-- quoteColumn
pub quote_column : Text → Option Text
quote_column s = elim (find_first is_special s) [
  | none ↦ some (quote ∷ (s ++ quote ∷ []))
  | some pos ↦ Option.map (λ t. quote ∷ (t ++ quote ∷ [])) (quote_loop (length s) s pos)
]
