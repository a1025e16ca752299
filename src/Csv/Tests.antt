-- ===== src/Csv/Tests.antt =====
-- Runs of the reader and the printer, and their theorems at concrete inputs.
use givemail.Base.{◌≡◌, refl, some, none, [], ◌∷◌, ◌++◌, arith}
use givemail.Base.Text.{Text, codes, find_text, find_byte, find_first, starts}
use givemail.Csv.{
  Parser, quote, unescape_column, unescape_loop, quote_column, quote_loop, quote_next, is_special,
  escape, next_column, closing_loop, cut_column,
}
use givemail.Csv.Printer.{unescape_column-quote_column}
use givemail.Csv.Columns.{at_column, next_column-plain, next_column-loses}

unescapes : unescape_column (codes "a\"\"b\"\"\"c") ≡ some (codes "a\"b\"\"c")
unfolding unescape_column unescape_loop find_text starts
unescapes = refl

quotes : quote_column (codes "a\"b\nc") ≡ some (codes "\"a\"\"b c\"")
unfolding quote_column quote_loop quote_next is_special escape find_first
quotes = refl

reads_quoted :
    next_column (record { stream = []; line = codes "\"a\"\"b\",xyz"; pos = some 0 })
    ≡ some
        (some (codes "a\"\"b", record { stream = []; line = codes "\"a\"\"b\",xyz"; pos = some 7 }))
unfolding next_column closing_loop cut_column find_byte
reads_quoted = refl

unescape_column-quote_column_example :
    (column : Text) × (quote_column (codes "a\"b\nc") ≡ some (quote ∷ (column ++ quote ∷ [])))
    × (unescape_column column ≡ some (codes "a\"b c"))
unescape_column-quote_column_example = unescape_column-quote_column (codes "a\"b\nc")

next_column-plain_example :
    next_column (at_column [] (codes "x,") (codes "ab") (codes "cd"))
    ≡ some (
        some (
          codes "ab",
          record (at_column [] (codes "x,") (codes "ab") (codes "cd")) { pos = some 5 },
        ))
next_column-plain_example =
    next_column-plain [] (codes "x,") (codes "ab") (codes "cd")
      (((omega arith), (omega arith)), (((omega arith), (omega arith)), tt)) (omega arith)

next_column-loses_example :
    (p : Parser) × (next_column (at_column [] [] (codes "a") (codes "b"))
      ≡ some (some (codes "a", p)))
    × (next_column p ≡ some none)
next_column-loses_example =
    next_column-loses [] [] (codes "a") (codes "b") (((omega arith), (omega arith)), tt)
      (omega arith)
