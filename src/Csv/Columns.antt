-- ===== src/Csv/Columns.antt =====
-- nextColumn on columns that are not quoted.
use givemail.Base.{
  ℕ, ◌+◌, ◌-◌, ◌≤◌, ◌≡◌, ◌≢◌, refl, ◌∙◌, true, false, Option, none, some, List, [], ◌∷◌, ◌++◌,
  arith, leb, ◌==◌, if◌then◌else◌, length, get_or, All, drop-append, take-append, length-append,
}
use givemail.Base.Text.{Text, find_byte}
use givemail.Csv.{quote, comma, Parser, cut_column, next_column}

abbrev pub IsPlain : ℕ → Type 0
IsPlain c = (c ≢ comma) × (c ≢ quote)

find_comma :
    (column rest : Text)
    → All IsPlain column
    → find_byte comma (column ++ comma ∷ rest) ≡ some (length column)
unfolding find_byte
find_comma [] rest h = refl
find_comma (c ∷ column) rest h =
    let e : (c == comma) ≡ false = ground (arith, h.0.0) in rw (e, find_comma column rest h.1) refl

starts_plain :
    (column rest : Text)
    → All IsPlain column
    → (get_or (column ++ comma ∷ rest) 0 0 == quote) ≡ false
starts_plain [] rest h = refl
starts_plain (c ∷ column) rest h = ground (arith, h.0.1)

get_behind : (pre s : Text) → get_or (pre ++ s) (length pre) 0 ≡ get_or s 0 0
get_behind [] s = refl
get_behind (x ∷ pre) s = get_behind pre s

-- A parser at a column that is followed by a comma and `rest`.
abbrev pub at_column : List Text → Text → Text → Text → Parser
at_column lines pre column rest = record {
  stream = lines;
  line = pre ++ (column ++ comma ∷ rest);
  pos = some (length pre);
}

module _ (lines : List Text) (pre column rest : Text) (plain : All IsPlain column) where
  abbrev after_column : Option ℕ
  after_column = if leb (length rest) 1 then none else some (length pre + length column + 1)

  next_column-after :
      next_column (at_column lines pre column rest)
      ≡ some (some (column, record (at_column lines pre column rest) { pos = after_column }))
  unfolding next_column cut_column
  next_column-after =
      let s = column ++ comma ∷ rest in
      let span : length pre + length column - length pre ≡ length column = omega arith in
      let size : leb (length (pre ++ s)) (length pre + length column + 1 + 1)
          ≡ leb (length rest) 1 =
        ground (arith, length-append pre s, length-append column (comma ∷ rest)) in
      rw
        (
          get_behind pre s,
          starts_plain column rest plain,
          drop-append pre s,
          find_comma column rest plain,
          span,
          drop-append pre s,
          take-append column (comma ∷ rest),
          size,
        )
        refl

  -- nextColumn gives a column without quotes up to its comma, where at least two characters follow
  -- the comma, and goes on behind the comma.
  pub next_column-plain :
      2 ≤ length rest
      → next_column (at_column lines pre column rest)
        ≡ some (
            some (
              column,
              record (at_column lines pre column rest) {
                pos = some (length pre + length column + 1);
              },
            ))
  next_column-plain h =
      let more : leb (length rest) 1 ≡ false = ground arith in next_column-after ∙ rw more refl

  -- Where a single character follows the comma of a column without quotes, nextColumn gives that
  -- column, and then returns false: the last column of the line, which is that character, is lost.
  pub next_column-loses :
      length rest ≡ 1
      → (p : Parser) × (next_column (at_column lines pre column rest) ≡ some (some (column, p)))
        × (next_column p ≡ some none)
  next_column-loses h =
      let more : leb (length rest) 1 ≡ true = ground arith in
      (
        record (at_column lines pre column rest) { pos = none },
        next_column-after ∙ rw more refl,
        unfold next_column in refl,
      )
