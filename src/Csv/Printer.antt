-- ===== src/Csv/Printer.antt =====
-- quoteColumn, and reading back what it prints.
use givemail.Base.{
  ℕ, zero, suc, ◌+◌, ◌≤◌, ◌<◌, ◌≡◌, refl, sym, ap, ◌∙◌, ◌⊎◌, inl, inr, true, false, ◌||◌, Option,
  none, some, [], ◌∷◌, ◌++◌, arith, leb, ◌==◌, if◌then◌else◌, Bool-cases, length, get_or, map,
  drop-append, take-append, length-append, drop_past, append_assoc,
}
use givemail.Base.Text.{Text, find_first}
use givemail.Csv.{quote, unescape_column, is_special, escape, quote_next, quote_loop, quote_column}
use givemail.Csv.Unescape.{single, unescape_column-single}

-- Each character as it stands in the column.
unfoldable pub escaped : Text → Text
escaped [] = []
escaped (c ∷ s) = (if is_special c then escape c else c ∷ []) ++ escaped s

-- Line ends are replaced by spaces.
abbrev pub blank : ℕ → ℕ
blank c = if (c == b'\r') || (c == b'\n') then b' ' else c

single_other : (c : ℕ) (s : Text) → (c == quote) ≡ false → single (c ∷ s) ≡ c ∷ single s
unfolding single
single_other c [] p = refl
single_other c (d ∷ s) p = rw p refl

single-escaped : (s : Text) → single (escaped s) ≡ map blank s
unfolding single escaped is_special escape
single-escaped [] = refl
single-escaped (c ∷ s) = elim (Bool-cases (c == quote)) [
  | inl p ↦ let e : c ≡ quote = ground (arith, p) in rw e (ap (◌∷◌ quote) (single-escaped s))
  | inr p ↦ elim (Bool-cases ((c == b'\r') || (c == b'\n'))) [
    | inl q ↦ rw (p, q) (single_other b' ' (escaped s) refl ∙ ap (◌∷◌ b' ') (single-escaped s))
    | inr q ↦ rw (p, q) (single_other c (escaped s) p ∙ ap (◌∷◌ c) (single-escaped s))
  ]
]

abbrev Firsts : Text → Type 0
Firsts s =
    ((find_first is_special s ≡ none) × (escaped s ≡ s))
    ⊎ ((a : Text) × (c : ℕ) × (b : Text) × (find_first is_special s ≡ some (length a))
        × (s ≡ a ++ c ∷ b)
        × (escaped s ≡ a ++ (escape c ++ escaped b)))

find_special : (s : Text) → Firsts s
unfolding find_first escaped
find_special [] = inl (refl, refl)
find_special (c ∷ s) = elim (Bool-cases (is_special c)) [
  | inl p ↦ rw p (inr ([], c, s, refl, refl, refl))
  | inr p ↦ elim (find_special s) [
    | inl (f, g) ↦ rw (p, f, g) (inl (refl, refl))
    | inr (a, d, b, f, e, g) ↦ rw (p, f, g) (inr (c ∷ a, d, b, refl, ap (◌∷◌ c) e, refl))
  ]
]

get_at : (pre s : Text) (c : ℕ) → get_or (pre ++ c ∷ s) (length pre) 0 ≡ c
get_at [] s c = refl
get_at (x ∷ pre) s c = get_at pre s c

quote_loop-round :
    (fuel : ℕ) (pre : Text) (c : ℕ) (b : Text)
    → quote_loop (suc fuel) (pre ++ c ∷ b) (length pre)
      ≡ quote_next (quote_loop fuel) (pre ++ (escape c ++ b)) (length pre + length (escape c))
unfolding quote_loop
quote_loop-round fuel pre c b = rw (get_at pre b c, take-append pre (c ∷ b), drop_past pre b c) refl

-- The result of the loop, where a function has it for the rounds that follow.
quote_next-escaped :
    (fuel : ℕ) (next : Text → ℕ → Option Text)
    → ((pre : Text) (c : ℕ) (b : Text)
        → length b < fuel
        → next (pre ++ c ∷ b) (length pre) ≡ some (pre ++ (escape c ++ escaped b)))
    → (pre b : Text) → length b ≤ fuel
    → quote_next next (pre ++ b) (length pre) ≡ some (pre ++ escaped b)
unfolding quote_next
quote_next-escaped fuel next ih pre [] h =
    let over : leb (length (pre ++ [])) (length pre) ≡ true =
      ground (arith, length-append pre []) in
    rw over (unfold escaped in refl)
quote_next-escaped fuel next ih pre (d ∷ b) h =
    let over : leb (length (pre ++ d ∷ b)) (length pre) ≡ false =
      ground (arith, length-append pre (d ∷ b)) in
    let rest = drop-append pre (d ∷ b) in
    elim (find_special (d ∷ b)) [
      | inl (f, g) ↦ rw (over, rest, f, g) refl
      | inr (a, c, b', f, e, g) ↦
          let more =
            ih (pre ++ a) c b'
              (omega (arith, ap (λ (t : Text). length t) e, length-append a (c ∷ b'))) in
          let more' =
            rw
              (
                append_assoc pre a (c ∷ b'),
                append_assoc pre a (escape c ++ escaped b'),
                length-append pre a,
              )
              at more in
          rw (over, rest, f, g) (rw (sym e) at more')
    ]

quote_loop-escaped :
    (fuel : ℕ) (pre : Text) (c : ℕ) (b : Text)
    → length b < fuel
    → quote_loop fuel (pre ++ c ∷ b) (length pre) ≡ some (pre ++ (escape c ++ escaped b))
quote_loop-escaped zero pre c b h = absurd (omega arith)
quote_loop-escaped (suc fuel) pre c b h =
    let next =
      quote_next-escaped fuel (quote_loop fuel) (quote_loop-escaped fuel) (pre ++ escape c) b
        (omega arith) in
    let next' =
      rw
        (
          append_assoc pre (escape c) b,
          append_assoc pre (escape c) (escaped b),
          length-append pre (escape c),
        )
        at next in
    quote_loop-round fuel pre c b ∙ next'

-- quoteColumn returns, with each character as it stands in a column between two quotes.
pub quote_column-escaped : (s : Text) → quote_column s ≡ some (quote ∷ (escaped s ++ quote ∷ []))
unfolding quote_column
quote_column-escaped s = elim (find_special s) [
  | inl (f, g) ↦ rw (quote_column, f, g) refl
  | inr (a, c, b, f, e, g) ↦
      let more =
        quote_loop-escaped (length s) a c b
          (omega (arith, ap (λ (t : Text). length t) e, length-append a (c ∷ b))) in
      let more' = rw (sym e) at more in rw (quote_column, f) (rw (more', g) refl)
]

-- The column that quoteColumn prints between its quotes, read by unescapeColumn, is the text
-- again, its line ends replaced by spaces.
pub unescape_column-quote_column :
    (s : Text)
    → (column : Text) × (quote_column s ≡ some (quote ∷ (column ++ quote ∷ [])))
      × (unescape_column column ≡ some (map blank s))
unescape_column-quote_column s = (
  escaped s,
  quote_column-escaped s,
  unescape_column-single (escaped s) ∙ ap some (single-escaped s),
)
