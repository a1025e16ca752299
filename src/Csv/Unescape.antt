-- ===== src/Csv/Unescape.antt =====
-- unescapeColumn leaves one quote of each pair.
use givemail.Base.{
  ℕ, zero, suc, ◌+◌, ◌<◌, ◌≡◌, refl, sym, ap, ◌⊎◌, inl, inr, true, false, ◌&&◌, none, some, [], ◌∷◌,
  ◌++◌, arith, ltb, ◌==◌, if◌then◌else◌, Bool-cases, length, drop, take-append, length-append,
  drop_past, append_assoc, ◌∙◌, subst,
}
use mathlib.Core.Option
use givemail.Base.Text.{Text, starts, find_text, erase}
use givemail.Csv.{quote, two_quotes, unescape_loop, unescape_column}

-- One quote of each pair, from the left.
unfoldable pub single : Text → Text
single [] = []
single (c ∷ []) = c ∷ []
single (c ∷ d ∷ s) =
    let pair = single s in
    let other = single (d ∷ s) in if (c == quote) && (d == quote) then quote ∷ pair else c ∷ other

-- The first pair of quotes in a text, if there is one.
abbrev Pairs : Text → Type 0
Pairs s =
    ((find_text two_quotes s ≡ none) × (single s ≡ s))
    ⊎ ((a : Text) × (b : Text) × (find_text two_quotes s ≡ some (length a))
        × (s ≡ a ++ quote ∷ quote ∷ b)
        × (single s ≡ a ++ quote ∷ single b))

-- A first character that begins no pair.
module _ (c d : ℕ) (s : Text) (n : ((c == quote) && (d == quote)) ≡ false) where
  find_later : find_text two_quotes (c ∷ d ∷ s) ≡ Option.map suc (find_text two_quotes (d ∷ s))
  unfolding find_text starts
  find_later =
      let e : ((quote == c) && ((quote == d) && true)) ≡ false = ground (arith, n) in rw e refl

  single_later : single (c ∷ d ∷ s) ≡ c ∷ single (d ∷ s)
  unfolding single
  single_later = rw n refl

  later_pair : Pairs (d ∷ s) → Pairs (c ∷ d ∷ s)
  later_pair (inl (f, g)) = inl (rw (find_later, f) refl, rw (single_later, g) refl)
  later_pair (inr (a, b, f, e, g)) =
      inr (c ∷ a, b, rw (find_later, f) refl, ap (◌∷◌ c) e, rw (single_later, g) refl)

find_pair : (s : Text) → Pairs s
unfolding single find_text starts
find_pair [] = inl (refl, refl)
find_pair (c ∷ []) = let e : ((quote == c) && false) ≡ false = ground arith in inl (rw e refl, refl)
find_pair (c ∷ d ∷ s) = elim (Bool-cases ((c == quote) && (d == quote))) [
  | inl p ↦
      let u : c ≡ quote = ground (arith, p) in
      let v : d ≡ quote = ground (arith, p) in rw (u, v) (inr ([], s, refl, refl, refl))
  | inr n ↦ later_pair c d s n (find_pair (d ∷ s))
]

-- One round of the loop, from what erasing leaves.
unescape_loop-round :
    (fuel : ℕ) (s clean b : Text) (start : ℕ)
    → erase s start 1 ≡ clean
    → ltb (length clean) (start + 1) ≡ false
    → drop (start + 1) clean ≡ b
    → unescape_loop (suc fuel) s start
      ≡ elim (Option.map (λ i. start + 1 + i) (find_text two_quotes b)) [
        | none ↦ some clean
        | some pair ↦ unescape_loop fuel clean pair
      ]
unfolding unescape_loop
unescape_loop-round fuel s clean b start e =
    subst
      (λ t.
        ltb (length t) (start + 1) ≡ false
        → drop (start + 1) t ≡ b
        → unescape_loop (suc fuel) s start
          ≡ elim (Option.map (λ i. start + 1 + i) (find_text two_quotes b)) [
            | none ↦ some t
            | some pair ↦ unescape_loop fuel t pair
          ])
      e (λ l r. rw (l, r) refl)

-- The loop, at a pair behind `pre`.
unescape_loop-single :
    (fuel : ℕ) (pre b : Text)
    → length b < fuel
    → unescape_loop fuel (pre ++ quote ∷ quote ∷ b) (length pre) ≡ some (pre ++ quote ∷ single b)
unescape_loop-single zero pre b h = absurd (omega arith)
unescape_loop-single (suc fuel) pre b h =
    let clean = pre ++ quote ∷ b in
    let cleaned : erase (pre ++ quote ∷ quote ∷ b) (length pre) 1 ≡ clean =
      rw (take-append pre (quote ∷ quote ∷ b), drop_past pre (quote ∷ b) quote) refl in
    let size = length-append pre (quote ∷ b) in
    let longer : ltb (length clean) (length pre + 1) ≡ false = ground (arith, size) in
    let round =
      unescape_loop-round fuel _ clean b (length pre) cleaned longer (drop_past pre b quote) in
    elim (find_pair b) [
      | inl (f, g) ↦ rw g (round ∙ rw f refl)
      | inr (a, c, f, e, g) ↦
          let pre' = pre ++ quote ∷ a in
          let more =
            unescape_loop-single fuel pre' c
              (omega (arith, ap (λ (t : Text). length t) e, length-append a (quote ∷ quote ∷ c))) in
          let size' : length pre' ≡ length pre + 1 + length a =
            omega (arith, length-append pre (quote ∷ a)) in
          let more' =
            rw
              (
                append_assoc pre (quote ∷ a) (quote ∷ quote ∷ c),
                append_assoc pre (quote ∷ a) (quote ∷ single c),
                size',
              )
              at more in
          round ∙ rw (f, g, e) more'
    ]

-- unescapeColumn returns, and leaves one quote of each pair from the left.
pub unescape_column-single : (s : Text) → unescape_column s ≡ some (single s)
unfolding unescape_column
unescape_column-single [] = unfold single in refl
unescape_column-single (c ∷ s) = elim (find_pair (c ∷ s)) [
  | inl (f, g) ↦ rw (f, g) refl
  | inr (a, b, f, e, g) ↦
      let more =
        unescape_loop-single (length (c ∷ s)) a b
          (omega (arith, ap (λ (t : Text). length t) e, length-append a (quote ∷ quote ∷ b))) in
      let index : 0 + length a ≡ length a = omega arith in rw (f, g, index) (rw (sym e) at more)
]
