-- ===== src/QuotedPrintable/Round.antt =====
-- One round of the loop of qp_encode, by what it does.
use givemail.Base.{
  ℕ, ◌+◌, ◌%◌, ◌≤◌, ◌<◌, ◌≡◌, refl, Bool, true, false, ◌⊎◌, inl, inr, [], ◌∷◌, arith, ltb, ◌==◌,
  if◌then◌else◌, Bool-cases, length, append-nil,
}
use givemail.Base.Text.{Text}
use givemail.QuotedPrintable.{
  hex_digit, is_simple, needs_cut, Written, write, soft_break, quoted, encode_loop,
}

-- The second half of a round, behind a soft break or none, by the room that is left.
module _ (osize c consumed : ℕ) (plain quote : Written) where
  abbrev settled : ℕ → Text → Written
  settled n head =
      let stop : Written = record { consumed = consumed; out = [] } in
      write head (
        if is_simple c
        then (if ltb osize (n + 1) then stop else plain)
        else (if ltb osize (n + 3) then stop else quote))

  room :
      (n : ℕ) (head : Text)
      → ((settled n head).consumed ≡ consumed)
          × (osize < n + (if is_simple c then 1 else 3))
          × (((settled n head).out ≡ []) ⊎ ((settled n head).out ≡ head))
        ⊎ (((is_simple c ≡ true) × (n + 1 ≤ osize) × (settled n head ≡ write head plain))
            ⊎ ((is_simple c ≡ false) × (n + 3 ≤ osize) × (settled n head ≡ write head quote)))
  room n head = elim (Bool-cases (is_simple c)) [
    | inl q ↦ elim (Bool-cases (ltb osize (n + 1))) [
      | inl u ↦ rw (q, u) (inl (refl, ground arith, inr (append-nil head)))
      | inr u ↦ rw (q, u) (inr (inl (refl, ground arith, refl)))
    ]
    | inr q ↦ elim (Bool-cases (ltb osize (n + 3))) [
      | inl u ↦ rw (q, u) (inl (refl, ground arith, inr (append-nil head)))
      | inr u ↦ rw (q, u) (inr (inr (refl, ground arith, refl)))
    ]
  ]

module _ (osize c : ℕ) (s : Text) (consumed nbytes line_len prev : ℕ) where
  abbrev pub cuts : Bool
  cuts = needs_cut c consumed line_len prev

  abbrev pub used : ℕ
  used = if cuts then nbytes + 2 else nbytes

  abbrev pub column : ℕ
  column = if cuts then 0 else line_len

  abbrev pub lead : Text
  lead = if cuts then soft_break else []

  abbrev pub after_plain : Written
  after_plain =
      encode_loop osize s (consumed + 1) (used + 1) (if c == b'\n' then 0 else column + 1) c

  abbrev pub after_quote : Written
  after_quote = encode_loop osize s (consumed + 1) (used + 3) (column + 3) (hex_digit (c % 16))

  -- The round stops for want of room, or writes the byte plain, or writes it quoted.
  abbrev pub Rounds : Written → Type 0
  Rounds w =
      ((w.consumed ≡ consumed)
        × (osize < used + (if is_simple c then 1 else 3))
        × ((w.out ≡ []) ⊎ (w.out ≡ lead)))
      ⊎ (((is_simple c ≡ true) × (used + 1 ≤ osize) × (w ≡ write lead (write (c ∷ []) after_plain)))
          ⊎ ((is_simple c ≡ false)
              × (used + 3 ≤ osize)
              × (w ≡ write lead (write (quoted c) after_quote))))

  pub encode_loop-Rounds : Rounds (encode_loop osize (c ∷ s) consumed nbytes line_len prev)
  unfolding encode_loop
  encode_loop-Rounds = elim (Bool-cases cuts) [
    | inl p ↦ elim (Bool-cases (ltb osize (nbytes + 2))) [
      | inl t ↦ rw (p, t) (inl (refl, ground arith, inl refl))
      | inr t ↦ rw (p, t) (room osize c consumed _ _ (nbytes + 2) soft_break)
    ]
    | inr p ↦ rw p (room osize c consumed _ _ nbytes [])
  ]

-- The loop never counts more than it was given.
pub consumed-encode_loop :
    (osize : ℕ) (s : Text) (consumed nbytes line_len prev : ℕ)
    → (encode_loop osize s consumed nbytes line_len prev).consumed ≤ consumed + length s
consumed-encode_loop osize [] consumed nbytes line_len prev = unfold encode_loop in omega arith
consumed-encode_loop osize (c ∷ s) consumed nbytes line_len prev =
    elim (encode_loop-Rounds osize c s consumed nbytes line_len prev) [
      | inl (d, _, _) ↦ omega arith
      | inr (inl (_, _, w)) ↦ rw w (omega (arith, consumed-encode_loop osize s (consumed + 1)))
      | inr (inr (_, _, w)) ↦ rw w (omega (arith, consumed-encode_loop osize s (consumed + 1)))
    ]
