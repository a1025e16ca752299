-- ===== src/QuotedPrintable/Strings.antt =====
-- What qp_encode of src/QuotedPrintable.cc writes can be read as a C string.
use givemail.Base.{
  ℕ, ◌+◌, ◌*◌, ◌/◌, ◌%◌, ◌≡◌, refl, true, inl, inr, none, some, [], ◌∷◌, arith, Bool-cases, length,
  All, All-append,
}
use givemail.Base.Text.{IsNonzero, Text}
use givemail.QuotedPrintable.{is_simple, needs_cut, encode_loop, encode}
use givemail.QuotedPrintable.Round.{lead, encode_loop-Rounds}
use givemail.QuotedPrintable.Reader.{hex_digit_lem}

lead-IsNonzero :
    (osize c : ℕ) (s : Text) (consumed nbytes line_len prev : ℕ)
    → All IsNonzero (lead osize c s consumed nbytes line_len prev)
lead-IsNonzero osize c s consumed nbytes line_len prev =
    elim (Bool-cases (needs_cut c consumed line_len prev)) [
      | inl e ↦ rw e (omega arith)
      | inr e ↦ rw e tt
    ]

is_simple-IsNonzero : (c : ℕ) → is_simple c ≡ true → IsNonzero c
unfolding is_simple
is_simple-IsNonzero c h = ground arith

-- The loop writes no zero byte.
encode_loop-IsNonzero :
    (osize : ℕ) (s : Text) (consumed nbytes line_len prev : ℕ)
    → All IsNonzero (encode_loop osize s consumed nbytes line_len prev).out
encode_loop-IsNonzero osize [] consumed nbytes line_len prev = unfold encode_loop in tt
encode_loop-IsNonzero osize (c ∷ s) consumed nbytes line_len prev =
    let led = lead-IsNonzero osize c s consumed nbytes line_len prev in
    elim (encode_loop-Rounds osize c s consumed nbytes line_len prev) [
      | inl (_, _, inl e) ↦ rw e tt
      | inl (_, _, inr e) ↦ rw e led
      | inr (inl (simple, _, w)) ↦
          let ih = encode_loop-IsNonzero osize s (consumed + 1) _ _ _ in
          rw w (All-append IsNonzero _ _ led (is_simple-IsNonzero c simple, ih))
      | inr (inr (_, _, w)) ↦
          let ih = encode_loop-IsNonzero osize s (consumed + 1) _ _ _ in
          rw w (
            All-append IsNonzero _ _ led (
              omega arith,
              (
                omega (arith, (hex_digit_lem (c / 16 % 16) (omega arith)).1),
                (omega (arith, (hex_digit_lem (c % 16) (omega arith)).1), ih),
              ),
            ))
    ]

pub encode-nil : encode [] ≡ none
unfolding encode
encode-nil = refl

pub encode-IsNonzero :
    (b : ℕ) (bytes out : Text) → encode (b ∷ bytes) ≡ some out → All IsNonzero out
unfolding encode
encode-IsNonzero b bytes out e =
    let size = length (b ∷ bytes) in
    let w = encode_loop (size * 3 + 1) (b ∷ bytes) 0 0 0 0 in
    let set = encode_loop-IsNonzero (size * 3 + 1) (b ∷ bytes) 0 0 0 0 in
    let same : w.out ≡ out = ground arith in rw same at set
