-- ===== src/Esmtp/Lines.antt =====
-- The lines that getAttachmentLine of src/LibESMTPProvider.cc takes from an encoded text.
use givemail.Base.{
  ℕ, zero, suc, ◌+◌, ◌-◌, ◌*◌, ◌/◌, ◌%◌, ◌<◌, ◌≤◌, ◌≡◌, refl, ap, Bool, true, false, some, [], ◌∷◌,
  ◌++◌, append_assoc, arith, ltb, if◌then◌else◌, length, length-append, take, drop, drop-append,
  get_or, All,
}
use givemail.Base.Text.{IsNonzero, Text}
use givemail.Base64.{code, alphabet}
use givemail.Base64.Buffer.{IsByte}
use givemail.Base64.Encoder.{encoding, encode-encoding}
use givemail.Esmtp
use givemail.Esmtp.{Cursor, Memory}
use givemail.Esmtp.Blocks.{line_of, content_line}

take-within : (n : ℕ) (s t : Text) → n ≤ length s → take n (s ++ t) ≡ take n s
take-within zero s t h = refl
take-within (suc n) [] t h = ground arith
take-within (suc n) (b ∷ s) t h = ap (◌∷◌ b) (take-within n s t (omega arith))

pub take-length : (s : Text) → take (length s) s ≡ s
take-length [] = refl
take-length (b ∷ s) = ap (◌∷◌ b) (take-length s)

pub take-drop : (n : ℕ) (s : Text) → take n s ++ drop n s ≡ s
take-drop zero s = refl
take-drop (suc n) [] = refl
take-drop (suc n) (b ∷ s) = ap (◌∷◌ b) (take-drop n s)

pub length-take : (n : ℕ) (s : Text) → n ≤ length s → length (take n s) ≡ n
length-take zero s h = refl
length-take (suc n) [] h = ground arith
length-take (suc n) (b ∷ s) h = ap suc (length-take n s (omega arith))

pub All-take : (n : ℕ) (s : Text) → All IsNonzero s → All IsNonzero (take n s)
All-take zero s h = tt
All-take (suc n) [] h = tt
All-take (suc n) (b ∷ s) h = (h.0, All-take n s h.1)

pub All-drop : (n : ℕ) (s : Text) → All IsNonzero s → All IsNonzero (drop n s)
All-drop zero s h = h
All-drop (suc n) [] h = tt
All-drop (suc n) (b ∷ s) h = All-drop n s h.1

-- A cursor, by its members.
abbrev pub cursor : Esmtp.Stage → ℕ → ℕ → Bool → Cursor
cursor s k pos more = record {
  stage = s;
  current_attachment = k;
  encoded_pos = pos;
  has_more_lines = more;
}

-- The bytes behind a position.
read_at :
    (pre s t : Text) (n : ℕ)
    → n ≤ length s
    → take n (drop (length pre) ((pre ++ s) ++ t)) ≡ take n s
read_at pre s t n h = rw (append_assoc pre s t, drop-append pre (s ++ t)) (take-within n s t h)

module _ (stage : Esmtp.Stage) (k : ℕ) (more : Bool) (pre s : Text) where
  pub line_of_long :
      76 < length s
      → line_of ((pre ++ s) ++ 0 ∷ []) (length (pre ++ s)) (cursor stage k (length pre) more)
        ≡ (some (take 76 s), cursor stage k (length pre + 76) true)
  unfolding line_of
  line_of_long h =
      let l = length-append pre s in
      let left : ltb (length (pre ++ s) - length pre) 76 ≡ false = ground (arith, l) in
      let here : ltb (length pre) (length (pre ++ s)) ≡ true = ground (arith, l) in
      let past : ltb (length pre + 76) (length (pre ++ s)) ≡ true = ground (arith, l) in
      rw (left, here, past, read_at pre s (0 ∷ []) 76 (omega arith)) refl

  pub line_of_last :
      0 < length s
      → length s ≤ 76
      → line_of ((pre ++ s) ++ 0 ∷ []) (length (pre ++ s)) (cursor stage k (length pre) more)
        ≡ (some s, cursor stage k (length (pre ++ s)) false)
  unfolding line_of
  line_of_last h h' =
      let l = length-append pre s in
      let size : (if ltb (length (pre ++ s) - length pre) 76
            then length (pre ++ s) - length pre
            else 76)
          ≡ length s =
        ground (arith, l) in
      let here : ltb (length pre) (length (pre ++ s)) ≡ true = ground (arith, l) in
      let past : ltb (length pre + length s) (length (pre ++ s)) ≡ false = ground (arith, l) in
      rw (size, here, past, read_at pre s (0 ∷ []) (length s) (omega arith), take-length s, l) refl

get_or-IsNonzero : (s : Text) (i : ℕ) → All IsNonzero s → i < length s → IsNonzero (get_or s i 0)
get_or-IsNonzero [] i h k = ground arith
get_or-IsNonzero (b ∷ s) zero h k = h.0
get_or-IsNonzero (b ∷ s) (suc i) h k = get_or-IsNonzero s i h.1 (omega arith)

code-IsNonzero : (i : ℕ) → i < 64 → IsNonzero (code i)
unfolding code
code-IsNonzero i h = get_or-IsNonzero alphabet i (omega arith) h

-- The text in base64 has no zero byte.
pub encoding-IsNonzero : (s : Text) → All IsByte s → All IsNonzero (encoding s)
unfolding encoding
encoding-IsNonzero [] h = tt
encoding-IsNonzero (a ∷ []) h =
    let equals : All IsNonzero (b'=' ∷ b'=' ∷ []) = omega arith in
    (code-IsNonzero (a / 4 % 64) (omega arith), (code-IsNonzero (a % 4 * 16) (omega arith), equals))
encoding-IsNonzero (a ∷ b ∷ []) h =
    let equals : All IsNonzero (b'=' ∷ []) = omega arith in
    (
      code-IsNonzero (a / 4 % 64) (omega arith),
      (
        code-IsNonzero (a % 4 * 16 + b / 16) (omega arith),
        (code-IsNonzero (b % 16 * 4) (omega arith), equals),
      ),
    )
encoding-IsNonzero (a ∷ b ∷ c ∷ rest) h = (
  code-IsNonzero (a / 4 % 64) (omega arith),
  (
    code-IsNonzero (a % 4 * 16 + b / 16) (omega arith),
    (
      code-IsNonzero (b % 16 * 4 + c / 64) (omega arith),
      (code-IsNonzero (c % 64) (omega arith), encoding-IsNonzero rest h.1.1.1),
    ),
  ),
)

pub content_line-encoding :
    (w : Memory) (b : ℕ) (bytes : Text) (c : Cursor)
    → All IsByte (b ∷ bytes)
    → content_line w (b ∷ bytes) c
      ≡ some (line_of (encoding (b ∷ bytes) ++ 0 ∷ []) (length (encoding (b ∷ bytes))) c)
unfolding content_line
content_line-encoding w b bytes c h = rw (encode-encoding w.junk b bytes h) refl
