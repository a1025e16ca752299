-- ===== src/Base/Find.antt =====
-- Searches in texts that are put together from parts.
use Prim.Native.Nat.{ℕ, ◌+◌, ◌≤◌}
use mathlib.Core.Path.{◌≡◌, refl}
use mathlib.Core.Logic.{◌≢◌, ◌⊎◌, inl, inr}
use mathlib.Core.Bool.{true, false, ◌&&◌}
use mathlib.Core.Option.{Option, none, some}
use mathlib.Core.List.{[], ◌∷◌, ◌++◌}
use native.Mathlib.Omega.{arith}
use givemail.Base.Tests.{◌==◌, by_test, Option-cases}
use givemail.Base.Lists.{length, drop-append, All}
use givemail.Base.Text.{Text, starts, find_byte, find_text, find_text_from}

abbrev pub Lacks : ℕ → Text → Type 0
Lacks c s = All (λ d. d ≢ c) s

-- A text that is over, or goes on with `c`.
abbrev pub EndsBy : ℕ → Text → Type 0
EndsBy c tail = (tail ≡ []) ⊎ ((rest : Text) × (tail ≡ c ∷ rest))

pub find_byte-behind :
    (c : ℕ) (s rest : Text) → Lacks c s → find_byte c (s ++ c ∷ rest) ≡ some (length s)
unfolding find_byte
find_byte-behind c [] rest h = let e : (c == c) ≡ true = ground arith in rw e refl
find_byte-behind c (d ∷ s) rest h =
    let e : (d == c) ≡ false = ground (arith, h.0) in rw (e, find_byte-behind c s rest h.1) refl

pub find_byte-Lacks : (c : ℕ) (s : Text) → Lacks c s → find_byte c s ≡ none
unfolding find_byte
find_byte-Lacks c [] h = refl
find_byte-Lacks c (d ∷ s) h =
    let e : (d == c) ≡ false = ground (arith, h.0) in rw (e, find_byte-Lacks c s h.1) refl

pub find_text_single : (c : ℕ) (s : Text) → find_text (c ∷ []) s ≡ find_byte c s
unfolding find_text find_byte starts
find_text_single c [] = refl
find_text_single c (d ∷ s) =
    let e : ((c == d) && true) ≡ (d == c) = ground arith in rw (e, find_text_single c s) refl

-- The search for the end of a value behind `pre`.
module _ (c : ℕ) (pre value : Text) (lacks : Lacks c value) where
  pub find_end :
      (rest : Text)
      → find_text_from (c ∷ []) (pre ++ (value ++ c ∷ rest)) (length pre)
        ≡ some (length pre + length value)
  find_end rest =
      rw
        (
          drop-append pre (value ++ c ∷ rest),
          find_text_single c (value ++ c ∷ rest),
          find_byte-behind c value rest lacks,
        )
        refl

  pub find_no_end : find_text_from (c ∷ []) (pre ++ value) (length pre) ≡ none
  find_no_end =
      rw (drop-append pre value, find_text_single c value, find_byte-Lacks c value lacks) refl

starts-length : (p s : Text) → starts p s ≡ true → length p ≤ length s
unfolding starts
starts-length [] s h = omega arith
starts-length (c ∷ p) [] h = cc h
starts-length (c ∷ p) (d ∷ s) h = ground (arith, starts-length p s)

abbrev Within : Text → ℕ → Option ℕ → Type 0
Within p n o = (i : ℕ) → o ≡ some i → i + length p ≤ n

find_text-Within : (p s : Text) → Within p (length s) (find_text p s)
unfolding find_text
find_text-Within p [] =
    by_test (Within p 0) (starts p []) (λ e i h. ground (arith, starts-length p [] e))
      (λ _ i h. cc h)
find_text-Within p (c ∷ s) =
    by_test (Within p (length (c ∷ s))) (starts p (c ∷ s))
      (λ e i h. ground (arith, starts-length p (c ∷ s) e))
      (λ _. elim (Option-cases (find_text p s)) [
        | inl e ↦ rw e (λ i h. cc h)
        | inr (j, e) ↦ rw e (λ i h. ground (arith, find_text-Within p s j e))
      ])

-- What is found lies within the text.
pub find_text-length : (p s : Text) (i : ℕ) → find_text p s ≡ some i → i + length p ≤ length s
find_text-length = find_text-Within

starts_refl : (s : Text) → starts s s ≡ true
unfolding starts
starts_refl [] = refl
starts_refl (c ∷ s) = ground (arith, starts_refl s)

pub find_text_self : (s : Text) → find_text s s ≡ some 0
unfolding find_text starts
find_text_self [] = refl
find_text_self (c ∷ s) =
    let e : ((c == c) && starts s s) ≡ true = ground (arith, starts_refl s) in rw e refl
