-- ===== src/Base/Text.antt =====
-- std::string as a list of bytes. A position is a number, and `none` stands for string::npos.
use Prim.Native.Char.{code}
use Prim.Native.String.{String}
use givemail.Base.Tests.{◌==◌, ltb, if◌then◌else◌}
use givemail.Base.Lists.{take, drop}
use Prim.Native.Nat.{ℕ, suc, ◌+◌}
use mathlib.Core.Path.{◌≡◌, refl}
use mathlib.Core.Logic.{◌↔◌}
use mathlib.Core.Bool.{Bool, true, false, ◌&&◌, ◌||◌}
use mathlib.Core.Option.{Option, none, some}
use mathlib.Core.Option
use mathlib.Core.Logic.{◌≢◌}
use mathlib.Core.List.{List, [], ◌∷◌, ◌++◌}
use native.Mathlib.Omega.{arith}

abbrev pub Text : Type 0
Text = List ℕ

-- The bytes of an ASCII literal.
abbrev pub codes : String → Text
codes String.[] = []
codes (String.◌∷◌ c s) = code c ∷ codes s

-- string::empty
abbrev pub is_empty : Text → Bool
is_empty [] = true
is_empty (c ∷ s) = false

-- operator== on strings
unfoldable pub str_eq : Text → Text → Bool
str_eq [] [] = true
str_eq [] (d ∷ t) = false
str_eq (c ∷ s) [] = false
str_eq (c ∷ s) (d ∷ t) = (c == d) && str_eq s t

-- operator< on strings
unfoldable pub str_lt : Text → Text → Bool
str_lt [] [] = false
str_lt [] (d ∷ t) = true
str_lt (c ∷ s) [] = false
str_lt (c ∷ s) (d ∷ t) = ltb c d || ((c == d) && str_lt s t)

pub str_eq_iff : (s t : Text) → (str_eq s t ≡ true) ↔ (s ≡ t)
unfolding str_eq
str_eq_iff [] [] = ((λ _. refl), (λ _. refl))
str_eq_iff [] (d ∷ t) = ((λ e. cc), (λ e. cc))
str_eq_iff (c ∷ s) [] = ((λ e. cc), (λ e. cc))
str_eq_iff (c ∷ s) (d ∷ t) =
    ((λ e. ground (arith, str_eq_iff s t)), (λ e. ground (arith, str_eq_iff s t)))

-- Whether `s` begins with `p`.
unfoldable pub starts : Text → Text → Bool
starts [] s = true
starts (c ∷ p) [] = false
starts (c ∷ p) (d ∷ s) = (c == d) && starts p s

-- string::find from the beginning of the text that is given
unfoldable pub find_text : Text → Text → Option ℕ
unfolding starts
find_text p [] = if starts p [] then some 0 else none
find_text p (c ∷ s) =
    let later = Option.map suc (find_text p s) in if starts p (c ∷ s) then some 0 else later

unfoldable pub find_byte : ℕ → Text → Option ℕ
find_byte b [] = none
find_byte b (c ∷ s) = let later = Option.map suc (find_byte b s) in if c == b then some 0 else later

-- string::find(p, from) and string::find(b, from)
abbrev pub find_text_from : Text → Text → ℕ → Option ℕ
find_text_from p s from = Option.map (λ i. from + i) (find_text p (drop from s))

abbrev pub find_byte_from : ℕ → Text → ℕ → Option ℕ
find_byte_from b s from = Option.map (λ i. from + i) (find_byte b (drop from s))

-- string::substr(pos, n), for a `pos` within the text
abbrev pub substr : Text → ℕ → ℕ → Text
substr s pos n = take n (drop pos s)

-- string::erase(pos, n)
abbrev pub erase : Text → ℕ → ℕ → Text
erase s pos n = take pos s ++ drop (pos + n) s

-- string::find_first_of for the characters that `p` takes
unfoldable pub find_first : (ℕ → Bool) → Text → Option ℕ
find_first p [] = none
find_first p (c ∷ s) = let later = Option.map suc (find_first p s) in if p c then some 0 else later

abbrev pub find_first_from : (ℕ → Bool) → Text → ℕ → Option ℕ
find_first_from p s from = Option.map (λ i. from + i) (find_first p (drop from s))

-- A byte that does not end a C string.
abbrev pub IsNonzero : ℕ → Type 0
IsNonzero b = b ≢ 0
