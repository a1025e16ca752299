-- ===== src/Base64/Buffer.antt =====
-- Writes into a buffer that is split at the place of the write.
use native.Mathlib.Nat.{add-zero}
use givemail.Base.{ℕ, suc, ◌+◌, ◌<◌, ◌≡◌, some, [], ◌∷◌, ◌++◌, arith, Option-cases, length}
use givemail.Base.Text.{Text}
use givemail.Base64.{◌>>=◌, put}

abbrev pub IsByte : ℕ → Type 0
IsByte b = b < 256

pub put-append :
    (pre t : Text) (i c : ℕ)
    → put (pre ++ t) (length pre + i) c ≡ (put t i c >>= λ u. some (pre ++ u))
unfolding put
put-append [] t i c = ground (arith, Option-cases (put t i c))
put-append (x ∷ pre) t i c =
    let e : suc (length pre) + i ≡ suc (length pre + i) = omega arith in
    rw (e, put-append pre t i c) (ground (arith, Option-cases (put t i c)))

pub put-append_zero :
    (pre t : Text) (c : ℕ) → put (pre ++ t) (length pre) c ≡ (put t 0 c >>= λ u. some (pre ++ u))
put-append_zero pre t c = rw (← add-zero (length pre)) (put-append pre t 0 c)
