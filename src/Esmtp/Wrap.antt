-- ===== src/Esmtp/Wrap.antt =====
-- The lines of a text in base64: a line feed with its carriage return after each 76 bytes and at the
-- end.
use givemail.Base.{ℕ, zero, suc, ◌<◌, ◌≤◌, ◌≡◌, refl, ap, [], ◌∷◌, ◌++◌, arith, length, take, drop}
use givemail.Base.Text.{Text}
use givemail.Esmtp.{crlf}

-- `room` is what the line still holds.
unfoldable pub wrap : ℕ → Text → Text
wrap room [] = crlf
wrap zero (b ∷ s) = crlf ++ b ∷ wrap 75 s
wrap (suc room) (b ∷ s) = b ∷ wrap room s

-- The first line, where it is not the last.
pub wrap-take :
    (room : ℕ) (s : Text)
    → room < length s
    → wrap room s ≡ take room s ++ (crlf ++ wrap 76 (drop room s))
unfolding wrap
wrap-take zero [] h = ground arith
wrap-take (suc room) [] h = ground arith
wrap-take zero (b ∷ s) h = refl
wrap-take (suc room) (b ∷ s) h = ap (◌∷◌ b) (wrap-take room s (omega arith))

-- The last line.
pub wrap_last : (room : ℕ) (s : Text) → length s ≤ room → wrap room s ≡ s ++ crlf
unfolding wrap
wrap_last zero [] h = refl
wrap_last (suc room) [] h = refl
wrap_last zero (b ∷ s) h = ground arith
wrap_last (suc room) (b ∷ s) h = ap (◌∷◌ b) (wrap_last room s (omega arith))
