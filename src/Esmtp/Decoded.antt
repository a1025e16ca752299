-- ===== src/Esmtp/Decoded.antt =====
-- The body of an attachment, read back.
use givemail.Base.{ℕ, zero, suc, ◌≡◌, refl, ◌∙◌, some, [], ◌∷◌, ◌++◌, length, All}
use givemail.Base.Text.{Text}
use givemail.Base64
use givemail.Base64.{◌>>=◌, decode_entry}
use givemail.Base64.Buffer.{IsByte}
use givemail.Base64.Encoder.{encoding}
use givemail.Base64.Decoder.{symbols, decode-unpack}
use givemail.Base64.RoundTrip.{line_end_skipped, sextets, symbols-encoding, unpack-sextets}
use givemail.Esmtp.{crlf}
use givemail.Esmtp.Wrap.{wrap}

-- The end of a line has no symbol.
symbols-crlf : (s : Text) → symbols (crlf ++ s) ≡ symbols s
unfolding symbols
symbols-crlf s = rw (line_end_skipped.0, line_end_skipped.1) refl

symbols-ap : (c : ℕ) (s t : Text) → symbols s ≡ symbols t → symbols (c ∷ s) ≡ symbols (c ∷ t)
unfolding symbols
symbols-ap c s t h = rw h refl

symbols-wrap : (room : ℕ) (s t : Text) → symbols (wrap room s ++ t) ≡ symbols (s ++ t)
unfolding wrap
symbols-wrap zero [] t = symbols-crlf t
symbols-wrap (suc room) [] t = symbols-crlf t
symbols-wrap zero (c ∷ s) t =
    symbols-crlf (c ∷ (wrap 75 s ++ t))
    ∙ symbols-ap c (wrap 75 s ++ t) (s ++ t) (symbols-wrap 75 s t)
symbols-wrap (suc room) (c ∷ s) t = symbols-ap c (wrap room s ++ t) (s ++ t) (symbols-wrap room s t)

symbols-line_end : (s t : Text) → symbols (s ++ (crlf ++ t)) ≡ symbols (s ++ t)
symbols-line_end [] t = symbols-crlf t
symbols-line_end (c ∷ s) t = symbols-ap c (s ++ (crlf ++ t)) (s ++ t) (symbols-line_end s t)

-- Base64::decode gives the content of an attachment back from its body, the lines that are sent with
-- their ends and a terminator behind them, and its length.
pub decode-wrap :
    (junk n b : ℕ) (bytes : Text)
    → All IsByte (b ∷ bytes)
    → Base64.decode junk (wrap 76 (encoding (b ∷ bytes)) ++ (crlf ++ 0 ∷ [])) (suc n)
      ≡ some (some ((b ∷ bytes) ++ 0 ∷ [], length (b ∷ bytes)))
decode-wrap junk n b bytes h =
    let e = symbols-wrap 76 (encoding (b ∷ bytes)) (crlf ++ 0 ∷ []) in
    rw (unpack-sextets (b ∷ bytes) h) at (
      decode-unpack junk n (wrap 76 (encoding (b ∷ bytes)) ++ (crlf ++ 0 ∷ []))
        (sextets (b ∷ bytes))
        (e ∙ (symbols-line_end (encoding (b ∷ bytes)) (0 ∷ []) ∙ symbols-encoding (b ∷ bytes) h)))
