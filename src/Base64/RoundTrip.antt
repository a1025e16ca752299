-- ===== src/Base64/RoundTrip.antt =====
-- Decoding what was encoded.
use givemail.Base.Tables.{fixes, eq_of_fixes}
use givemail.Base.{
  ℕ, suc, ◌+◌, ◌*◌, ◌/◌, ◌%◌, ◌<◌, ◌≡◌, refl, true, some, List, [], ◌∷◌, ◌++◌, arith, length, All,
}
use givemail.Base.Text.{Text}
use givemail.Base64.Buffer.{IsByte}
use givemail.Base64.Encoder.{encoding, encode-encoding}
use givemail.Base64.Decoder.{symbols, unpack, decode-unpack}
use givemail.Base64.{code, decode_entry, b64nop, ◌>>=◌, encode, decode}

tables_agree : fixes (λ k. decode_entry (code k)) 64 ≡ true
unfolding fixes decode_entry code
tables_agree = refl

-- The end of a line has no symbol.
pub line_end_skipped : (decode_entry b'\r' ≡ b64nop) × (decode_entry b'\n' ≡ b64nop)
unfolding decode_entry
line_end_skipped = (refl, refl)

-- The tables of the two directions agree.
decode_entry-code : (k : ℕ) → k < 64 → decode_entry (code k) ≡ k
decode_entry-code k h = eq_of_fixes (λ k. decode_entry (code k)) 64 k h tables_agree

-- The six-bit groups of a byte string.
pub sextets : Text → List ℕ
sextets [] = []
sextets (a ∷ []) = (a / 4 % 64) ∷ (a % 4 * 16) ∷ []
sextets (a ∷ b ∷ []) = (a / 4 % 64) ∷ (a % 4 * 16 + b / 16) ∷ (b % 16 * 4) ∷ []
sextets (a ∷ b ∷ c ∷ rest) =
    (a / 4 % 64) ∷ (a % 4 * 16 + b / 16) ∷ (b % 16 * 4 + c / 64) ∷ (c % 64) ∷ sextets rest

pub unpack-sextets : (bytes : Text) → All IsByte bytes → unpack (sextets bytes) ≡ bytes
unfolding unpack sextets
unpack-sextets [] h = refl
unpack-sextets (a ∷ []) h = ground arith
unpack-sextets (a ∷ b ∷ []) h = ground arith
unpack-sextets (a ∷ b ∷ c ∷ rest) h = ground (arith, unpack-sextets rest)

symbols-code :
    (k : ℕ) (s : Text) → k < 64 → symbols (code k ∷ s) ≡ (symbols s >>= λ l. some (k ∷ l))
unfolding symbols
symbols-code k s h = rw (decode_entry-code k h) (ground arith)

symbols_stop : (s : Text) → (symbols (b'=' ∷ s) ≡ some []) × (symbols (0 ∷ s) ≡ some [])
unfolding symbols decode_entry
symbols_stop s = (refl, refl)

pub symbols-encoding :
    (bytes : Text) → All IsByte bytes → symbols (encoding bytes ++ 0 ∷ []) ≡ some (sextets bytes)
unfolding encoding sextets
symbols-encoding [] h = (symbols_stop []).1
symbols-encoding (a ∷ []) h = rw (
  symbols-code (a / 4 % 64) _ (omega arith),
  symbols-code (a % 4 * 16) _ (omega arith),
  (symbols_stop _).0,
)
symbols-encoding (a ∷ b ∷ []) h =
    let hb : b < 256 = h.1.0 in
    rw (
      symbols-code (a / 4 % 64) _ (omega arith),
      symbols-code (a % 4 * 16 + b / 16) _ (omega arith),
      symbols-code (b % 16 * 4) _ (omega arith),
      (symbols_stop _).0,
    )
symbols-encoding (a ∷ b ∷ c ∷ rest) h =
    let hb : b < 256 = h.1.0 in
    let hc : c < 256 = h.1.1.0 in
    rw (
      symbols-code (a / 4 % 64) _ (omega arith),
      symbols-code (a % 4 * 16 + b / 16) _ (omega arith),
      symbols-code (b % 16 * 4 + c / 64) _ (omega arith),
      symbols-code (c % 64) _ (omega arith),
      symbols-encoding rest h.1.1.1,
    )

length-encoding_pos : (b : ℕ) (bytes : Text) → (n : ℕ) × (length (encoding (b ∷ bytes)) ≡ suc n)
unfolding encoding
length-encoding_pos b [] = (3, refl)
length-encoding_pos b (c ∷ []) = (3, refl)
length-encoding_pos b (c ∷ d ∷ bytes) = (_, refl)

-- Encoding a byte string that is not empty gives a terminated text and its length, and decoding
-- that gives the byte string and its length back, with no access out of bounds in either.
pub decode-encode :
    (junk junk' b : ℕ) (bytes : Text)
    → All IsByte (b ∷ bytes)
    → (encode junk (b ∷ bytes) >>= λ r. r >>= λ (text, len). decode junk' text len)
      ≡ some (some ((b ∷ bytes) ++ 0 ∷ [], length (b ∷ bytes)))
decode-encode junk junk' b bytes h =
    let (n, e) = length-encoding_pos b bytes in
    rw (
      encode-encoding junk b bytes h,
      e,
      decode-unpack junk' n _ _ (symbols-encoding (b ∷ bytes) h),
      unpack-sextets (b ∷ bytes) h,
    )
