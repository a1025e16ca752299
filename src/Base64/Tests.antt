-- ===== src/Base64/Tests.antt =====
-- Runs of the codec, and its theorems at concrete inputs.
use givemail.Base.{◌≡◌, refl, some, [], ◌∷◌, ◌++◌, arith}
use givemail.Base.Text.{codes}
use givemail.Base64.Decoder.{symbols}
use givemail.Base64.RoundTrip.{decode-encode}
use givemail.Base64.{
  ◌>>=◌, put, code, terminate, write_triple, write_slack, decode_entry, base64_e, base64_d, encode,
  decode,
}

encode_runs : encode 7 (codes "a@b.c") ≡ some (some (codes "YUBiLmM=" ++ 0 ∷ [], 8))
unfolding encode put code terminate write_triple write_slack
encode_runs = refl

truncated : base64_e (7 ∷ 7 ∷ 7 ∷ []) (codes "abc") ≡ some (codes "YW" ++ 0 ∷ [], 4)
unfolding base64_e put code terminate write_triple
truncated = refl

decode_skips : decode 7 (codes "YW\r\nJj" ++ 0 ∷ []) 6 ≡ some (some (codes "abc" ++ 0 ∷ [], 3))
unfolding decode base64_d decode_entry put
decode_skips = refl

symbols_runs : symbols (codes "YWJj" ++ 0 ∷ []) ≡ some (24 ∷ 22 ∷ 9 ∷ 35 ∷ [])
unfolding symbols decode_entry
symbols_runs = refl

decode-encode_example :
    (encode 7 (codes "abcd") >>= λ r. r >>= λ (text, len). decode 9 text len)
    ≡ some (some (codes "abcd" ++ 0 ∷ [], 4))
decode-encode_example = decode-encode 7 9 b'a' (codes "bcd") (omega arith)
