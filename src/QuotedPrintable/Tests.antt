-- ===== src/QuotedPrintable/Tests.antt =====
-- Runs of the encoder, and its theorems at concrete inputs.
use givemail.Base.{◌≡◌, refl, none, some, replicate, All-replicate, arith}
use givemail.Base.Text.{codes}
use givemail.QuotedPrintable.Lines.{Within, encode-Within}
use givemail.QuotedPrintable.Reader.{Means}
use givemail.QuotedPrintable.Meaning.{meaning-encode}
use givemail.QuotedPrintable.Overflow.{IsQuoted, encode_refuses}
use givemail.QuotedPrintable.{encode, encode_loop, is_simple, hex_digit}

quotes : encode (codes "a=b \n") ≡ some (codes "a=3Db =\n\n")
unfolding encode encode_loop is_simple hex_digit
quotes = refl

too_long : encode (replicate 26 0xe9) ≡ none
unfolding encode encode_loop is_simple hex_digit
too_long = refl

meaning-encode_example : Means (codes "a=3Db =\n\n") (codes "a=b \n")
meaning-encode_example = meaning-encode b'a' (codes "=b \n") (omega arith) quotes

encode-Within_example : Within 77 0 (codes "a=3Db =\n\n")
encode-Within_example = encode-Within b'a' (codes "=b \n") quotes

encode_refuses_example : encode (replicate 30 0xc3) ≡ none
unfolding is_simple
encode_refuses_example =
    encode_refuses 0xc3 (replicate 29 0xc3) (All-replicate IsQuoted 30 0xc3 refl) (omega arith)
