-- ===== src/Base64.antt =====
-- src/Base64.cc: the static functions base64_e and base64_d, and Base64::encode and decode.
-- A buffer is a list whose length is its size, and a write past its end is a fault (`none`). An
-- encoded C string is a list that holds its terminator, and reading past the list is a fault too.
-- Bytes are numbers below 256. The shifts and ors of disjoint bit fields are sums and products.
-- The table of the decoder is a function of the byte. Sizes stay below 2^32, where the cast
-- (unsigned)dsiz changes nothing.
pub mod Buffer
pub mod Encoder
pub mod Decoder
pub mod RoundTrip
mod Tests
use givemail.Base.{
  ℕ, zero, suc, ◌+◌, ◌*◌, ◌-◌, ◌/◌, ◌%◌, ◌^◌, Bool, true, false, not, ◌&&◌, ◌||◌, Option, none,
  some, [], ◌∷◌, ltb, leb, ◌==◌, if◌then◌else◌, length, get_or, replicate,
}
use givemail.Base.Text.{Text, codes, is_empty}

-- static unsigned char const code[]
abbrev pub alphabet : Text
alphabet = codes "ABCDEFGHIJKLMNOPQRSTUVWXYZabcdefghijklmnopqrstuvwxyz0123456789+/"

abbrev pub b64nop : ℕ
b64nop = 128

abbrev pub b64eof : ℕ
b64eof = 64

unfoldable pub code : ℕ → ℕ
code i = get_or alphabet i 0

-- The last table entry that is written for a byte is the one that counts.
scan_alphabet : ℕ → Text → ℕ → ℕ
scan_alphabet c [] i = b64nop
scan_alphabet c (a ∷ rest) i =
    let later = scan_alphabet c rest (suc i) in if a == c then i else later

-- decode[c], once the table is prepared
pub decode_entry : ℕ → ℕ
unfolding scan_alphabet
decode_entry c = if (c == 0) || (c == b'=') then b64eof else scan_alphabet c alphabet 0

infixl 5 ◌>>=◌
abbrev pub ◌>>=◌ {ℓ κ} : {A : Type ℓ} {B : Type κ} → Option A → (A → Option B) → Option B
none >>= f = none
some a >>= f = f a

-- buf[i] = c
pub put : Text → ℕ → ℕ → Option Text
put [] i c = none
put (x ∷ s) zero c = some (c ∷ s)
put (x ∷ s) (suc i) c = put s i c >>= λ t. some (x ∷ t)

-- The buffer of base64_e, and whether its local `s` still points to it.
pub record Target : Type 0 where
  pub live : Bool
  pub buf : Text

-- s[i] = c where the test before it holds
put_if : Bool → Text → ℕ → ℕ → Option Text
put_if true s i c = put s i c
put_if false s i c = some s

-- s[bsize - 1] = '\0', s = NULL
cut : ℕ → Text → Option Target
cut bsize s = do s ← put s (bsize - 1) 0; some (record { live = false; buf = s })

-- One round of the loop over whole triples, with w = b[i] << 16 | b[i+1] << 8 | b[i+2].
write_triple : ℕ → ℕ → ℕ → Text → Option Target
unfolding put_if code cut
write_triple bsize n w s =
    if ltb (n + 4) bsize
    then (do
      s ← put s (n + 0) (code (w / 2 ^ 18 % 64))
      s ← put s (n + 1) (code (w / 2 ^ 12 % 64))
      s ← put s (n + 2) (code (w / 2 ^ 6 % 64))
      s ← put s (n + 3) (code (w % 64))
      some (record { live = true; buf = s }))
    else (do
      s ← put_if (ltb (n + 1) bsize) s (n + 0) (code (w / 2 ^ 18 % 64))
      s ← put_if (ltb (n + 2) bsize) s (n + 1) (code (w / 2 ^ 12 % 64))
      s ← put_if (ltb (n + 3) bsize) s (n + 2) (code (w / 2 ^ 6 % 64))
      cut bsize s)

-- The block under `if (slack)`: `third` is the third character, '=' if one byte is left.
write_slack : ℕ → ℕ → ℕ → ℕ → Text → Option Target
unfolding put_if code cut
write_slack bsize n w third s = do
  s ← put_if (ltb (n + 1) bsize) s (n + 0) (code (w / 2 ^ 18 % 64))
  s ← put_if (ltb (n + 2) bsize) s (n + 1) (code (w / 2 ^ 12 % 64))
  s ← put_if (ltb (n + 3) bsize) s (n + 2) third
  s ← put_if (ltb (n + 3) bsize) s (n + 3) b'='
  if leb bsize (n + 4) then cut bsize s else some (record { live = true; buf = s })

-- A block that stands under `if (s)`.
abbrev pub when_live : Target → (Text → Option Target) → Option Target
when_live o f = if o.live then f o.buf else some o

-- if (s) s[n] = '\0'
terminate : ℕ → Target → Option (Target × ℕ)
terminate n o =
    when_live o (λ s. put s n 0 >>= λ t. some (record { live = true; buf = t })) >>= λ r.
    some (r, n)

-- The loop, the block for the one or two bytes that are left, and the terminator.
encode_from : ℕ → ℕ → Text → Target → Option (Target × ℕ)
encode_from bsize n [] o = terminate n o
encode_from bsize n (b0 ∷ []) o = do
  o ← when_live o (write_slack bsize n (b0 * 2 ^ 16) b'=')
  terminate (n + 4) o
encode_from bsize n (b0 ∷ b1 ∷ []) o = do
  let w = b0 * 2 ^ 16 + b1 * 2 ^ 8
  o ← when_live o (write_slack bsize n w (code (w / 2 ^ 6 % 64)))
  terminate (n + 4) o
encode_from bsize n (b0 ∷ b1 ∷ b2 ∷ rest) o = do
  o ← when_live o (write_triple bsize n (b0 * 2 ^ 16 + b1 * 2 ^ 8 + b2))
  encode_from bsize (n + 4) rest o

-- base64_e(buf, bsiz, data, dsiz): the buffer that it leaves, and the length that it returns.
pub base64_e : Text → Text → Option (Text × ℕ)
unfolding encode_from
base64_e buf bytes = do
  (o, n) ← encode_from (length buf) 0 bytes (record { live = not (is_empty buf); buf = buf })
  some (o.buf, n)

-- Base64::encode: no result for no data, else the buffer and the new dataLen. `junk` stands for
-- what the new buffer holds.
pub encode : ℕ → Text → Option (Option (Text × ℕ))
unfolding base64_e
encode junk [] = some none
encode junk (b ∷ bytes) = do
  (_, size) ← base64_e [] (b ∷ bytes)
  (buf, _) ← base64_e (replicate (size + 1) junk) (b ∷ bytes)
  buf ← put buf size 0
  some (some (buf, size))

-- The length that the first loop of base64_d counts.
count_symbols : Text → Option ℕ
count_symbols [] = none
count_symbols (c ∷ s) =
    let later = count_symbols s in
    let more = later >>= λ n. some (n + 1) in
    if decode_entry c == b64eof then some 0 else if decode_entry c == b64nop then later else more

-- while ((b = decode[*s++]) == B64NOP) ;
read_symbol : Text → Option (ℕ × Text)
read_symbol [] = none
read_symbol (c ∷ s) =
    let later = read_symbol s in
    if decode_entry c == b64nop then later else some (decode_entry c, s)

-- The same loop under a test that the symbol before is not the end; else the old value stays.
read_unless : Bool → ℕ → Text → Option (ℕ × Text)
unfolding read_symbol
read_unless true old s = some (old, s)
read_unless false old s = read_symbol s

-- The locals of base64_d that live across the rounds of its second loop.
pub record Scan : Type 0 where
  pub src : Text
  pub b2 : ℕ
  pub b3 : ℕ
  pub b4 : ℕ
  pub i : ℕ
  pub buf : Text

-- A round goes on or breaks.
pub data Round : Type 0 where
  more : Scan → Round
  stop : Text → Round

-- The block after `/* EOF */`.
finish : ℕ → ℕ → ℕ → ℕ → ℕ → Text → Option Text
finish b1 b2 b3 b4 i buf = if (b1 == b64eof) || (b2 == b64eof) then some buf else (do
  buf ← put buf i ((b1 * 4 + b2 / 16) % 256)
  let one = some buf
  let two = put buf (i + 1) (b2 % 16 * 16 + b3 / 4 % 16)
  let three = two >>= λ t. put t (i + 2) (b3 % 4 * 64 + b4)
  if b3 == b64eof then one else if b4 == b64eof then two else three)

-- The entries are at most 64, so the test by masks is a test of each.
decode_round : Scan → Option Round
unfolding read_unless finish
decode_round r = do
  (b1, s) ← read_symbol r.src
  (b2, s) ← read_unless (b1 == b64eof) r.b2 s
  (b3, s) ← read_unless (b2 == b64eof) r.b3 s
  (b4, s) ← read_unless (b3 == b64eof) r.b4 s
  if ltb b1 64 && (ltb b2 64 && (ltb b3 64 && ltb b4 64))
      then (do
        let w = b1 * 2 ^ 18 + b2 * 2 ^ 12 + b3 * 2 ^ 6 + b4
        buf ← put r.buf r.i (w / 2 ^ 16 % 256)
        buf ← put buf (r.i + 1) (w / 2 ^ 8 % 256)
        buf ← put buf (r.i + 2) (w % 256)
        some (more (record { src = s; b2 = b2; b3 = b3; b4 = b4; i = r.i + 3; buf = buf })))
      else (do buf ← finish b1 b2 b3 b4 r.i r.buf; some (stop buf))

-- for (i = 0, s = b64s; i < len; )
decode_loop : ℕ → ℕ → Scan → Option Text
unfolding decode_round
decode_loop zero len r = none
decode_loop (suc fuel) len r =
    let go = decode_round r >>= λ round. elim round [
      | more r' ↦ decode_loop fuel len r'
      | stop buf ↦ some buf
    ] in
    if ltb r.i len then go else some r.buf

-- base64_d(buf, bsiz, b64s): the buffer that it leaves, and the length that it returns. Each round
-- of the loop reads a symbol, so the length of the text is enough fuel.
pub base64_d : Text → Text → Option (Text × ℕ)
unfolding count_symbols decode_loop
base64_d buf b64s = do
  n ← count_symbols b64s
  let total_len = n * 3 / 4
  let len = if ltb (length buf) total_len then length buf else total_len
  let start : Scan = record { src = b64s; b2 = b64eof; b3 = b64eof; b4 = b64eof; i = 0; buf = buf }
  let out = decode_loop (length b64s + 1) len start >>= λ t. some (t, total_len)
  if is_empty buf then some (buf, total_len) else out

-- Base64::decode of a text of length dataLen, given with its terminator.
pub decode : ℕ → Text → ℕ → Option (Option (Text × ℕ))
unfolding base64_d
decode junk b64s zero = some none
decode junk b64s (suc _) = do
  (_, size) ← base64_d [] b64s
  (buf, _) ← base64_d (replicate (size + 1) junk) b64s
  buf ← put buf size 0
  some (some (buf, size))
