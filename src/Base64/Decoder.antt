-- ===== src/Base64/Decoder.antt =====
-- base64_d against the decoding of the symbols of its text: it never reads past the terminator nor
-- writes past the length that it returns.
use native.Mathlib.Numerals.{add-one}
use givemail.Base.{
  ℕ, zero, suc, ◌+◌, ◌*◌, ◌/◌, ◌%◌, ◌^◌, ◌≤◌, ◌<◌, ◌≡◌, refl, ◌⊎◌, inl, inr, Option, none, some,
  true, false, ltb, List, [], ◌∷◌, ◌++◌, arith, ◌==◌, if◌then◌else◌, length, drop, Option-cases,
  append_assoc, length-append, length-replicate, replicate,
}
use givemail.Base.Text.{Text}
use givemail.Base64.Buffer.{put-append, put-append_zero}
use givemail.Base64.{
  alphabet, b64nop, b64eof, scan_alphabet, decode_entry, ◌>>=◌, put, count_symbols, read_symbol,
  Scan, more, stop, decode_round, decode_loop, base64_d, decode,
}

-- The symbols in front of the terminator or the first '=', without the bytes that are skipped.
unfoldable pub symbols : Text → Option (List ℕ)
symbols [] = none
symbols (c ∷ s) =
    let later = symbols s in
    let kept = later >>= λ l. some (decode_entry c ∷ l) in
    if decode_entry c == b64eof then some [] else if decode_entry c == b64nop then later else kept

-- Four symbols make three bytes, three make two, two make one.
unfoldable pub unpack : List ℕ → Text
unpack [] = []
unpack (a ∷ []) = []
unpack (a ∷ b ∷ []) = (a * 4 + b / 16) ∷ []
unpack (a ∷ b ∷ c ∷ []) = (a * 4 + b / 16) ∷ (b % 16 * 16 + c / 4) ∷ []
unpack (a ∷ b ∷ c ∷ d ∷ rest) =
    (a * 4 + b / 16) ∷ (b % 16 * 16 + c / 4) ∷ (c % 4 * 64 + d) ∷ unpack rest

length-unpack : (l : List ℕ) → length (unpack l) ≡ length l * 3 / 4
unfolding unpack
length-unpack [] = omega arith
length-unpack (a ∷ []) = omega arith
length-unpack (a ∷ b ∷ []) = omega arith
length-unpack (a ∷ b ∷ c ∷ []) = omega arith
length-unpack (a ∷ b ∷ c ∷ d ∷ rest) = omega (arith, length-unpack rest)

count_symbols-symbols : (s : Text) → count_symbols s ≡ (symbols s >>= λ l. some (length l))
unfolding count_symbols symbols
count_symbols-symbols [] = refl
count_symbols-symbols (c ∷ s) = ground (arith, count_symbols-symbols s)

scan_alphabet_cases :
    (c : ℕ) (s : Text) (i : ℕ)
    → i + length s ≤ 64
    → (scan_alphabet c s i ≡ 128) ⊎ (scan_alphabet c s i < 64)
unfolding scan_alphabet
scan_alphabet_cases c [] i h = inl refl
scan_alphabet_cases c (a ∷ s) i h = ground (arith, scan_alphabet_cases c s (suc i))

decode_entry_cases :
    (c : ℕ) → (decode_entry c ≡ 64) ⊎ (decode_entry c ≡ 128) ⊎ (decode_entry c < 64)
unfolding decode_entry
decode_entry_cases c = ground (arith, scan_alphabet_cases c alphabet 0 (omega arith))

-- What a read gives on a text with the symbols `l`.
abbrev Reads : Text → List ℕ → Type 0
Reads s [] = (t : Text) × (read_symbol s ≡ some (64, t))
Reads s (x ∷ l) =
    (t : Text) × (read_symbol s ≡ some (x, t))
    × (symbols t ≡ some l)
    × (x < 64)
    × (length t < length s)

read_symbol-symbols : (s : Text) (l : List ℕ) → symbols s ≡ some l → Reads s l
unfolding symbols read_symbol
read_symbol-symbols [] l h = cc
read_symbol-symbols (c ∷ s) [] h = elim (decode_entry_cases c) [
  | inl e ↦ (s, ground arith)
  | inr (inl e) ↦ let (t, r) = read_symbol-symbols s [] (ground arith) in (t, ground arith)
  | inr (inr e) ↦ absurd (ground (arith, Option-cases (symbols s)))
]
read_symbol-symbols (c ∷ s) (x ∷ l) h = elim (decode_entry_cases c) [
  | inl e ↦ absurd (ground arith)
  | inr (inl e) ↦
      let (t, r, k, b, m) = read_symbol-symbols s (x ∷ l) (ground arith) in
      (t, ground arith, k, b, omega arith)
  | inr (inr e) ↦ (
    s,
    ground (arith, Option-cases (symbols s)),
    ground (arith, Option-cases (symbols s)),
    ground (arith, Option-cases (symbols s)),
    omega arith,
  )
]

-- A symbol is not the end.
not_eof : (x : ℕ) → x < 64 → ((x == b64eof) ≡ false) × (ltb x 64 ≡ true)
not_eof x h = (ground arith, ground arith)

-- The bytes that a round writes.
module _ (a b c d : ℕ) (ha : a < 64) (hb : b < 64) (hc : c < 64) (hd : d < 64) where
  bytes :
      ((a * 2 ^ 18 + b * 2 ^ 12 + c * 2 ^ 6 + d) / 2 ^ 16 % 256 ≡ a * 4 + b / 16)
      × ((a * 2 ^ 18 + b * 2 ^ 12 + c * 2 ^ 6 + d) / 2 ^ 8 % 256 ≡ b % 16 * 16 + c / 4)
      × ((a * 2 ^ 18 + b * 2 ^ 12 + c * 2 ^ 6 + d) % 256 ≡ c % 4 * 64 + d)
      × ((a * 4 + b / 16) % 256 ≡ a * 4 + b / 16)
      × (b % 16 * 16 + c / 4 % 16 ≡ b % 16 * 16 + c / 4)
  bytes = omega arith

module _ (out : Text) (s : Text) (o2 o3 o4 : ℕ) where
  abbrev scan : Text → Scan
  scan buf = record { src = s; b2 = o2; b3 = o3; b4 = o4; i = length out; buf = out ++ buf }

  round_four :
      (a b c d : ℕ) (l : List ℕ) (x0 x1 x2 : ℕ) (junk : Text)
      → symbols s ≡ some (a ∷ b ∷ c ∷ d ∷ l)
      → (t : Text) × (symbols t ≡ some l)
        × (length t < length s)
        × (decode_round (scan (x0 ∷ x1 ∷ x2 ∷ junk))
            ≡ some (
                more (record {
                  src = t;
                  b2 = b;
                  b3 = c;
                  b4 = d;
                  i = length out + 3;
                  buf = out ++ (a * 4 + b / 16) ∷ (b % 16 * 16 + c / 4) ∷ (c % 4 * 64 + d) ∷ junk;
                })))
  unfolding decode_round put
  round_four a b c d l x0 x1 x2 junk h =
      let (s1, r1, k1, ha, m1) = read_symbol-symbols s _ h in
      let (s2, r2, k2, hb, m2) = read_symbol-symbols s1 _ k1 in
      let (s3, r3, k3, hc, m3) = read_symbol-symbols s2 _ k2 in
      let (s4, r4, k4, hd, m4) = read_symbol-symbols s3 _ k3 in
      let (a1, a2) = not_eof a ha in
      let (b1, b2) = not_eof b hb in
      let (c1, c2) = not_eof c hc in
      let (d1, d2) = not_eof d hd in
      let (e1, e2, e3, _, _) = bytes a b c d ha hb hc hd in
      (
        s4,
        k4,
        omega arith,
        simp (
          r1, r2, r3, r4, a1, a2, b1, b2, c1, c2, d1, d2, put-append_zero, put-append, e1, e2, e3,
        ),
      )

  round_three :
      (a b c x0 x1 : ℕ) (junk : Text)
      → symbols s ≡ some (a ∷ b ∷ c ∷ [])
      → decode_round (scan (x0 ∷ x1 ∷ junk))
        ≡ some (stop (out ++ (a * 4 + b / 16) ∷ (b % 16 * 16 + c / 4) ∷ junk))
  unfolding decode_round put
  round_three a b c x0 x1 junk h =
      let (s1, r1, k1, ha, m1) = read_symbol-symbols s _ h in
      let (s2, r2, k2, hb, m2) = read_symbol-symbols s1 _ k1 in
      let (s3, r3, k3, hc, m3) = read_symbol-symbols s2 _ k2 in
      let (s4, r4) = read_symbol-symbols s3 _ k3 in
      let (a1, a2) = not_eof a ha in
      let (b1, b2) = not_eof b hb in
      let (c1, c2) = not_eof c hc in
      let (_, _, _, e4, e5) = bytes a b c 0 ha hb hc (omega arith) in
      simp (r1, r2, r3, r4, a1, a2, b1, b2, c1, c2, put-append_zero, put-append, e4, e5)

  round_two :
      (a b x0 : ℕ) (junk : Text)
      → symbols s ≡ some (a ∷ b ∷ [])
      → decode_round (scan (x0 ∷ junk)) ≡ some (stop (out ++ (a * 4 + b / 16) ∷ junk))
  unfolding decode_round put
  round_two a b x0 junk h =
      let (s1, r1, k1, ha, m1) = read_symbol-symbols s _ h in
      let (s2, r2, k2, hb, m2) = read_symbol-symbols s1 _ k1 in
      let (s3, r3) = read_symbol-symbols s2 _ k2 in
      let (a1, a2) = not_eof a ha in
      let (b1, b2) = not_eof b hb in
      let (_, _, _, e4, _) = bytes a b 0 0 ha hb (omega arith) (omega arith) in
      simp (r1, r2, r3, a1, a2, b1, b2, put-append_zero, e4)

length-append_three : (out : Text) (a b c : ℕ) → length (out ++ a ∷ b ∷ c ∷ []) ≡ length out + 3
length-append_three out a b c = length-append out (a ∷ b ∷ c ∷ [])

-- The loop writes what its text unpacks to behind `out`, and stops within its fuel.
decode_loop-unpack :
    (fuel : ℕ) (s : Text) (l : List ℕ) (out junk : Text) (o2 o3 o4 i len : ℕ)
    → length s < fuel
    → symbols s ≡ some l
    → i ≡ length out
    → len ≡ length out + length l * 3 / 4
    → length (unpack l) ≤ length junk
    → decode_loop fuel len (record { src = s; b2 = o2; b3 = o3; b4 = o4; i = i; buf = out ++ junk })
      ≡ some (out ++ (unpack l ++ drop (length (unpack l)) junk))
unfolding decode_loop unpack
decode_loop-unpack zero s l out junk o2 o3 o4 i len hf hs hi hl hj = absurd (omega arith)
decode_loop-unpack (suc fuel) s [] out junk o2 o3 o4 i len hf hs hi hl hj =
    let t : ltb i len ≡ false = ground arith in rw t
decode_loop-unpack (suc fuel) s (a ∷ []) out junk o2 o3 o4 i len hf hs hi hl hj =
    let t : ltb i len ≡ false = ground arith in rw t
decode_loop-unpack (suc fuel) s (a ∷ b ∷ []) out [] o2 o3 o4 i len hf hs hi hl hj =
    absurd (omega arith)
decode_loop-unpack (suc fuel) s (a ∷ b ∷ []) out (x ∷ junk) o2 o3 o4 i len hf hs hi hl hj =
    let t : ltb i len ≡ true = ground arith in rw (t, hi, round_two out s o2 o3 o4 a b x junk hs)
decode_loop-unpack (suc fuel) s (a ∷ b ∷ c ∷ []) out (x ∷ y ∷ junk) o2 o3 o4 i len hf hs hi hl hj =
    let t : ltb i len ≡ true = ground arith in
    rw (t, hi, round_three out s o2 o3 o4 a b c x y junk hs)
decode_loop-unpack (suc fuel) s (a ∷ b ∷ c ∷ d ∷ l) out (x ∷ y ∷ z ∷ junk) o2 o3 o4 i len hf hs hi
      hl hj =
    let t : ltb i len ≡ true = ground arith in
    let (u, k, m, r) = round_four out s o2 o3 o4 a b c d l x y z junk hs in
    let assoc =
      append_assoc out ((a * 4 + b / 16) ∷ (b % 16 * 16 + c / 4) ∷ (c % 4 * 64 + d) ∷ []) in
    rw (t, hi, r, ← assoc junk, ← assoc (unpack l ++ drop (length (unpack l)) junk))
      (decode_loop-unpack fuel u l (out ++ _ ∷ _ ∷ _ ∷ []) junk _ _ _ _ len (omega arith) k
        (omega (arith, length-append_three out)) (omega (arith, length-append_three out))
        (omega arith))
decode_loop-unpack (suc fuel) s (a ∷ b ∷ l) out junk o2 o3 o4 i len hf hs hi hl hj =
    absurd (omega arith)

base64_d-length :
    (s : Text) (l : List ℕ) → symbols s ≡ some l → base64_d [] s ≡ some ([], length l * 3 / 4)
unfolding base64_d
base64_d-length s l h = rw (count_symbols-symbols, h)

-- A buffer with room for what the symbols unpack to holds it in front; the rest of it is untouched.
pub base64_d-unpack :
    (x : ℕ) (buf s : Text) (l : List ℕ)
    → symbols s ≡ some l
    → length (unpack l) ≤ suc (length buf)
    → base64_d (x ∷ buf) s
      ≡ some (unpack l ++ drop (length (unpack l)) (x ∷ buf), length (unpack l))
unfolding base64_d
base64_d-unpack x buf s l h room =
    let e = length-unpack l in
    let t : ltb (suc (length buf)) (length l * 3 / 4) ≡ false = ground arith in
    rw (
      count_symbols-symbols,
      h,
      t,
      decode_loop-unpack (length s + 1) s l [] (x ∷ buf) b64eof b64eof b64eof 0 (length l * 3 / 4)
          (omega arith) h refl (omega arith) room,
      e,
    )

drop-replicate : (xs : Text) (x : ℕ) → drop (length xs) (replicate (suc (length xs)) x) ≡ x ∷ []
drop-replicate [] x = refl
drop-replicate (_ ∷ xs) x = drop-replicate xs x

-- Base64::decode of any terminated text of positive length.
pub decode-unpack :
    (junk n : ℕ) (s : Text) (l : List ℕ)
    → symbols s ≡ some l
    → decode junk s (suc n) ≡ some (some (unpack l ++ 0 ∷ [], length (unpack l)))
unfolding decode
decode-unpack junk n s l h =
    let u = unpack l in
    rw
      (
        base64_d-length s l h,
        ← length-unpack l,
        add-one (length u),
        base64_d-unpack junk (replicate (length u) junk) s l h
            (omega (arith, length-replicate (length u) junk)),
        drop-replicate u junk,
        put-append_zero u (junk ∷ []) 0,
      )
      (unfold put in refl)
