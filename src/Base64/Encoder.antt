-- ===== src/Base64/Encoder.antt =====
-- base64_e against the RFC 2045 encoding, for every size of the buffer.
use native.Mathlib.Numerals.{add-one}
use native.Mathlib.Nat.{zero-add}
use givemail.Base.{
  ℕ, suc, ◌+◌, ◌-◌, ◌*◌, ◌/◌, ◌%◌, ◌^◌, ◌<◌, ◌≡◌, refl, ap, true, false, Option, some, [], ◌∷◌,
  ◌++◌, append_assoc, arith, ltb, leb, length, length-append, replicate, All,
}
use givemail.Base.Text.{Text}
use givemail.Base64.Buffer.{put-append, put-append_zero, IsByte}
use givemail.Base64.{
  code, ◌>>=◌, put, cut, Target, write_triple, write_slack, terminate, encode_from, base64_e,
  encode,
}

-- The encoding of a byte string, as RFC 2045 defines it.
unfoldable pub encoding : Text → Text
encoding [] = []
encoding (a ∷ []) = code (a / 4 % 64) ∷ code (a % 4 * 16) ∷ b'=' ∷ b'=' ∷ []
encoding (a ∷ b ∷ []) =
    code (a / 4 % 64) ∷ code (a % 4 * 16 + b / 16) ∷ code (b % 16 * 4) ∷ b'=' ∷ []
encoding (a ∷ b ∷ c ∷ rest) =
    code (a / 4 % 64)
    ∷ code (a % 4 * 16 + b / 16)
    ∷ code (b % 16 * 4 + c / 64)
    ∷ code (c % 64)
    ∷ encoding rest

-- Four characters put behind `pre`: with room for a terminator the target stays live, else as many
-- as fit in front of one.
placed : Text → Text → ℕ → ℕ → ℕ → ℕ → Target
placed pre [] a b c d = record { live = false; buf = pre }
placed pre (_ ∷ []) a b c d = record { live = false; buf = pre ++ 0 ∷ [] }
placed pre (_ ∷ _ ∷ []) a b c d = record { live = false; buf = pre ++ a ∷ 0 ∷ [] }
placed pre (_ ∷ _ ∷ _ ∷ []) a b c d = record { live = false; buf = pre ++ a ∷ b ∷ 0 ∷ [] }
placed pre (_ ∷ _ ∷ _ ∷ _ ∷ []) a b c d = record { live = false; buf = pre ++ a ∷ b ∷ c ∷ 0 ∷ [] }
placed pre (_ ∷ _ ∷ _ ∷ _ ∷ x ∷ junk) a b c d = record {
  live = true;
  buf = pre ++ a ∷ b ∷ c ∷ d ∷ x ∷ junk;
}

ltb-add : (n a b : ℕ) → ltb (n + a) (n + b) ≡ ltb a b
ltb-add n a b = ground arith

leb-add : (n a b : ℕ) → leb (n + a) (n + b) ≡ leb a b
leb-add n a b = ground arith

add-suc-sub-one : (n k : ℕ) → n + suc k - 1 ≡ n + k
add-suc-sub-one n k = omega arith

-- The tests on the room left where it is five bytes or more.
module _ (m : ℕ) where
  abbrev five : ℕ
  five = suc (suc (suc (suc (suc m))))

  room :
      (ltb 4 five ≡ true)
      × (ltb 1 five ≡ true)
      × (ltb 2 five ≡ true)
      × (ltb 3 five ≡ true)
      × (leb five 4 ≡ false)
  room = (ground arith, ground arith, ground arith, ground arith, ground arith)

ruleset placing = (put-append, ltb-add, leb-add, add-suc-sub-one, cut)

module _ (pre : Text) (w : ℕ) where
  write_triple-placed :
      (x : ℕ) (junk : Text)
      → write_triple (length pre + suc (length junk)) (length pre) w (pre ++ x ∷ junk)
        ≡ some (
            placed pre
              (x ∷ junk)
              (code (w / 2 ^ 18 % 64))
              (code (w / 2 ^ 12 % 64))
              (code (w / 2 ^ 6 % 64))
              (code (w % 64)))
  unfolding write_triple placed put
  write_triple-placed x0 [] = simp (placing, add-suc-sub-one (length pre) 0)
  write_triple-placed x0 (x1 ∷ []) = simp (placing, add-suc-sub-one (length pre) 1)
  write_triple-placed x0 (x1 ∷ x2 ∷ []) = simp (placing, add-suc-sub-one (length pre) 2)
  write_triple-placed x0 (x1 ∷ x2 ∷ x3 ∷ []) = simp (placing, add-suc-sub-one (length pre) 3)
  write_triple-placed x0 (x1 ∷ x2 ∷ x3 ∷ x4 ∷ junk) = simp (placing, (room (length junk)).0)

  write_slack-placed :
      (third x : ℕ) (junk : Text)
      → write_slack (length pre + suc (length junk)) (length pre) w third (pre ++ x ∷ junk)
        ≡ some (placed pre (x ∷ junk) (code (w / 2 ^ 18 % 64)) (code (w / 2 ^ 12 % 64)) third b'=')
  unfolding write_slack placed put
  write_slack-placed third x0 [] = simp (placing, add-suc-sub-one (length pre) 0)
  write_slack-placed third x0 (x1 ∷ []) = simp (placing, add-suc-sub-one (length pre) 1)
  write_slack-placed third x0 (x1 ∷ x2 ∷ []) = simp (placing, add-suc-sub-one (length pre) 2)
  write_slack-placed third x0 (x1 ∷ x2 ∷ x3 ∷ []) = simp (placing, add-suc-sub-one (length pre) 3)
  write_slack-placed third x0 (x1 ∷ x2 ∷ x3 ∷ x4 ∷ junk) =
      let (_, r1, r2, r3, r4) = room (length junk) in simp (placing, r1, r2, r3, r4)

-- The six-bit fields of a word of three bytes.
module _ (a b c : ℕ) (hb : IsByte b) (hc : IsByte c) where
  fields :
      ((a * 2 ^ 16 + b * 2 ^ 8 + c) / 2 ^ 18 % 64 ≡ a / 4 % 64)
      × ((a * 2 ^ 16 + b * 2 ^ 8 + c) / 2 ^ 12 % 64 ≡ a % 4 * 16 + b / 16)
      × ((a * 2 ^ 16 + b * 2 ^ 8 + c) / 2 ^ 6 % 64 ≡ b % 16 * 4 + c / 64)
      × ((a * 2 ^ 16 + b * 2 ^ 8 + c) % 64 ≡ c % 64)
  fields = omega arith

-- A text and its terminator in a buffer: cut to the size, and with a terminator at the end then.
pub fill : Text → Text → Text
fill e [] = []
fill [] (x ∷ junk) = 0 ∷ junk
fill (c ∷ e) (x ∷ []) = 0 ∷ []
fill (c ∷ e) (x ∷ y ∷ junk) = c ∷ fill e (y ∷ junk)

-- Once the target is dead the rounds only count.
encode_from_dead :
    (bsize n : ℕ) (bytes buf : Text)
    → encode_from bsize n bytes (record { live = false; buf = buf })
      ≡ some (record { live = false; buf = buf }, n + length (encoding bytes))
unfolding encode_from encoding terminate
encode_from_dead bsize n [] buf = ground arith
encode_from_dead bsize n (b0 ∷ []) buf = ground arith
encode_from_dead bsize n (b0 ∷ b1 ∷ []) buf = ground arith
encode_from_dead bsize n (b0 ∷ b1 ∷ b2 ∷ rest) buf =
    ground (arith, encode_from_dead bsize (n + 4) rest buf)

abbrev outcome : Option (Target × ℕ) → Option (Text × ℕ)
outcome r = r >>= λ (o, n). some (o.buf, n)

terminate-placed :
    (pre : Text) (n a b c d x : ℕ) (junk : Text)
    → n ≡ length pre
    → outcome (terminate (n + 4) (placed pre (x ∷ junk) a b c d))
      ≡ some (pre ++ fill (a ∷ b ∷ c ∷ d ∷ []) (x ∷ junk), n + 4)
unfolding terminate placed fill put
terminate-placed pre n a b c d x0 [] h = refl
terminate-placed pre n a b c d x0 (x1 ∷ []) h = refl
terminate-placed pre n a b c d x0 (x1 ∷ x2 ∷ []) h = refl
terminate-placed pre n a b c d x0 (x1 ∷ x2 ∷ x3 ∷ []) h = refl
terminate-placed pre n a b c d x0 (x1 ∷ x2 ∷ x3 ∷ x4 ∷ junk) h = rw (h, put-append pre _ 4 0)

abbrev live : Text → Target
live buf = record { live = true; buf = buf }

length-append_four :
    (pre : Text) (a b c d : ℕ) → length (pre ++ a ∷ b ∷ c ∷ d ∷ []) ≡ length pre + 4
length-append_four pre a b c d = length-append pre (a ∷ b ∷ c ∷ d ∷ [])

-- What `encode_from-fill` says of the bytes `rest`.
abbrev Fills : Text → ℕ → ℕ → Text → ℕ → Text → Type 0
Fills pre n bsize rest x junk =
    outcome (encode_from bsize n rest (live (pre ++ x ∷ junk)))
    ≡ some (pre ++ fill (encoding rest) (x ∷ junk), n + length (encoding rest))

encode_from-placed :
    (pre : Text) (n bsize a b c d x : ℕ) (junk rest : Text)
    → bsize ≡ length pre + suc (length junk)
    → ((y : ℕ) (t : Text)
        → bsize ≡ length (pre ++ a ∷ b ∷ c ∷ d ∷ []) + suc (length t)
        → Fills (pre ++ a ∷ b ∷ c ∷ d ∷ []) (n + 4) bsize rest y t)
    → outcome (encode_from bsize (n + 4) rest (placed pre (x ∷ junk) a b c d))
      ≡ some
          (pre ++ fill (a ∷ b ∷ c ∷ d ∷ encoding rest) (x ∷ junk), n + 4 + length (encoding rest))
unfolding placed fill
encode_from-placed pre n bsize a b c d x [] rest hs ih = rw encode_from_dead
encode_from-placed pre n bsize a b c d x (x1 ∷ []) rest hs ih = rw encode_from_dead
encode_from-placed pre n bsize a b c d x (x1 ∷ x2 ∷ []) rest hs ih = rw encode_from_dead
encode_from-placed pre n bsize a b c d x (x1 ∷ x2 ∷ x3 ∷ []) rest hs ih = rw encode_from_dead
encode_from-placed pre n bsize a b c d x (x1 ∷ x2 ∷ x3 ∷ x4 ∷ junk) rest hs ih =
    let e : bsize ≡ length (pre ++ a ∷ b ∷ c ∷ d ∷ []) + suc (length junk) =
      omega (arith, length-append pre (a ∷ b ∷ c ∷ d ∷ [])) in
    let assoc = append_assoc pre (a ∷ b ∷ c ∷ d ∷ []) in
    rw (← assoc (x4 ∷ junk), ← assoc (fill (encoding rest) (x4 ∷ junk))) (ih x4 junk e)

-- A live target with a byte left is filled with the encoding of what is left.
encode_from-fill :
    (pre : Text) (n bsize x : ℕ) (junk bytes : Text)
    → All IsByte bytes
    → n ≡ length pre
    → bsize ≡ length pre + suc (length junk)
    → Fills pre n bsize bytes x junk
unfolding encode_from encoding terminate
encode_from-fill pre n bsize x junk [] h hn hs =
    rw (hn, terminate, put-append_zero pre (x ∷ junk) 0) (unfold put fill in ground arith)
encode_from-fill pre n bsize x junk (a ∷ []) h hn hs =
    let f : a * 2 ^ 16 / 2 ^ 18 % 64 ≡ a / 4 % 64 = omega arith in
    let g : a * 2 ^ 16 / 2 ^ 12 % 64 ≡ a % 4 * 16 = omega arith in
    rw (hs, hn, write_slack-placed pre (a * 2 ^ 16) b'=' x junk, f, g)
      (terminate-placed pre (length pre) _ _ _ _ x junk refl)
encode_from-fill pre n bsize x junk (a ∷ b ∷ []) h hn hs =
    let w = a * 2 ^ 16 + b * 2 ^ 8 in
    let hb : b < 256 = h.1.0 in
    let f : w / 2 ^ 18 % 64 ≡ a / 4 % 64 = omega arith in
    let g : w / 2 ^ 12 % 64 ≡ a % 4 * 16 + b / 16 = omega arith in
    let k : w / 2 ^ 6 % 64 ≡ b % 16 * 4 = omega arith in
    rw (hs, hn, write_slack-placed pre w (code (w / 2 ^ 6 % 64)) x junk, f, g, k)
      (terminate-placed pre (length pre) _ _ _ _ x junk refl)
encode_from-fill pre n bsize x junk (a ∷ b ∷ c ∷ rest) h hn hs =
    let (f1, f2, f3, f4) = fields a b c h.1.0 h.1.1.0 in
    let w = a * 2 ^ 16 + b * 2 ^ 8 + c in
    let e : n + suc (suc (suc (suc (length (encoding rest))))) ≡ n + 4 + length (encoding rest) =
      omega arith in
    let hs' : bsize ≡ n + suc (length junk) = omega arith in
    rw (e, hs', hn, write_triple-placed pre w x junk, f1, f2, f3, f4)
      (encode_from-placed pre (length pre) _ _ _ _ _ x junk rest hs (λ y t ht.
        encode_from-fill (pre ++ _ ∷ _ ∷ _ ∷ _ ∷ []) _ _ y t rest h.1.1.1
          (omega (arith, length-append_four pre _ _ _ _)) ht))

-- For every buffer and every byte string, no write leaves the buffer; the buffer is filled with the
-- encoding, cut to its size and terminated, and the length that is returned is the whole one.
pub base64_e-fill :
    (buf bytes : Text)
    → All IsByte bytes
    → base64_e buf bytes ≡ some (fill (encoding bytes) buf, length (encoding bytes))
unfolding base64_e fill
base64_e-fill [] bytes h = rw (encode_from_dead 0 0 bytes [], zero-add)
base64_e-fill (x ∷ buf) bytes h =
    rw (zero-add (length (encoding bytes))) at
      (encode_from-fill [] 0 (suc (length buf)) x buf bytes h refl (omega arith))

-- A buffer with exactly the room for the text and its terminator holds just these.
fill-replicate : (e : Text) (junk : ℕ) → fill e (replicate (suc (length e)) junk) ≡ e ++ 0 ∷ []
unfolding fill
fill-replicate [] junk = refl
fill-replicate (c ∷ e) junk = ap (◌∷◌ c) (fill-replicate e junk)

-- Base64::encode gives no result for no data, and the terminated encoding of any other byte string.
pub encode-encoding :
    (junk b : ℕ) (bytes : Text)
    → All IsByte (b ∷ bytes)
    → encode junk (b ∷ bytes)
      ≡ some (some (encoding (b ∷ bytes) ++ 0 ∷ [], length (encoding (b ∷ bytes))))
unfolding encode
encode-encoding junk b bytes h =
    let e = encoding (b ∷ bytes) in
    rw
      (
        base64_e-fill [] (b ∷ bytes) h,
        base64_e-fill _ (b ∷ bytes) h,
        add-one (length e),
        fill-replicate e junk,
        put-append_zero e (0 ∷ []) 0,
      )
      (unfold put in refl)
