-- ===== src/Details/Ids.antt =====
-- encodeRecipientId and createMessageId of src/MessageDetails.cc. The random numbers are given as the
-- texts that they print as, and `junk` stands for what a new buffer holds.
use givemail.Base.{
  ℕ, zero, suc, ◌+◌, ◌≤◌, ◌≡◌, refl, ap, Bool, true, false, not, ◌&&◌, ◌||◌, Option, none, some, [],
  ◌∷◌, ◌++◌, append_assoc, append-nil, arith, ltb, leb, if◌then◌else◌, length, length-append, take,
  take-append, drop_past, get_or-append, Bool-cases, inl, inr, get_or, filter, All, All-append,
  by_test,
}
use givemail.Base.Text.{Text, codes, is_empty, erase}
use givemail.Base64
use givemail.Base64.Buffer.{IsByte}
use givemail.Base64.Encoder.{encoding, encode-encoding}
use givemail.Base64.RoundTrip.{decode-encode}
use givemail.Details.{MessageDetails, same_kind}

-- encodeRecipientId; `none` where Base64::encode would go out of bounds.
unfoldable pub encode_recipient_id : ℕ → Text → Option Text
encode_recipient_id junk recipient_id =
    elim (Base64.encode junk (codes "&recipientId=" ++ (recipient_id ++ codes "&"))) [
      | none ↦ none
      | some none ↦ some []
      | some (some (buf, len)) ↦ some (take len buf)
    ]

-- isalnum in the C locale
abbrev pub is_alnum : ℕ → Bool
is_alnum c =
    (leb b'0' c && leb c b'9') || ((leb b'A' c && leb c b'Z') || (leb b'a' c && leb c b'z'))

-- The loop that removes what is not alphanumeric, on as much fuel as the text is long.
unfoldable pub strip_loop : ℕ → ℕ → Text → Text
strip_loop zero pos s = s
strip_loop (suc fuel) pos s = elim (ltb pos (length s)) [
  | false ↦ s
  | true ↦ elim (is_alnum (get_or s pos 0)) [
    | false ↦ strip_loop fuel pos (erase s pos 1)
    | true ↦ strip_loop fuel (pos + 1) s
  ]
]

-- The id that is made of random numbers and the sender's address.
unfoldable pub random_id : ℕ → Text → Text → MessageDetails → Option Text
random_id junk first second d =
    elim (Base64.encode junk (first ++ (d.from_email_address ++ second))) [
      | none ↦ none
      | some none ↦ some []
      | some (some (buf, len)) ↦
          let stripped = strip_loop len 0 (take len buf) in
          some (if ltb 40 (length stripped) then take 40 stripped else stripped)
    ]

-- createMessageId
unfoldable pub create_message_id : ℕ → Text → Text → Text → Bool → MessageDetails → Option Text
create_message_id junk first second suffix is_reply_id d =
    let made : Option Text = elim (random_id junk first second d) [
      | none ↦ none
      | some id ↦ some (id ++ suffix)
    ] in
    if same_kind d.is_reply is_reply_id
    then (if is_empty d.msg_id then made else some d.msg_id)
    else made

-- What one step of the loop reads and leaves.
read_next : (before rest : Text) (c : ℕ) → get_or (before ++ c ∷ rest) (length before) 0 ≡ c
read_next before rest c = get_or-append before rest c 0

erase_next :
    (before rest : Text) (c : ℕ) → erase (before ++ c ∷ rest) (length before) 1 ≡ before ++ rest
erase_next before rest c = rw (take-append before (c ∷ rest), drop_past before rest c) refl

inside : (before rest : Text) (c : ℕ) → ltb (length before) (length (before ++ c ∷ rest)) ≡ true
inside before rest c = rw (length-append before (c ∷ rest)) (ground arith)

-- The loop keeps exactly the alphanumeric bytes.
strip_loop-filter :
    (fuel : ℕ) (before rest : Text)
    → length rest ≤ fuel
    → strip_loop fuel (length before) (before ++ rest) ≡ before ++ filter is_alnum rest
unfolding strip_loop
strip_loop-filter zero before [] h = refl
strip_loop-filter zero before (c ∷ rest) h = absurd (omega arith)
strip_loop-filter (suc fuel) before [] h =
    let e : ltb (length before) (length (before ++ [])) ≡ false =
      rw (append-nil before) (ground arith) in
    rw (strip_loop, e) refl
strip_loop-filter (suc fuel) before (c ∷ rest) h = elim (Bool-cases (is_alnum c)) [
  | inl a ↦
      rw (strip_loop, inside before rest c, read_next before rest c, a)
        (rw
          (
            length-append before (c ∷ []),
            append_assoc before (c ∷ []) rest,
            append_assoc before (c ∷ []) (filter is_alnum rest),
          )
          at (strip_loop-filter fuel (before ++ c ∷ []) rest (omega arith)))
  | inr a ↦
      rw (strip_loop, inside before rest c, read_next before rest c, a, erase_next before rest c)
        (strip_loop-filter fuel before rest (omega arith))
]

strip_loop-all : (s : Text) → strip_loop (length s) 0 s ≡ filter is_alnum s
strip_loop-all s = strip_loop-filter (length s) [] s (omega arith)

abbrev pub IsAlnum : ℕ → Type 0
IsAlnum c = is_alnum c ≡ true

All-filter : (s : Text) → All IsAlnum (filter is_alnum s)
All-filter [] = tt
All-filter (c ∷ s) = by_test (All IsAlnum) (is_alnum c) (λ a. (a, All-filter s)) (λ _. All-filter s)

All-take : (n : ℕ) (s : Text) → All IsAlnum s → All IsAlnum (take n s)
All-take zero s h = tt
All-take (suc n) [] h = tt
All-take (suc n) (c ∷ s) h = (h.0, All-take n s h.1)

length-take-le : (n : ℕ) (s : Text) → length (take n s) ≤ n
length-take-le zero s = omega arith
length-take-le (suc n) [] = omega arith
length-take-le (suc n) (c ∷ s) = omega (arith, length-take-le n s)

-- The bytes of an id that is made at random, and what of them is kept.
module _ (junk : ℕ) (b : ℕ) (first second suffix : Text) (is_reply_id : Bool) (d : MessageDetails)
    (bytes : All IsByte (b ∷ (first ++ (d.from_email_address ++ second)))) where
  abbrev Made : Option Text → Type 0
  Made o = (id : Text) × (o ≡ some id) × All IsAlnum id × (length id ≤ 40)

  cut-Made :
      (s : Text)
      → Made (
          some (
            if ltb 40 (length (filter is_alnum s))
            then take 40 (filter is_alnum s)
            else filter is_alnum s))
  cut-Made s =
      let kept = filter is_alnum s in
      by_test (λ (t : Text). Made (some t)) (ltb 40 (length kept))
        (λ _. (_, refl, All-take 40 kept (All-filter s), length-take-le 40 kept))
        (λ short. (_, refl, All-filter s, ground (arith, short)))

  random_id-Made : Made (random_id junk (b ∷ first) second d)
  unfolding random_id
  random_id-Made =
      let rest = first ++ (d.from_email_address ++ second) in
      let e = encoding (b ∷ rest) in
      rw (random_id, encode-encoding junk b rest bytes)
        (rw (take-append e (0 ∷ []), strip_loop-all e) (cut-Made e))

  -- Where the sender's address and the random numbers are byte strings, and the first number prints
  -- as one byte or more, createMessageId returns: it gives the message's id where that is of the
  -- kind that is asked for and not empty, else at most 40 alphanumeric bytes and behind them the
  -- suffix.
  pub create_message_id_lem :
      (id : Text) × (create_message_id junk (b ∷ first) second suffix is_reply_id d
        ≡ some (
            if same_kind d.is_reply is_reply_id && not (is_empty d.msg_id)
            then d.msg_id
            else id ++ suffix))
      × All IsAlnum id
      × (length id ≤ 40)
  unfolding create_message_id
  create_message_id_lem = let (id, e, a, l) = random_id-Made in (id, rw e (ground arith), a, l)

-- Decoding what encodeRecipientId gives for an id of bytes gives the id back, between
-- "&recipientId=" and "&".
pub decode-encode_recipient_id :
    (junk junk' : ℕ) (recipient_id : Text)
    → All IsByte recipient_id
    → (text : Text) × (encode_recipient_id junk recipient_id ≡ some text)
      × (Base64.decode junk' (text ++ 0 ∷ []) (length text)
          ≡ some (
              some (
                (codes "&recipientId=" ++ (recipient_id ++ codes "&")) ++ 0 ∷ [],
                length (codes "&recipientId=" ++ (recipient_id ++ codes "&")),
              )))
unfolding encode_recipient_id
decode-encode_recipient_id junk junk' recipient_id h =
    let bytes : All IsByte (codes "&recipientId=" ++ (recipient_id ++ codes "&")) =
      All-append IsByte (codes "&recipientId=") (recipient_id ++ codes "&") (omega arith)
        (All-append IsByte recipient_id (codes "&") h (omega arith)) in
    let rest = codes "recipientId=" ++ (recipient_id ++ codes "&") in
    let encoded = encode-encoding junk b'&' rest bytes in
    let text = encoding (b'&' ∷ rest) in
    (
      text,
      rw (encode_recipient_id, encoded) (ap some (take-append text (0 ∷ []))),
      rw encoded at (decode-encode junk junk' b'&' rest bytes),
    )
