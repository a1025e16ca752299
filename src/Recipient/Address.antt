-- ===== src/Recipient/Address.antt =====
-- The forms of an address that extractNameAndEmailAddress reads.
use givemail.Base.{
  ℕ, ◌+◌, ◌-◌, ◌%◌, ◌^◌, ◌<◌, ◌≡◌, ◌≢◌, refl, false, some, [], ◌∷◌, ◌++◌, arith, ◌==◌, length, All,
  take-append, length-append, append_assoc, drop_past,
}
use givemail.Base.Find.{find_byte-behind, find_byte-Lacks}
use givemail.Base.Text.{Text, codes, find_byte, is_empty}
use givemail.Recipient.{name_and_address, extract_name_and_email_address}

-- A text without '<' and '>' is taken for an address without a name.
pub extract_name_and_email_address-bare :
    (c : ℕ) (s : Text)
    → All (λ d. d ≢ b'<') (c ∷ s)
    → All (λ d. d ≢ b'>') (c ∷ s)
    → extract_name_and_email_address (c ∷ s)
      ≡ record { id = c ∷ s; name = []; status = codes "Ready"; email_address = c ∷ s }
unfolding extract_name_and_email_address name_and_address
extract_name_and_email_address-bare c s h k =
    rw (find_byte-Lacks b'<' (c ∷ s) h, find_byte-Lacks b'>' (c ∷ s) k) refl

append_not_empty : (s t : Text) (c : ℕ) → is_empty (s ++ c ∷ t) ≡ false
append_not_empty [] t c = refl
append_not_empty (x ∷ s) t c = refl

module _ (name address rest : Text) where
  abbrev pub both : Text
  both = name ++ b'<' ∷ (address ++ b'>' ∷ rest)

  name_and_address-both :
      length both < 2 ^ 64 - 1
      → All (λ d. d ≢ b'<') name
      → All (λ d. d ≢ b'>') (name ++ b'<' ∷ address)
      → name_and_address both ≡ (name, address)
  unfolding name_and_address
  name_and_address-both l h k =
      let s = name ++ b'<' ∷ address in
      let size = length-append name (b'<' ∷ address) in
      let whole = length-append name (b'<' ∷ (address ++ b'>' ∷ rest)) in
      let tail = length-append address (b'>' ∷ rest) in
      let f = find_byte-behind b'<' name (address ++ b'>' ∷ rest) h in
      let g : find_byte b'>' both ≡ some (length s) =
        rw (append_assoc name (b'<' ∷ address) (b'>' ∷ rest)) at (find_byte-behind b'>' s rest k) in
      let found : (length name == 2 ^ 64 - 1) ≡ false = ground (arith, l, whole) in
      let start : (length name + 1) % 2 ^ 64 ≡ length name + 1 = omega (arith, l, whole) in
      let count : (length s + 2 ^ 64 - length name + 2 ^ 64 - 1) % 2 ^ 64 ≡ length address =
        omega (arith, l, whole, size, tail) in
      rw
        (
          f,
          g,
          found,
          start,
          count,
          drop_past name (address ++ b'>' ∷ rest) b'<',
          take-append name (b'<' ∷ (address ++ b'>' ∷ rest)),
          take-append address (b'>' ∷ rest),
        )
        refl

  -- A text of a name, then an address between '<' and '>', then anything gives that name and that
  -- address, where the name has no '<', neither has a '>', and the text is shorter than npos.
  pub extract_name_and_email_address-both :
      length both < 2 ^ 64 - 1
      → All (λ d. d ≢ b'<') name
      → All (λ d. d ≢ b'>') (name ++ b'<' ∷ address)
      → extract_name_and_email_address both
        ≡ record { id = address; name = name; status = codes "Ready"; email_address = address }
  unfolding extract_name_and_email_address
  extract_name_and_email_address-both l h k =
      let e : is_empty both ≡ false = append_not_empty name _ _ in
      rw (e, name_and_address-both l h k) refl
