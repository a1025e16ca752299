-- ===== src/Web/Auth/Reports.antt =====
-- verifyAuthentication returns, and tells the client of each request that it refuses.
use givemail.Base.{
  ℕ, suc, ◌+◌, ◌≡◌, refl, ap, inl, inr, true, false, ◌&&◌, Option, some, List, [], ◌∷◌, arith, ltb,
  if◌then◌else◌, length, All, by_test, Option-cases, take-append,
}
use givemail.Base.Text.{Text, is_empty, str_eq}
use givemail.Base64.Buffer.{IsByte}
use givemail.Base64.Encoder.{encoding, encode-encoding}
use givemail.Web.{parse_auth}
use givemail.Web.Auth.{
  Key, Services, Event, error_output, request_logged, key_set, hash_set, expiry_output, Verdict,
  sign, find_last_request_time, is_skewed, payload_of, check_signature, verify_key,
  verify_authentication,
}

-- How many errors the client is told.
abbrev pub errors : List Event → ℕ
errors [] = 0
errors (error_output message ∷ es) = suc (errors es)
errors (request_logged status ∷ es) = errors es
errors (key_set db_id ∷ es) = errors es
errors (hash_set hash ∷ es) = errors es
errors (expiry_output seconds ∷ es) = errors es

payload-not_empty : (date xml : Text) → is_empty (payload_of date xml) ≡ false
payload-not_empty [] xml = refl
payload-not_empty (c ∷ date) xml = refl

encoding-length : (b : ℕ) (bytes : Text) → ltb 0 (length (encoding (b ∷ bytes))) ≡ true
unfolding encoding
encoding-length b [] = refl
encoding-length b (c ∷ []) = refl
encoding-length b (c ∷ d ∷ bytes) = ground arith

-- HMAC::sign gives the encoding of a digest that is not empty.
pub sign-encoding :
    (s : Services) (key : Key) (date xml : Text) (b : ℕ) (bytes : Text)
    → s.hmac_sha1 key.value (payload_of date xml) ≡ b ∷ bytes
    → All IsByte (b ∷ bytes)
    → sign s key (payload_of date xml) ≡ some (some (encoding (b ∷ bytes)))
unfolding sign
sign-encoding s key date xml b bytes e h =
    rw (sign, payload-not_empty date xml, e, encode-encoding s.junk b bytes h)
      (ap (λ t. some (some t)) (take-append (encoding (b ∷ bytes)) (0 ∷ [])))

abbrev Reports : Option Verdict → Type 0
Reports o = (v : Verdict) × (o ≡ some v) × (errors v.events ≡ (if v.good then 0 else 1))

module _ (s : Services) (date auth : Text) (now : ℕ) (xml : Text)
    (digest : (value text : Text)
      → (b : ℕ) × (bytes : Text) × (s.hmac_sha1 value text ≡ b ∷ bytes)
        × All IsByte (b ∷ bytes)) where
  key-Reports : (key : Key) (signature : Text) → Reports (verify_key s key date signature now xml)
  unfolding verify_key check_signature
  key-Reports key signature =
      let last = find_last_request_time s key.db_id signature in
      let (b, bytes, e, h) = digest key.value (payload_of date xml) in
      by_test Reports (ltb key.expiry_time now) (λ _. (_, refl, refl))
        (λ _.
          by_test Reports (ltb 0 last && ltb now (last + 60)) (λ _. (_, refl, refl))
            (λ _.
              rw (sign-encoding s key date xml b bytes e h, encoding-length b bytes)
                (by_test (λ v. Reports (some v)) (str_eq (encoding (b ∷ bytes)) signature)
                  (λ _. (_, refl, refl)) (λ _. (_, refl, refl)))))

  -- Where the digest is a byte string that is not empty, verifyAuthentication returns for every
  -- request, and tells the client of exactly one error if it refuses it, of none if it accepts it.
  pub verify_authentication_reports :
      (v : Verdict) × (verify_authentication s date auth now xml ≡ some v)
      × (errors v.events ≡ (if v.good then 0 else 1))
  unfolding verify_authentication
  verify_authentication_reports =
      by_test Reports (is_empty date) (λ _. (_, refl, refl))
        (λ _.
          by_test Reports (is_empty auth) (λ _. (_, refl, refl))
            (λ _.
              by_test Reports (is_skewed (s.from_timestamp date) now) (λ _. (_, refl, refl))
                (λ _.
                  by_test Reports (is_empty (parse_auth auth).0) (λ _. (_, refl, refl))
                    (λ _.
                      by_test Reports (is_empty (parse_auth auth).1) (λ _. (_, refl, refl))
                        (λ _. elim (Option-cases (s.get_key (parse_auth auth).0)) [
                          | inl e ↦ rw e (_, refl, refl)
                          | inr (key, e) ↦ rw e (key-Reports key (parse_auth auth).1)
                        ])))))
