-- ===== src/Web/Auth/Verdicts.antt =====
-- When a request is accepted, and what is told of one that is not.
use givemail.Base.{
  ◌*◌, ◌++◌, ℕ, ◌+◌, ◌≤◌, ◌≡◌, ◌↔◌, refl, ap, ◌∙◌, ◌⊎◌, inl, inr, true, false, ◌&&◌, Option, none,
  some, List, [], ◌∷◌, arith, ltb, length, Option-cases, by_test,
}
use givemail.Base.Text.{Text, find_byte, is_empty, str_eq, str_eq_iff}
use givemail.Web.{parse_auth}
use givemail.Web.Auth.{
  Key, Services, Event, Verdict, sign, find_last_request_time, is_skewed, payload_of,
  check_signature, verify_key, verify_authentication,
}

-- The conditions of an accepted request.
pub record IsAuthentic (s : Services) (date auth : Text) (now : ℕ) (xml : Text) : Type 0 where
  pub dated : is_empty date ≡ false
  pub not_late : now ≤ s.from_timestamp date + 15 * 60
  pub not_early : s.from_timestamp date ≤ now + 15 * 60
  pub named : is_empty (parse_auth auth).0 ≡ false
  pub signed : is_empty (parse_auth auth).1 ≡ false
  pub key : Key
  pub key_known : s.get_key (parse_auth auth).0 ≡ some key
  pub key_alive : now ≤ key.expiry_time
  pub rested :
      (find_last_request_time s key.db_id (parse_auth auth).1 ≡ 0)
      ⊎ (find_last_request_time s key.db_id (parse_auth auth).1 + 60 ≤ now)
  pub signature_right : sign s key (date ++ b'\n' ∷ xml) ≡ some (some (parse_auth auth).1)

auth_given : (auth : Text) → is_empty (parse_auth auth).0 ≡ false → is_empty auth ≡ false
unfolding parse_auth find_byte
auth_given [] h = cc h
auth_given (c ∷ auth) h = refl

non_empty_length : (s : Text) → is_empty s ≡ false → ltb 0 (length s) ≡ true
non_empty_length [] h = cc h
non_empty_length (c ∷ s) h = ground arith

pub skewed_iff :
    (request now : ℕ)
    → (is_skewed request now ≡ false) ↔ ((now ≤ request + 15 * 60) × (request ≤ now + 15 * 60))
unfolding is_skewed
skewed_iff request now = ((λ h. (ground arith, ground arith)), (λ (h, g). ground arith))

module _ (s : Services) (date auth : Text) (now : ℕ) (xml : Text) where
  abbrev id : Text
  id = (parse_auth auth).0

  abbrev signature : Text
  signature = (parse_auth auth).1

  abbrev Good : Option Verdict → Type 0
  Good o = (events : List Event) × (o ≡ some (record { good = true; events = events }))

  accept_key :
      (h : IsAuthentic s date auth now xml) → Good (verify_key s h.key date signature now xml)
  unfolding verify_key check_signature
  accept_key h =
      let alive : ltb h.key.expiry_time now ≡ false = ground (arith, h.key_alive) in
      let last = find_last_request_time s h.key.db_id signature in
      let rested : (ltb 0 last && ltb now (last + 60)) ≡ false = ground (arith, h.rested) in
      let long = non_empty_length signature h.signed in
      let right = (str_eq_iff signature signature).1 refl in
      rw (alive, rested, h.signature_right, long, right) (_, refl)

  -- A request that meets the conditions is accepted.
  pub verify_authentication_complete :
      IsAuthentic s date auth now xml
      → (events : List Event) × (verify_authentication s date auth now xml
          ≡ some (record { good = true; events = events }))
  unfolding verify_authentication
  verify_authentication_complete h =
      let given = auth_given auth h.named in
      let timely = (skewed_iff (s.from_timestamp date) now).1 (h.not_late, h.not_early) in
      rw (verify_authentication, h.dated, given, timely, h.named, h.signed, h.key_known)
        (accept_key h)

  abbrev Sound : Option Verdict → Type 0
  Sound none = Unit
  Sound (some v) = v.good ≡ true → IsAuthentic s date auth now xml

  check-Sound :
      (before : List Event) (o : Option Text)
      → (check_signature before signature o).good ≡ true
      → o ≡ some signature
  unfolding check_signature
  check-Sound before none = λ g. cc g
  check-Sound before (some actual) =
      let P : Verdict → Type 0 = λ v. v.good ≡ true → some actual ≡ some signature in
      by_test P (ltb 0 (length actual))
        (λ _.
          by_test P (str_eq actual signature) (λ e _. ap some ((str_eq_iff actual signature).0 e))
            (λ _ g. cc g))
        (λ _ g. cc g)

  module _ (key : Key) (dated : is_empty date ≡ false)
      (timely : is_skewed (s.from_timestamp date) now ≡ false) (named : is_empty id ≡ false)
      (signed : is_empty signature ≡ false) (known : s.get_key id ≡ some key) where
    key-Sound : Sound (verify_key s key date signature now xml)
    unfolding verify_key
    key-Sound =
        let last = find_last_request_time s key.db_id signature in
        by_test Sound (ltb key.expiry_time now) (λ _ g. cc g)
          (λ alive.
            by_test Sound (ltb 0 last && ltb now (last + 60)) (λ _ g. cc g)
              (λ rested. elim (Option-cases (sign s key (payload_of date xml))) [
                | inl e ↦ rw e tt
                | inr (actual, e) ↦ rw e (λ g. record {
                  dated = dated;
                  not_late = ((skewed_iff (s.from_timestamp date) now).0 timely).0;
                  not_early = ((skewed_iff (s.from_timestamp date) now).0 timely).1;
                  named = named;
                  signed = signed;
                  key = key;
                  key_known = known;
                  key_alive = ground (arith, alive);
                  rested = ground (arith, rested);
                  signature_right = e ∙ ap some (check-Sound _ actual g);
                })
              ]))

  verify_authentication-Sound : Sound (verify_authentication s date auth now xml)
  unfolding verify_authentication
  verify_authentication-Sound =
      by_test Sound (is_empty date) (λ _ g. cc g)
        (λ dated.
          by_test Sound (is_empty auth) (λ _ g. cc g)
            (λ _.
              by_test Sound (is_skewed (s.from_timestamp date) now) (λ _ g. cc g)
                (λ timely.
                  by_test Sound (is_empty id) (λ _ g. cc g)
                    (λ named.
                      by_test Sound (is_empty signature) (λ _ g. cc g)
                        (λ signed. elim (Option-cases (s.get_key id)) [
                          | inl e ↦ rw e (λ g. cc g)
                          | inr (key, e) ↦ rw e (key-Sound key dated timely named signed e)
                        ])))))

  pub verify_authentication-IsAuthentic :
      (v : Verdict)
      → verify_authentication s date auth now xml ≡ some v
      → v.good ≡ true
      → IsAuthentic s date auth now xml
  verify_authentication-IsAuthentic v e g = rw e at verify_authentication-Sound g

  -- verifyAuthentication accepts a request exactly when it meets all the conditions: it has a date
  -- within 15 minutes of the time, a key's id and a signature; the key is known and has not expired;
  -- the same request was not logged within the last minute; and the signature is that of the date
  -- and the request under the key.
  pub verify_authentication_iff :
      ((events : List Event) × (verify_authentication s date auth now xml
          ≡ some (record { good = true; events = events })))
      ↔ IsAuthentic s date auth now xml
  verify_authentication_iff =
      ((λ h. verify_authentication-IsAuthentic _ h.1 refl), verify_authentication_complete)
