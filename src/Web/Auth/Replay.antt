-- ===== src/Web/Auth/Replay.antt =====
-- The same request, later.
use givemail.Base.{ℕ, ◌+◌, ◌≤◌, ◌≡◌, refl, inr, true, false, ◌||◌, some, List, by_test, ◌⊎◌, inl}
use givemail.Base.Text.{Text, is_empty}
use givemail.Web.{parse_auth}
use givemail.Web.Auth.{
  Services, Event, sign, find_last_request_time, is_skewed, verify_authentication,
}
use givemail.Web.Auth.Verdicts.{IsAuthentic, skewed_iff, verify_authentication_complete}

-- The services once requests were logged.
abbrev pub logged : Services → (Text → Text → ℕ) → Services
logged s last = record s { last_request = last }

-- A request that was accepted once is accepted again, as it is, at any later time that is within 15
-- minutes of its date, no later than the key's expiry, and 60 seconds or more behind the last time
-- that it was logged.
pub replay_accepted :
    (s : Services) (date auth : Text) (now : ℕ) (xml : Text) (last : Text → Text → ℕ) (later : ℕ)
    (h : IsAuthentic s date auth now xml)
    → is_skewed (s.from_timestamp date) later ≡ false
    → later ≤ h.key.expiry_time
    → last h.key.db_id (parse_auth auth).1 + 60 ≤ later
    → (events : List Event) × (verify_authentication (logged s last) date auth later xml
        ≡ some (record { good = true; events = events }))
unfolding sign find_last_request_time
replay_accepted s date auth now xml last later h timely alive behind =
    let signature = (parse_auth auth).1 in
    let nothing = is_empty h.key.db_id || is_empty signature in
    verify_authentication_complete (logged s last) date auth later xml (record {
      dated = h.dated;
      not_late = ((skewed_iff (s.from_timestamp date) later).0 timely).0;
      not_early = ((skewed_iff (s.from_timestamp date) later).0 timely).1;
      named = h.named;
      signed = h.signed;
      key = h.key;
      key_known = h.key_known;
      key_alive = alive;
      rested =
          by_test (λ (n : ℕ). (n ≡ 0) ⊎ (n + 60 ≤ later)) nothing (λ _. inl refl) (λ _. inr behind);
      signature_right = h.signature_right;
    })
