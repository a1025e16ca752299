-- ===== src/Web/Auth.antt =====
-- verifyAuthentication of src/webapi-fcgi.cc, with Key of src/Key.cc, HMAC::sign of src/HMAC.cc and
-- findLastRequestTime of src/DBUsageLogger.cc. The date parser, the database and the digest of the
-- OpenSSL library are parameters. Times are natural numbers; the result is `none` only where
-- Base64::encode would go out of bounds.
pub mod Verdicts
pub mod Reports
pub mod Replay
use givemail.Base.{
  ℕ, ◌+◌, ◌-◌, ◌*◌, Bool, true, false, not, ◌&&◌, ◌||◌, Option, none, some, List, [], ◌∷◌, ◌++◌,
  ltb, leb, if◌then◌else◌, length, take,
}
use givemail.Base.Text.{Text, codes, is_empty, str_eq}
use givemail.Base64
use givemail.Web.{parse_auth}

-- Key
pub record Key : Type 0 where
  pub db_id : Text
  pub value : Text
  pub expiry_time : ℕ

pub record Services : Type 0 where
  pub from_timestamp : Text → ℕ
  pub get_key : Text → Option Key
  pub last_request : Text → Text → ℕ
  pub hmac_sha1 : Text → Text → Text
  pub junk : ℕ

-- What is told to the client and to the usage logger.
pub data Event : Type 0 where
  error_output : (message : Text) → Event
  request_logged : (status : ℕ) → Event
  key_set : (db_id : Text) → Event
  hash_set : (hash : Text) → Event
  expiry_output : (seconds : ℕ) → Event

pub record Verdict : Type 0 where
  pub good : Bool
  pub events : List Event

-- HMAC::sign: a null pointer is the inner `none`.
unfoldable pub sign : Services → Key → Text → Option (Option Text)
sign s key payload =
    let digest = s.hmac_sha1 key.value payload in
    if is_empty payload || is_empty digest then some none else elim (Base64.encode s.junk digest) [
      | none ↦ none
      | some none ↦ some none
      | some (some (buf, len)) ↦ some (some (take len buf))
    ]

-- DBUsageLogger::findLastRequestTime
unfoldable pub find_last_request_time : Services → Text → Text → ℕ
find_last_request_time s key_id hash =
    if is_empty key_id || is_empty hash then 0 else s.last_request key_id hash

-- AUTH_ERROR
abbrev pub auth_error : ℕ
auth_error = 10

-- An error that is logged, after `before`.
abbrev pub refuse : List Event → Text → ℕ → Option Verdict
refuse before message n = some (record {
  good = false;
  events = before ++ error_output message ∷ request_logged (auth_error + n) ∷ [];
})

-- The difference of two times in seconds is above 15 minutes.
unfoldable pub is_skewed : ℕ → ℕ → Bool
is_skewed request now = ltb (15 * 60) (if ltb request now then now - request else request - now)

-- What is signed: the date, a line end, and the rest of the request.
abbrev pub payload_of : Text → Text → Text
payload_of date xml = date ++ b'\n' ∷ xml

-- The check of the signature.
unfoldable pub check_signature : List Event → Text → Option Text → Verdict
check_signature before signature none = record { good = false; events = before }
check_signature before signature (some actual) =
    let wrong =
      error_output (codes "HMAC verification failed") ∷ request_logged (auth_error + 9) ∷ [] in
    if ltb 0 (length actual)
    then (if str_eq actual signature
        then record { good = true; events = before }
        else record { good = false; events = before ++ wrong })
    else record { good = false; events = before }

-- verifyAuthentication, for a key that was found.
unfoldable pub verify_key : Services → Key → Text → Text → ℕ → Text → Option Verdict
verify_key s key date signature now xml =
    let told = key_set key.db_id ∷ hash_set signature ∷ [] in
    let shown =
      key_set key.db_id ∷ hash_set signature ∷ expiry_output (key.expiry_time - now) ∷ [] in
    let last = find_last_request_time s key.db_id signature in
    let too_soon : Verdict = record {
      good = false;
      events = shown ++ error_output (codes "Request reissued too soon") ∷ [];
    } in
    if ltb key.expiry_time now
    then refuse told (codes "Key has expired") 7
    else (if ltb 0 last && ltb now (last + 60)
        then some too_soon
        else elim (sign s key (payload_of date xml)) [
          | none ↦ none
          | some actual ↦ some (check_signature shown signature actual)
        ])

-- verifyAuthentication
unfoldable pub verify_authentication : Services → Text → Text → ℕ → Text → Option Verdict
verify_authentication s date auth now xml =
    let (id, signature) = parse_auth auth in
    if is_empty date
    then refuse [] (codes "No date") 1
    else (if is_empty auth
        then refuse [] (codes "No authentication") 2
        else (if is_skewed (s.from_timestamp date) now
            then refuse [] (codes "Request date too skewed") 3
            else (if is_empty id
                then refuse [] (codes "No key ID") 4
                else (if is_empty signature
                    then refuse [] (codes "No signature") 5
                    else elim (s.get_key id) [
                      | none ↦ refuse [] (codes "No such key ID") 6
                      | some key ↦ verify_key s key date signature now xml
                    ]))))
