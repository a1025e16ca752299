-- ===== src/Web/Xml.antt =====
-- processXml of src/webapi-fcgi.cc: what of a posted request is given to the parser. URLEncoding::decode
-- is a parameter; what the parser answers is not modelled.
mod Layout
pub mod Signed
use givemail.Base.{
  ℕ, ◌+◌, ◌%◌, ◌^◌, ◌≡◌, ◌⊎◌, refl, inl, inr, Bool, true, false, Option, none, some, List, [], ◌∷◌,
  ◌++◌, ltb, ◌==◌, if◌then◌else◌, length, drop, by_test, Option-cases,
}
use givemail.Base.Text.{Text, codes, find_text}
use givemail.Web.{get_header_value}
use givemail.Web.Gate.{starts_nocase}
use givemail.Web.Carve.{get_content, find_headers_end, carve}
use givemail.Web.Auth.{Services, Event, error_output, request_logged, verify_authentication}
use givemail.Web.Auth.Verdicts.{IsAuthentic, verify_authentication-IsAuthentic}

-- POST_ERROR
abbrev pub post_error : ℕ
post_error = 30

-- What api.parse is given, an offset into the content and a length, and what was told before.
pub record Served : Type 0 where
  pub parsed : Option (ℕ × ℕ)
  pub events : List Event

-- The C string at the start of a buffer.
unfoldable pub c_string : Text → Text
c_string [] = []
c_string (c ∷ s) = let rest = c_string s in if c == 0 then [] else c ∷ rest

-- The content and its length, or the error that the client is told.
pub data Received : Type 0 where
  refused : (message : Text) → Received
  content : (text : Text) (size : ℕ) → Received

-- The first part of processXml.
unfoldable pub receive : (Text → ℕ → Text) → Text → ℕ → Text → Received
receive decode content_type declared input = elim (get_content declared input) [
  | none ↦ refused (codes "Empty request")
  | some raw ↦
      let decoded = decode raw declared in
      if starts_nocase (codes "application/x-www-form-urlencoded") content_type
      then content (c_string decoded) (length decoded % 2 ^ 32)
      else if starts_nocase (codes "text/xml") content_type
      then content (c_string raw) declared
      else refused (codes "Unsupported request format")
]

-- dateHeaderValue: empty without headers in front of the block.
unfoldable pub date_of : Text → Option Text
date_of text = elim (find_text (codes "<GiveMail>") text) [
  | none ↦ some []
  | some block ↦ elim (find_headers_end text) [
    | none ↦ some []
    | some (end, n) ↦ if ltb end block then get_header_value text end (codes "Date: ") else some []
  ]
]

-- "No GiveMail block"
unfoldable pub block_events : Text → List Event
block_events text = elim (find_text (codes "<GiveMail>") text) [
  | none ↦ error_output (codes "No GiveMail block") ∷ request_logged (post_error + 1) ∷ []
  | some block ↦ []
]

-- "Empty or malformed request"
abbrev pub malformed : List Event → Served
malformed before = record {
  parsed = none;
  events =
      before
      ++ error_output (codes "Empty or malformed request") ∷ request_logged (post_error + 2) ∷ [];
}

-- The call of verifyAuthentication, where it is needed, and of the parser.
unfoldable pub authorize : Services → Bool → Text → Text → ℕ → Text → ℕ → ℕ → Option Served
authorize s false date auth now text from n = some (record { parsed = some (from, n); events = [] })
authorize s true date auth now text from n =
    elim (verify_authentication s date auth now (drop from text)) [
      | none ↦ none
      | some v ↦
          some (record { parsed = if v.good then some (from, n) else none; events = v.events })
    ]

-- The rest of processXml.
unfoldable pub process_content : Services → Bool → Text → ℕ → Text → ℕ → Option Served
process_content s check_auth auth now text size = elim (date_of text) [
  | none ↦ none
  | some date ↦ elim (carve text size) [
    | none ↦ some (malformed (block_events text))
    | some (from, n) ↦
        if n == 0
        then some (malformed (block_events text))
        else authorize s check_auth date auth now text from n
  ]
]

-- processXml
unfoldable pub process_xml :
    Services → (Text → ℕ → Text) → Bool → Text → Text → ℕ → Text → ℕ → Option Served
process_xml s decode check_auth auth content_type declared input now =
    elim (receive decode content_type declared input) [
      | refused message ↦ some (record { parsed = none; events = error_output message ∷ [] })
      | content text size ↦ process_content s check_auth auth now text size
    ]
