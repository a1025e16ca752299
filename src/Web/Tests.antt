-- ===== src/Web/Tests.antt =====
-- Requests that are read, accepted and refused, and the theorems at concrete inputs.
use givemail.Base.{
  ℕ, ◌↔◌, ◌≡◌, ◌∙◌, refl, inl, true, none, some, List, take, [], ◌∷◌, ◌++◌, arith, if◌then◌else◌,
}
use givemail.Base.Text.{Text, codes, str_eq, starts, find_byte, find_text}
use givemail.Base64.{code}
use givemail.Base64.Encoder.{encoding}
use givemail.Web.{until, get_query_parameter, line_end, get_header_value, parse_auth}
use givemail.Web.Carve.{get_content, find_headers_end, carve, length-take}
use givemail.Web.Gate.{
  empty_request, process_request, take_value, read_variable, read_environment, starts_nocase,
  choose_handler, Checks, choose_handler-Checks, read_environment_spoofed,
}
use givemail.Web.Xml.{
  Served, c_string, receive, content, date_of, authorize, process_content, process_xml,
}
use givemail.Web.Xml.Signed.{IsSigned, process_xml-IsSigned}
use givemail.Web.Auth.{
  Key, Services, Event, Verdict, sign, find_last_request_time, is_skewed, payload_of,
  verify_authentication,
}
use givemail.Web.Auth.Verdicts.{IsAuthentic, verify_authentication_iff}
use givemail.Web.Auth.Reports.{sign-encoding, errors, verify_authentication_reports}

header_runs :
    get_header_value (codes "A: b\r\nDate: now\r\n\r\n<x>") 15 (codes "Date: ") ≡ some (codes "now")
unfolding get_header_value line_end find_text starts
header_runs = refl

query_runs : get_query_parameter (codes "somewhat=1&what=2") (codes "what=") ≡ codes "1"
unfolding get_query_parameter until find_text starts
query_runs = refl

-- A closing tag within the headers.
abbrev twisted : Text
twisted = codes "X: </GiveMail>zz\n\n<GiveMail>"

-- Only requests from h need no authentication.
abbrev skip_auth : List Text
skip_auth = codes "h" ∷ []

abbrev from_outside : List Text
from_outside = codes "REMOTE_ADDR=o" ∷ codes "REQUEST_METHOD=GET" ∷ []

choose_handler-Checks_example :
    Checks (choose_handler true true skip_auth (read_environment from_outside empty_request))
unfolding read_environment read_variable take_value find_text starts str_eq
choose_handler-Checks_example =
    choose_handler-Checks true true skip_auth (read_environment from_outside empty_request) refl

read_environment_spoofed_example :
    (read_environment
      (from_outside ++ codes "HTTP_X=REMOTE_ADDR=h" ∷ [])
      empty_request).remote_address
    ≡ codes "h"
unfolding find_text starts
read_environment_spoofed_example =
    read_environment_spoofed from_outside empty_request (codes "HTTP_X=") (codes "h") refl

let_in :
    choose_handler true true skip_auth
      (read_environment (from_outside ++ codes "HTTP_X=REMOTE_ADDR=h" ∷ []) empty_request)
    ≡ process_request
unfolding choose_handler read_environment read_variable take_value find_text starts str_eq
    starts_nocase
let_in = refl

-- One key, k, under which every text has the digest abc.
abbrev services : Services
services = record {
  from_timestamp = λ date. 1000;
  get_key = λ id.
      if str_eq id (codes "k")
      then some (record { db_id = codes "7"; value = codes "v"; expiry_time = 5000 })
      else none;
  last_request = λ id hash. 0;
  hmac_sha1 = λ value text. codes "abc";
  junk = 7;
}

abbrev key : Key
key = record { db_id = codes "7"; value = codes "v"; expiry_time = 5000 }

right_signature :
    sign services key (payload_of (codes "d") (codes "<x>"))
    ≡ some (some (parse_auth (codes "k:YWJj")).1)
unfolding encoding parse_auth find_byte code
right_signature =
    sign-encoding services key (codes "d") (codes "<x>") b'a' (codes "bc") refl
      ((omega arith), ((omega arith), ((omega arith), tt)))

right_part :
    sign services key (payload_of (codes "d") (codes "<GiveMail></GiveMail>"))
    ≡ some (some (parse_auth (codes "k:YWJj")).1)
unfolding encoding parse_auth find_byte code
right_part =
    sign-encoding services key (codes "d") (codes "<GiveMail></GiveMail>") b'a' (codes "bc") refl
      ((omega arith), ((omega arith), ((omega arith), tt)))

authentic : IsAuthentic services (codes "d") (codes "k:YWJj") 1200 (codes "<x>")
unfolding parse_auth find_byte str_eq is_skewed find_last_request_time
authentic = record {
  dated = refl;
  not_late = omega arith;
  not_early = omega arith;
  named = refl;
  signed = refl;
  key = key;
  key_known = refl;
  key_alive = omega arith;
  rested = inl refl;
  signature_right = right_signature;
}

verify_authentication_iff_example :
    ((events : List Event) × (verify_authentication services
          (codes "d")
          (codes "k:YWJj")
          1200
          (codes "<x>")
        ≡ some (record { good = true; events = events })))
    ↔ IsAuthentic services (codes "d") (codes "k:YWJj") 1200 (codes "<x>")
verify_authentication_iff_example =
    verify_authentication_iff services (codes "d") (codes "k:YWJj") 1200 (codes "<x>")

let_in_signed :
    (events : List Event) × (verify_authentication services
        (codes "d")
        (codes "k:YWJj")
        1200
        (codes "<x>")
      ≡ some (record { good = true; events = events }))
let_in_signed =
    (verify_authentication_iff services (codes "d") (codes "k:YWJj") 1200 (codes "<x>")).1 authentic

-- No key of that name, so one error.
verify_authentication_reports_example :
    (v : Verdict) × (verify_authentication services (codes "d") (codes "q:YWJj") 1200 (codes "<x>")
      ≡ some v)
    × (errors v.events ≡ (if v.good then 0 else 1))
verify_authentication_reports_example =
    verify_authentication_reports services (codes "d") (codes "q:YWJj") 1200 (codes "<x>")
      (λ value text.
        (b'a', codes "bc", refl, ((omega arith), ((omega arith), ((omega arith), tt)))))

-- A signed post, and what it is answered.
abbrev signed_post : Text
signed_post = codes "Date: d\n\n<GiveMail></GiveMail>"

signed_part : IsAuthentic services (codes "d") (codes "k:YWJj") 1200 (codes "<GiveMail></GiveMail>")
unfolding parse_auth find_byte str_eq is_skewed find_last_request_time
signed_part = record {
  dated = refl;
  not_late = omega arith;
  not_early = omega arith;
  named = refl;
  signed = refl;
  key = key;
  key_known = refl;
  key_alive = omega arith;
  rested = inl refl;
  signature_right = right_part;
}

accepted_part :
    (events : List Event) × (verify_authentication services
        (codes "d")
        (codes "k:YWJj")
        1200
        (codes "<GiveMail></GiveMail>")
      ≡ some (record { good = true; events = events }))
accepted_part =
    (verify_authentication_iff services (codes "d") (codes "k:YWJj") 1200
        (codes "<GiveMail></GiveMail>")).1
      signed_part

abbrev served : Served
served = record { parsed = some (9, 21); events = accepted_part.0 }

received : receive (λ t n. take n t) (codes "text/xml") 30 signed_post ≡ content signed_post 30
unfolding receive get_content starts_nocase c_string
received = refl

carved :
    process_content services true (codes "k:YWJj") 1200 signed_post 30
    ≡ authorize services true (codes "d") (codes "k:YWJj") 1200 signed_post 9 21
unfolding process_content date_of carve find_headers_end find_text starts get_header_value line_end
carved = refl

authorized :
    authorize services true (codes "d") (codes "k:YWJj") 1200 signed_post 9 21 ≡ some served
unfolding authorize
authorized = rw (authorize, accepted_part.1) refl

served_post :
    process_xml services
      (λ t n. take n t)
      true
      (codes "k:YWJj")
      (codes "text/xml")
      30
      signed_post
      1200
    ≡ some served
unfolding process_xml
served_post = rw (process_xml, received) (carved ∙ authorized)

process_xml-IsSigned_example :
    (text : Text) × (size : ℕ) × (receive (λ t n. take n t) (codes "text/xml") 30 signed_post
      ≡ content text size)
    × IsSigned services (codes "k:YWJj") 1200 text 9 21
process_xml-IsSigned_example =
    process_xml-IsSigned (λ t n. take n t) (codes "text/xml") 30 (omega arith)
      (λ raw n. length-take n raw) services (codes "k:YWJj") 1200 signed_post served 9 21
      served_post refl
