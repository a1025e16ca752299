-- ===== src/Web/Gate.antt =====
-- The loop of main in src/webapi-fcgi.cc: what is read of a request's environment, and which handler
-- a request is given to.
use givemail.Base.{
  ℕ, ◌+◌, ◌≡◌, refl, Bool, true, false, not, ◌&&◌, none, some, List, [], ◌∷◌, ◌++◌, arith, leb,
  if◌then◌else◌, length, drop, any, by_test, append_assoc, length-append, drop-append,
}
use givemail.Base.Text.{Text, codes, str_eq, find_text}

pub record Request : Type 0 where
  pub content_type : Text
  pub cookies : Text
  pub query_string : Text
  pub remote_address : Text
  pub request_method : Text

abbrev pub empty_request : Request
empty_request = record {
  content_type = [];
  cookies = [];
  query_string = [];
  remote_address = [];
  request_method = [];
}

-- The value behind `name` where the variable has that text in it, else the value so far.
unfoldable pub take_value : Text → Text → Text → Text
take_value name variable old = elim (find_text name variable) [
  | none ↦ old
  | some pos ↦ drop (pos + length name) variable
]

-- One round of the loop over the environment; REMOTE_PORT, which nothing below uses, is left out.
unfoldable pub read_variable : Text → Request → Request
read_variable v r = record {
  content_type = take_value (codes "CONTENT_TYPE=") v r.content_type;
  cookies = take_value (codes "HTTP_COOKIE=") v r.cookies;
  query_string = take_value (codes "QUERY_STRING=") v r.query_string;
  remote_address = take_value (codes "REMOTE_ADDR=") v r.remote_address;
  request_method = take_value (codes "REQUEST_METHOD=") v r.request_method;
}

-- The loop over the environment.
unfoldable pub read_environment : List Text → Request → Request
read_environment [] r = r
read_environment (v ∷ vs) r = read_environment vs (read_variable v r)

-- checkAuth
abbrev pub needs_authentication : List Text → Request → Bool
needs_authentication skip_auth r = not (any (str_eq r.remote_address) skip_auth)

pub data Handler : Type 0 where
  no_configuration : Handler
  no_database : Handler
  process_xml : (check_auth : Bool) → Handler
  process_form_data : Handler
  process_request : Handler
  unsupported : Handler

abbrev pub lower : ℕ → ℕ
lower c = if leb b'A' c && leb c b'Z' then c + 32 else c

-- strncasecmp with a text and its length
unfoldable pub starts_nocase : Text → Text → Bool
starts_nocase [] s = true
starts_nocase (c ∷ p) [] = false
starts_nocase (c ∷ p) (d ∷ s) =
    let rest = starts_nocase p s in (leb (lower c) (lower d) && leb (lower d) (lower c)) && rest

-- The choice of the handler.
unfoldable pub choose_handler : Bool → Bool → List Text → Request → Handler
choose_handler opened_configuration opened_database skip_auth r =
    let check_auth = needs_authentication skip_auth r in
    let is_post = str_eq r.request_method (codes "POST") in
    if not opened_configuration
    then no_configuration
    else (if not opened_database
        then no_database
        else (if is_post && not (starts_nocase (codes "multipart/form-data") r.content_type)
            then process_xml check_auth
            else (if is_post && not check_auth
                then process_form_data
                else (if str_eq r.request_method (codes "GET") && not check_auth
                    then process_request
                    else unsupported))))

-- A handler that gives nothing away without authentication.
abbrev pub Checks : Handler → Type 0
Checks no_configuration = Unit
Checks no_database = Unit
Checks (process_xml check_auth) = check_auth ≡ true
Checks process_form_data = true ≡ false
Checks process_request = true ≡ false
Checks unsupported = Unit

-- A request from a host that is not among those whose requests need no authentication is given to
-- the XML handler with the check of its authentication, or refused.
pub choose_handler-Checks :
    (opened_configuration opened_database : Bool) (skip_auth : List Text) (r : Request)
    → any (str_eq r.remote_address) skip_auth ≡ false
    → Checks (choose_handler opened_configuration opened_database skip_auth r)
unfolding choose_handler
choose_handler-Checks c d skip r h =
    let check_auth = needs_authentication skip r in
    let is_post = str_eq r.request_method (codes "POST") in
    let checked : check_auth ≡ true = rw h refl in
    by_test Checks (not c) (λ _. tt)
      (λ _.
        by_test Checks (not d) (λ _. tt)
          (λ _.
            by_test Checks
              (is_post && not (starts_nocase (codes "multipart/form-data") r.content_type))
              (λ _. checked)
              (λ _.
                by_test Checks (is_post && not check_auth)
                  (λ e. absurd (ground (arith, e, checked)))
                  (λ _.
                    by_test Checks (str_eq r.request_method (codes "GET") && not check_auth)
                      (λ e. absurd (ground (arith, e, checked))) (λ _. tt)))))

take_value-behind :
    (name before value old : Text)
    → find_text name (before ++ (name ++ value)) ≡ some (length before)
    → take_value name (before ++ (name ++ value)) old ≡ value
unfolding take_value
take_value-behind name before value old f =
    let found = drop-append (before ++ name) value in
    rw (take_value, f) (rw (append_assoc before name value, length-append before name) at found)

-- The last variable of an environment that has the text REMOTE_ADDR= in it, wherever it stands,
-- gives the address that the request is taken to come from: a header or a query that a client
-- sends can name any host.
pub read_environment_spoofed :
    (vars : List Text) (r : Request) (before address : Text)
    → find_text (codes "REMOTE_ADDR=") (before ++ (codes "REMOTE_ADDR=" ++ address))
      ≡ some (length before)
    → (read_environment
        (vars ++ (before ++ (codes "REMOTE_ADDR=" ++ address)) ∷ [])
        r).remote_address
      ≡ address
unfolding read_environment read_variable
read_environment_spoofed [] r before address f =
    take_value-behind (codes "REMOTE_ADDR=") before address r.remote_address f
read_environment_spoofed (v ∷ vars) r before address f =
    read_environment_spoofed vars (read_variable v r) before address f
