-- ===== src/Web.antt =====
-- src/webapi-fcgi.cc: the parsing of a request. Positions of std::string are numbers below 2 ^ 64.
-- A C string is the list of its bytes, with no 0 in it, and a pointer into it an offset; an access
-- or a length that C++ does not allow is `none`.
mod Params
pub mod Carve
pub mod Gate
pub mod Auth
mod Xml
mod Tests
use givemail.Base.{
  ℕ, ◌+◌, ◌-◌, ◌%◌, ◌^◌, Bool, true, false, not, ◌&&◌, ◌||◌, Option, none, some, [], ◌∷◌, ltb, leb,
  if◌then◌else◌, length, drop,
}
use givemail.Base.Text.{Text, codes, is_empty, find_byte, find_text, find_text_from, substr}

-- substr from `start` to the end that was found, or to the end of the text.
unfoldable pub until : Text → ℕ → Option ℕ → Text
until s start none = drop start s
until s start (some end) = substr s start ((end + 2 ^ 64 - start) % 2 ^ 64)

-- getQueryParameter
unfoldable pub get_query_parameter : Text → Text → Text
get_query_parameter query parameter = elim (find_text parameter query) [
  | none ↦ []
  | some pos ↦ until query (pos + length parameter) (find_text_from (codes "&") query pos)
]

-- The end of the line at `start` in getHeaderValue.
unfoldable pub line_end : Text → ℕ → Option ℕ
line_end content start = elim (find_text_from (codes "\r\n") content start) [
  | none ↦ find_text_from (codes "\n") content start
  | some end ↦ some end
]

-- getHeaderValue; a length below 0 is `none`.
unfoldable pub get_header_value : Text → ℕ → Text → Option Text
get_header_value content headers_end name =
    if is_empty name then some [] else elim (find_text name content) [
      | none ↦ some []
      | some start ↦ elim (line_end content start) [
        | none ↦ some []
        | some end ↦
            if ltb start headers_end && leb end headers_end
            then (if leb (start + length name) end
                then some (substr content (start + length name) (end - (start + length name)))
                else none)
            else some []
      ]
    ]

-- "GMAuth="
abbrev pub cookie_name : Text
cookie_name = codes "GMAuth="

-- extractAuthCookie
unfoldable pub extract_auth_cookie : Text → Text
extract_auth_cookie cookies = elim (find_text cookie_name cookies) [
  | none ↦ []
  | some pos ↦ until cookies (pos + 7) (find_text_from (codes ";") cookies (pos + 7))
]

-- parseAuth: the key's id and the signature, both empty without a colon.
unfoldable pub parse_auth : Text → Text × Text
parse_auth value = elim (find_byte b':' value) [
  | none ↦ ([], [])
  | some colon ↦ (substr value 0 colon, drop (colon + 1) value)
]
