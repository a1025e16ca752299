-- ===== src/Web/Params.antt =====
-- What the parts of a request are read as.
use givemail.Base.{
  ℕ, ◌+◌, ◌-◌, ◌%◌, ◌^◌, ◌<◌, ◌≡◌, refl, inl, inr, some, [], ◌∷◌, ◌++◌, arith, length, drop,
  take-append, drop-append, drop_past, length-append, append_assoc, append-nil,
}
use givemail.Base.Find.{Lacks, EndsBy, find_byte-behind, find_end, find_no_end}
use givemail.Base.Text.{Text, find_text, find_text_from}
use givemail.Web.{until, get_query_parameter, cookie_name, extract_auth_cookie, parse_auth}

-- parseAuth takes the text before the first colon for the key's id, and the rest for the signature.
pub parse_auth-joined :
    (id signature : Text) → Lacks b':' id → parse_auth (id ++ b':' ∷ signature) ≡ (id, signature)
unfolding parse_auth
parse_auth-joined id signature h =
    rw (parse_auth, find_byte-behind b':' id signature h)
      (rw (take-append id (b':' ∷ signature), drop_past id signature b':') refl)

-- From the start of a value to its end.
module _ (c : ℕ) (pre value : Text) (lacks : Lacks c value) (fits : length value < 2 ^ 64) where
  until-value :
      (tail : Text)
      → EndsBy c tail
      → until
          (pre ++ (value ++ tail))
          (length pre)
          (find_text_from (c ∷ []) (pre ++ (value ++ tail)) (length pre))
        ≡ value
  unfolding until
  until-value tail (inl e) =
      rw (e, append-nil value, find_no_end c pre value lacks) (drop-append pre value)
  until-value tail (inr (rest, e)) =
      let size : (length pre + length value + 2 ^ 64 - length pre) % 2 ^ 64 ≡ length value =
        omega (arith, fits) in
      rw (e, find_end c pre value lacks rest, size, drop-append pre (value ++ c ∷ rest))
        (take-append value (c ∷ rest))

-- extractAuthCookie gives what stands between the first "GMAuth=" and the next semicolon, or the
-- end, where that is shorter than 2 ^ 64 bytes.
pub extract_auth_cookie-value :
    (pre value tail : Text)
    → find_text cookie_name (pre ++ (cookie_name ++ (value ++ tail))) ≡ some (length pre)
    → Lacks b';' value
    → EndsBy b';' tail
    → length value < 2 ^ 64
    → extract_auth_cookie (pre ++ (cookie_name ++ (value ++ tail))) ≡ value
unfolding extract_auth_cookie
extract_auth_cookie-value pre value tail f h t fits =
    let start = pre ++ cookie_name in
    let size : length start ≡ length pre + 7 = length-append pre cookie_name in
    let found = until-value b';' start value h fits tail t in
    rw (extract_auth_cookie, f) (rw (append_assoc pre cookie_name (value ++ tail), size) at found)

-- A cookie GMAuth=id:signature among others is read as that id and that signature.
pub parse_auth-extract_auth_cookie :
    (pre id signature tail : Text)
    → find_text cookie_name (pre ++ (cookie_name ++ ((id ++ b':' ∷ signature) ++ tail)))
      ≡ some (length pre)
    → Lacks b':' id
    → Lacks b';' (id ++ b':' ∷ signature)
    → EndsBy b';' tail
    → length (id ++ b':' ∷ signature) < 2 ^ 64
    → parse_auth (extract_auth_cookie (pre ++ (cookie_name ++ ((id ++ b':' ∷ signature) ++ tail))))
      ≡ (id, signature)
parse_auth-extract_auth_cookie pre id signature tail f h k t fits =
    rw (extract_auth_cookie-value pre (id ++ b':' ∷ signature) tail f k t fits)
      (parse_auth-joined id signature h)

drop_both : (pre s rest : Text) → drop (length pre + length s) (pre ++ (s ++ rest)) ≡ rest
drop_both pre s rest =
    rw (append_assoc pre s rest, length-append pre s) at (drop-append (pre ++ s) rest)

-- getQueryParameter gives what stands between the first place of the parameter's text and the
-- next '&', or the end. That place need not be the beginning of a parameter.
pub get_query_parameter-value :
    (pre parameter value tail : Text)
    → find_text parameter (pre ++ (parameter ++ (value ++ tail))) ≡ some (length pre)
    → Lacks b'&' (parameter ++ value)
    → EndsBy b'&' tail
    → length value < 2 ^ 64
    → get_query_parameter (pre ++ (parameter ++ (value ++ tail))) parameter ≡ value
unfolding get_query_parameter until
get_query_parameter-value pre parameter value tail f h (inl e) fits =
    rw (get_query_parameter, f)
      (rw (e, append-nil value, find_no_end b'&' pre (parameter ++ value) h)
        (drop_both pre parameter value))
get_query_parameter-value pre parameter value tail f h (inr (rest, e)) fits =
    let found =
      rw (append_assoc parameter value (b'&' ∷ rest), length-append parameter value) at
        (find_end b'&' pre (parameter ++ value) h rest) in
    let size : (length pre
            + (length parameter + length value)
            + 2 ^ 64
            - (length pre + length parameter))
          % 2 ^ 64
        ≡ length value =
      omega (arith, fits) in
    rw (get_query_parameter, f)
      (rw (e, found, size, drop_both pre parameter (value ++ b'&' ∷ rest))
        (take-append value (b'&' ∷ rest)))
