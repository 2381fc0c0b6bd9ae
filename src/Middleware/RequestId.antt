-- ===== src/Middleware/RequestId.antt =====
-- backend/app/middleware/request_id.py
use magna_cms.Prelude.{
  ℕ, ◌≡◌, Text, codes, Bool, ◌&&◌, ◌||◌, Option, none, some, List, [], ◌∷◌, ◌++◌, length, all,
  text_eq, between, ltb, leb, ◌==◌, strip, if◌then◌else◌, get_or, is_empty, not, arith,
}
use magna_cms.Middleware.Scopes.{Header}

abbrev pub request_id_header : Text
request_id_header = codes "x-request-id"

abbrev pub max_incoming_length : ℕ
max_incoming_length = 128

-- `[A-Za-z0-9_.-]`
unfoldable pub valid_char : ℕ → Bool
valid_char c =
    between b'A' b'Z' c
    || between b'a' b'z' c
    || between b'0' b'9' c
    || c == b'_'
    || c == b'.'
    || c == b'-'

unfoldable pub is_valid_incoming : Text → Bool
is_valid_incoming value =
    ltb 0 (length value)
    && leb (length value) max_incoming_length
    && not (is_empty value)
    && all valid_char value

-- Header names are in lower case in a scope. The first header of the name decides.
unfoldable pub extract_incoming : List Header → Option Text
extract_incoming [] = none
extract_incoming ((name, value) ∷ headers) =
    let later = extract_incoming headers in
    if text_eq name request_id_header
    then if not (is_empty (strip value)) && is_valid_incoming (strip value)
      then some (strip value)
      else none
    else later

-- The id of a request: the incoming one, or the text of a new UUID.
unfoldable pub request_id : Text → List Header → Text
request_id fresh headers = get_or (extract_incoming headers) fresh

-- What an application sends: the start of a response, or anything else.
pub data Message : Type 0 where
  response_start : ℕ → List Header → Message
  other_message : Text → Message

-- `wrapped_send`
unfoldable pub wrapped_send : Text → Message → Message
wrapped_send id (response_start status headers) =
    response_start status (headers ++ (request_id_header, id) ∷ [])
wrapped_send id (other_message body) = other_message body

-- The first X-Request-ID header decides: a valid one is adopted without the blanks around it, and
-- an invalid one leads to a new id, whatever such headers follow it.
request_id_first :
    (fresh value : Text) (headers : List Header)
    → request_id fresh ((request_id_header, value) ∷ headers)
      ≡ (if is_valid_incoming (strip value) then strip value else fresh)
unfolding request_id extract_incoming is_valid_incoming
request_id_first fresh value headers = ground arith
