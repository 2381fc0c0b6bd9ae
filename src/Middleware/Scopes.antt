-- ===== src/Middleware/Scopes.antt =====
-- What an ASGI scope holds of a request, and the lookups of its headers. Bytes are code points of
-- latin-1.
use magna_cms.Prelude.{
  ℕ, ◌+◌, ◌-◌, ◌≡◌, refl, Text, Bool, true, false, ◌&&◌, ◌||◌, Option, none, some, List, [], ◌∷◌,
  ◌++◌, map, text_eq, between, not, ◌==◌, if◌then◌else◌, is_none,
}

abbrev pub Header : Type 0
Header = Text × Text

pub record Scope : Type 0 where
  -- `scope["type"] == "http"`
  pub is_http : Bool
  pub path : Text
  pub method : Text
  pub headers : List Header

-- `str.lower` at a code point of latin-1.
unfoldable pub lower_char : ℕ → ℕ
lower_char c = if between b'A' b'Z' c || between 0xc0 0xde c && not (c == 0xd7) then c + 32 else c

unfoldable pub lower : Text → Text
lower t = map lower_char t

-- `str.upper` of an ASCII text.
unfoldable pub upper : Text → Text
upper t = map (λ c. if between b'a' b'z' c then c - 32 else c) t

-- A lookup in the dictionary made of the headers with lower-case names: the last one counts.
abbrev pub last_header : Text → List Header → Option Text
last_header name [] = none
last_header name ((k, v) ∷ headers) =
    let later = last_header name headers in
    if not (is_none later) then later else if text_eq (lower k) name then some v else none

-- The last header of the name decides, whatever stands before it.
pub last_header-snoc :
    (name : Text) (headers : List Header) (k v : Text)
    → text_eq (lower k) name ≡ true
    → last_header name (headers ++ (k, v) ∷ []) ≡ some v
last_header-snoc name [] k v h = rw h refl
last_header-snoc name ((k', v') ∷ headers) k v h = rw (last_header-snoc name headers k v h) refl

pub last_header-snoc_other :
    (name : Text) (headers : List Header) (k v : Text)
    → text_eq (lower k) name ≡ false
    → last_header name (headers ++ (k, v) ∷ []) ≡ last_header name headers
last_header-snoc_other name [] k v h = rw h refl
last_header-snoc_other name ((k', v') ∷ headers) k v h =
    rw (last_header-snoc_other name headers k v h) refl
