-- ===== src/Middleware/SecurityHeaders.antt =====
-- backend/app/middleware/security_headers.py
use magna_cms.Prelude.{
  ◌≡◌, refl, Text, codes, text_eq, text_eq_refl, Bool, true, false, not, List, [], ◌∷◌, ◌++◌,
  append_assoc, subst, sym, any, all, select, any-append, if◌then◌else◌, Bool-cases, inl, inr,
  arith, ◌&&◌,
}
use magna_cms.Config.{Environment, local, dev, staging, prod, is_local}
use magna_cms.Middleware.Scopes.{Header}
use magna_cms.Middleware.RequestId.{Message, response_start, other_message}

abbrev pub swagger_csp : Text
swagger_csp =
    codes "default-src 'self'; "
    ++ codes "img-src 'self' data:; "
    ++ codes "script-src 'self' 'unsafe-inline' https://cdn.jsdelivr.net; "
    ++ codes "style-src 'self' 'unsafe-inline' https://cdn.jsdelivr.net; "
    ++ codes "font-src 'self' https://cdn.jsdelivr.net; "
    ++ codes "connect-src 'self'; "
    ++ codes "frame-ancestors 'none'; "
    ++ codes "base-uri 'self'; "
    ++ codes "form-action 'self'"

abbrev pub tight_csp : Text
tight_csp = codes "default-src 'none'; frame-ancestors 'none'; base-uri 'none'; form-action 'none'"

abbrev pub hsts_value : Text
hsts_value = codes "max-age=15552000"

abbrev pub base_static_headers : List Header
base_static_headers =
    (codes "x-content-type-options", codes "nosniff")
    ∷ (codes "x-frame-options", codes "DENY")
    ∷ (codes "referrer-policy", codes "strict-origin-when-cross-origin")
    ∷ (codes "permissions-policy", codes "camera=(), microphone=(), geolocation=()")
    ∷ []

-- `_csp_for`
unfoldable pub csp_for : Environment → Text
csp_for local = swagger_csp
csp_for dev = swagger_csp
csp_for staging = tight_csp
csp_for prod = tight_csp

abbrev pub hsts : Environment → List Header
hsts env = if is_local env then [] else (codes "strict-transport-security", hsts_value) ∷ []

-- The headers of a response in an environment, in the order in which they are added.
unfoldable pub security_headers : Environment → List Header
unfolding csp_for
security_headers env =
    base_static_headers ++ ((codes "content-security-policy", csp_for env) ∷ hsts env)

-- `name in {name for name, _ in headers}`
abbrev pub has_name : Text → List Header → Bool
has_name name headers = any (λ (n, _). text_eq n name) headers

-- The headers of a response with those added that it does not have.
unfoldable pub with_defaults : List Header → List Header → List Header
with_defaults defaults headers =
    headers ++ select (λ (name, _). not (has_name name headers)) defaults

-- `send_with_headers`
unfoldable pub send_with_headers : Environment → Message → Message
unfolding with_defaults
send_with_headers env (response_start status headers) =
    response_start status (with_defaults (security_headers env) headers)
send_with_headers env (other_message body) = other_message body

-- Every name of a list is the name of some header.
abbrev pub has_names : List Header → List Header → Bool
has_names defaults headers = all (λ (name, _). has_name name headers) defaults

-- A header is among the headers, as it stands.
abbrev pub has_header : Header → List Header → Bool
has_header (k, v) headers = any (λ (name, value). text_eq name k && text_eq value v) headers

has_name-append :
    (name : Text) (headers added : List Header)
    → has_name name headers ≡ true
    → has_name name (headers ++ added) ≡ true
has_name-append name headers added h =
    rw (any-append (λ (n, _). text_eq n name) headers added, h) refl

has_name-middle :
    (name value : Text) (headers added : List Header)
    → has_name name (headers ++ (name, value) ∷ added) ≡ true
has_name-middle name value headers added =
    rw (any-append (λ (n, _). text_eq n name) headers ((name, value) ∷ added), text_eq_refl name)
      (ground arith)

has_names-select :
    (absent : Text → Bool) (defaults headers : List Header)
    → ((name : Text) → absent name ≡ false → has_name name headers ≡ true)
    → has_names defaults (headers ++ select (λ (name, _). absent name) defaults) ≡ true
has_names-select absent [] headers h = refl
has_names-select absent ((k, v) ∷ defaults) headers h =
    let rest = select (λ (name, _). absent name) defaults in
    elim (Bool-cases (absent k)) [
      | inl lacks ↦
          let added : select (λ (name, _). absent name) ((k, v) ∷ defaults) ≡ (k, v) ∷ rest =
            rw lacks refl in
          let later : has_names defaults ((headers ++ (k, v) ∷ []) ++ rest) ≡ true =
            has_names-select absent defaults (headers ++ (k, v) ∷ [])
              (λ name e. has_name-append name headers ((k, v) ∷ []) (h name e)) in
          let here : has_names defaults (headers ++ (k, v) ∷ rest) ≡ true =
            subst (λ hs. has_names defaults hs ≡ true) (append_assoc headers ((k, v) ∷ []) rest)
              later in
          subst (λ r. has_names ((k, v) ∷ defaults) (headers ++ r) ≡ true) (sym added)
            (rw (has_name-middle k v headers rest) here)
      | inr has ↦
          let kept : select (λ (name, _). absent name) ((k, v) ∷ defaults) ≡ rest = rw has refl in
          subst (λ r. has_names ((k, v) ∷ defaults) (headers ++ r) ≡ true) (sym kept)
            (rw (has_name-append k headers rest (h k has))
              (has_names-select absent defaults headers h))
    ]

-- Every default header is there afterwards, by its name.
pub has_names-with_defaults :
    (defaults headers : List Header) → has_names defaults (with_defaults defaults headers) ≡ true
unfolding with_defaults
has_names-with_defaults defaults headers =
    has_names-select (λ name. not (has_name name headers)) defaults headers (λ name h. ground arith)

pub has_header-append :
    (h : Header) (headers added : List Header)
    → has_header h headers ≡ true
    → has_header h (headers ++ added) ≡ true
has_header-append (k, v) headers added e =
    rw (any-append (λ (name, value). text_eq name k && text_eq value v) headers added, e) refl
