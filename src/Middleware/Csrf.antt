-- ===== src/Middleware/Csrf.antt =====
-- backend/app/middleware/csrf.py: the decision on a request.
use magna_cms.Prelude.{
  Text, codes, Bool, true, false, Option, none, some, List, [], ◌∷◌, ◌++◌, ◌≡◌, refl, text_eq, any,
  not, drop_while_end, ◌==◌, if◌then◌else◌, map, arith,
}
use magna_cms.Middleware.Scopes.{
  Scope, lower, upper, last_header, last_header-snoc, last_header-snoc_other,
}

abbrev pub contains : List Text → Text → Bool
contains ts t = any (text_eq t) ts

-- `_PROTECTED_PATHS`
abbrev pub protected_paths : List Text
protected_paths =
    codes "/api/v1/auth/login"
    ∷ codes "/api/v1/auth/register"
    ∷ codes "/api/v1/auth/refresh"
    ∷ codes "/api/v1/auth/logout"
    ∷ []

abbrev pub guarded_methods : List Text
guarded_methods = codes "POST" ∷ codes "PUT" ∷ codes "PATCH" ∷ codes "DELETE" ∷ []

-- `o.rstrip("/")`
unfoldable pub rstrip_slash : Text → Text
rstrip_slash = drop_while_end (λ c. c == b'/')

-- `sec_fetch_site == "same-origin"`
abbrev pub same_origin : Option Text → Bool
same_origin none = false
same_origin (some site) = text_eq site (codes "same-origin")

-- What becomes of a request: it reaches the inner app, or a 403 names its origin.
pub data Outcome : Type 0 where
  forwarded : Outcome
  rejected : Text → Outcome

unfoldable pub check_origin : List Text → Option Text → Option Text → Outcome
check_origin cors_origins none sec_fetch_site = forwarded
check_origin cors_origins (some origin) sec_fetch_site =
    if same_origin sec_fetch_site
    then forwarded
    else if contains (map rstrip_slash cors_origins) (rstrip_slash origin)
    then forwarded
    else rejected origin

-- `CsrfOriginMiddleware.__call__`
unfoldable pub csrf : List Text → Scope → Outcome
csrf cors_origins scope =
    if not scope.is_http
    then forwarded
    else if not (contains protected_paths scope.path)
    then forwarded
    else if not (contains guarded_methods (upper scope.method))
    then forwarded
    else check_origin cors_origins (last_header (codes "origin") scope.headers)
        (last_header (codes "sec-fetch-site") scope.headers)

-- A scope with one more header at its end.
abbrev pub with_header : Text → Text → Scope → Scope
with_header k v scope = record scope { headers = scope.headers ++ (k, v) ∷ [] }

-- A request to one of the four routes with a method that changes state, whose last header is an
-- Origin, in whatever case its name is written, and which has no `Sec-Fetch-Site: same-origin` as
-- the last such header: it is rejected if that origin is none of the allowed ones up to slashes at
-- the end, and else forwarded, whatever its other headers are, another Origin among them too.
pub csrf_origin :
    (cors_origins : List Text) (scope : Scope) (k origin : Text)
    → scope.is_http ≡ true
    → contains protected_paths scope.path ≡ true
    → contains guarded_methods (upper scope.method) ≡ true
    → lower k ≡ codes "origin"
    → same_origin (last_header (codes "sec-fetch-site") scope.headers) ≡ false
    → csrf cors_origins (with_header k origin scope) ≡ (
        if contains (map rstrip_slash cors_origins) (rstrip_slash origin)
        then forwarded
        else rejected origin)
unfolding csrf check_origin
csrf_origin cors_origins scope k origin h p m n s =
    let named : text_eq (lower k) (codes "origin") ≡ true = rw n refl in
    let not_site : text_eq (lower k) (codes "sec-fetch-site") ≡ false = rw n refl in
    let o = last_header-snoc (codes "origin") scope.headers k origin named in
    let f = last_header-snoc_other (codes "sec-fetch-site") scope.headers k origin not_site in
    rw (h, p, m, o, f, s) refl

-- A request without an Origin passes, whatever it asks for.
pub csrf_without_origin :
    (cors_origins : List Text) (scope : Scope)
    → last_header (codes "origin") scope.headers ≡ none
    → csrf cors_origins scope ≡ forwarded
unfolding csrf check_origin
csrf_without_origin cors_origins scope o = rw o (ground arith)
