-- ===== src/RateLimit.antt =====
-- backend/app/middleware/rate_limit.py, with the rules of backend/app/main.py. A time is a number
-- of microseconds of the monotonic clock. `now - 60` is truncated at zero, below which no timestamp
-- lies, so the comparisons with the cutoff are the program's.
pub mod Window
pub mod Buckets
use magna_cms.Prelude.{
  ℕ, zero, suc, ◌+◌, ◌-◌, ◌*◌, ◌/◌, max, Text, codes, text_eq, is_empty, Bool, true, false, ◌&&◌,
  ◌||◌, not, Option, some, none, List, [], ◌∷◌, ◌++◌, map, length, take, select, any, between, ltb,
  leb, drop_while, ◌==◌, if◌then◌else◌,
}

abbrev pub tick : ℕ
tick = 1_000_000

abbrev pub window : ℕ
window = 60 * tick

abbrev pub max_buckets : ℕ
max_buckets = 50_000

-- `pattern` stands for the compiled regular expression's `match`.
pub record RateLimitRule : Type 0 where
  pub pattern : Text → Bool
  pub limit : ℕ
  pub key : Text

pub record Bucket : Type 0 where
  pub timestamps : List ℕ
  pub last_touch : ℕ

-- `(rule_key, ip)`
abbrev pub Key : Type 0
Key = Text × Text

abbrev pub key_eq : Key → Key → Bool
key_eq (a, b) (c, d) = text_eq a c && text_eq b d

-- The dict `_BUCKETS`, in insertion order.
abbrev pub Buckets : Type 0
Buckets = List (Key × Bucket)

unfoldable pub lookup : Key → Buckets → Option Bucket
lookup k [] = none
lookup k ((j, b) ∷ d) = if key_eq j k then some b else lookup k d

unfoldable pub insert : Key → Bucket → Buckets → Buckets
insert k b [] = (k, b) ∷ []
insert k b ((j, c) ∷ d) = if key_eq j k then (j, b) ∷ d else (j, c) ∷ insert k b d

-- `sorted(items, key=last_touch)`, which is stable.
unfoldable pub insert_by_touch : Key × Bucket → Buckets → Buckets
insert_by_touch e [] = e ∷ []
insert_by_touch (k, b) ((j, c) ∷ d) =
    if leb b.last_touch c.last_touch then (k, b) ∷ (j, c) ∷ d else (j, c) ∷ insert_by_touch (k, b) d

unfoldable pub sorted_by_touch : Buckets → Buckets
unfolding insert_by_touch
sorted_by_touch [] = []
sorted_by_touch (e ∷ d) = insert_by_touch e (sorted_by_touch d)

abbrev pub is_key_of : Buckets → Key × Bucket → Bool
is_key_of dropped (k, _) = any (λ (j, _). key_eq j k) dropped

-- `_prune_oldest_buckets_if_over_cap`, for a cap. Popping the keys of the first tenth of the sorted
-- items leaves the entries under no such key.
unfoldable pub prune_oldest_buckets_if_over_cap : ℕ → Buckets → Buckets
unfolding sorted_by_touch
prune_oldest_buckets_if_over_cap cap d =
    if ltb (length d) cap
    then d
    else select (λ e. not (is_key_of (take (cap / 10) (sorted_by_touch d)) e)) d

-- The loop that pops timestamps from the front while they are older than the cutoff.
unfoldable pub prune : ℕ → List ℕ → List ℕ
prune cutoff = drop_while (λ t. ltb t cutoff)

pub data Verdict : Type 0 where
  -- The request goes on to the application.
  passed : Verdict
  -- A 429 response with its `Retry-After`.
  limited : ℕ → Verdict
  -- `timestamps[0]` of an empty list, under a limit of 0
  index_error : Verdict

-- The decision on one bucket whose old timestamps are gone.
unfoldable pub decide : ℕ → ℕ → List ℕ → Verdict × List ℕ
decide limit now [] = if leb limit 0 then (index_error, []) else (passed, now ∷ [])
decide limit now (t ∷ ts) =
    if leb limit (length (t ∷ ts))
    then (limited (max 1 ((t + window - now) / tick)), t ∷ ts)
    else (passed, (t ∷ ts) ++ now ∷ [])

abbrev timestamps_of : Option Bucket → List ℕ
timestamps_of none = []
timestamps_of (some b) = b.timestamps

-- Only a request that passes looks at the cap.
abbrev pub finish : ℕ → Verdict → Buckets → Verdict × Buckets
finish cap passed d = (passed, prune_oldest_buckets_if_over_cap cap d)
finish cap v d = (v, d)

-- `__call__` from the bucket on.
unfoldable pub hit : ℕ → Key → ℕ → ℕ → Buckets → Verdict × Buckets
unfolding decide prune lookup insert
hit cap k limit now d =
    let (v, ts) = decide limit now (prune (now - window) (timestamps_of (lookup k d))) in
    finish cap v (insert k (record { timestamps = ts; last_touch = now }) d)

-- `_resolve_rule`: the exact paths first, then the patterns in order.
abbrev pub exact_limit : List (Text × ℕ) → Text → Option ℕ
exact_limit [] path = none
exact_limit ((p, limit) ∷ rules) path =
    if text_eq p path then some limit else exact_limit rules path

abbrev pub pattern_limit : List RateLimitRule → Text → Option (Text × ℕ)
pattern_limit [] path = none
pattern_limit (r ∷ patterns) path =
    if r.pattern path then some (r.key, r.limit) else pattern_limit patterns path

abbrev exact_or : Text → Option ℕ → Option (Text × ℕ) → Option (Text × ℕ)
exact_or path (some limit) other = some (path, limit)
exact_or path none other = other

unfoldable pub resolve_rule : List (Text × ℕ) → List RateLimitRule → Text → Option (Text × ℕ)
resolve_rule rules patterns path =
    exact_or path (exact_limit rules path) (pattern_limit patterns path)

-- An HTTP scope: its path and the address of the TCP peer.
pub record Scope : Type 0 where
  pub path : Text
  pub client : Option Text

abbrev client_ip : Option Text → Text
client_ip none = codes "unknown"
client_ip (some host) = host

abbrev dispatch : ℕ → Option (Text × ℕ) → Text → ℕ → Buckets → Verdict × Buckets
dispatch cap none ip now d = (passed, d)
dispatch cap (some (rule_key, limit)) ip now d = hit cap (rule_key, ip) limit now d

-- `RateLimitMiddleware.__call__` on an HTTP request.
unfoldable pub rate_limit :
    List (Text × ℕ) → List RateLimitRule → Scope → ℕ → Buckets → Verdict × Buckets
unfolding resolve_rule
rate_limit rules patterns scope now d =
    dispatch max_buckets (resolve_rule rules patterns scope.path) (client_ip scope.client) now d

abbrev pub auth_rate_limits : List (Text × ℕ)
auth_rate_limits =
    (codes "/api/v1/auth/login", 10)
    ∷ (codes "/api/v1/auth/register", 10)
    ∷ (codes "/api/v1/auth/refresh", 10)
    ∷ (codes "/api/v1/content/generate", 20)
    ∷ []

-- Regular expressions: a literal, and a class counted, each in front of the rest of the match.
abbrev pub match_literal : Text → (Text → Bool) → Text → Bool
match_literal [] rest t = rest t
match_literal (c ∷ cs) rest [] = false
match_literal (c ∷ cs) rest (d ∷ t) = (c == d) && match_literal cs rest t

abbrev pub match_count : ℕ → (ℕ → Bool) → (Text → Bool) → Text → Bool
match_count zero p rest t = rest t
match_count (suc n) p rest [] = false
match_count (suc n) p rest (d ∷ t) = p d && match_count n p rest t

-- `$` matches at the end, and before a newline at the end.
abbrev pub at_end : Text → Bool
at_end [] = true
at_end (c ∷ t) = c == 10 && is_empty t

abbrev pub is_uuid_char : ℕ → Bool
is_uuid_char c = between b'0' b'9' c || between b'a' b'f' c || between b'A' b'F' c || c == b'-'

unfoldable pub image_path : Text → Bool
image_path =
    match_literal (codes "/api/v1/content/")
      (match_count 36 is_uuid_char (match_literal (codes "/image") at_end))

abbrev pub rate_limit_patterns : List RateLimitRule
rate_limit_patterns =
    record { pattern = image_path; limit = 6; key = codes "pattern:content_image_generate" }
    ∷ record {
      pattern = match_literal (codes "/api/v1/improve") at_end;
      limit = 10;
      key = codes "pattern:improve";
    }
    ∷ []
