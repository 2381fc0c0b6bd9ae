-- ===== src/Tests/RateLimit.antt =====
-- The rate limiter at concrete data.
use magna_cms.Prelude.{
  ℕ, ◌-◌, ◌*◌, ◌≤◌, ◌<◌, ◌≡◌, refl, codes, true, false, some, List, [], ◌∷◌, arith, length,
}
use magna_cms.RateLimit.{
  limited, decide, prune, tick, window, hit, image_path, resolve_rule, auth_rate_limits,
  rate_limit_patterns,
}
use magna_cms.RateLimit.Window.{admitted, sliding, count_in, admitted_budget, admitted-eq-sliding}
use magna_cms.RateLimit.Buckets.{length-hit}

abbrev bursts : List ℕ
bursts = 0 ∷ 1 ∷ 2 ∷ 3 ∷ 70 * tick ∷ []

-- A budget of two in a minute.
admitted-bursts : admitted 2 bursts [] ≡ 0 ∷ 1 ∷ 70 * tick ∷ []
unfolding admitted decide prune
admitted-bursts = refl

image_path_test :
    (image_path (codes "/api/v1/content/01234567-89ab-cdef-0123-456789abcdef/image") ≡ true)
    × (image_path (codes "/api/v1/content/short/image") ≡ false)
unfolding image_path
image_path_test = (refl, refl)

login_rule :
    resolve_rule auth_rate_limits rate_limit_patterns (codes "/api/v1/auth/login")
    ≡ some (codes "/api/v1/auth/login", 10)
unfolding resolve_rule
login_rule = refl

admitted-eq-sliding_example : admitted 2 bursts [] ≡ sliding 2 bursts []
admitted-eq-sliding_example = admitted-eq-sliding 2 bursts (omega arith)

admitted_budget_example : count_in 0 (admitted 2 bursts []) ≤ 2
admitted_budget_example = admitted_budget 2 bursts (omega arith) 0

refused : (decide 1 (20 * tick) (prune (20 * tick - window) (5 ∷ []))).0 ≡ limited 40
unfolding decide prune
refused = refl

oldest : prune (20 * tick - window) (5 ∷ []) ≡ 5 ∷ []
unfolding prune
oldest = refl

length-hit_example : length (hit 10 (codes "/a", codes "1.2.3.4") 3 100 []).1 < 10
length-hit_example =
    length-hit 10 (codes "/a", codes "1.2.3.4") 3 100 [] (omega arith) (omega arith) (omega arith)
