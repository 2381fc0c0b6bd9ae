-- ===== src/Session/Usage.antt =====
-- What the calls of a model cost: the sums that the services keep, and the sum over a sequence of
-- calls.
use magna_cms.Prelude.{ℕ, ◌+◌, ◌≤◌, ◌≡◌, ap, ◌∙◌, List, [], ◌∷◌, ◌++◌, length, arith}
use magna_cms.Models.{Cost, numeric_10_6}
use magna_cms.Session.{World, Result, ok, err, LlmRequest, LlmResult}

-- What the calls have cost so far.
pub record Totals : Type 0 where
  pub input_tokens : ℕ
  pub output_tokens : ℕ
  pub cost_usd : Cost

abbrev pub total_of : LlmResult → Totals
total_of answer = record {
  input_tokens = answer.input_tokens;
  output_tokens = answer.output_tokens;
  cost_usd = answer.cost_usd;
}

abbrev pub add_total : Totals → LlmResult → Totals
add_total t answer = record {
  input_tokens = t.input_tokens + answer.input_tokens;
  output_tokens = t.output_tokens + answer.output_tokens;
  cost_usd = t.cost_usd + answer.cost_usd;
}

abbrev pub no_totals : Totals
no_totals = record { input_tokens = 0; output_tokens = 0; cost_usd = 0 }

abbrev pub plus : Totals → Totals → Totals
plus s t = record {
  input_tokens = s.input_tokens + t.input_tokens;
  output_tokens = s.output_tokens + t.output_tokens;
  cost_usd = s.cost_usd + t.cost_usd;
}

totals_eq :
    (s t : Totals)
    → s.input_tokens ≡ t.input_tokens
    → s.output_tokens ≡ t.output_tokens
    → s.cost_usd ≡ t.cost_usd
    → s ≡ t
totals_eq s t p q r = λ i. record { input_tokens = p i; output_tokens = q i; cost_usd = r i }

plus_assoc : (s t u : Totals) → plus s (plus t u) ≡ plus (plus s t) u
plus_assoc s t u =
    totals_eq (plus s (plus t u)) (plus (plus s t) u) (omega arith) (omega arith) (omega arith)

plus_right_id : (t : Totals) → t ≡ plus t no_totals
plus_right_id t = totals_eq t (plus t no_totals) (omega arith) (omega arith) (omega arith)

plus_left_id : (t : Totals) → t ≡ plus no_totals t
plus_left_id t = totals_eq t (plus no_totals t) (omega arith) (omega arith) (omega arith)

-- The usage as a row keeps it.
abbrev pub kept_totals : Totals → Totals
kept_totals t = record t { cost_usd = numeric_10_6 t.cost_usd }

-- A kept cost is at most half of the last place from the cost.
numeric_10_6-near : (c : Cost) → (numeric_10_6 c ≤ c + 50) × (c ≤ numeric_10_6 c + 49)
unfolding numeric_10_6
numeric_10_6-near c = (omega arith, omega arith)

-- What one call costs.
abbrev pub charge : Result LlmResult → Totals
charge (ok answer) = total_of answer
charge (err e) = no_totals

-- Every call of the provider answers, with a text that `json.loads` decodes or refuses with a
-- JSONDecodeError.
abbrev pub Answers : (ℕ → LlmRequest → Result LlmResult) → Type 0
Answers llm = (n : ℕ) (r : LlmRequest) → (answer : LlmResult) × (llm n r ≡ ok answer)

-- The world after these requests were sent.
abbrev pub asked : List LlmRequest → World → World
asked requests w = record w { llm_calls = w.llm_calls ++ requests }

module _ (llm : ℕ → LlmRequest → Result LlmResult) where
  -- What these requests cost, the first being the provider's n-th call.
  unfoldable pub spent : ℕ → List LlmRequest → Totals
  spent n [] = no_totals
  spent n (r ∷ rs) = plus (charge (llm n r)) (spent (n + 1) rs)

  pub spent-one :
      (n : ℕ) (r : LlmRequest) (answer : LlmResult)
      → llm n r ≡ ok answer
      → total_of answer ≡ spent n (r ∷ [])
  unfolding spent
  spent-one n r answer l = rw l (plus_right_id (total_of answer))

  pub spent-two :
      (n : ℕ) (r s : LlmRequest) (answer again : LlmResult)
      → llm n r ≡ ok answer
      → llm (n + 1) s ≡ ok again
      → add_total (total_of answer) again ≡ spent n (r ∷ s ∷ [])
  unfolding spent
  spent-two n r s answer again l m =
      rw (l, m) (ap (plus (total_of answer)) (plus_right_id (total_of again)))

  pub spent-append :
      (n : ℕ) (rs ss : List LlmRequest)
      → spent n (rs ++ ss) ≡ plus (spent n rs) (spent (n + length rs) ss)
  unfolding spent
  spent-append n [] ss =
      let here : n ≡ n + 0 = omega arith in
      ap (λ k. spent k ss) here ∙ plus_left_id (spent (n + 0) ss)
  spent-append n (r ∷ rs) ss =
      let next : n + 1 + length rs ≡ n + length (r ∷ rs) = omega arith in
      let rest = plus (spent (n + 1) rs) (spent (n + 1 + length rs) ss) in
      ap (plus (charge (llm n r))) (spent-append (n + 1) rs ss)
      ∙ plus_assoc (charge (llm n r)) (spent (n + 1) rs) (spent (n + 1 + length rs) ss)
      ∙ ap (λ k. plus (plus (charge (llm n r)) (spent (n + 1) rs)) (spent k ss)) next
