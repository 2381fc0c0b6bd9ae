-- ===== src/Improver/Service/Endings.antt =====
-- How an improvement ends.
use magna_cms.Prelude.{
  ◌+◌, ◌≤◌, ◌≡◌, refl, sym, ap, ◌∙◌, true, none, List, [], ◌∷◌, ◌++◌, any, length, length-append,
  append_assoc, arith, some, Option-cases, inl, inr, ◌⊎◌,
}
use magna_cms.Exceptions.{Exc}
use magna_cms.Models.{Improvement, Uuid}
use magna_cms.Auth.Users.{user_is}
use magna_cms.Session.{World, External, ok, err, LlmRequest, draw}
use magna_cms.Session.Usage.{Totals, plus, kept_totals, spent, spent-append, Answers, asked}
use magna_cms.Schemas.Values.{filled}
use magna_cms.Schemas.Improvement.{ImproveRequest, is_improve_request}
use magna_cms.Improver.Repository as Improvements
use magna_cms.Improver.Repository.{improvements, refreshed}
use magna_cms.Improver.Service.{
  Reader, AnalyzeOutcome, RewriteOutcome, run_analyze, run_rewrite, store, improve, new_improvement,
}
use magna_cms.Improver.Service.Stages.{
  run_analyze_ends, run_rewrite_ends, IsRewrite, IsRewrite-filled,
}

-- The usage that a row records.
abbrev pub totals_of : Improvement → Totals
totals_of r = record {
  input_tokens = r.input_tokens;
  output_tokens = r.output_tokens;
  cost_usd = r.cost_usd;
}

module _ (x : External) (p : Reader) (user_id : Uuid) (request : ImproveRequest) (w : World) where
  abbrev pub built : AnalyzeOutcome → RewriteOutcome → Improvement
  built = new_improvement (x.uuid4 w.draws) w.started user_id request

  -- The row that is stored.
  abbrev pub row_of : AnalyzeOutcome → RewriteOutcome → Improvement
  row_of a b = refreshed (built a b)

  -- The database accepts the values of the row that gets the next id.
  abbrev pub Accepts : Type 0
  Accepts = (r : Improvement) → r.id ≡ x.uuid4 w.draws → x.improvement_error r ≡ none

  -- The world after these requests were sent, and after the row was stored besides.
  abbrev pub called : List LlmRequest → World
  called requests = record w { draws = w.draws + 1; llm_calls = w.llm_calls ++ requests }

  abbrev pub stored : List LlmRequest → Improvement → World
  stored requests r = record w {
    draws = w.draws + 1;
    llm_calls = w.llm_calls ++ requests;
    db = record w.db { improvements = improvements w ++ r ∷ [] };
  }

  -- The two stages one after the other.
  improve-stages :
      (a : AnalyzeOutcome) (b : RewriteOutcome) (rs ss : List LlmRequest)
      → run_analyze x p request w ≡ (ok a, asked rs w)
      → run_rewrite x p request a.planned_changes (asked rs w) ≡ (ok b, asked ss (asked rs w))
      → improve x p user_id request w ≡ Improvements.create x (built a b) (called (rs ++ ss))
  unfolding improve store draw
  improve-stages a b rs ss first second = rw (first, second) (rw append_assoc refl)

  module _ (a : AnalyzeOutcome) (b : RewriteOutcome) (requests : List LlmRequest) where
    create-accepted :
        any (user_is user_id) w.db.users ≡ true
        → x.improvement_error (row_of a b) ≡ none
        → Improvements.create x (built a b) (called requests)
          ≡ (ok (row_of a b), stored requests (row_of a b))
    unfolding Improvements.create
    create-accepted user accepted = rw accepted (rw user refl)

    create-refused :
        (e : Exc)
        → x.improvement_error (row_of a b) ≡ some e
        → Improvements.create x (built a b) (called requests) ≡ (err e, called requests)
    unfolding Improvements.create
    create-refused e refused = rw refused refl

  improve-created :
      is_improve_request request ≡ true
      → Answers p.llm
      → (a : AnalyzeOutcome) × (b : RewriteOutcome) × (requests : List LlmRequest) × (improve x p
            user_id request w
          ≡ Improvements.create x (built a b) (called requests))
        × IsRewrite x p w request b.result
        × (2 ≤ length requests)
        × (length requests ≤ 4)
        × (plus a.totals b.totals ≡ spent p.llm (length w.llm_calls) requests)
  improve-created valid answers =
      let (a, rs, first, lo, hi, cost) = run_analyze_ends x p w request answers in
      let (b, ss, second, is_rewrite, lo2, hi2, cost2) =
        run_rewrite_ends x p (asked rs w) request a.planned_changes valid answers in
      let n = length w.llm_calls in
      let later = length-append w.llm_calls rs in
      let both = length-append rs ss in
      (
        a,
        b,
        rs ++ ss,
        improve-stages a b rs ss first second,
        is_rewrite,
        omega arith,
        omega arith,
        ap (λ t. plus t b.totals) cost
            ∙ ap (plus (spent p.llm n rs)) (cost2 ∙ ap (λ k. spent p.llm k ss) later)
            ∙ sym (spent-append p.llm n rs ss),
      )

  pub improve-stored :
      is_improve_request request ≡ true
      → any (user_is user_id) w.db.users ≡ true
      → Answers p.llm
      → Accepts
      → (a : AnalyzeOutcome) × (b : RewriteOutcome) × (requests : List LlmRequest) × (improve x p
            user_id request w
          ≡ (ok (row_of a b), stored requests (row_of a b)))
        × IsRewrite x p w request b.result
  improve-stored valid user answers accepts =
      let (a, b, requests, run, is_rewrite, _, _, _) = improve-created valid answers in
      (
        a,
        b,
        requests,
        run ∙ create-accepted a b requests user (accepts (row_of a b) refl),
        is_rewrite,
      )

  -- A row of an improvement that stored it or was refused by the database.
  abbrev pub IsEnd : List LlmRequest → Improvement → Type 0
  IsEnd requests r =
      ((x.improvement_error r ≡ none) × (improve x p user_id request w ≡ (ok r, stored requests r)))
      ⊎ ((e : Exc) × (x.improvement_error r ≡ some e)
          × (improve x p user_id request w ≡ (err e, called requests)))

  -- Whatever the model answers, as long as its calls answer and `json.loads` raises at most a
  -- JSONDecodeError at what they answer, the improvement of a valid request of a
  -- user who is there ends after two to four calls: with a row that it stores, or with the error that
  -- the database raises at the values of that row, and then no row changes. The row has a text, and
  -- is charged for exactly the tokens of the calls that were made, and for their cost as the column
  -- rounds it.
  pub improve_ends :
      is_improve_request request ≡ true
      → any (user_is user_id) w.db.users ≡ true
      → Answers p.llm
      → (r : Improvement) × (requests : List LlmRequest) × IsEnd requests r
        × (filled r.improved_text ≡ true)
        × (2 ≤ length requests)
        × (length requests ≤ 4)
        × (totals_of r ≡ kept_totals (spent p.llm (length w.llm_calls) requests))
  improve_ends valid user answers =
      let (a, b, requests, run, is_rewrite, lo, hi, cost) = improve-created valid answers in
      (
        row_of a b,
        requests,
        elim (Option-cases (x.improvement_error (row_of a b))) [
          | inl accepted ↦ inl (accepted, run ∙ create-accepted a b requests user accepted)
          | inr (e, refused) ↦ inr (e, refused, run ∙ create-refused a b requests e refused)
        ],
        IsRewrite-filled x p w request b.result valid is_rewrite,
        lo,
        hi,
        ap kept_totals cost,
      )
