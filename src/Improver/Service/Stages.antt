-- ===== src/Improver/Service/Stages.antt =====
-- What the two stages of the improver make of the answers of the model.
use magna_cms.Prelude.{
  ◌+◌, ◌≤◌, ◌≡◌, refl, Text, true, false, Option, none, some, List, [], ◌∷◌, ◌++◌, length,
  length-append, append_assoc, Option-cases, inl, inr, ◌⊎◌, subst, arith,
}
use magna_cms.Models.{Json}
use magna_cms.Session.{World, External, ok, LlmRequest, LlmResult}
use magna_cms.Session.Usage.{total_of, add_total, spent, spent-one, spent-two, Answers, asked}
use magna_cms.Schemas.Values.{checked-eq-some, filled}
use magna_cms.Schemas.Improvement.{
  ImproveRequest, ImprovementResult, is_improve_request, result_of, result_validate,
}
use magna_cms.Prompts.Improver.{corrective_analyze, corrective_rewrite}
use magna_cms.Improver.Service.{
  Reader, Analysis, AnalyzeOutcome, RewriteOutcome, run_analyze, settle_analyze, run_rewrite,
  settle_rewrite, settle_second, degrade, fallback, analyzed, rewritten, parse_analyze,
  parse_rewrite, analyze_request, rewrite_request, retry_of, rewrite_of,
}

-- A world after one more request has made one more call.
pub length-calls :
    (w : World) (r : LlmRequest) → length (w.llm_calls ++ r ∷ []) ≡ length w.llm_calls + 1
length-calls w r = length-append w.llm_calls (r ∷ [])

-- What the rewriter answers has a text.
pub rewrite_of-filled :
    (float_of : Json → Option Text) (j : Option Json) {r : ImprovementResult}
    → rewrite_of float_of j ≡ some r
    → filled r.improved_text ≡ true
unfolding rewrite_of result_validate
rewrite_of-filled float_of none e = cc
rewrite_of-filled float_of (some j) e =
    checked-eq-some (λ q. filled q.improved_text) (result_of float_of j) e

-- So has the fallback of a valid request.
pub fallback-filled :
    (request : ImproveRequest) (raw : Text)
    → is_improve_request request ≡ true
    → filled (fallback request raw).improved_text ≡ true
unfolding fallback is_improve_request
fallback-filled request [] h = ground arith
fallback-filled request (c ∷ t) h = ground arith

module _ (x : External) (p : Reader) (w : World) (request : ImproveRequest) where
  abbrev pub analyze_first : LlmRequest
  analyze_first = analyze_request request

  abbrev pub analyze_second : LlmResult → LlmRequest
  analyze_second answer = retry_of corrective_analyze analyze_first answer

  run_analyze-direct :
      (answer : LlmResult) (found : Analysis)
      → p.llm (length w.llm_calls) analyze_first ≡ ok answer
      → parse_analyze x p answer ≡ some found
      → run_analyze x p request w
        ≡ (ok (analyzed (some found) answer (total_of answer)), asked (analyze_first ∷ []) w)
  unfolding run_analyze settle_analyze
  run_analyze-direct answer found l e = rw (l, e) refl

  pub run_analyze-again :
      (answer again : LlmResult)
      → p.llm (length w.llm_calls) analyze_first ≡ ok answer
      → parse_analyze x p answer ≡ none
      → p.llm (length w.llm_calls + 1) (analyze_second answer) ≡ ok again
      → run_analyze x p request w ≡ (
        ok (analyzed (parse_analyze x p again) answer (add_total (total_of answer) again)),
        asked (analyze_first ∷ analyze_second answer ∷ []) w,
      )
  unfolding run_analyze settle_analyze
  run_analyze-again answer again l e m =
      rw (l, e, length-calls w analyze_first, m) (rw append_assoc refl)

  -- A result of the rewriter: read from an answer, or the fallback.
  abbrev pub IsRewrite : ImprovementResult → Type 0
  IsRewrite r =
      ((answer : LlmResult) × (parse_rewrite x p answer ≡ some r))
      ⊎ ((raw : Text) × (fallback request raw ≡ r))

  pub IsRewrite-filled :
      (r : ImprovementResult)
      → is_improve_request request ≡ true
      → IsRewrite r
      → filled r.improved_text ≡ true
  IsRewrite-filled r h (inl (answer, e)) =
      rewrite_of-filled p.float_of (p.json_loads answer.raw_text) e
  IsRewrite-filled r h (inr (raw, e)) =
      subst (λ q. filled q.improved_text ≡ true) e (fallback-filled request raw h)

  -- The first stage ends after one call or two.
  pub run_analyze_ends :
      Answers p.llm
      → (o : AnalyzeOutcome) × (requests : List LlmRequest) × (run_analyze x p request w
          ≡ (ok o, asked requests w))
        × (1 ≤ length requests)
        × (length requests ≤ 2)
        × (o.totals ≡ spent p.llm (length w.llm_calls) requests)
  run_analyze_ends answers =
      let n = length w.llm_calls in
      let (answer, l) = answers n analyze_first in
      let (again, m) = answers (n + 1) (analyze_second answer) in
      elim (Option-cases (parse_analyze x p answer)) [
        | inl e ↦ (
          _,
          analyze_first ∷ analyze_second answer ∷ [],
          run_analyze-again answer again l e m,
          omega arith,
          omega arith,
          spent-two p.llm n analyze_first (analyze_second answer) answer again l m,
        )
        | inr (found, e) ↦ (
          _,
          analyze_first ∷ [],
          run_analyze-direct answer found l e,
          omega arith,
          omega arith,
          spent-one p.llm n analyze_first answer l,
        )
      ]

  module _ (planned : List Text) where
    abbrev pub rewrite_first : LlmRequest
    rewrite_first = rewrite_request request planned

    abbrev pub rewrite_second : LlmResult → LlmRequest
    rewrite_second answer = retry_of corrective_rewrite rewrite_first answer

    run_rewrite-direct :
        (answer : LlmResult) (r : ImprovementResult)
        → p.llm (length w.llm_calls) rewrite_first ≡ ok answer
        → parse_rewrite x p answer ≡ some r
        → run_rewrite x p request planned w
          ≡ (ok (rewritten r false answer (total_of answer)), asked (rewrite_first ∷ []) w)
    unfolding run_rewrite settle_rewrite
    run_rewrite-direct answer r l e = rw (l, e) refl

    run_rewrite-again :
        (answer again : LlmResult) (r : ImprovementResult)
        → p.llm (length w.llm_calls) rewrite_first ≡ ok answer
        → parse_rewrite x p answer ≡ none
        → p.llm (length w.llm_calls + 1) (rewrite_second answer) ≡ ok again
        → parse_rewrite x p again ≡ some r
        → run_rewrite x p request planned w ≡ (
          ok (rewritten r false answer (add_total (total_of answer) again)),
          asked (rewrite_first ∷ rewrite_second answer ∷ []) w,
        )
    unfolding run_rewrite settle_rewrite settle_second
    run_rewrite-again answer again r l e m f =
        rw (l, e, length-calls w rewrite_first, m, f) (rw append_assoc refl)

    pub run_rewrite-degraded :
        (answer again : LlmResult)
        → is_improve_request request ≡ true
        → p.llm (length w.llm_calls) rewrite_first ≡ ok answer
        → parse_rewrite x p answer ≡ none
        → p.llm (length w.llm_calls + 1) (rewrite_second answer) ≡ ok again
        → parse_rewrite x p again ≡ none
        → run_rewrite x p request planned w ≡ (
          ok (
              rewritten
                (fallback request again.raw_text)
                true
                answer
                (add_total (total_of answer) again)),
          asked (rewrite_first ∷ rewrite_second answer ∷ []) w,
        )
    unfolding run_rewrite settle_rewrite settle_second degrade
    run_rewrite-degraded answer again h l e m f =
        rw (l, e, length-calls w rewrite_first, m, f, fallback-filled request again.raw_text h)
          (rw append_assoc refl)

    -- The second stage ends after one call or two.
    pub run_rewrite_ends :
        is_improve_request request ≡ true
        → Answers p.llm
        → (o : RewriteOutcome) × (requests : List LlmRequest) × (run_rewrite x p request planned w
            ≡ (ok o, asked requests w))
          × IsRewrite o.result
          × (1 ≤ length requests)
          × (length requests ≤ 2)
          × (o.totals ≡ spent p.llm (length w.llm_calls) requests)
    run_rewrite_ends h answers =
        let n = length w.llm_calls in
        let (answer, l) = answers n rewrite_first in
        let (again, m) = answers (n + 1) (rewrite_second answer) in
        let twice = spent-two p.llm n rewrite_first (rewrite_second answer) answer again l m in
        elim (Option-cases (parse_rewrite x p answer)) [
          | inl e ↦ elim (Option-cases (parse_rewrite x p again)) [
            | inl f ↦ (
              _,
              rewrite_first ∷ rewrite_second answer ∷ [],
              run_rewrite-degraded answer again h l e m f,
              inr (again.raw_text, refl),
              omega arith,
              omega arith,
              twice,
            )
            | inr (r, f) ↦ (
              _,
              rewrite_first ∷ rewrite_second answer ∷ [],
              run_rewrite-again answer again r l e m f,
              inl (again, f),
              omega arith,
              omega arith,
              twice,
            )
          ]
          | inr (r, e) ↦ (
            _,
            rewrite_first ∷ [],
            run_rewrite-direct answer r l e,
            inl (answer, e),
            omega arith,
            omega arith,
            spent-one p.llm n rewrite_first answer l,
          )
        ]
