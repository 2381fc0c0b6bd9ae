-- ===== src/Schemas/Improvement.antt =====
-- backend/app/schemas/improvement.py: the request to improve a text, and the shape that the rewriter
-- answers in. How Pydantic reads a number as a float, to the text that writes it, is the parameter
-- `float_of`.
use magna_cms.Prelude.{
  ◌≡◌, refl, subst, String, Text, Bool, true, false, ◌&&◌, ◌||◌, not, Option, none, some, List, [],
  ◌∷◌, is_empty, strip,
}
use magna_cms.Models.{Json, number, str, obj, end, member, ImprovementGoal, audience_rewrite}
use magna_cms.Schemas.Values.{
  ◌>>=◌, checked, value_of, closed, text_of, texts_of, to_texts, items_of-to_items, within, filled,
  checked-eq, >>=-eq-some,
}
use magna_cms.Schemas.Content.{at_most}

pub record ImproveRequest : Type 0 where
  pub original_text : Text
  pub goal : ImprovementGoal
  pub new_audience : Option Text

abbrev pub is_audience_rewrite : ImprovementGoal → Bool
is_audience_rewrite audience_rewrite = true
is_audience_rewrite _ = false

abbrev pub names_audience : Option Text → Bool
names_audience none = false
names_audience (some t) = not (is_empty (strip t))

-- The bounds of the fields and `_audience_required_for_audience_rewrite`.
unfoldable pub is_improve_request : ImproveRequest → Bool
is_improve_request r =
    within 10 20_000 r.original_text
    && at_most 500 r.new_audience
    && (not (is_audience_rewrite r.goal) || names_audience r.new_audience)

pub record ImprovementChangesSummary : Type 0 where
  pub tone_shift : Text
  -- A float, by the text that writes it.
  pub length_change_pct : Text
  pub key_additions : List Text
  pub key_removals : List Text

pub record ImprovementResult : Type 0 where
  pub improved_text : Text
  pub explanation : List Text
  pub changes_summary : ImprovementChangesSummary

abbrev pub summary_fields : List String
summary_fields = "tone_shift" ∷ "length_change_pct" ∷ "key_additions" ∷ "key_removals" ∷ []

abbrev pub result_fields : List String
result_fields = "improved_text" ∷ "explanation" ∷ "changes_summary" ∷ []

-- `ImprovementChangesSummary.model_dump`
unfoldable pub summary_dump : ImprovementChangesSummary → Json
summary_dump s = obj (
    member "tone_shift" (str s.tone_shift) (
      member "length_change_pct" (number s.length_change_pct) (
        member "key_additions" (to_texts s.key_additions)
          (member "key_removals" (to_texts s.key_removals) end))))

module _ (float_of : Json → Option Text) where
  -- `ImprovementChangesSummary.model_validate`
  unfoldable pub summary_of : Json → Option ImprovementChangesSummary
  summary_of j = closed summary_fields j >>= λ ms.
      text_of (value_of "tone_shift" ms) >>= λ tone_shift.
      (value_of "length_change_pct" ms >>= float_of) >>= λ length_change_pct.
      texts_of (value_of "key_additions" ms) >>= λ key_additions.
      texts_of (value_of "key_removals" ms) >>= λ key_removals. some (record {
        tone_shift = tone_shift;
        length_change_pct = length_change_pct;
        key_additions = key_additions;
        key_removals = key_removals;
      })

  unfoldable pub result_of : Json → Option ImprovementResult
  unfolding summary_of
  result_of j = closed result_fields j >>= λ ms.
      text_of (value_of "improved_text" ms) >>= λ improved_text.
      texts_of (value_of "explanation" ms) >>= λ explanation.
      (value_of "changes_summary" ms >>= summary_of) >>= λ changes_summary. some (record {
        improved_text = improved_text;
        explanation = explanation;
        changes_summary = changes_summary;
      })

  -- `ImprovementResult.model_validate`
  unfoldable pub result_validate : Json → Option ImprovementResult
  unfolding result_of
  result_validate j = checked (λ r. filled r.improved_text) (result_of j)

  -- A summary whose number is read as itself is read again.
  pub summary_of-summary_dump :
      (s : ImprovementChangesSummary)
      → float_of (number s.length_change_pct) ≡ some s.length_change_pct
      → summary_of (summary_dump s) ≡ some s
  unfolding summary_of summary_dump
  summary_of-summary_dump s h =
      rw
        (
          h,
          items_of-to_items (λ j. text_of (some j)) str s.key_additions (λ t. refl),
          items_of-to_items (λ j. text_of (some j)) str s.key_removals (λ t. refl),
        )
        refl

  -- The number of a summary that was read is a float.
  abbrev pub IsFloat : Text → Type 0
  IsFloat t = float_of (number t) ≡ some t

  summary-IsFloat :
      (j : Json) {s : ImprovementChangesSummary}
      → ((k : Json) (t : Text) → float_of k ≡ some t → IsFloat t)
      → summary_of j ≡ some s
      → IsFloat s.length_change_pct
  unfolding summary_of
  summary-IsFloat j {s} floats e =
      let (ms, _, e1) = >>=-eq-some (closed summary_fields j) _ e in
      let (tone, _, e2) = >>=-eq-some (text_of (value_of "tone_shift" ms)) _ e1 in
      let (pct, read, e3) = >>=-eq-some (value_of "length_change_pct" ms >>= float_of) _ e2 in
      let (adds, _, e4) = >>=-eq-some (texts_of (value_of "key_additions" ms)) _ e3 in
      let (removals, _, e5) = >>=-eq-some (texts_of (value_of "key_removals" ms)) _ e4 in
      let (k, _, at) = >>=-eq-some (value_of "length_change_pct" ms) float_of read in
      let same : pct ≡ s.length_change_pct = cc in subst IsFloat same (floats k pct at)

  -- So is that of a result's summary.
  pub result-IsFloat :
      (j : Json) {r : ImprovementResult}
      → ((k : Json) (t : Text) → float_of k ≡ some t → IsFloat t)
      → result_validate j ≡ some r
      → IsFloat r.changes_summary.length_change_pct
  unfolding result_validate result_of
  result-IsFloat j {r} floats e =
      let e0 = checked-eq (λ q. filled q.improved_text) (result_of j) e in
      let (ms, _, e1) = >>=-eq-some (closed result_fields j) _ e0 in
      let (text, _, e2) = >>=-eq-some (text_of (value_of "improved_text" ms)) _ e1 in
      let (lines, _, e3) = >>=-eq-some (texts_of (value_of "explanation" ms)) _ e2 in
      let (s, read, e4) = >>=-eq-some (value_of "changes_summary" ms >>= summary_of) _ e3 in
      let (k, _, at) = >>=-eq-some (value_of "changes_summary" ms) summary_of read in
      let same : s ≡ r.changes_summary = cc in
      subst (λ q. IsFloat q.length_change_pct) same (summary-IsFloat k floats at)
