-- ===== src/Prompts/Improver.antt =====
-- backend/app/prompts/improver.py
use magna_cms.Prelude.{
  Text, codes, Option, List, ◌++◌, map, select, not, is_empty, strip, join, if◌then◌else◌,
}
use magna_cms.Models.{ImprovementGoal, shorter, persuasive, formal, seo, audience_rewrite}
use magna_cms.Prompts.Lines.{or_text}

unfoldable pub goal_value : ImprovementGoal → Text
goal_value shorter = codes "shorter"
goal_value persuasive = codes "persuasive"
goal_value formal = codes "formal"
goal_value seo = codes "seo"
goal_value audience_rewrite = codes "audience_rewrite"

-- `_goal_hint`
unfoldable pub goal_hint : ImprovementGoal → Option Text → Text
goal_hint shorter new_audience =
    codes "Cut at least 25% of the original length while preserving every key claim."
goal_hint persuasive new_audience =
    codes "Make it more persuasive: lead with the strongest claim, use concrete "
    ++ codes "numbers and proof, and convert generic statements into specific verbs."
goal_hint formal new_audience =
    codes "Shift the register to formal business prose without becoming stiff: no "
    ++ codes "slang, no exclamation marks, no contractions."
goal_hint seo new_audience =
    codes "Optimize for organic search: ensure the primary keyword appears in the "
    ++ codes "first sentence and at least twice in the body, strengthen scannability with "
    ++ codes "short paragraphs, and surface a clear semantic structure."
goal_hint audience_rewrite new_audience =
    codes "Rewrite the same substance for this new audience: "
    ++ strip (or_text new_audience (codes "the new audience the caller will provide"))
    ++ codes ". Replace jargon and assumed context appropriate to the original audience "
    ++ codes "with language and concrete examples that fit the new one."

unfoldable pub analyze_system_prompt : Text
analyze_system_prompt =
    codes "You are an expert editor. You read marketing copy and produce a tight, "
    ++ codes "honest list of issues and a parallel list of planned changes the rewriter "
    ++ codes "will execute. You never rewrite the text yourself in this step — the "
    ++ codes "rewriter runs separately."

unfoldable pub rewrite_system_prompt : Text
rewrite_system_prompt =
    codes "You are an expert rewriter. You execute the supplied plan against the "
    ++ codes "original text and produce the improved version, plus a short explanation of "
    ++ codes "what you changed and a structured changes_summary."

unfoldable pub corrective_analyze : Text
corrective_analyze =
    codes "Your previous response was not valid JSON matching the required schema. "
    ++ codes "Return ONLY valid JSON with keys issues, planned_changes. No preamble, no "
    ++ codes "markdown fencing, no explanation."

unfoldable pub corrective_rewrite : Text
corrective_rewrite =
    codes "Your previous response was not valid JSON matching the required schema. "
    ++ codes "Return ONLY valid JSON with keys improved_text, explanation, "
    ++ codes "changes_summary. No preamble, no markdown fencing, no explanation."

-- The lines of the plan, without the blank changes.
abbrev pub plan_lines : List Text → List Text
plan_lines planned_changes =
    map (λ change. codes "- " ++ strip change)
      (select (λ change. not (is_empty (strip change))) planned_changes)

unfoldable pub plan_block : List Text → Text
plan_block planned_changes =
    let block = join (codes "\n") (plan_lines planned_changes) in
    if is_empty block
    then codes "- (no explicit plan provided; rewrite to match the goal)"
    else block

-- The user prompts of `build_analyze` and `build_rewrite`.
unfoldable pub build_analyze : Text → ImprovementGoal → Option Text → Text
build_analyze original_text goal new_audience =
    codes "Goal: "
    ++ goal_value goal
    ++ codes "\n"
    ++ goal_hint goal new_audience
    ++ codes "\n\n"
    ++ codes "Original text:\n"
    ++ codes "---\n"
    ++ strip original_text
    ++ codes "\n"
    ++ codes "---\n\n"
    ++ codes "Return JSON shaped as { \"issues\": [...], \"planned_changes\": [...] }:\n"
    ++ codes "- `issues`: 2-6 short bullets. Concrete. Things a reader could verify "
    ++ codes "against the original — no generic 'could be tighter' filler.\n"
    ++ codes "- `planned_changes`: 2-6 short bullets. One-to-one with the issues where "
    ++ codes "natural; each one names a specific edit the rewriter should make.\n\n"
    ++ codes "Return ONLY valid JSON. No preamble, no markdown fencing."

unfoldable pub build_rewrite : Text → ImprovementGoal → List Text → Option Text → Text
build_rewrite original_text goal planned_changes new_audience =
    codes "Goal: "
    ++ goal_value goal
    ++ codes "\n"
    ++ goal_hint goal new_audience
    ++ codes "\n\n"
    ++ codes "Planned changes:\n"
    ++ plan_block planned_changes
    ++ codes "\n\n"
    ++ codes "Original text:\n"
    ++ codes "---\n"
    ++ strip original_text
    ++ codes "\n"
    ++ codes "---\n\n"
    ++ codes "Return JSON shaped as:\n"
    ++ codes "{\n  \"improved_text\": \"...\",\n  \"explanation\": [\"...\", ...],\n  "
    ++ codes "\"changes_summary\": {\n    \"tone_shift\": \"...\",\n    "
    ++ codes "\"length_change_pct\": <number>,\n    \"key_additions\": [\"...\"],\n    "
    ++ codes "\"key_removals\": [\"...\"]\n  }\n"
    ++ codes "}\n\n"
    ++ codes "Quality rules:\n"
    ++ codes "- `improved_text`: full rewritten copy. Markdown formatting OK if the "
    ++ codes "original used it.\n"
    ++ codes "- `explanation`: 2-5 bullets a user could read to understand what you did.\n"
    ++ codes "- `length_change_pct`: word-count change vs. the original, signed (-32 = "
    ++ codes "32% shorter).\n"
    ++ codes "- No clichés: avoid \"leverage\", \"synergy\", \"game-changer\", \"delve "
    ++ codes "into\", \"navigate the complexities\", \"in today's fast-paced world\".\n"
    ++ codes "- No em-dashes unless necessary. No emojis.\n\n"
    ++ codes "Return ONLY valid JSON. No preamble, no markdown fencing."
