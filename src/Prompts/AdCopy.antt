-- ===== src/Prompts/AdCopy.antt =====
-- backend/app/prompts/ad_copy.py
use magna_cms.Prelude.{Text, codes, String, Option, ◌++◌}
use magna_cms.Prompts.Lines.{or_text, voice_block}

abbrev pub prompt_version : String
prompt_version = "ad_copy.v1"

unfoldable pub system_prompt : Text
system_prompt =
    codes "You are an expert performance-marketing copywriter. You produce ad variants "
    ++ codes "that are specific, benefit-led, and ready to ship — never generic, never "
    ++ codes "bloated."

-- The user prompt of `build_prompt`; its system prompt is `system_prompt`.
unfoldable pub build_prompt : Text → Option Text → Option Text → Option Text → Text
build_prompt topic tone target_audience brand_voice_block =
    codes "Audience: "
    ++ or_text target_audience (codes "a paid-social audience scrolling on mobile")
    ++ codes "\n"
    ++ codes "Tone: "
    ++ or_text tone (codes "punchy and concrete")
    ++ codes "\n"
    ++ codes "Topic: "
    ++ topic
    ++ codes "\n"
    ++ voice_block brand_voice_block
    ++ codes "\n"
    ++ codes "Produce exactly three ad variants in a single JSON object with a `variants` "
    ++ codes "array. The three variants MUST have `format` values \"short\", \"medium\", "
    ++ codes "and \"long\" — one of each, no duplicates.\n"
    ++ codes "- short: headline up to 6 words; body up to 12 words; cta 2-3 words.\n"
    ++ codes "- medium: headline up to 8 words; body 12-25 words; cta 2-4 words.\n"
    ++ codes "- long: headline up to 12 words; body 25-60 words; cta 2-5 words.\n"
    ++ codes "`angle` must be one of: \"curiosity\", \"social_proof\", "
    ++ codes "\"transformation\", \"urgency\", \"problem_solution\". Pick the best fit "
    ++ codes "per variant.\n\n"
    ++ codes "Quality rules:\n"
    ++ codes "- Specific verbs. Concrete numbers when honest. Avoid clichés: "
    ++ codes "\"leverage\", \"synergy\", \"game-changer\", \"delve into\", \"navigate the "
    ++ codes "complexities\", \"in today's fast-paced world\".\n"
    ++ codes "- No em-dashes unless necessary. No emojis.\n\n"
    ++ codes "Return ONLY valid JSON matching the supplied schema, with no preamble or "
    ++ codes "markdown fencing."

unfoldable pub corrective_retry_instruction : Text
corrective_retry_instruction =
    codes "Your previous response was not valid JSON matching the required schema. "
    ++ codes "Return ONLY valid JSON shaped as {\"variants\": [{\"format\": "
    ++ codes "\"short\"|\"medium\"|\"long\", \"angle\": ..., \"headline\": ..., \"body\": "
    ++ codes "..., \"cta\": ...}, ...]} with one of each format. No preamble, no markdown "
    ++ codes "fencing, no explanation."
