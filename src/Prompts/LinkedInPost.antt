-- ===== src/Prompts/LinkedInPost.antt =====
-- backend/app/prompts/linkedin_post.py
use magna_cms.Prelude.{Text, codes, String, Option, ◌++◌}
use magna_cms.Prompts.Lines.{or_text, voice_block}

abbrev pub prompt_version : String
prompt_version = "linkedin_post.v1"

unfoldable pub system_prompt : Text
system_prompt =
    codes "You are an expert LinkedIn content writer. You produce posts that stop the "
    ++ codes "scroll: punchy hook, scannable body, one specific call to action, and a "
    ++ codes "small set of relevant hashtags. You never sound like a press release."

-- The user prompt of `build_prompt`; its system prompt is `system_prompt`.
unfoldable pub build_prompt : Text → Option Text → Option Text → Option Text → Text
build_prompt topic tone target_audience brand_voice_block =
    codes "Audience: "
    ++ or_text target_audience (codes "professionals on LinkedIn")
    ++ codes "\n"
    ++ codes "Tone: "
    ++ or_text tone (codes "direct and conversational")
    ++ codes "\n"
    ++ codes "Topic: "
    ++ topic
    ++ codes "\n"
    ++ voice_block brand_voice_block
    ++ codes "\n"
    ++ codes "Write a LinkedIn post with the following structure:\n"
    ++ codes "- hook: 1-2 sentences. A claim, contrarian take, or specific stat — "
    ++ codes "something that earns the next sentence.\n"
    ++ codes "- body: 60-180 words. Short paragraphs and/or a numbered list. Concrete "
    ++ codes "examples over abstractions. No fluff.\n"
    ++ codes "- cta: one direct call to action OR an open question that invites a "
    ++ codes "comment. Verb-first if it's a CTA.\n"
    ++ codes "- hashtags: 3-5 lowercase tags, no spaces, no `#` prefix (the client adds "
    ++ codes "it on render).\n\n"
    ++ codes "Quality rules:\n"
    ++ codes "- Write in second person (\"you\") when natural. Avoid clichés: \"in "
    ++ codes "today's fast-paced world\", \"leverage\", \"synergy\", \"game-changer\", "
    ++ codes "\"delve into\", \"navigate the complexities\".\n"
    ++ codes "- No em-dashes unless necessary. No emojis.\n\n"
    ++ codes "Return ONLY valid JSON matching the supplied schema, with no preamble or "
    ++ codes "markdown fencing."

unfoldable pub corrective_retry_instruction : Text
corrective_retry_instruction =
    codes "Your previous response was not valid JSON matching the required schema. "
    ++ codes "Return ONLY valid JSON with keys hook, body, cta, hashtags. No preamble, no "
    ++ codes "markdown fencing, no explanation."
