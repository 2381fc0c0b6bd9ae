-- ===== src/Prompts/Email.antt =====
-- backend/app/prompts/email.py
use magna_cms.Prelude.{Text, codes, String, Option, ◌++◌}
use magna_cms.Prompts.Lines.{or_text, voice_block}

abbrev pub prompt_version : String
prompt_version = "email.v1"

unfoldable pub system_prompt : Text
system_prompt =
    codes "You are an expert email copywriter. You write short, useful, human-sounding "
    ++ codes "emails that get opened, read, and replied to — never marketing-speak, never "
    ++ codes "generic newsletter filler."

-- The user prompt of `build_prompt`; its system prompt is `system_prompt`.
unfoldable pub build_prompt : Text → Option Text → Option Text → Option Text → Text
build_prompt topic tone target_audience brand_voice_block =
    codes "Audience: "
    ++ or_text target_audience (codes "an interested professional reader")
    ++ codes "\n"
    ++ codes "Tone: "
    ++ or_text tone (codes "warm and direct")
    ++ codes "\n"
    ++ codes "Topic: "
    ++ topic
    ++ codes "\n"
    ++ voice_block brand_voice_block
    ++ codes "\n"
    ++ codes "Write a marketing email with the following structure:\n"
    ++ codes "- subject: 4-8 words. Specific enough to earn the open. No ALL CAPS, no "
    ++ codes "emojis, no clickbait punctuation.\n"
    ++ codes "- preview_text: 6-15 words. Reinforces the subject and extends the value. "
    ++ codes "Shown in the inbox preview after the subject.\n"
    ++ codes "- greeting: short and human. \"Hi there,\" is fine. Avoid \"Dear valued "
    ++ codes "customer\".\n"
    ++ codes "- body: 60-180 words. Open with the most concrete claim. Short paragraphs. "
    ++ codes "One specific reason the reader should care, then the smallest next step.\n"
    ++ codes "- cta_text: 2-5 words for the button label. Verb-first.\n"
    ++ codes "- sign_off: a short closer (e.g., '— The Magna team').\n\n"
    ++ codes "Quality rules:\n"
    ++ codes "- Use \"you\" where natural. Avoid clichés: \"in today's fast-paced "
    ++ codes "world\", \"leverage\", \"synergy\", \"game-changer\", \"delve into\", "
    ++ codes "\"navigate the complexities\".\n"
    ++ codes "- No em-dashes unless necessary. No emojis.\n\n"
    ++ codes "Return ONLY valid JSON matching the supplied schema, with no preamble or "
    ++ codes "markdown fencing."

unfoldable pub corrective_retry_instruction : Text
corrective_retry_instruction =
    codes "Your previous response was not valid JSON matching the required schema. "
    ++ codes "Return ONLY valid JSON with keys subject, preview_text, greeting, body, "
    ++ codes "cta_text, sign_off. No preamble, no markdown fencing, no explanation."
