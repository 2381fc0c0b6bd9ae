-- ===== src/Prompts/BlogPost.antt =====
-- backend/app/prompts/blog_post.py
use magna_cms.Prelude.{Text, codes, String, Option, ◌++◌}
use magna_cms.Prompts.Lines.{or_text, voice_block}

abbrev pub prompt_version : String
prompt_version = "blog_post.v1"

unfoldable pub system_prompt : Text
system_prompt =
    codes "You are an expert content strategist and writer. You produce "
    ++ codes "publication-ready blog posts that rank on search and read like a human "
    ++ codes "wrote them — never AI-generic."

-- The user prompt of `build_prompt`; its system prompt is `system_prompt`.
unfoldable pub build_prompt : Text → Option Text → Option Text → Option Text → Text
build_prompt topic tone target_audience brand_voice_block =
    codes "Audience: "
    ++ or_text target_audience (codes "general business readers")
    ++ codes "\n"
    ++ codes "Tone: "
    ++ or_text tone (codes "informative and direct")
    ++ codes "\n"
    ++ codes "Topic: "
    ++ topic
    ++ codes "\n"
    ++ voice_block brand_voice_block
    ++ codes "\n"
    ++ codes "Write a blog post following these requirements:\n"
    ++ codes "- H1 title, max 12 words, includes the primary keyword\n"
    ++ codes "- Meta description under 160 characters\n"
    ++ codes "- Opening hook (1-2 paragraphs) that creates curiosity\n"
    ++ codes "- 3-5 H2 sections, each 150-250 words\n"
    ++ codes "- At least one bulleted list inside a section\n"
    ++ codes "- Closing paragraph with a clear takeaway and CTA\n"
    ++ codes "- Total length 800-1200 words\n"
    ++ codes "- Suggested tags: 3-5 SEO-relevant tags\n\n"
    ++ codes "Quality rules:\n"
    ++ codes "- Short paragraphs. Use \"you\". Concrete examples over abstractions.\n"
    ++ codes "- No clichés: avoid \"in today's fast-paced world\", \"leverage\", "
    ++ codes "\"synergy\", \"game-changer\", \"delve into\", \"navigate the "
    ++ codes "complexities\".\n"
    ++ codes "- No em-dashes unless necessary. No emojis.\n\n"
    ++ codes "Return ONLY valid JSON matching the supplied schema, with no preamble or "
    ++ codes "markdown fencing."

unfoldable pub corrective_retry_instruction : Text
corrective_retry_instruction =
    codes "Your previous response was not valid JSON matching the required schema. "
    ++ codes "Return ONLY valid JSON with no preamble, no markdown fencing, and no "
    ++ codes "explanation."
