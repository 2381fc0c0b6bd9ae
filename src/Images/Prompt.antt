-- ===== src/Images/Prompt.antt =====
-- backend/app/prompts/image_prompt_builder.py
use magna_cms.Prelude.{
  Text, codes, Bool, Option, none, some, List, [], ◌∷◌, ◌++◌, any, text_eq, strip, get_or,
  if◌then◌else◌,
}

-- A style's name and its visual cues, in the order of `_STYLE_GUIDE`.
unfoldable pub style_guide : List (Text × Text)
style_guide =
    (
      codes "photorealistic",
      codes "natural light, real-world materials, editorial photography composition, "
          ++ codes "shallow-depth-of-field on the primary subject, true colour grading with no "
          ++ codes "posterisation",
    )
    ∷ (
      codes "illustration",
      codes "hand-drawn or vector illustration, bold flat shapes, intentional negative "
          ++ codes "space, limited 3-4 colour palette with one accent hue, slight paper or "
          ++ codes "screen-print texture grain",
    )
    ∷ (
      codes "minimalist",
      codes "single subject on an uncluttered background, generous whitespace, two-tone "
          ++ codes "palette, geometric simplicity, no decorative or atmospheric elements, calm "
          ++ codes "and focused",
    )
    ∷ (
      codes "3d_render",
      codes "stylised 3D render, soft global illumination, smooth subsurface materials, "
          ++ codes "isometric or three-quarter vantage, pastel or jewel-tone palette with rounded "
          ++ codes "forms",
    )
    ∷ (
      codes "watercolor",
      codes "watercolour painting, visible brushwork and pigment bleeds, soft edges, paper "
          ++ codes "texture showing through, muted earthy palette, imperfect hand-painted feel",
    )
    ∷ (
      codes "cinematic",
      codes "dramatic chiaroscuro lighting, wide anamorphic framing, desaturated "
          ++ codes "highlights with one strong accent colour, subtle film-grain texture, "
          ++ codes "mood-driven composition with strong directional light",
    )
    ∷ []

-- The names of `SUPPORTED_STYLES`.
abbrev pub is_name : Text → Text × Text → Bool
is_name style (name, cues) = text_eq name style

unfoldable pub is_supported : Text → Bool
unfolding style_guide
is_supported style = any (is_name style) style_guide

abbrev cues_in : List (Text × Text) → Text → Option Text
cues_in [] style = none
cues_in ((name, cues) ∷ guide) style =
    let rest = cues_in guide style in if text_eq name style then some cues else rest

unfoldable pub system_prompt : Text
system_prompt =
    codes "You are an expert visual art director who turns marketing copy into concrete, "
    ++ codes "production-ready image prompts. You output strict JSON: a positive `prompt`, "
    ++ codes "a `negative_prompt` of things to avoid, and a short `style_summary` for the "
    ++ codes "dashboard.\n\n"
    ++ codes "Reject the obvious visual metaphor. For any software topic the cliché image "
    ++ codes "is 'a developer at a desk with monitors'; for any AI topic it is 'a glowing "
    ++ codes "brain or anthropomorphic robot'; for any hiring topic it is 'a corporate "
    ++ codes "handshake'. Your job is to find the SECOND-best metaphor — the one that "
    ++ codes "captures the substance of the piece without the visual trope. The reader "
    ++ codes "should look at the image and feel something specific about the content, not "
    ++ codes "generically 'tech.'\n\n"
    ++ codes "Never include on-image text, logos, or identifiable people unless the caller "
    ++ codes "explicitly asks."

-- The user prompt of a style with its cues.
unfoldable pub user_prompt : Text → Text → Text → Text
user_prompt style_key style_cues content_summary =
    codes "Style direction: **"
    ++ style_key
    ++ codes "** — "
    ++ style_cues
    ++ codes ".\n\n"
    ++ codes "Content to visualise:\n"
    ++ codes "---\n"
    ++ strip content_summary
    ++ codes "\n"
    ++ codes "---\n\n"
    ++ codes "Process (do this internally — do NOT include in output):\n  1. Brainstorm "
    ++ codes "three different visual metaphors that could communicate the substance of this "
    ++ codes "content. Note the most obvious / cliché one explicitly so you can REJECT "
    ++ codes "it.\n  2. Pick the strongest of the remaining two. Strongest means: a "
    ++ codes "concrete subject doing a concrete thing in a concrete place at a concrete "
    ++ codes "moment, not an abstract concept.\n  3. Map the style cues above to the picked "
    ++ codes "metaphor.\n\n"
    ++ codes "Output JSON requirements:\n\n  `prompt`: 40-90 words, single paragraph. Must "
    ++ codes "NAME each of:\n    • Subject — specific, not generic (e.g. 'a third-shift "
    ++ codes "on-call engineer mid-yawn', not 'a developer')\n    • Environment — specific "
    ++ codes "(e.g. 'a server room at 3am, lit by amber status LEDs and one overhead "
    ++ codes "emergency light', not 'an office')\n    • Composition / vantage (close-up "
    ++ codes "portrait, wide environmental shot, overhead flat-lay, low-angle hero, "
    ++ codes "profile, etc.)\n    • Lighting (named source — 'a single warm desk lamp', "
    ++ codes "'overcast skylight through dusty windows', 'cyan monitor glow', not just "
    ++ codes "'soft light')\n    • Palette (named — 'muted teals with a single amber "
    ++ codes "accent', 'paper-white with sepia tones', not just 'warm colours')\n\n  "
    ++ codes "`negative_prompt`: 4-8 comma-separated items. Include the universal "
    ++ codes "exclusions (text, watermark, logos, identifiable faces, signatures) PLUS 2-3 "
    ++ codes "cliché exclusions specific to the topic. Examples by topic: hiring → 'stock "
    ++ codes "handshake, generic corporate arrows'; AI → 'glowing blue brain, "
    ++ codes "anthropomorphic robot, circuit-board overlay'; software → 'developer at desk, "
    ++ codes "code on a giant monitor, hooded silhouette typing'.\n\n  `style_summary`: "
    ++ codes "4-10 words for the dashboard label (e.g. 'cinematic chiaroscuro, single amber "
    ++ codes "light').\n\n"
    ++ codes "Return ONLY valid JSON matching the supplied schema."

-- An unknown style falls back to `photorealistic`.
unfoldable pub build_prompt : Text → Text → Text × Text
unfolding is_supported style_guide
build_prompt content_summary style =
    let style_key = if is_supported style then style else codes "photorealistic" in
    (
      system_prompt,
      user_prompt style_key (get_or (cues_in style_guide style_key) []) content_summary,
    )
