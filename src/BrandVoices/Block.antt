-- ===== src/BrandVoices/Block.antt =====
-- `render_brand_voice_block` of backend/app/services/brand_voice_service.py
use magna_cms.Prelude.{
  Text, codes, get_or, not, Option, none, some, List, [], ◌∷◌, ◌++◌, map, select, is_empty, strip,
  join, if◌then◌else◌,
}
use magna_cms.Models.{BrandVoice}

-- `[t.strip() for t in texts if t and t.strip()]`
unfoldable pub stripped : List Text → List Text
stripped texts = map strip (select (λ t. not (is_empty (strip t))) texts)

abbrev pub text_lines : Text → Option Text → List Text
text_lines before none = []
text_lines before (some t) = if is_empty (strip t) then [] else (before ++ strip t) ∷ []

abbrev pub list_lines : Text → List Text → List Text
list_lines before [] = []
list_lines before (t ∷ ts) = (before ++ join (codes ", ") (t ∷ ts)) ∷ []

abbrev pub sample_lines : Option Text → List Text
sample_lines none = []
sample_lines (some t) =
    if is_empty (strip t)
    then []
    else codes "Sample copy to mimic the voice (do not copy verbatim):" ∷ strip t ∷ []

unfoldable pub render_brand_voice_block : BrandVoice → Text
unfolding stripped
render_brand_voice_block voice = join (codes "\n") (
    (codes "Brand voice: " ++ strip voice.name)
    ∷ (text_lines [] voice.description
        ++ (list_lines (codes "Tone: ") (stripped (get_or voice.tone_descriptors []))
            ++ (list_lines (codes "Banned phrases (do not use): ")
                  (stripped (get_or voice.banned_words []))
                ++ (text_lines (codes "Brand audience: ") voice.target_audience
                    ++ sample_lines voice.sample_text)))))
