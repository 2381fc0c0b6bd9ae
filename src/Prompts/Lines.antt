-- ===== src/Prompts/Lines.antt =====
-- The optional parts of a prompt.
use magna_cms.Prelude.{Text, codes, Option, none, some, ◌++◌, is_empty, rstrip, if◌then◌else◌}

-- `text or default`
abbrev pub or_text : Option Text → Text → Text
or_text none default = default
or_text (some t) default = if is_empty t then default else t

unfoldable pub voice_block : Option Text → Text
voice_block none = codes ""
voice_block (some block) =
    if is_empty block then codes "" else codes "\n" ++ rstrip block ++ codes "\n"
