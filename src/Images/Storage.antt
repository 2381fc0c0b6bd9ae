-- ===== src/Images/Storage.antt =====
-- backend/app/services/image_storage.py. Writing the file is left out.
use magna_cms.Prelude.{
  ℕ, Text, codes, ◌++◌, drop_while, drop_while_end, is_empty, ◌==◌, if◌then◌else◌,
}
use magna_cms.Session.{Action, pure, draw, ◌>>=◌}

-- The key of a file with the default extension; `hex` is `uuid4().hex` of the n-th draw.
abbrev pub key_of : (ℕ → Text) → ℕ → Text
key_of hex n = hex n ++ codes "." ++ drop_while (λ c. c == b'.') (codes "png")

-- `LocalImageStorage.store`
unfoldable pub store : (ℕ → Text) → Action Text
unfolding draw
store hex = do n ← draw; pure (key_of hex n)

-- `public_url_for`, with the base URL of the constructor.
unfoldable pub public_url_for : Text → Text → Text
public_url_for base_url key =
    let base = drop_while_end (λ c. c == b'/') base_url in
    if is_empty base then key else base ++ codes "/" ++ key
