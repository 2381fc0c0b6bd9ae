-- ===== src/Images/Service/Refusals.antt =====
-- What the pipeline refuses before it calls a provider.
use magna_cms.Prelude.{◌≡◌, refl, Text, true, false, none, [], ◌∷◌, select}
use magna_cms.Exceptions.{Exc}
use magna_cms.Models.{ContentPiece, Uuid}
use magna_cms.Session.{World, err}
use magna_cms.Content.Repository.{pieces, piece_is, get_for_update}
use magna_cms.Content.Repository.Restore.{select-active}
use magna_cms.Images.Prompt.{is_supported}
use magna_cms.Images.Service.{
  Studio, generate_for_content, find_ready, on_lock_error, in_progress, unknown_style,
}

module _ (s : Studio) (content_id user_id : Uuid) (style : Text) (w : World) where
  refused :
      {e : Exc}
      → find_ready s user_id content_id style w ≡ (err e, w)
      → generate_for_content s user_id content_id style w ≡ (err e, w)
  unfolding generate_for_content
  refused f = rw f refl

  -- A style that is not supported is refused, whatever the piece is; nothing is read or changed,
  -- and no provider is called.
  generate_for_content-unknown_style :
      is_supported style ≡ false
      → generate_for_content s user_id content_id style w ≡ (err (unknown_style s style), w)
  unfolding find_ready
  generate_for_content-unknown_style h = refused (rw h refl)

  module _ (row : ContentPiece) where
    -- While another request holds the lock of the piece's row, a second request for an image in a
    -- known style of that piece of the user is refused with 409 IMAGE_GENERATION_IN_PROGRESS: no
    -- provider is called and no row changes.
    generate_for_content-locked :
        is_supported style ≡ true
        → select (piece_is content_id) (pieces w) ≡ row ∷ []
        → row.user_id ≡ user_id
        → row.deleted_at ≡ none
        → s.lock_held row.id ≡ true
        → generate_for_content s user_id content_id style w ≡ (err in_progress, w)
    unfolding find_ready get_for_update on_lock_error
    generate_for_content-locked sup e o d held =
        refused (rw (sup, select-active content_id user_id w row e o, d) (rw held refl))
