-- ===== src/Content/Routes/Owners.antt =====
-- What the dashboard's routes do with a content piece of another user.
use magna_cms.Prelude.{◌≡◌, ◌≢◌, refl, ◌∙◌, false, ◌&&◌, [], ◌∷◌, select, select-and, ◌==◌, arith}
use magna_cms.Models.{ContentPiece, Uuid}
use magna_cms.Session.{World, External, err}
use magna_cms.Content.Repository.{
  pieces, piece_is, owned_piece, active, get_for_user, get_for_user_include_deleted, soft_delete,
  delete_found,
}
use magna_cms.Content.Routes.{
  get_content, delete_content, restore_content, or_raise, content_not_found,
}

module _ (x : External) (current_user content_id : Uuid) (w : World) (row : ContentPiece) where
  select-owned_other :
      select (piece_is content_id) (pieces w) ≡ row ∷ []
      → row.user_id ≢ current_user
      → select (owned_piece content_id current_user) (pieces w) ≡ []
  select-owned_other e ne =
      let other : (row.user_id == current_user) ≡ false = ground arith in
      select-and (piece_is content_id) (λ p. p.user_id == current_user) (pieces w)
      ∙ rw (e, other) refl

  select-active_other :
      select (piece_is content_id) (pieces w) ≡ row ∷ []
      → row.user_id ≢ current_user
      → select (λ p. owned_piece content_id current_user p && active p) (pieces w) ≡ []
  select-active_other e ne =
      select-and (owned_piece content_id current_user) active (pieces w)
      ∙ rw (select-owned_other e ne) refl

  -- Where the id names a piece of another user, active or deleted: reading, deleting and restoring
  -- it are all refused as if there were no such piece, and change nothing.
  pub stranger_rejected :
      select (piece_is content_id) (pieces w) ≡ row ∷ []
      → row.user_id ≢ current_user
      → (get_content x current_user content_id w ≡ (err content_not_found, w))
        × (delete_content x current_user content_id w ≡ (err content_not_found, w))
        × (restore_content x current_user content_id w ≡ (err content_not_found, w))
  unfolding get_content delete_content restore_content get_for_user get_for_user_include_deleted
      soft_delete delete_found or_raise
  stranger_rejected e ne = (
    rw (select-active_other e ne) refl,
    rw (select-active_other e ne) refl,
    rw (select-owned_other e ne) refl,
  )
