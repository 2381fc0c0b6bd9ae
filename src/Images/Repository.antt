-- ===== src/Images/Repository.antt =====
-- backend/app/repositories/image_repository.py
use magna_cms.Prelude.{
  Bool, false, ◌&&◌, Option, none, some, List, [], ◌∷◌, ◌++◌, select, update_where, any, not, leb,
  order_by, ◌==◌, if◌then◌else◌,
}
use magna_cms.Exceptions.{Exc, integrity_error}
use magna_cms.Models.{GeneratedImage, Uuid, Time, numeric_10_6}
use magna_cms.Session.{
  World, Action, pure, raise, gets, modify_db, scalar_one_or_none, transaction_time, ◌>>=◌, ◌>>◌,
}
use magna_cms.Content.Repository.{piece_is}

abbrev pub images : World → List GeneratedImage
images w = w.db.generated_images

abbrev pub set_images : List GeneratedImage → Action (Unit {0})
set_images rows = modify_db (λ db. record db { generated_images = rows })

abbrev pub image_of : Uuid → GeneratedImage → Bool
image_of content_piece_id i = i.content_piece_id == content_piece_id

abbrev pub current_of : Uuid → GeneratedImage → Bool
current_of content_piece_id i = image_of content_piece_id i && i.is_current

-- `SET is_current = false`, with `updated_at`'s `onupdate`.
abbrev pub superseded : Time → GeneratedImage → GeneratedImage
superseded at i = record i { is_current = false; updated_at = at }

-- What the refresh reads of a row that was given these values.
abbrev pub refreshed : GeneratedImage → GeneratedImage
refreshed image = record image { cost_usd = numeric_10_6 image.cost_usd }

abbrev pub insert : GeneratedImage → Action GeneratedImage
insert image w =
    if image.is_current && any (current_of image.content_piece_id) (images w)
    then raise integrity_error w
    else if not (any (piece_is image.content_piece_id) w.db.content_pieces)
    then raise integrity_error w
    else (do set_images (images w ++ image ∷ []); pure image) w

abbrev pub unless_refused : Option Exc → GeneratedImage → Action GeneratedImage
unless_refused none row = insert row
unless_refused (some e) row = raise e

-- The flush checks the values, as the database does, and then the partial unique index and the
-- foreign key.
unfoldable pub create : (GeneratedImage → Option Exc) → GeneratedImage → Action GeneratedImage
create image_error image = unless_refused (image_error (refreshed image)) (refreshed image)

unfoldable pub mark_others_not_current : Uuid → Action (Unit {0})
mark_others_not_current content_piece_id = do
  at ← transaction_time
  rows ← gets images
  set_images (update_where (current_of content_piece_id) (superseded at) rows)

unfoldable pub list_for_content : Uuid → Action (List GeneratedImage)
list_for_content content_piece_id = gets (λ w.
    order_by (λ i j. leb j.created_at i.created_at) (select (image_of content_piece_id) (images w)))

unfoldable pub get_current_for_content : Uuid → Action (Option GeneratedImage)
get_current_for_content content_piece_id w =
    scalar_one_or_none (select (current_of content_piece_id) (images w)) w
