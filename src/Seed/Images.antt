-- ===== src/Seed/Images.antt =====
-- The images of the seed: every piece has exactly one afterwards.
use magna_cms.Prelude.{
  ◌≡◌, refl, sym, ap, ◌∙◌, subst, false, inl, inr, List, [], ◌∷◌, select, select-append,
  update_where, select-update_where, ◌==◌, ==_refl, ==_iff, Bool-cases, arith, if◌then◌else◌,
}
use magna_cms.Models.{User, ContentPiece, GeneratedImage, Db, Uuid, Time}
use magna_cms.Session.{World, ok, >>=-eq-ok}
use magna_cms.Session.Keeps.{ok-pair}
use magna_cms.Images.Repository.{images, image_of, current_of, superseded}
use magna_cms.Images.Service.Inserted.{superseding, generate_for_content-inserted}
use magna_cms.Seed.{
  Tools, studio, image_or_new, find_image, ensure_image, ensure_one_image_per_piece,
}
use magna_cms.Seed.Steps.{found_or_made}

-- The piece has one image, and so has every piece of a list.
abbrev pub HasOne : List GeneratedImage → ContentPiece → Type 0
HasOne rows piece = (image : GeneratedImage) × (select (image_of piece.id) rows ≡ image ∷ [])

abbrev pub AllHaveOne : List GeneratedImage → List ContentPiece → Type 0
AllHaveOne rows [] = Unit {0}
AllHaveOne rows (piece ∷ later) = HasOne rows piece × AllHaveOne rows later

-- A new image of a piece that had none leaves one of it.
select-superseding :
    (at : Time) (id : Uuid) (rows : List GeneratedImage) (image : GeneratedImage)
    → image.content_piece_id ≡ id
    → select (image_of id) rows ≡ []
    → select (image_of id) (superseding at id rows image) ≡ image ∷ []
select-superseding at id rows image of none_yet =
    select-append (image_of id) (update_where (current_of id) (superseded at) rows) (image ∷ [])
    ∙ rw
        (
          select-update_where (image_of id) (current_of id) (superseded at) rows (λ i. refl),
          none_yet,
          of,
          ==_refl id,
        )
        refl

-- A piece that has one keeps one.
HasOne-superseding :
    (at : Time) (id : Uuid) (rows : List GeneratedImage) (image : GeneratedImage)
    (piece : ContentPiece)
    → image.content_piece_id ≡ id
    → select (image_of id) rows ≡ []
    → HasOne rows piece
    → HasOne (superseding at id rows image) piece
HasOne-superseding at id rows image piece of none_yet (old, one) =
    elim (Bool-cases (piece.id == id)) [
      | inl same ↦
          let here : select (image_of id) rows ≡ old ∷ [] =
            subst (λ k. select (image_of k) rows ≡ old ∷ []) ((==_iff piece.id id).0 same) one in
          cc
      | inr other ↦
          let not_it : image_of piece.id image ≡ false = rw of (ground arith) in
          (
            (if current_of id old then superseded at old else old),
            select-append (image_of piece.id) (update_where (current_of id) (superseded at) rows)
                  (image ∷ [])
                ∙ rw
                    (
                      select-update_where (image_of piece.id) (current_of id) (superseded at) rows
                          (λ i. refl),
                      one,
                      not_it,
                    )
                    refl,
          )
    ]

module _ (t : Tools) (user : User) where
  -- The rows after the images of some pieces were ensured.
  pub record AreImages (done : List ContentPiece) (before after : Db) : Type 0 where
    pub all_one : AllHaveOne after.generated_images done
    pub kept :
        (piece : ContentPiece)
        → HasOne before.generated_images piece
        → HasOne after.generated_images piece
    pub frame : after ≡ record before { generated_images = after.generated_images }

  ensure_image-AreImages :
      (piece : ContentPiece) (w : World) {image : GeneratedImage} {v : World}
      → ensure_image t user piece w ≡ (ok image, v)
      → AreImages (piece ∷ []) w.db v.db
  unfolding ensure_image find_image image_or_new
  ensure_image-AreImages piece w {image} {v} e =
      elim (found_or_made (select (image_of piece.id) (images w)) (image_or_new t user piece) w
        (λ b. refl) e) [
          | inl (only, world) ↦
              subst (λ (s : World). AreImages (piece ∷ []) w.db s.db) world
                (record { all_one = ((image, only), tt); kept = λ p h. h; frame = refl })
          | inr (none_yet, made) ↦
              let (at, rows, of) =
                generate_for_content-inserted (studio t) user.id piece.id _ w made in
              subst (AreImages (piece ∷ []) w.db) (sym rows) (record {
                all_one =
                    ((image, select-superseding at piece.id (images w) image of none_yet), tt);
                kept = λ p h. HasOne-superseding at piece.id (images w) image p of none_yet h;
                frame = refl;
              })
        ]

  pub ensure_images-made :
      (made : List ContentPiece) (w : World) {v : World}
      → ensure_one_image_per_piece t user made w ≡ (ok tt, v)
      → AreImages made w.db v.db
  unfolding ensure_one_image_per_piece
  ensure_images-made [] w e =
      let (_, world) = ok-pair e in
      subst (λ (s : World). AreImages [] w.db s.db) world
        (record { all_one = tt; kept = λ p h. h; frame = refl })
  ensure_images-made (piece ∷ later) w {v} e =
      let (image, u, first, rest) = >>=-eq-ok (ensure_image t user piece) _ w e in
      let a = ensure_image-AreImages piece w first in
      let b = ensure_images-made later u rest in
      record {
        all_one = (b.kept piece a.all_one.0, b.all_one);
        kept = λ p h. b.kept p (a.kept p h);
        frame =
            b.frame
            ∙ ap (λ (db : Db). record db { generated_images = v.db.generated_images }) a.frame;
      }

  pub ensure_images-again :
      (made : List ContentPiece) (w : World)
      → AllHaveOne (images w) made
      → ensure_one_image_per_piece t user made w ≡ (ok tt, w)
  unfolding ensure_one_image_per_piece ensure_image find_image image_or_new
  ensure_images-again [] w h = refl
  ensure_images-again (piece ∷ later) w ((image, one), h) = rw one (ensure_images-again later w h)
