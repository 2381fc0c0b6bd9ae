-- ===== src/Seed/Again.antt =====
-- Running the seed a second time.
use magna_cms.Prelude.{◌≡◌, refl, sym, ap, ◌∙◌, subst, true, List, [], ◌∷◌, ◌++◌, select, all, Text}
use magna_cms.Models.{User, BrandVoice, ContentPiece, ContentType, GeneratedImage, Improvement, Db}
use magna_cms.Session.{World, Result, ok, err, >>=-eq-ok, settle, get_db_session}
use magna_cms.Session.Keeps.{ok-pair}
use magna_cms.Auth.Users.{email_is}
use magna_cms.Exceptions.{multiple_results}
use magna_cms.Images.Repository.{image_of}
use magna_cms.Seed.{
  ensure_image, find_image, image_or_new, Tools, demo_email, is_demo_voice, ensure_user,
  ensure_brand_voice, ensure_content_pieces, ensure_one_image_per_piece, ensure_one_improvement,
  seed_rows, seed, is_piece_of, has_topic, targets,
}
use magna_cms.Seed.Steps.{
  IsUser, ensure_user-made, ensure_user-again, IsVoice, ensure_brand_voice-IsVoice,
  ensure_brand_voice-again,
}
use magna_cms.Seed.Pieces.{ArePieces, ensure_pieces-made, ensure_pieces-again}
use magna_cms.Seed.Images.{AllHaveOne, AreImages, ensure_images-made, ensure_images-again}
use magna_cms.Seed.Improvements.{IsImproved, ensure_improvement-made, ensure_improvement-again}

module _ (t : Tools) where
  -- The rows of a finished seed.
  pub record IsSeeded (db : Db) : Type 0 where
    user : User
    voice : BrandVoice
    made : List ContentPiece
    improvement : Improvement
    is_user : IsUser t user db
    is_voice : IsVoice t user voice db
    are_pieces : ArePieces t user voice made db
    have_one : AllHaveOne db.generated_images made
    is_improved : IsImproved t user improvement db

  seed_rows-again : (w : World) → IsSeeded w.db → seed_rows t w ≡ (ok tt, w)
  unfolding seed_rows
  seed_rows-again w s =
      rw
        (
          ensure_user-again t s.user w s.is_user,
          ensure_brand_voice-again t s.user s.voice w s.is_voice,
          ensure_pieces-again t s.user s.voice s.made w s.are_pieces,
          ensure_images-again t s.user s.made w s.have_one,
          ensure_improvement-again t s.user s.improvement w s.is_improved,
        )
        refl

  -- What each step established, carried over the steps after it.
  IsSeeded-framed :
      (user : User) (voice : BrandVoice) (made : List ContentPiece) (improvement : Improvement)
      (d1 d2 d3 d4 d5 : Db)
      → IsUser t user d1
      → IsVoice t user voice d2
      → d2.users ≡ d1.users
      → ArePieces t user voice made d3
      → d3 ≡ record d2 { content_pieces = d3.content_pieces }
      → AreImages t user made d3 d4
      → IsImproved t user improvement d5
      → d5 ≡ record d4 { improvements = d5.improvements }
      → IsSeeded d5
  IsSeeded-framed user voice made improvement d1 d2 d3 d4 d5 u vo f2 ps f3 im r f5 = record {
    user = user;
    voice = voice;
    made = made;
    improvement = improvement;
    is_user =
        subst (λ users. select (email_is t.external demo_email) users ≡ user ∷ [])
          (sym (
            ap (λ (db : Db). db.users) f5
            ∙ (ap (λ (db : Db). db.users) im.frame ∙ (ap (λ (db : Db). db.users) f3 ∙ f2))))
          u;
    is_voice =
        subst (λ rows. select (is_demo_voice user.id) rows ≡ voice ∷ [])
          (sym (
            ap (λ (db : Db). db.brand_voices) f5
            ∙ (ap (λ (db : Db). db.brand_voices) im.frame ∙ ap (λ (db : Db). db.brand_voices) f3)))
          vo;
    are_pieces =
        subst
          (λ rows.
            (made ≡ select (is_piece_of user.id) rows)
            × (all (λ (target : ContentType × Text). has_topic made target.1) targets ≡ true))
          (sym
            (ap (λ (db : Db). db.content_pieces) f5 ∙ ap (λ (db : Db). db.content_pieces) im.frame))
          ps;
    have_one =
        subst (λ rows. AllHaveOne rows made) (sym (ap (λ (db : Db). db.generated_images) f5))
          im.all_one;
    is_improved = r;
  }

  seed_rows-IsSeeded :
      (w : World) {v : World}
      → t.external.citext_eq demo_email demo_email ≡ true
      → seed_rows t w ≡ (ok tt, v)
      → IsSeeded v.db
  unfolding seed_rows
  seed_rows-IsSeeded w {v} c e =
      let (user, w1, e1, r1) = >>=-eq-ok (ensure_user t) _ w e in
      let (voice, w2, e2, r2) = >>=-eq-ok (ensure_brand_voice t user) _ w1 r1 in
      let (made, w3, e3, r3) = >>=-eq-ok (ensure_content_pieces t user voice) _ w2 r2 in
      let (_, w4, e4, r4) = >>=-eq-ok (ensure_one_image_per_piece t user made) _ w3 r3 in
      let (improvement, w5, e5, r5) = >>=-eq-ok (ensure_one_improvement t user) _ w4 r4 in
      let (vo, f2) = ensure_brand_voice-IsVoice t user w1 e2 in
      let (ps, f3) = ensure_pieces-made t user voice w2 e3 in
      let (r, f5) = ensure_improvement-made t user w4 e5 in
      let (_, end) = ok-pair r5 in
      subst (λ (s : World). IsSeeded s.db) end
        (IsSeeded-framed user voice made improvement w1.db w2.db w3.db w4.db w5.db
          (ensure_user-made t w c e1) vo f2 ps f3 (ensure_images-made t user made w3 e4) r f5)

  committed-again :
      (r : Result (Unit {0}) × World) (w : World) {v : World}
      → t.external.citext_eq demo_email demo_email ≡ true
      → seed_rows t w ≡ r
      → settle r ≡ (ok tt, v)
      → seed t v ≡ (ok tt, v)
  unfolding seed get_db_session
  committed-again (err e, u) w c run s = cc
  committed-again (ok tt, u) w {v} c run s =
      let (_, world) = ok-pair s in
      let done : World = record u { committed = u.db } in
      subst (λ v. seed t v ≡ (ok tt, v)) world
        (ap settle (seed_rows-again done (seed_rows-IsSeeded w c run)))

  -- The seed is idempotent. Whatever rows it finds, if it returns, then a second run returns and
  -- changes nothing at all: no row, committed or not, and it reads no clock, makes no draw, hashes no
  -- password and calls no provider. CITEXT makes the demo address equal to itself.
  pub seed-seed :
      (w : World) {v : World}
      → t.external.citext_eq demo_email demo_email ≡ true
      → seed t w ≡ (ok tt, v)
      → seed t v ≡ (ok tt, v)
  unfolding seed get_db_session
  seed-seed w c e =
      committed-again (seed_rows t (record w { db = w.committed })) (record w { db = w.committed })
        c refl e

  -- The loop over the images meets a piece with two, after pieces with one.
  two_images-err :
      (user : User) (done : List ContentPiece) (piece : ContentPiece) (later : List ContentPiece)
      {i j : GeneratedImage} {rows : List GeneratedImage} (w : World)
      → AllHaveOne w.db.generated_images done
      → select (image_of piece.id) w.db.generated_images ≡ i ∷ j ∷ rows
      → ensure_one_image_per_piece t user (done ++ piece ∷ later) w ≡ (err multiple_results, w)
  unfolding ensure_one_image_per_piece ensure_image find_image image_or_new
  two_images-err user [] piece later w h two = rw two refl
  two_images-err user (p ∷ done) piece later w ((image, one), h) two =
      rw one (two_images-err user done piece later w h two)

  -- The rows of a seed whose user, voice and pieces are there, and one of whose pieces has two images
  -- or more, as after a second image was asked for from the dashboard: the seed does not return, but
  -- raises `MultipleResultsFound`, and no row is changed.
  pub seed-two_images :
      (user : User) (voice : BrandVoice) (done : List ContentPiece) (piece : ContentPiece)
      (later : List ContentPiece) {i j : GeneratedImage} {rows : List GeneratedImage} (w : World)
      → IsUser t user w.committed
      → IsVoice t user voice w.committed
      → ArePieces t user voice (done ++ piece ∷ later) w.committed
      → AllHaveOne w.committed.generated_images done
      → select (image_of piece.id) w.committed.generated_images ≡ i ∷ j ∷ rows
      → seed t w ≡ (err multiple_results, record w { db = w.committed })
  unfolding seed get_db_session seed_rows
  seed-two_images user voice done piece later w u vo ps h two =
      let start : World = record w { db = w.committed } in
      rw
        (
          ensure_user-again t user start u,
          ensure_brand_voice-again t user voice start vo,
          ensure_pieces-again t user voice (done ++ piece ∷ later) start ps,
          two_images-err user done piece later start h two,
        )
        refl
