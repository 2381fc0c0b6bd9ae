-- ===== src/Images/Service/Inserted.antt =====
-- The rows of a request for an image that returns.
use magna_cms.Prelude.{
  ◌+◌, ◌≡◌, ◌≢◌, sym, ap, ◌∙◌, Text, Bool, true, ◌&&◌, not, Option, none, some, List, [], ◌∷◌, ◌++◌,
  select, select-head, update_where, any, str_eq, is_empty, strip, Bool-cases, Option-cases, inl,
  inr, arith,
}
use magna_cms.Exceptions.{
  Exc, app, http_exception, request_validation_error, integrity_error, dbapi_error,
  multiple_results, other,
}
use magna_cms.Models.{ContentPiece, GeneratedImage, Db, Uuid, Cost, Time}
use magna_cms.Session.{
  World, Action, Result, ok, err, scalar_one_or_none, catch, handle_with, draw, >>=-eq-ok,
}
use magna_cms.Session.Keeps.{
  Keeps, Keeps-bind, Keeps-if, Keeps-catch, Keeps-scalar, Keeps-raise, Keeps-pure, keeps_rules,
  IsDb, same_db, call-IsDb, ok-pair,
}
use magna_cms.Content.Repository.{
  pieces, get_for_update, get_for_user, owned_piece, active, piece_is,
}
use magna_cms.Images.Prompt.{is_supported}
use magna_cms.Images.Storage.{store, key_of}
use magna_cms.Images.Repository
use magna_cms.Images.Repository.{
  images, refreshed, image_of, current_of, superseded, mark_others_not_current,
}
use magna_cms.Images.Service.{
  Studio, ImageResult, ImagePromptResult, generate_for_content, find_ready, build_image_prompt,
  record_image, require_ready, on_lock_error, on_image_error, call_image, new_image,
}

scalar-found :
    {A : Type 0} (rows : List A) (w : World) {a : A} {v : World}
    → scalar_one_or_none rows w ≡ (ok (some a), v)
    → rows ≡ a ∷ []
scalar-found [] w e = cc
scalar-found (b ∷ []) w e = ap (λ c. c ∷ []) cc
scalar-found (b ∷ c ∷ rows) w e = cc

uncaught :
    {A : Type 0} (h : Exc → Action A) (r : Result A × World) {a : A} {v : World}
    → ((e : Exc) (w : World) → h e w ≢ (ok a, v))
    → handle_with r h ≡ (ok a, v)
    → r ≡ (ok a, v)
uncaught h (ok a, w) never e = e
uncaught h (err x, w) never e = absurd (never x w e)

get_for_update-id :
    (lock_held : Uuid → Bool) (c user_id : Uuid) (w : World) {p : ContentPiece} {v : World}
    → get_for_update lock_held c user_id w ≡ (ok (some p), v)
    → p.id ≡ c
unfolding get_for_update get_for_user
get_for_update-id lock_held c user_id w {p} e =
    let here = λ (q : ContentPiece). owned_piece c user_id q && active q in
    elim (Bool-cases (any (λ q. lock_held q.id) (select here (pieces w)))) [
      | inl held ↦ let e' = rw held at e in cc
      | inr free ↦
          let rows = scalar-found (select here (pieces w)) w (rw free at e) in
          let head : here p ≡ true = select-head here (pieces w) rows in ground arith
    ]

get_for_update-IsDb :
    (db : Db) (lock_held : Uuid → Bool) (c user_id : Uuid)
    → Keeps (IsDb db) (get_for_update lock_held c user_id)
unfolding get_for_update get_for_user
get_for_update-IsDb db lock_held c user_id = record {
  at = λ w h.
      let rows = select (λ q. owned_piece c user_id q && active q) (pieces w) in
      elim (Bool-cases (any (λ q. lock_held q.id) rows)) [
        | inl held ↦ rw held h
        | inr free ↦ rw free ((Keeps-scalar {P = IsDb db} rows).at w h)
      ];
}

on_lock_error-ne-ok :
    (e : Exc) (w : World) {o : Option ContentPiece} {v : World} → on_lock_error e w ≢ (ok o, v)
unfolding on_lock_error
on_lock_error-ne-ok (dbapi_error s) w q = elim (Bool-cases (str_eq s "55P03")) [
  | inl b ↦ let q' = rw b at q in cc
  | inr b ↦ let q' = rw b at q in cc
]
on_lock_error-ne-ok (app a) w q = cc
on_lock_error-ne-ok (http_exception s d) w q = cc
on_lock_error-ne-ok (request_validation_error es) w q = cc
on_lock_error-ne-ok integrity_error w q = cc
on_lock_error-ne-ok multiple_results w q = cc
on_lock_error-ne-ok (other s) w q = cc

require_ready-ok :
    (o : Option ContentPiece) (w : World) {p : ContentPiece} {v : World}
    → require_ready o w ≡ (ok p, v)
    → o ≡ some p
unfolding require_ready
require_ready-ok none w e = cc
require_ready-ok (some q) w {p} {v} e = elim (Bool-cases (is_empty (strip q.rendered_text))) [
  | inl blank ↦ let e' = rw blank at e in cc
  | inr full ↦ let e' = rw full at e in cc
]

on_lock_error-IsDb : (db : Db) (e : Exc) → Keeps (IsDb db) (on_lock_error e)
unfolding on_lock_error
on_lock_error-IsDb db (dbapi_error s) =
    Keeps-if (str_eq s "55P03") _ _ (Keeps-raise _) (Keeps-raise _)
on_lock_error-IsDb db (app a) = Keeps-raise _
on_lock_error-IsDb db (http_exception s d) = Keeps-raise _
on_lock_error-IsDb db (request_validation_error es) = Keeps-raise _
on_lock_error-IsDb db integrity_error = Keeps-raise _
on_lock_error-IsDb db multiple_results = Keeps-raise _
on_lock_error-IsDb db (other s) = Keeps-raise _

require_ready-IsDb : (db : Db) (o : Option ContentPiece) → Keeps (IsDb db) (require_ready o)
unfolding require_ready
require_ready-IsDb db none = Keeps-raise _
require_ready-IsDb db (some p) =
    Keeps-if (is_empty (strip p.rendered_text)) _ _ (Keeps-raise _) (Keeps-pure p)

-- The rows of images when one was recorded: it comes after the older ones, and those that were
-- current for its piece are superseded.
abbrev pub superseding : Time → Uuid → List GeneratedImage → GeneratedImage → List GeneratedImage
superseding at id rows image = update_where (current_of id) (superseded at) rows ++ image ∷ []

module _ (s : Studio) (user_id c : Uuid) (style : Text) where
  find_ready-id :
      (w : World) {p : ContentPiece} {v : World}
      → find_ready s user_id c style w ≡ (ok p, v)
      → p.id ≡ c
  unfolding find_ready
  find_ready-id w e = elim (Bool-cases (is_supported style)) [
    | inr no_style ↦ let e' = rw no_style at e in cc
    | inl known ↦
        let (o, u, found, r) =
          >>=-eq-ok (catch (get_for_update s.lock_held c user_id) on_lock_error) require_ready w
            (rw known at e) in
        get_for_update-id s.lock_held c user_id w (
          uncaught on_lock_error (get_for_update s.lock_held c user_id w)
            (λ x y. on_lock_error-ne-ok x y) found
          ∙ ap (λ o. (ok o, u)) (require_ready-ok o u r))
  ]

  find_ready-IsDb : (db : Db) → Keeps (IsDb db) (find_ready s user_id c style)
  unfolding find_ready get_for_update get_for_user
  find_ready-IsDb db = Keeps-if (not (is_supported style)) _ _ (Keeps-raise _) (
      Keeps-bind (catch (get_for_update s.lock_held c user_id) on_lock_error) require_ready
        (Keeps-catch (get_for_update s.lock_held c user_id) on_lock_error
          (get_for_update-IsDb db s.lock_held c user_id) (on_lock_error-IsDb db))
        (require_ready-IsDb db))

  build-IsDb : (db : Db) (piece : ContentPiece) → Keeps (IsDb db) (build_image_prompt s piece style)
  unfolding build_image_prompt
  build-IsDb db piece = search (keeps_rules, call-IsDb)

  call-image-IsDb :
      (db : Db) (prompt : Text) → Keeps (IsDb db) (catch (call_image s prompt) (on_image_error s))
  unfolding on_image_error
  call-image-IsDb db prompt =
      Keeps-catch (call_image s prompt) (on_image_error s) (record { at = λ w h. h })
        (λ e. Keeps-raise _)

  recorded-rows :
      (piece : ContentPiece) (payload : ImagePromptResult) (cost : Cost) (result : ImageResult)
      (w : World) {image : GeneratedImage} {v : World}
      → record_image s piece style payload cost result w ≡ (ok image, v)
      → (v.db ≡ record w.db { generated_images = superseding w.started piece.id (images w) image })
        × (image.content_piece_id ≡ piece.id)
  unfolding record_image store draw mark_others_not_current Repository.create
  recorded-rows piece payload cost result w {image} {v} e =
      let row = refreshed (
        new_image s (s.uuid4 (w.draws + 1)) w.started piece style payload cost result
          (key_of s.hex w.draws)) in
      let kept = update_where (current_of piece.id) (superseded w.started) (images w) in
      elim (Option-cases (s.image_error row)) [
        | inr (refusal, refused) ↦ let e' = rw refused at e in cc
        | inl accepted ↦
            let e = rw accepted at e in
            elim (Bool-cases (any (current_of piece.id) kept)) [
              | inl dup ↦ let e' = rw dup at e in cc
              | inr free ↦
                  let e' = rw free at e in
                  elim (Bool-cases (any (piece_is piece.id) (pieces w))) [
                    | inr lost ↦ let e'' = rw lost at e' in cc
                    | inl there ↦
                        let (same, world) =
                          ok-pair {a = row} {b = image}
                            {w = record w {
                              draws = w.draws + 1 + 1;
                              db = record w.db { generated_images = kept ++ row ∷ [] };
                            }}
                            {v = v} (rw there at e') in
                        (
                          ap (λ (u : World). u.db) (sym world)
                              ∙ ap
                                  (λ i. record w.db {
                                    generated_images = superseding w.started piece.id (images w) i;
                                  })
                                  same,
                          ap (λ (i : GeneratedImage). i.content_piece_id) (sym same),
                        )
                  ]
            ]
      ]

  -- A request for an image that returns has stored its image as a row of the piece that was asked
  -- for, after the rows that were there, of which the piece's current ones are superseded.
  pub generate_for_content-inserted :
      (w : World) {image : GeneratedImage} {v : World}
      → generate_for_content s user_id c style w ≡ (ok image, v)
      → (at : Time) × (v.db ≡ record w.db { generated_images = superseding at c (images w) image })
        × (image.content_piece_id ≡ c)
  unfolding generate_for_content
  generate_for_content-inserted w {image} {v} e =
      let (piece, w1, e1, r1) = >>=-eq-ok (find_ready s user_id c style) _ w e in
      let ((payload, cost), w2, e2, r2) = >>=-eq-ok (build_image_prompt s piece style) _ w1 r1 in
      let (result, w3, e3, r3) = >>=-eq-ok (catch (call_image s _) (on_image_error s)) _ w2 r2 in
      let same = find_ready-id w e1 in
      let rows : w3.db ≡ w.db =
        same_db _ w2 (call-image-IsDb w2.db _) e3
        ∙ (same_db (build_image_prompt s piece style) w1 (build-IsDb w1.db piece) e2
            ∙ same_db (find_ready s user_id c style) w (find_ready-IsDb w.db) e1) in
      let (stored, of) = recorded-rows piece payload cost result w3 r3 in
      (
        w3.started,
        stored
            ∙ (ap
                  (λ (db : Db). record db {
                    generated_images = superseding w3.started piece.id db.generated_images image;
                  })
                  rows
                ∙ ap
                    (λ id. record w.db {
                      generated_images = superseding w3.started id (images w) image;
                    })
                    same),
        of ∙ same,
      )
