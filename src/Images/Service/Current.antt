-- ===== src/Images/Service/Current.antt =====
-- What the pipeline leaves behind when the providers answer: one current image, the new one.
use magna_cms.Prelude.{
  ◌+◌, ◌≡◌, ◌≢◌, refl, ◌∙◌, Text, true, false, none, some, List, [], ◌∷◌, ◌++◌, arith, select,
  select-append, update_where, update_where-eq-map, map, ap, if◌then◌else◌, ◌&&◌,
  select-update_where_other, select-update_where_off, length, any, any-eq-false_of_select,
  any_of_select, is_empty, strip, ◌==◌, ==_refl, append-nil,
}
use magna_cms.Models.{ContentPiece, GeneratedImage, Uuid, Cost}
use magna_cms.Session.{World, ok, LlmResult, draw}
use magna_cms.Content.Repository.{pieces, piece_is, get_for_update, get_for_user}
use magna_cms.Content.Repository.Restore.{select-active}
use magna_cms.Images.Prompt.{is_supported}
use magna_cms.Images.Storage.{store, key_of}
use magna_cms.Images.Repository
use magna_cms.Images.Repository.{
  images, image_of, current_of, refreshed, superseded, mark_others_not_current,
  get_current_for_content,
}
use magna_cms.Images.Service.{
  Studio, ImageResult, ImagePromptResult, generate_for_content, find_ready, build_image_prompt,
  record_image, require_ready, prompt_request, payload_of, positive_prompt, default_image_quality,
  new_image,
}

module _ (s : Studio) (content_id user_id : Uuid) (style : Text) (w : World)
    (row : ContentPiece) where
  find_ready_lem :
      is_supported style ≡ true
      → select (piece_is content_id) (pieces w) ≡ row ∷ []
      → row.user_id ≡ user_id
      → row.deleted_at ≡ none
      → s.lock_held row.id ≡ false
      → is_empty (strip row.rendered_text) ≡ false
      → find_ready s user_id content_id style w ≡ (ok row, w)
  unfolding find_ready get_for_update get_for_user require_ready
  find_ready_lem sup e o d free full =
      rw (sup, select-active content_id user_id w row e o, d) (rw (free, full) refl)

  -- The rows after the older images are superseded.
  abbrev kept_images : List GeneratedImage
  kept_images = update_where (current_of row.id) (superseded w.started) (images w)

  no_current : select (current_of row.id) kept_images ≡ []
  no_current =
      select-update_where_off (current_of row.id) (superseded w.started) (images w)
        (λ i. ground arith)

  -- The image that the answers of the providers make.
  abbrev made : ImagePromptResult → Cost → ImageResult → GeneratedImage
  made payload cost image = refreshed (
      new_image s (s.uuid4 (w.draws + 1)) w.started row style payload cost image
        (key_of s.hex w.draws))

  abbrev recorded : GeneratedImage → World
  recorded image = record w {
    draws = w.draws + 1 + 1;
    db = record w.db { generated_images = kept_images ++ image ∷ [] };
  }

  record_image_lem :
      (payload : ImagePromptResult) (cost : Cost) (image : ImageResult)
      → any (piece_is row.id) (pieces w) ≡ true
      → s.image_error (made payload cost image) ≡ none
      → record_image s row style payload cost image w
        ≡ (ok (made payload cost image), recorded (made payload cost image))
  unfolding record_image store draw mark_others_not_current Repository.create
  record_image_lem payload cost image there accepted =
      rw accepted
        (rw (any-eq-false_of_select (current_of row.id) kept_images no_current, there) refl)

  get_current-recorded :
      (image : GeneratedImage)
      → image.content_piece_id ≡ row.id
      → image.is_current ≡ true
      → get_current_for_content row.id (recorded image) ≡ (ok (some image), recorded image)
  unfolding get_current_for_content
  get_current-recorded image of c =
      rw
        (
          select-append (current_of row.id) kept_images (image ∷ []),
          no_current,
          of,
          c,
          ==_refl row.id,
        )
        refl

  rows-recorded :
      (image : GeneratedImage)
      → images (recorded image)
        ≡ map
            (λ i.
              if i.content_piece_id == row.id && i.is_current
              then record i { is_current = false; updated_at = w.started }
              else i)
            (images w)
          ++ image ∷ []
  rows-recorded image =
      ap (λ rows. rows ++ image ∷ [])
        (update_where-eq-map (current_of row.id) (superseded w.started) (images w))

  others-recorded :
      (image : GeneratedImage) (other : Uuid)
      → image.content_piece_id ≡ row.id
      → other ≢ row.id
      → select (image_of other) (images (recorded image)) ≡ select (image_of other) (images w)
  others-recorded image other of ne =
      let not_it : (row.id == other) ≡ false = ground arith in
      select-append (image_of other) kept_images (image ∷ [])
      ∙ rw (of, not_it, append-nil)
          (select-update_where_other (image_of other) (current_of row.id) _ (images w)
            (λ i h. ground arith) (λ i. refl))

module _ (s : Studio) (content_id user_id : Uuid) (style : Text) (w : World)
    (row : ContentPiece) where
  -- The world after the calls of the two providers.
  abbrev after_calls : ImagePromptResult → World
  after_calls payload = record w {
    llm_calls = w.llm_calls ++ prompt_request row style ∷ [];
    image_calls = w.image_calls ++ positive_prompt payload ∷ [];
  }

  generate_for_content_lem :
      (answer : LlmResult) (image : ImageResult)
      → find_ready s user_id content_id style w ≡ (ok row, w)
      → any (piece_is row.id) (pieces w) ≡ true
      → s.llm (length w.llm_calls) (prompt_request row style) ≡ ok answer
      → s.image
          (length w.image_calls)
          (positive_prompt (payload_of s row style answer))
          (default_image_quality s.openai_image_quality)
        ≡ ok image
      → generate_for_content s user_id content_id style w
        ≡ record_image s row style
            (payload_of s row style answer)
            answer.cost_usd
            image
            (after_calls (payload_of s row style answer))
  unfolding generate_for_content build_image_prompt
  generate_for_content_lem answer image f there l i = rw (f, l, i) refl

  -- An owner asks for an image in a known style of an active piece with text, whose row no other
  -- transaction holds, both providers answer, and the database accepts the values of the new row.
  -- Then, whatever the model's answer says, be it a valid prompt or not, the request succeeds; the
  -- image it returns is the piece's only current image, and is stored after all older images, which
  -- are as they were but for the piece's current ones: these are no longer current, and their
  -- `updated_at` is the time of the transaction. Those of other pieces are as they were.
  pub generate_for_content-current :
      (answer : LlmResult) (image : ImageResult)
      → is_supported style ≡ true
      → select (piece_is content_id) (pieces w) ≡ row ∷ []
      → row.user_id ≡ user_id
      → row.deleted_at ≡ none
      → s.lock_held row.id ≡ false
      → is_empty (strip row.rendered_text) ≡ false
      → s.llm (length w.llm_calls) (prompt_request row style) ≡ ok answer
      → s.image
          (length w.image_calls)
          (positive_prompt (payload_of s row style answer))
          (default_image_quality s.openai_image_quality)
        ≡ ok image
      → s.image_error (
          made s content_id user_id style
            (after_calls (payload_of s row style answer))
            row
            (payload_of s row style answer)
            answer.cost_usd
            image)
        ≡ none
      → (made_image : GeneratedImage) × (v : World) × (generate_for_content s user_id content_id
            style w
          ≡ (ok made_image, v))
        × (get_current_for_content row.id v ≡ (ok (some made_image), v))
        × (images v
            ≡ map
                (λ i.
                  if i.content_piece_id == row.id && i.is_current
                  then record i { is_current = false; updated_at = w.started }
                  else i)
                (images w)
              ++ made_image ∷ [])
        × ((other : Uuid)
            → other ≢ row.id
            → select (image_of other) (images v) ≡ select (image_of other) (images w))
  generate_for_content-current answer image sup e o d free full l i accepted =
      let payload = payload_of s row style answer in
      let u = after_calls payload in
      let there =
        any_of_select (piece_is content_id) (piece_is row.id) (pieces w) e (==_refl row.id) in
      let result = made s content_id user_id style u row payload answer.cost_usd image in
      (
        result,
        recorded s content_id user_id style u row result,
        generate_for_content_lem answer image
              (find_ready_lem s content_id user_id style w row sup e o d free full) there l i
            ∙ record_image_lem s content_id user_id style u row payload answer.cost_usd image there
                accepted,
        get_current-recorded s content_id user_id style u row result refl refl,
        rows-recorded s content_id user_id style u row result,
        λ other ne. others-recorded s content_id user_id style u row result other refl ne,
      )
