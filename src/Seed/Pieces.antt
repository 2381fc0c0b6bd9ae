-- ===== src/Seed/Pieces.antt =====
-- The pieces of the seed: every target has one afterwards, and nothing is generated again.
use magna_cms.Prelude.{
  ℕ, ◌+◌, ◌≡◌, refl, sym, ap, ◌∙◌, subst, Text, true, ◌&&◌, inl, inr, Option, none, some, List, [],
  ◌∷◌, ◌++◌, select, select-append, any, any-append, all, text_eq, text_eq_refl, Bool-cases,
  Option-cases, ==_refl, arith,
}
use magna_cms.Models.{User, BrandVoice, ContentPiece, ContentType, Db, Uuid, Json}
use magna_cms.Session.{
  World, External, Result, ok, LlmRequest, LlmResult, call_llm, draw, >>=-eq-ok,
}
use magna_cms.Session.Keeps.{Keeps, keeps_rules, IsDb, same_db, call-IsDb, ok-pair}
use magna_cms.Session.Usage.{Totals}
use magna_cms.Auth.Users.{user_is}
use magna_cms.Content.Repository as Repository
use magna_cms.Content.Repository.{pieces, refreshed, active, voice_exists}
use magna_cms.Content.Service as Content
use magna_cms.Content.Service.{
  maybe_brand_voice_block, block_of, settle_outcome, persist, ParseOutcome, first_request,
  new_piece,
}
use magna_cms.Content.Routes.Readable.{block-Keeps}
use magna_cms.Schemas.Content.{GenerateRequest, ContentResult}
use magna_cms.Providers.Mock as Mock
use magna_cms.Seed.{
  Tools, is_piece_of, has_topic, generate_piece, create_missing, ensure_content_pieces, targets,
  request_for,
}

module _ (x : External) (llm : ℕ → LlmRequest → Result LlmResult)
    (json_loads : Text → Option Json) where
  settle-IsDb :
      (db : Db) (t : ContentType) (first : LlmRequest) (answer : LlmResult)
      (o : Option ContentResult)
      → Keeps (IsDb db) (settle_outcome x llm json_loads t first answer o)
  unfolding settle_outcome
  settle-IsDb db t first answer none = search (keeps_rules, call-IsDb)
  settle-IsDb db t first answer (some r) = search keeps_rules

  persisted :
      (user_id : Uuid) (request : GenerateRequest) (first : LlmRequest) (answer : LlmResult)
      (outcome : ParseOutcome) (totals : Totals) (w : World) {piece : ContentPiece} {v : World}
      → persist x llm json_loads user_id request first answer outcome totals w ≡ (ok piece, v)
      → (v.db ≡ record w.db { content_pieces = pieces w ++ piece ∷ [] })
        × (piece.user_id ≡ user_id)
        × (piece.topic ≡ request.topic)
        × (piece.deleted_at ≡ none)
  unfolding persist draw Repository.create
  persisted user_id request first answer outcome totals w {piece} {v} e =
      let row =
        refreshed
          (new_piece (x.uuid4 w.draws) w.started user_id request first answer outcome totals) in
      elim (Option-cases (x.piece_error row)) [
        | inr (refusal, refused) ↦ let e' = rw refused at e in cc
        | inl accepted ↦
            let e = rw accepted at e in
            elim (Bool-cases (
              any (user_is user_id) w.db.users
              && voice_exists request.brand_voice_id w.db.brand_voices)) [
                | inl there ↦
                    let (same, world) =
                      ok-pair {a = row} {b = piece}
                        {w = record w {
                          draws = w.draws + 1;
                          db = record w.db { content_pieces = pieces w ++ row ∷ [] };
                        }}
                        {v = v} (rw there at e) in
                    (
                      ap (λ (s : World). s.db) (sym world)
                          ∙ ap (λ p. record w.db { content_pieces = pieces w ++ p ∷ [] }) same,
                      ap (λ (p : ContentPiece). p.user_id) (sym same),
                      ap (λ (p : ContentPiece). p.topic) (sym same),
                      ap (λ (p : ContentPiece). p.deleted_at) (sym same),
                    )
                | inr lost ↦ let e' = rw lost at e in cc
              ]
      ]

  -- A generation that returns has stored its piece, and nothing else.
  generated :
      (user_id : Uuid) (request : GenerateRequest) (w : World) {piece : ContentPiece} {v : World}
      → Content.generate x llm json_loads user_id request w ≡ (ok piece, v)
      → (v.db ≡ record w.db { content_pieces = pieces w ++ piece ∷ [] })
        × (piece.user_id ≡ user_id)
        × (piece.topic ≡ request.topic)
        × (piece.deleted_at ≡ none)
  unfolding Content.generate
  generated user_id request w {piece} {v} e =
      let (block, w1, e1, r1) =
        >>=-eq-ok (maybe_brand_voice_block user_id request.brand_voice_id) _ w e in
      let first = first_request request block in
      let (answer, w2, e2, r2) = >>=-eq-ok (call_llm llm first) _ w1 r1 in
      let ((outcome, totals), w3, e3, r3) =
        >>=-eq-ok (settle_outcome x llm json_loads request.content_type first answer _) _ w2 r2 in
      let rows : w3.db ≡ w.db =
        same_db _ w2 (settle-IsDb w2.db request.content_type first answer _) e3
        ∙ (same_db (call_llm llm first) w1 (call-IsDb w1.db llm first) e2
            ∙ same_db _ w (block-Keeps user_id request.brand_voice_id) e1) in
      let (stored, owner, topic, live) =
        persisted user_id request first answer outcome totals w3 r3 in
      (
        stored
            ∙ ap (λ (db : Db). record db { content_pieces = db.content_pieces ++ piece ∷ [] }) rows,
        owner,
        topic,
        live,
      )

module _ (t : Tools) (user : User) (voice : BrandVoice) where
  -- What the loop is at: the pieces made so far are the user's, in the order of the table, and
  -- every topic that was there is there.
  record Invariant (existing created : List ContentPiece) (db : Db) : Type 0 where
    are_mine : created ≡ select (is_piece_of user.id) db.content_pieces
    has_old : (topic : Text) → has_topic existing topic ≡ true → has_topic created topic ≡ true

  piece-Invariant :
      (existing created : List ContentPiece) (target : ContentType × Text) (w : World)
      {piece : ContentPiece} {v : World}
      → Invariant existing created w.db
      → generate_piece t user voice target w ≡ (ok piece, v)
      → Invariant existing (created ++ piece ∷ []) v.db
        × (has_topic (created ++ piece ∷ []) target.1 ≡ true)
        × (v.db ≡ record w.db { content_pieces = v.db.content_pieces })
  unfolding generate_piece
  piece-Invariant existing created target w {piece} {v} i e =
      let (rows, owner, topic, live) =
        generated t.external (Mock.generate t.json_dumps) t.json_loads user.id
          (request_for voice target) w e in
      let table : v.db.content_pieces ≡ pieces w ++ piece ∷ [] =
        ap (λ (db : Db). db.content_pieces) rows in
      let is : is_piece_of user.id piece ≡ true = rw (owner, live, ==_refl user.id) refl in
      let named : text_eq piece.topic target.1 ≡ true = rw topic (text_eq_refl target.1) in
      (
        record {
          are_mine =
              rw (table, select-append (is_piece_of user.id) (pieces w) (piece ∷ []), is)
                (ap (λ ps. ps ++ piece ∷ []) i.are_mine);
          has_old = λ old h.
              any-append (λ (p : ContentPiece). text_eq p.topic old) created (piece ∷ [])
              ∙ rw (i.has_old old h) refl;
        },
        any-append (λ (p : ContentPiece). text_eq p.topic target.1) created (piece ∷ [])
            ∙ rw named (ground arith),
        rw rows refl,
      )

  -- What the loop ends with.
  record Looped (existing created made : List ContentPiece) (later : List (ContentType × Text))
      (before after : Db) : Type 0 where
    invariant : Invariant existing made after
    has_made : (topic : Text) → has_topic created topic ≡ true → has_topic made topic ≡ true
    has_all : all (λ (target : ContentType × Text). has_topic made target.1) later ≡ true
    frame : after ≡ record before { content_pieces = after.content_pieces }

  Looped-one_more :
      (existing created : List ContentPiece) {made : List ContentPiece} (piece : ContentPiece)
      (target : ContentType × Text) (later : List (ContentType × Text)) {before middle after : Db}
      → has_topic (created ++ piece ∷ []) target.1 ≡ true
      → middle ≡ record before { content_pieces = middle.content_pieces }
      → Looped existing (created ++ piece ∷ []) made later middle after
      → Looped existing created made (target ∷ later) before after
  Looped-one_more existing created piece target later {after = after} here frame l = record {
    invariant = l.invariant;
    has_made = λ topic h.
        l.has_made topic (
          any-append (λ (p : ContentPiece). text_eq p.topic topic) created (piece ∷ [])
          ∙ rw h refl);
    has_all = rw (l.has_made target.1 here) l.has_all;
    frame = l.frame ∙ ap (λ (db : Db). record db { content_pieces = after.content_pieces }) frame;
  }

  create_missing-Looped :
      (existing created : List ContentPiece) (later : List (ContentType × Text)) (w : World)
      {made : List ContentPiece} {v : World}
      → Invariant existing created w.db
      → create_missing t user voice existing later created w ≡ (ok made, v)
      → Looped existing created made later w.db v.db
  unfolding create_missing
  create_missing-Looped existing created [] w {made} {v} i e =
      let (same, world) = ok-pair e in
      subst (λ ps. Looped existing created ps [] w.db v.db) same
        (subst (λ (s : World). Looped existing created created [] w.db s.db) world
          (record { invariant = i; has_made = λ topic h. h; has_all = refl; frame = refl }))
  create_missing-Looped existing created (target ∷ later) w {made} {v} i e =
      elim (Bool-cases (has_topic existing target.1)) [
        | inl there ↦
            let l =
              create_missing-Looped existing created later w {made = made} {v = v} i
                (rw there at e) in
            record {
              invariant = l.invariant;
              has_made = l.has_made;
              has_all = rw (l.has_made target.1 (i.has_old target.1 there)) l.has_all;
              frame = l.frame;
            }
        | inr lacks ↦
            let (piece, u, made_piece, rest) =
              >>=-eq-ok (generate_piece t user voice target) _ w (rw lacks at e) in
            let (next, here, frame) = piece-Invariant existing created target w i made_piece in
            Looped-one_more existing created piece target later here frame
              (create_missing-Looped existing (created ++ piece ∷ []) later u next rest)
      ]

  -- The rows after the pieces were ensured.
  abbrev pub ArePieces : List ContentPiece → Db → Type 0
  ArePieces made db =
      (made ≡ select (is_piece_of user.id) db.content_pieces)
      × (all (λ (target : ContentType × Text). has_topic made target.1) targets ≡ true)

  pub ensure_pieces-made :
      (w : World) {made : List ContentPiece} {v : World}
      → ensure_content_pieces t user voice w ≡ (ok made, v)
      → ArePieces made v.db × (v.db ≡ record w.db { content_pieces = v.db.content_pieces })
  unfolding ensure_content_pieces
  ensure_pieces-made w e =
      let l =
        create_missing-Looped _ _ targets w (record { are_mine = refl; has_old = λ topic h. h })
          e in
      ((l.invariant.are_mine, l.has_all), l.frame)

  skip_all :
      (existing created : List ContentPiece) (later : List (ContentType × Text)) (w : World)
      → all (λ (target : ContentType × Text). has_topic existing target.1) later ≡ true
      → create_missing t user voice existing later created w ≡ (ok created, w)
  unfolding create_missing
  skip_all existing created [] w h = refl
  skip_all existing created (target ∷ later) w h =
      let here : has_topic existing target.1 ≡ true = ground arith in
      rw here (skip_all existing created later w (ground arith))

  pub ensure_pieces-again :
      (made : List ContentPiece) (w : World)
      → ArePieces made w.db
      → ensure_content_pieces t user voice w ≡ (ok made, w)
  unfolding ensure_content_pieces
  ensure_pieces-again made w (same, topics) = rw⁻¹ same (skip_all made made targets w topics)
