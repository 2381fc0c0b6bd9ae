-- ===== src/Content/Repository/Restore.antt =====
-- Deleting and restoring a content piece, seen through the reads of the repository.
use magna_cms.Prelude.{
  ◌+◌, ◌≤◌, ◌<◌, ◌≡◌, ◌≢◌, refl, sym, ap, ◌∙◌, true, false, ◌&&◌, none, some, List, [], ◌∷◌, arith,
  select, select-and, select-update_where, select-update_where_other, update_where, select-head,
  ltb, ==_refl, ◌==◌,
}
use magna_cms.Models.{ContentPiece, Uuid, Time}
use magna_cms.Session.{World, External, ok, now}
use magna_cms.Content.Repository.{
  pieces, piece_is, owned_piece, active, mark, restore_window, get_for_user,
  get_for_user_include_deleted, soft_delete, delete_found, restore, restore_found, restore_deleted,
}

module _ (content_id user_id : Uuid) (w : World) (row : ContentPiece) where
  select-owned :
      select (piece_is content_id) (pieces w) ≡ row ∷ []
      → row.user_id ≡ user_id
      → select (owned_piece content_id user_id) (pieces w) ≡ row ∷ []
  select-owned e o =
      select-and (piece_is content_id) (λ p. p.user_id == user_id) (pieces w)
      ∙ rw (e, o, ==_refl user_id) refl

  pub select-active :
      select (piece_is content_id) (pieces w) ≡ row ∷ []
      → row.user_id ≡ user_id
      → select (λ p. owned_piece content_id user_id p && active p) (pieces w)
        ≡ select active (row ∷ [])
  select-active e o =
      select-and (owned_piece content_id user_id) active (pieces w) ∙ rw (select-owned e o) refl

  pub get_for_user-active :
      select (piece_is content_id) (pieces w) ≡ row ∷ []
      → row.user_id ≡ user_id
      → row.deleted_at ≡ none
      → get_for_user content_id user_id w ≡ (ok (some row), w)
  unfolding get_for_user
  get_for_user-active e o d = rw (select-active e o, d)

  pub get_for_user-deleted :
      {t : Time}
      → select (piece_is content_id) (pieces w) ≡ row ∷ []
      → row.user_id ≡ user_id
      → row.deleted_at ≡ some t
      → get_for_user content_id user_id w ≡ (ok none, w)
  unfolding get_for_user
  get_for_user-deleted e o d = rw (select-active e o, d)

  pub get_for_user_include_deleted_lem :
      select (piece_is content_id) (pieces w) ≡ row ∷ []
      → row.user_id ≡ user_id
      → get_for_user_include_deleted content_id user_id w ≡ (ok (some row), w)
  unfolding get_for_user_include_deleted
  get_for_user_include_deleted_lem e o = rw (select-owned e o)

-- The world after one reading of the clock, with other content rows.
abbrev pub reading : List ContentPiece → World → World
reading rows w = record w { readings = w.readings + 1; db = record w.db { content_pieces = rows } }

module _ (x : External) (content_id user_id : Uuid) (w : World) (row : ContentPiece) where
  abbrev pub deleted_row : ContentPiece
  deleted_row = mark (some (x.clock w.readings)) w.started row

  pub soft_delete_lem :
      select (piece_is content_id) (pieces w) ≡ row ∷ []
      → row.user_id ≡ user_id
      → row.deleted_at ≡ none
      → soft_delete x content_id user_id w ≡ (
        ok (some deleted_row),
        reading
            (update_where (piece_is row.id) (mark (some (x.clock w.readings)) w.started) (pieces w))
            w,
      )
  unfolding soft_delete delete_found now
  soft_delete_lem e o d = rw (get_for_user-active content_id user_id w row e o d)

  restore-open :
      (t : Time)
      → select (piece_is content_id) (pieces w) ≡ row ∷ []
      → row.user_id ≡ user_id
      → row.deleted_at ≡ some t
      → x.clock w.readings ≤ t + restore_window
      → restore x content_id user_id w ≡ (
        ok (some (mark none w.started row)),
        reading (update_where (owned_piece content_id user_id) (mark none w.started) (pieces w)) w,
      )
  unfolding restore restore_found restore_deleted now
  restore-open t e o d h =
      let within : ltb (t + restore_window) (x.clock w.readings) ≡ false = ground arith in
      rw (get_for_user_include_deleted_lem content_id user_id w row e o, d, within)

  restore-expired :
      (t : Time)
      → select (piece_is content_id) (pieces w) ≡ row ∷ []
      → row.user_id ≡ user_id
      → row.deleted_at ≡ some t
      → t + restore_window < x.clock w.readings
      → restore x content_id user_id w ≡ (ok none, record w { readings = w.readings + 1 })
  unfolding restore restore_found restore_deleted now
  restore-expired t e o d h =
      let past : ltb (t + restore_window) (x.clock w.readings) ≡ true = ground arith in
      rw (get_for_user_include_deleted_lem content_id user_id w row e o, d, past)

module _ (x : External) (content_id user_id : Uuid) (w : World) (row : ContentPiece) where
  -- The world after the delete.
  abbrev pub after_delete : World
  after_delete = (soft_delete x content_id user_id w).1

  after_delete_rows :
      select (piece_is content_id) (pieces w) ≡ row ∷ []
      → row.user_id ≡ user_id
      → row.deleted_at ≡ none
      → select (piece_is content_id) (pieces after_delete)
        ≡ deleted_row x content_id user_id w row ∷ []
  after_delete_rows e o d =
      let same = select-head (piece_is content_id) (pieces w) e in
      ap (λ r. select (piece_is content_id) (pieces r.1))
        (soft_delete_lem x content_id user_id w row e o d)
      ∙ select-update_where (piece_is content_id) (piece_is row.id) _ (pieces w) (λ p. refl)
      ∙ rw (e, ==_refl row.id) refl

  -- Where the id names one row, an active one of the user: a soft delete returns that row marked
  -- with the time of the clock, and from then on the user's reads do not find it; every row under
  -- another id is as it was.
  pub soft_delete-hides :
      select (piece_is content_id) (pieces w) ≡ row ∷ []
      → row.user_id ≡ user_id
      → row.deleted_at ≡ none
      → ((soft_delete x content_id user_id w).0
          ≡ ok (some (mark (some (x.clock w.readings)) w.started row)))
        × (get_for_user content_id user_id after_delete ≡ (ok none, after_delete))
        × ((other : Uuid)
            → other ≢ content_id
            → select (piece_is other) (pieces after_delete) ≡ select (piece_is other) (pieces w))
  soft_delete-hides e o d = (
    ap (λ r. r.0) (soft_delete_lem x content_id user_id w row e o d),
    get_for_user-deleted content_id user_id after_delete (deleted_row x content_id user_id w row)
        (after_delete_rows e o d) o refl,
    λ other ne.
        let same = select-head (piece_is content_id) (pieces w) e in
        ap (λ r. select (piece_is other) (pieces r.1))
          (soft_delete_lem x content_id user_id w row e o d)
        ∙ select-update_where_other (piece_is other) (piece_is row.id) _ (pieces w)
            (λ p h. ground arith) (λ p. refl),
  )

  module _ (u : World) (kept : pieces u ≡ pieces after_delete) where
    kept_rows :
        select (piece_is content_id) (pieces w) ≡ row ∷ []
        → row.user_id ≡ user_id
        → row.deleted_at ≡ none
        → select (piece_is content_id) (pieces u) ≡ deleted_row x content_id user_id w row ∷ []
    kept_rows e o d = ap (select (piece_is content_id)) kept ∙ after_delete_rows e o d

    -- A piece that was soft deleted and is restored, with the same rows, when at most 24 hours
    -- have passed on the clock: the restore returns the row of before the delete with only
    -- `updated_at` changed, and the user's reads find that row again.
    pub restore-soft_delete :
        select (piece_is content_id) (pieces w) ≡ row ∷ []
        → row.user_id ≡ user_id
        → row.deleted_at ≡ none
        → x.clock u.readings ≤ x.clock w.readings + restore_window
        → ((restore x content_id user_id u).0 ≡ ok (some (record row { updated_at = u.started })))
          × ((get_for_user content_id user_id (restore x content_id user_id u).1).0
              ≡ ok (some (record row { updated_at = u.started })))
    restore-soft_delete e o d h =
        let gone = deleted_row x content_id user_id w row in
        let found = kept_rows e o d in
        let r = restore-open x content_id user_id u gone (x.clock w.readings) found o refl h in
        let id_is = select-head (piece_is content_id) (pieces u) found in
        let rows : select (piece_is content_id)
              (update_where (owned_piece content_id user_id) (mark none u.started) (pieces u))
            ≡ mark none u.started gone ∷ [] =
          select-update_where (piece_is content_id) (owned_piece content_id user_id) _ (pieces u)
            (λ p. refl)
          ∙ rw (found, id_is, o, ==_refl user_id) refl in
        let whole =
          ap (λ t. ok (some (record row { updated_at = u.started; deleted_at = t }))) (sym d) in
        rw r (
          whole,
          ap (λ a. a.0)
                (get_for_user-active content_id user_id _ (mark none u.started gone) rows o refl)
              ∙ whole,
        )

    -- A restore later than 24 hours after the soft delete, with the same rows, returns nothing,
    -- changes no row, and leaves the piece hidden from the user's reads.
    restore-soft_delete_late :
        select (piece_is content_id) (pieces w) ≡ row ∷ []
        → row.user_id ≡ user_id
        → row.deleted_at ≡ none
        → x.clock w.readings + restore_window < x.clock u.readings
        → ((restore x content_id user_id u).0 ≡ ok none)
          × ((restore x content_id user_id u).1.db ≡ u.db)
          × ((get_for_user content_id user_id (restore x content_id user_id u).1).0 ≡ ok none)
    restore-soft_delete_late e o d h =
        let found = kept_rows e o d in
        let r =
          restore-expired x content_id user_id u (deleted_row x content_id user_id w row)
            (x.clock w.readings) found o refl h in
        rw r (
          refl,
          refl,
          ap (λ a. a.0)
              (get_for_user-deleted content_id user_id _ (deleted_row x content_id user_id w row)
                found o refl),
        )
