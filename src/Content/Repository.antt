-- ===== src/Content/Repository.antt =====
-- backend/app/repositories/content_repository.py
pub mod Restore
pub mod Readable
use magna_cms.Prelude.{
  ℕ, ◌+◌, ◌-◌, ◌*◌, String, Text, Bool, true, false, ◌&&◌, ◌||◌, Option, none, some, List, [], ◌∷◌,
  ◌++◌,
}
use magna_cms.Prelude.{
  select, update_where, any, length, take, drop, ltb, leb, is_none, is_empty, not, ◌==◌,
  if◌then◌else◌, order_by, strip,
}
use magna_cms.Exceptions.{Exc, dbapi_error, integrity_error}
use magna_cms.Models.{
  ContentPiece, BrandVoice, ContentType, blog_post, linkedin_post, ad_copy, email, Uuid, Time,
  numeric_10_6,
}
use magna_cms.Auth.Users.{user_is}
use magna_cms.Session.{
  World, Action, External, pure, raise, gets, modify_db, scalar_one_or_none, now, transaction_time,
  ◌>>=◌, ◌>>◌,
}

-- 24 hours, in microseconds.
abbrev pub restore_window : ℕ
restore_window = 86_400_000_000

abbrev pub pieces : World → List ContentPiece
pieces w = w.db.content_pieces

abbrev pub set_pieces : List ContentPiece → Action (Unit {0})
set_pieces rows = modify_db (λ db. record db { content_pieces = rows })

abbrev pub piece_is : Uuid → ContentPiece → Bool
piece_is content_id p = p.id == content_id

abbrev pub voice_exists : Option Uuid → List BrandVoice → Bool
voice_exists none voices = true
voice_exists (some id) voices = any (λ v. v.id == id) voices

-- `id = content_id AND user_id = user_id`
abbrev pub owned_piece : Uuid → Uuid → ContentPiece → Bool
owned_piece content_id user_id p = piece_is content_id p && p.user_id == user_id

abbrev pub active : ContentPiece → Bool
active p = is_none p.deleted_at

abbrev pub same_type : ContentType → ContentType → Bool
same_type blog_post blog_post = true
same_type linkedin_post linkedin_post = true
same_type ad_copy ad_copy = true
same_type email email = true
same_type _ _ = false

-- `created_at DESC, id DESC`
abbrev pub newer : ContentPiece → ContentPiece → Bool
newer p q = ltb q.created_at p.created_at || p.created_at == q.created_at && leb q.id p.id

unfoldable pub get_for_user : Uuid → Uuid → Action (Option ContentPiece)
get_for_user content_id user_id w =
    scalar_one_or_none (select (λ p. owned_piece content_id user_id p && active p) (pieces w)) w

-- `for_update=True`: the driver raises SQLSTATE 55P03 if another transaction holds the lock of a
-- row that the statement selects.
unfoldable pub get_for_update : (Uuid → Bool) → Uuid → Uuid → Action (Option ContentPiece)
unfolding get_for_user
get_for_update lock_held content_id user_id w =
    if any (λ p. lock_held p.id)
      (select (λ p. owned_piece content_id user_id p && active p) (pieces w))
    then raise (dbapi_error "55P03") w
    else get_for_user content_id user_id w

unfoldable pub get_for_user_include_deleted : Uuid → Uuid → Action (Option ContentPiece)
get_for_user_include_deleted content_id user_id w =
    scalar_one_or_none (select (owned_piece content_id user_id) (pieces w)) w

-- `SET deleted_at = d`, with the column `updated_at`'s `onupdate`.
abbrev pub mark : Option Time → Time → ContentPiece → ContentPiece
mark d at p = record p { deleted_at = d; updated_at = at }

-- What the refresh reads of a row that was given these values.
abbrev pub refreshed : ContentPiece → ContentPiece
refreshed piece = record piece { cost_usd = numeric_10_6 piece.cost_usd }

abbrev pub insert : ContentPiece → Action ContentPiece
insert row w =
    if any (user_is row.user_id) w.db.users && voice_exists row.brand_voice_id w.db.brand_voices
    then (do set_pieces (pieces w ++ row ∷ []); pure row) w
    else raise integrity_error w

abbrev pub unless_refused : Option Exc → ContentPiece → Action ContentPiece
unless_refused none row = insert row
unless_refused (some e) row = raise e

-- The flush checks the values and then the foreign keys.
unfoldable pub create : External → ContentPiece → Action ContentPiece
create x piece = unless_refused (x.piece_error (refreshed piece)) (refreshed piece)

-- The optional filter by type.
unfoldable pub type_filter : Option ContentType → ContentPiece → Bool
type_filter none p = true
type_filter (some t) p = same_type p.content_type t

module _ (x : External) where
  -- The optional full-text filter; a query of blanks is none.
  unfoldable pub text_filter : Option Text → ContentPiece → Bool
  text_filter none p = true
  text_filter (some q) p =
      if is_empty (strip q) then true else x.fts_match p.rendered_text (strip q)

  abbrev pub base_filters : Uuid → Option ContentType → Option Text → ContentPiece → Bool
  base_filters user_id content_type q p =
      p.user_id == user_id && active p && type_filter content_type p && text_filter q p

  -- The rows that pass the filters, newest first.
  abbrev pub matching : Uuid → Option ContentType → Option Text → World → List ContentPiece
  matching user_id content_type q w =
      order_by newer (select (base_filters user_id content_type q) (pieces w))

  -- Pages count from 1; `max(0, …)` of the offset is the subtraction's.
  unfoldable pub list_for_user :
      Uuid → Option ContentType → Option Text → ℕ → ℕ → Action (List ContentPiece × ℕ)
  list_for_user user_id content_type q page page_size w =
      let total = length (select (base_filters user_id content_type q) (pieces w)) in
      let offset = (page - 1) * page_size in
      pure (take page_size (drop offset (matching user_id content_type q w)), total) w

  unfoldable pub delete_found : Option ContentPiece → Action (Option ContentPiece)
  delete_found none = pure none
  delete_found (some piece) = do
    t ← now x
    at ← transaction_time
    rows ← gets pieces
    set_pieces (update_where (piece_is piece.id) (mark (some t) at) rows)
    pure (some (mark (some t) at piece))

  unfoldable pub soft_delete : Uuid → Uuid → Action (Option ContentPiece)
  unfolding delete_found
  soft_delete content_id user_id = do piece ← get_for_user content_id user_id; delete_found piece

  -- The restore of a row that was deleted at `deleted_at`.
  restore_deleted : Uuid → Uuid → ContentPiece → Time → Action (Option ContentPiece)
  restore_deleted content_id user_id piece deleted_at = do
    t ← now x
    at ← transaction_time
    rows ← gets pieces
    if ltb (deleted_at + restore_window) t then pure none else do
      set_pieces (update_where (owned_piece content_id user_id) (mark none at) rows)
      pure (some (mark none at piece))

  restore_found : Uuid → Uuid → Option ContentPiece → Action (Option ContentPiece)
  unfolding restore_deleted
  restore_found content_id user_id none = pure none
  restore_found content_id user_id (some piece) = elim piece.deleted_at [
    | none ↦ pure none
    | some deleted_at ↦ restore_deleted content_id user_id piece deleted_at
  ]

  unfoldable pub restore : Uuid → Uuid → Action (Option ContentPiece)
  unfolding restore_found
  restore content_id user_id = do
    piece ← get_for_user_include_deleted content_id user_id
    restore_found content_id user_id piece
