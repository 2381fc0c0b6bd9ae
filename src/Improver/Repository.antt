-- ===== src/Improver/Repository.antt =====
-- backend/app/repositories/improvement_repository.py
use magna_cms.Prelude.{
  Bool, ◌&&◌, ◌||◌, Option, none, some, List, [], ◌∷◌, ◌++◌, select, update_where, any, ltb, leb,
  order_by, is_none, ◌==◌, if◌then◌else◌,
}
use magna_cms.Exceptions.{Exc, integrity_error}
use magna_cms.Models.{Improvement, Uuid, Time, numeric_10_6}
use magna_cms.Auth.Users.{user_is}
use magna_cms.Session.{
  World, Action, External, pure, raise, gets, modify_db, scalar_one_or_none, now, transaction_time,
  ◌>>=◌, ◌>>◌,
}

abbrev pub improvements : World → List Improvement
improvements w = w.db.improvements

abbrev pub set_improvements : List Improvement → Action (Unit {0})
set_improvements rows = modify_db (λ db. record db { improvements = rows })

abbrev pub improvement_is : Uuid → Improvement → Bool
improvement_is improvement_id r = r.id == improvement_id

abbrev pub active_of : Uuid → Improvement → Bool
active_of user_id r = r.user_id == user_id && is_none r.deleted_at

-- `created_at DESC, id DESC`
abbrev pub newer : Improvement → Improvement → Bool
newer r s = ltb s.created_at r.created_at || r.created_at == s.created_at && leb s.id r.id

-- What the refresh reads of a row that was given these values.
abbrev pub refreshed : Improvement → Improvement
refreshed improvement = record improvement { cost_usd = numeric_10_6 improvement.cost_usd }

abbrev pub insert : Improvement → Action Improvement
insert row w =
    if any (user_is row.user_id) w.db.users
    then (do set_improvements (improvements w ++ row ∷ []); pure row) w
    else raise integrity_error w

abbrev pub unless_refused : Option Exc → Improvement → Action Improvement
unless_refused none row = insert row
unless_refused (some e) row = raise e

-- The flush checks the values and then the foreign key.
unfoldable pub create : External → Improvement → Action Improvement
create x improvement =
    unless_refused (x.improvement_error (refreshed improvement)) (refreshed improvement)

unfoldable pub get_for_user : Uuid → Uuid → Action (Option Improvement)
get_for_user improvement_id user_id w =
    scalar_one_or_none
      (select (λ r. improvement_is improvement_id r && active_of user_id r) (improvements w)) w

unfoldable pub list_for_user : Uuid → Action (List Improvement)
list_for_user user_id = gets (λ w. order_by newer (select (active_of user_id) (improvements w)))

abbrev pub deleted : Time → Time → Improvement → Improvement
deleted t at r = record r { deleted_at = some t; updated_at = at }

module _ (x : External) where
  unfoldable pub delete_found : Option Improvement → Action (Option Improvement)
  delete_found none = pure none
  delete_found (some r) = do
    t ← now x
    at ← transaction_time
    rows ← gets improvements
    set_improvements (update_where (improvement_is r.id) (deleted t at) rows)
    pure (some (deleted t at r))

  unfoldable pub soft_delete : Uuid → Uuid → Action (Option Improvement)
  unfolding delete_found
  soft_delete improvement_id user_id = do
    found ← get_for_user improvement_id user_id
    delete_found found
