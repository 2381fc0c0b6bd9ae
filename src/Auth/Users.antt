-- ===== src/Auth/Users.antt =====
-- backend/app/repositories/user_repository.py
use magna_cms.Prelude.{String, Bool, Option, none, some, [], ◌∷◌, ◌++◌}
use magna_cms.Prelude.{select, update_where, any, ◌==◌, if◌then◌else◌}
use magna_cms.Exceptions.{integrity_error}
use magna_cms.Models.{User, Uuid, Time}
use magna_cms.Session.{
  World, Action, External, pure, raise, gets, modify_db, scalar_one_or_none, now, draw, ◌>>=◌, ◌>>◌,
}

abbrev pub user_is : Uuid → User → Bool
user_is user_id u = u.id == user_id

unfoldable pub find_by_id : Uuid → Action (Option User)
find_by_id user_id w = scalar_one_or_none (select (user_is user_id) w.db.users) w

abbrev pub touched : Time → Time → User → User
touched t at u = record u { last_login_at = some t; updated_at = at }

module _ (x : External) where
  abbrev pub email_is : String → User → Bool
  email_is email u = x.citext_eq u.email email

  unfoldable pub find_by_email : String → Action (Option User)
  find_by_email email w = scalar_one_or_none (select (email_is email) w.db.users) w

  abbrev pub new_user : Uuid → String → String → String → World → User
  new_user id email password_hash full_name w = record {
    id = id;
    created_at = w.started;
    updated_at = w.started;
    email = email;
    password_hash = password_hash;
    full_name = full_name;
    email_verified_at = none;
    last_login_at = none;
  }

  unfoldable pub insert : User → Action User
  insert u w =
      if any (email_is u.email) w.db.users
      then (raise integrity_error w)
      else (do modify_db (λ db. record db { users = db.users ++ u ∷ [] }); pure u) w

  -- The unique constraint on `email` is checked at the flush.
  unfoldable pub create : String → String → String → Action User
  unfolding insert draw
  create email password_hash full_name = do
    n ← draw
    u ← gets (new_user (x.uuid4 n) email password_hash full_name)
    insert u

  -- The row of the user, and the object that the caller holds.
  unfoldable pub touch_last_login : User → Action User
  unfolding now
  touch_last_login user = do
    t ← now x
    at ← gets (λ w. w.started)
    modify_db (λ db. record db { users = update_where (user_is user.id) (touched t at) db.users })
    pure (touched t at user)
