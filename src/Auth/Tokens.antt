-- ===== src/Auth/Tokens.antt =====
-- backend/app/repositories/refresh_token_repository.py
pub mod Laws
use magna_cms.Prelude.{
  Text, ℕ, String, Bool, true, false, ◌&&◌, Option, none, some, List, [], ◌∷◌, ◌++◌, map,
}
use magna_cms.Prelude.{select, update_where, any, length, ltb, is_none, not, ◌==◌, if◌then◌else◌}
use magna_cms.Exceptions.{integrity_error}
use magna_cms.Models.{Db, RefreshToken, Uuid, Digest, Time}
use magna_cms.Auth.Users.{user_is}
use magna_cms.Session.{
  World, Action, External, pure, raise, gets, modify_db, scalar_one_or_none, now, draw, ◌>>=◌, ◌>>◌,
}

abbrev pub has_hash : Digest → RefreshToken → Bool
has_hash h t = t.token_hash == h

abbrev pub of_user : Uuid → RefreshToken → Bool
of_user user_id t = t.user_id == user_id

-- `revoked_at IS NULL`
abbrev pub unrevoked : RefreshToken → Bool
unrevoked t = is_none t.revoked_at

-- `revoked_at IS NULL AND expires_at > now`
abbrev pub active_at : Time → RefreshToken → Bool
active_at t r = unrevoked r && ltb t r.expires_at

-- `SET revoked_at = t`, with the column's `onupdate`.
abbrev pub revoke : Time → Time → RefreshToken → RefreshToken
revoke at t r = record r { revoked_at = some t; updated_at = at }

abbrev pub set_tokens : List RefreshToken → Action (Unit {0})
set_tokens rows = modify_db (λ db. record db { refresh_tokens = rows })

abbrev pub tokens : World → List RefreshToken
tokens w = w.db.refresh_tokens

unfoldable pub find_by_hash : Digest → Action (Option RefreshToken)
find_by_hash token_hash w = scalar_one_or_none (select (has_hash token_hash) (tokens w)) w

module _ (x : External) where
  abbrev pub new_token :
      Uuid → Uuid → Digest → Time → Option Text → Option Text → World → RefreshToken
  new_token id user_id token_hash expires_at user_agent ip_address w = record {
    id = id;
    created_at = w.started;
    updated_at = w.started;
    user_id = user_id;
    token_hash = token_hash;
    expires_at = expires_at;
    revoked_at = none;
    user_agent = user_agent;
    ip_address = ip_address;
  }

  -- The flush checks that the hash is new and that the user exists.
  unfoldable pub insert : RefreshToken → Action RefreshToken
  insert t w =
      if any (has_hash t.token_hash) (tokens w)
      then raise integrity_error w
      else if not (any (user_is t.user_id) w.db.users)
      then raise integrity_error w
      else (do set_tokens (tokens w ++ t ∷ []); pure t) w

  unfoldable pub create : Uuid → Digest → Time → Option Text → Option Text → Action RefreshToken
  unfolding insert draw
  create user_id token_hash expires_at user_agent ip_address = do
    n ← draw
    t ← gets (new_token (x.uuid4 n) user_id token_hash expires_at user_agent ip_address)
    insert t

  -- One UPDATE … RETURNING: the rows that match are revoked, and their values come back.
  unfoldable pub revoke_where :
      {A : Type 0} → (RefreshToken → Bool) → Time → (RefreshToken → A) → Action (List A)
  revoke_where p t out w =
      let rows = tokens w in
      (do set_tokens (update_where p (revoke w.started t) rows); pure (map out (select p rows))) w

  unfoldable pub consume_if_active : Digest → Action (Option Uuid)
  unfolding revoke_where now
  consume_if_active token_hash = do
    t ← now x
    ids ← revoke_where (λ r. has_hash token_hash r && active_at t r) t (λ r. r.user_id)
    scalar_one_or_none ids

  unfoldable pub revoke_all_for_user : Uuid → Action ℕ
  unfolding revoke_where now
  revoke_all_for_user user_id = do
    t ← now x
    ids ← revoke_where (λ r. of_user user_id r && unrevoked r) t (λ r. r.id)
    pure (length ids)

  unfoldable pub revoke_by_hash : Digest → Action Bool
  unfolding revoke_where now
  revoke_by_hash token_hash = do
    t ← now x
    ids ← revoke_where (λ r. has_hash token_hash r && unrevoked r) t (λ r. r.id)
    found ← scalar_one_or_none ids
    pure (not (is_none found))
