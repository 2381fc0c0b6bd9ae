-- ===== src/Auth/Service/Reuse.antt =====
-- Refresh with a token that cannot be claimed: the four causes of a miss, reuse detection, and
-- what is left of it once the request's transaction has ended.
use magna_cms.Prelude.{
  Text, ◌+◌, ◌<◌, ◌≡◌, ◌≢◌, refl, ◌∙◌, select-update_where_off, select-update_where_other, String,
  true, false, ◌&&◌, Option, some, none, [], ◌∷◌, arith, select, update_where, leb, select-and,
  if◌then◌else◌,
}
use magna_cms.Models.{RefreshToken, Uuid, Digest, Time}
use magna_cms.Session.{World, External, ok, err, now, get_db_session}
use magna_cms.Auth.Security.{hash_refresh_token}
use magna_cms.Auth.Tokens.{
  has_hash, of_user, unrevoked, active_at, tokens, revoke, find_by_hash, revoke_all_for_user,
}
use magna_cms.Auth.Tokens.Laws.{consume-none}
use magna_cms.Auth.Service.{handle_refresh_miss, require_claimed, refresh, invalid_refresh_token}

-- The world after `revoke_all_for_user` at time `t`.
abbrev pub family_revoked : Uuid → Time → World → World
family_revoked user_id t w = record w {
  readings = w.readings + 1;
  db = record w.db {
    refresh_tokens =
        update_where (λ r. of_user user_id r && unrevoked r) (revoke w.started t) (tokens w);
  };
}

abbrev pub read : World → World
read w = record w { readings = w.readings + 1 }

family_other :
    (user_id other : Uuid)
    → other ≢ user_id
    → (t : RefreshToken) → (of_user user_id t && unrevoked t) ≡ true
    → of_user other t ≡ false
family_other user_id other ne t p = ground arith

module _ (x : External) (h : Digest) (w : World) where
  -- No row, or one that is not revoked.
  pub miss_unknown : select (has_hash h) (tokens w) ≡ [] → handle_refresh_miss x h w ≡ (ok tt, w)
  unfolding handle_refresh_miss find_by_hash
  miss_unknown e = rw e

  pub miss_unrevoked :
      (row : RefreshToken)
      → select (has_hash h) (tokens w) ≡ row ∷ []
      → row.revoked_at ≡ none
      → handle_refresh_miss x h w ≡ (ok tt, w)
  unfolding handle_refresh_miss find_by_hash
  miss_unrevoked row e r = rw (e, r)

  pub miss_revoked :
      (row : RefreshToken) {at : Time}
      → select (has_hash h) (tokens w) ≡ row ∷ []
      → row.revoked_at ≡ some at
      → handle_refresh_miss x h w ≡ (
        ok tt,
        if leb row.expires_at (x.clock w.readings)
            then read w
            else family_revoked row.user_id (x.clock (w.readings + 1)) (read w),
      )
  unfolding handle_refresh_miss find_by_hash revoke_all_for_user now
  miss_revoked row e r = rw (e, r) (ground arith)

module _ (x : External) (raw : String) (ua ip : Option Text) (w : World) where
  abbrev hash : Digest
  hash = x.sha256 raw

  pub refresh_miss :
      {v : World}
      → select (λ r. has_hash hash r && active_at (x.clock w.readings) r) (tokens w) ≡ []
      → handle_refresh_miss x hash (read w) ≡ (ok tt, v)
      → refresh x raw ua ip w ≡ (err invalid_refresh_token, v)
  unfolding refresh require_claimed hash_refresh_token
  refresh_miss e m = rw (consume-none x hash w e, m)

  -- A revoked token is never exchanged. Whether the family is revoked depends on its expiry.
  pub refresh-revoked :
      (row : RefreshToken) {at : Time}
      → select (has_hash hash) (tokens w) ≡ row ∷ []
      → row.revoked_at ≡ some at
      → refresh x raw ua ip w ≡ (
        err invalid_refresh_token,
        if leb row.expires_at (x.clock (w.readings + 1))
            then read (read w)
            else family_revoked row.user_id (x.clock (w.readings + 1 + 1)) (read (read w)),
      )
  refresh-revoked row e r =
      refresh_miss
        (select-and (has_hash hash) (active_at (x.clock w.readings)) (tokens w) ∙ rw (e, r))
        (miss_revoked x hash (read w) row e r)

  -- Inside the transaction, replaying a token that was revoked and has not expired is refused, and
  -- afterwards the user has no token left that is not revoked, while the tokens of every other
  -- user are as they were.
  pub refresh_reuse :
      (row : RefreshToken) {at : Time}
      → select (has_hash hash) (tokens w) ≡ row ∷ []
      → row.revoked_at ≡ some at
      → x.clock (w.readings + 1) < row.expires_at
      → ((refresh x raw ua ip w).0 ≡ err invalid_refresh_token)
        × (select (λ r. of_user row.user_id r && unrevoked r) (tokens (refresh x raw ua ip w).1)
            ≡ [])
        × ((other : Uuid)
            → other ≢ row.user_id
            → select (of_user other) (tokens (refresh x raw ua ip w).1)
              ≡ select (of_user other) (tokens w))
  refresh_reuse row e r valid =
      let late : leb row.expires_at (x.clock (w.readings + 1)) ≡ false = ground arith in
      rw (refresh-revoked row e r, late)
        (
          refl,
          select-update_where_off (λ r. of_user row.user_id r && unrevoked r)
              (revoke w.started (x.clock (w.readings + 1 + 1))) (tokens w) (λ t. ground arith),
          λ other ne.
              select-update_where_other (of_user other) _ _ (tokens w)
                (family_other row.user_id other ne) (λ t. refl),
        )

module _ (x : External) (raw : String) (ua ip : Option Text) (w : World) where
  -- The transaction of the request undoes that revocation: whatever the replayed token's user had
  -- active before the request is active after it.
  pub refresh_reuse-rolled_back :
      (row : RefreshToken) {at : Time}
      → select (has_hash (x.sha256 raw)) w.committed.refresh_tokens ≡ row ∷ []
      → row.revoked_at ≡ some at
      → x.clock (w.readings + 1) < row.expires_at
      → ((get_db_session (refresh x raw ua ip) w).0 ≡ err invalid_refresh_token)
        × ((get_db_session (refresh x raw ua ip) w).1.db ≡ w.committed)
        × ((get_db_session (refresh x raw ua ip) w).1.committed ≡ w.committed)
  unfolding get_db_session
  refresh_reuse-rolled_back row e r valid =
      let late : leb row.expires_at (x.clock (w.readings + 1)) ≡ false = ground arith in
      rw (refresh-revoked x raw ua ip (record w { db = w.committed }) row e r, late)
        (refl, refl, refl)
