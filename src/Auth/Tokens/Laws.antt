-- ===== src/Auth/Tokens/Laws.antt =====
-- What the operations of the refresh-token repository return and write.
use magna_cms.Prelude.{◌+◌, ◌≡◌, refl, true, ◌&&◌, some, none, List, [], ◌∷◌}
use magna_cms.Prelude.{select, update_where, select-and, update_where_of_none}
use magna_cms.Models.{RefreshToken, Uuid, Digest, Time}
use magna_cms.Session.{World, External, ok}
use magna_cms.Auth.Tokens.{has_hash, active_at, revoke, tokens, consume_if_active}

-- The world after a claim at time `t`.
abbrev pub claim : Digest → Time → World → World
claim h t w = record w {
  readings = w.readings + 1;
  db = record w.db {
    refresh_tokens =
        update_where (λ r. has_hash h r && active_at t r) (revoke w.started t) (tokens w);
  };
}

module _ (x : External) (h : Digest) (w : World) where
  pub consume-active :
      (row : RefreshToken)
      → select (has_hash h) (tokens w) ≡ row ∷ []
      → active_at (x.clock w.readings) row ≡ true
      → consume_if_active x h w ≡ (ok (some row.user_id), claim h (x.clock w.readings) w)
  unfolding consume_if_active
  consume-active row e a =
      rw (select-and (has_hash h) (active_at (x.clock w.readings)) (tokens w), e, a)

  pub consume-none :
      select (λ r. has_hash h r && active_at (x.clock w.readings) r) (tokens w) ≡ []
      → consume_if_active x h w ≡ (ok none, record w { readings = w.readings + 1 })
  unfolding consume_if_active
  consume-none e = rw (e, update_where_of_none _ _ (tokens w) e)

  consume_rows :
      (rows : List RefreshToken)
      → select (λ r. has_hash h r && active_at (x.clock w.readings) r) (tokens w) ≡ rows
      → {u : Uuid} {v : World} → consume_if_active x h w ≡ (ok (some u), v)
      → (row : RefreshToken) × (rows ≡ row ∷ [])
        × (u ≡ row.user_id)
        × (v ≡ claim h (x.clock w.readings) w)
  unfolding consume_if_active
  consume_rows [] e r = let r' = rw e at r in cc
  consume_rows (row ∷ []) e r = let r' = rw e at r in (row, refl, cc, cc)
  consume_rows (row ∷ y ∷ rows) e r = let r' = rw e at r in cc

  -- A successful claim found exactly one active row under the hash, and revoked it.
  pub consume-eq-some :
      {u : Uuid} {v : World}
      → consume_if_active x h w ≡ (ok (some u), v)
      → (row : RefreshToken) × (select
            (λ r. has_hash h r && active_at (x.clock w.readings) r)
            (tokens w)
          ≡ row ∷ [])
        × (u ≡ row.user_id)
        × (v ≡ claim h (x.clock w.readings) w)
  consume-eq-some r = consume_rows _ refl r
