-- ===== src/Auth/Service/Rotation.antt =====
-- Refresh-token rotation: what a refresh that succeeds has done, and that a token is spent once.
use magna_cms.Prelude.{
  Text, ◌+◌, ◌*◌, ◌≡◌, refl, ap, String, true, false, ◌&&◌, Option, some, none, List, [], ◌∷◌, ◌++◌,
  select, any, Bool-cases, inl, inr,
}
use magna_cms.Models.{User, RefreshToken, Uuid}
use magna_cms.Session.{
  World, External, ok, now, ◌>>=◌, bind-pure-eq-ok, then-raise-ne-ok, >>=-eq-ok,
}
use magna_cms.Auth.Security.{
  second, create_access_token, generate_refresh_token, hash_refresh_token,
}
use magna_cms.Auth.Users.{user_is, find_by_id}
use magna_cms.Auth.Tokens
use magna_cms.Auth.Tokens.{has_hash, active_at, tokens, revoke, consume_if_active}
use magna_cms.Auth.Tokens.Laws.{claim, consume-eq-some}
use magna_cms.Auth.Service.{
  AuthTokens, mint_tokens, handle_refresh_miss, require_claimed, reissue, refresh,
}

module _ (x : External) (user_id : Uuid) (ua ip : Option Text) (w : World) where
  -- The row that minting inserts.
  abbrev pub minted_token : RefreshToken
  minted_token = record {
    id = x.uuid4 (w.draws + 1);
    created_at = w.started;
    updated_at = w.started;
    user_id = user_id;
    token_hash = x.sha256 (x.token_hex w.draws);
    expires_at = x.clock (w.readings + 1) + x.refresh_ttl * second;
    revoked_at = none;
    user_agent = ua;
    ip_address = ip;
  }

  abbrev pub minted : World
  minted = record w {
    readings = w.readings + 1 + 1;
    draws = w.draws + 1 + 1;
    db = record w.db { refresh_tokens = tokens w ++ minted_token ∷ [] };
  }

  abbrev pub issued : AuthTokens
  issued = record {
    access_token =
        x.jwt_encode (x.uuid_str user_id) (x.clock w.readings + x.access_ttl * second) "access";
    access_expires_in = x.access_ttl;
    refresh_token_raw = x.token_hex w.draws;
    refresh_expires_at = x.clock (w.readings + 1) + x.refresh_ttl * second;
  }

module _ (x : External) (user : User) (ua ip : Option Text) (w : World) where
  pub mint-ok :
      any (has_hash (x.sha256 (x.token_hex w.draws))) (tokens w) ≡ false
      → any (user_is user.id) w.db.users ≡ true
      → mint_tokens x user ua ip w ≡ (ok (issued x user.id ua ip w), minted x user.id ua ip w)
  unfolding mint_tokens create_access_token generate_refresh_token now Tokens.create
  mint-ok fresh known = rw (fresh, known)

  pub mint-eq-ok :
      {t : AuthTokens} {v : World}
      → mint_tokens x user ua ip w ≡ (ok t, v)
      → (any (has_hash (x.sha256 (x.token_hex w.draws))) (tokens w) ≡ false)
        × (any (user_is user.id) w.db.users ≡ true)
        × (t ≡ issued x user.id ua ip w)
        × (v ≡ minted x user.id ua ip w)
  unfolding mint_tokens create_access_token generate_refresh_token now Tokens.create
  mint-eq-ok e = elim (Bool-cases (any (has_hash (x.sha256 (x.token_hex w.draws))) (tokens w))) [
    | inl dup ↦ let e' = rw dup at e in cc
    | inr fresh ↦ elim (Bool-cases (any (user_is user.id) w.db.users)) [
      | inl known ↦ let e' = rw (fresh, known) at e in (fresh, known, cc, cc)
      | inr gone ↦ let e' = rw (fresh, gone) at e in cc
    ]
  ]

module _ (x : External) (user_id : Uuid) (ua ip : Option Text) (w : World) where
  reissue_rows :
      (rows : List User)
      → select (user_is user_id) w.db.users ≡ rows
      → {user : User} {t : AuthTokens} {v : World} → reissue x user_id ua ip w ≡ (ok (user, t), v)
      → (rows ≡ user ∷ []) × (mint_tokens x user ua ip w ≡ (ok t, v))
  unfolding reissue find_by_id
  reissue_rows [] e r = let r' = rw e at r in cc
  reissue_rows (u ∷ []) e {user} {t} {v} r =
      let (toks, p, q) =
        bind-pure-eq-ok (mint_tokens x u ua ip) (λ toks. (u, toks)) w (rw e at r) in
      let owner : u ≡ user = ap (λ (a, b). a) q in
      let same : toks ≡ t = ap (λ (a, b). b) q in (ap (λ z. z ∷ []) owner, rw (← owner, ← same) p)
  reissue_rows (u ∷ y ∷ rows) e r = let r' = rw e at r in cc

  reissue-eq-ok :
      {user : User} {t : AuthTokens} {v : World}
      → reissue x user_id ua ip w ≡ (ok (user, t), v)
      → (select (user_is user_id) w.db.users ≡ user ∷ [])
        × (any (has_hash (x.sha256 (x.token_hex w.draws))) (tokens w) ≡ false)
        × (t ≡ issued x user.id ua ip w)
        × (v ≡ minted x user.id ua ip w)
  reissue-eq-ok r =
      let (one, mint) = reissue_rows _ refl r in
      let (fresh, known, toks, world) = mint-eq-ok x _ ua ip w mint in (one, fresh, toks, world)

module _ (x : External) (raw : String) (ua ip : Option Text) (w : World) where
  -- The world between the claim and the minting.
  abbrev pub after_claim : World
  after_claim = claim (x.sha256 raw) (x.clock w.readings) w

  claimed_cases :
      (claimed : Option Uuid) (u : World)
      → consume_if_active x (x.sha256 raw) w ≡ (ok claimed, u)
      → {user : User} {t : AuthTokens} {v : World}
      → (require_claimed x (x.sha256 raw) claimed >>= λ user_id. reissue x user_id ua ip) u
        ≡ (ok (user, t), v)
      → (user_id : Uuid) × (consume_if_active x (x.sha256 raw) w ≡ (ok (some user_id), u))
        × (reissue x user_id ua ip u ≡ (ok (user, t), v))
  unfolding require_claimed
  claimed_cases none u p q =
      let (a, u', c, d) = >>=-eq-ok (require_claimed x (x.sha256 raw) none) _ u q in
      absurd (then-raise-ne-ok (handle_refresh_miss x (x.sha256 raw)) _ u c)
  claimed_cases (some user_id) u p q = (user_id, p, q)

  -- What a refresh that succeeds found, and what it returns and leaves.
  pub refresh-eq-ok :
      {user : User} {t : AuthTokens} {v : World}
      → refresh x raw ua ip w ≡ (ok (user, t), v)
      → (row : RefreshToken) × (select
            (λ r. has_hash (x.sha256 raw) r && active_at (x.clock w.readings) r)
            (tokens w)
          ≡ row ∷ [])
        × (select (user_is row.user_id) w.db.users ≡ user ∷ [])
        × (any (has_hash (x.sha256 (x.token_hex w.draws))) (tokens after_claim) ≡ false)
        × (t ≡ issued x user.id ua ip after_claim)
        × (v ≡ minted x user.id ua ip after_claim)
  unfolding refresh hash_refresh_token
  refresh-eq-ok e =
      let (claimed, u, p, q) = >>=-eq-ok (consume_if_active x (x.sha256 raw)) _ w e in
      let (user_id, p', q') = claimed_cases claimed u p q in
      let (row, one, owner, world) = consume-eq-some x (x.sha256 raw) w p' in
      let r = rw (owner, world) at q' in
      let (user, fresh, toks, world') = reissue-eq-ok x row.user_id ua ip after_claim r in
      (row, one, user, fresh, toks, world')
