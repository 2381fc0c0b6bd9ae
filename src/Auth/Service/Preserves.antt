-- ===== src/Auth/Service/Preserves.antt =====
-- Every operation of the service keeps the constraints of `Integrity`.
use magna_cms.Prelude.{
  String, Text, Bool, true, Option, some, none, select, any, leb, Bool-cases, inl, inr,
  if◌then◌else◌,
}
use magna_cms.Models.{User, RefreshToken, Uuid, Digest, Time}
use magna_cms.Session.{External, pure, now, draw, ◌>>=◌, modify}
use magna_cms.Session.Keeps.{Keeps, keeps_rules, Keeps-if, Keeps-scalar}
use magna_cms.Auth.Security.{
  count_bcrypt, or_value_error, dummy_or_new, hash_password, verify_password,
  get_dummy_password_hash, create_access_token, generate_refresh_token,
}
use magna_cms.Auth.Users
use magna_cms.Auth.Users.{user_is, email_is, touched}
use magna_cms.Auth.Tokens
use magna_cms.Auth.Tokens.{has_hash, of_user, unrevoked, active_at, tokens, revoke, revoke_where}
use magna_cms.Auth.Service.{
  login, refresh, reissue, require_claimed, react_to, handle_refresh_miss, revoke_family,
  require_user, hash_to_verify, require_valid, logout, mint_tokens,
}
use magna_cms.Auth.Service.Integrity.{
  IsSound, IsConsistent-revoke, IsConsistent-token, IsConsistent-touch,
}

module _ (x : External) where
  pub now-Keeps : Keeps (IsSound x) (now x)
  unfolding now
  now-Keeps = record { at = λ w h. record { current = h.current; committed = h.committed } }

  pub draw-Keeps : Keeps (IsSound x) draw
  unfolding draw
  draw-Keeps = record { at = λ w h. record { current = h.current; committed = h.committed } }

  revoke_where-Keeps :
      {A : Type 0} (p : RefreshToken → Bool) (t : Time) (out : RefreshToken → A)
      → Keeps (IsSound x) (revoke_where x p t out)
  unfolding revoke_where
  revoke_where-Keeps p t out = record {
    at = λ w h. record {
      current = IsConsistent-revoke x p w.started t w.db h.current;
      committed = h.committed;
    };
  }

  insert_token-Keeps : (t : RefreshToken) → Keeps (IsSound x) (Tokens.insert x t)
  unfolding Tokens.insert
  insert_token-Keeps t = record {
    at = λ w h. elim (Bool-cases (any (has_hash t.token_hash) (tokens w))) [
      | inl dup ↦ rw dup h
      | inr fresh ↦ elim (Bool-cases (any (user_is t.user_id) w.db.users)) [
        | inl known ↦
            rw (fresh, known)
              (record {
                current = IsConsistent-token x w.db t h.current fresh known;
                committed = h.committed;
              })
        | inr gone ↦ rw (fresh, gone) h
      ]
    ];
  }

  ruleset token_rules = (keeps_rules, now-Keeps, draw-Keeps, revoke_where-Keeps, insert_token-Keeps)

  consume-Keeps : (h : Digest) → Keeps (IsSound x) (Tokens.consume_if_active x h)
  unfolding Tokens.consume_if_active
  consume-Keeps h = search token_rules

  revoke_all-Keeps : (u : Uuid) → Keeps (IsSound x) (Tokens.revoke_all_for_user x u)
  unfolding Tokens.revoke_all_for_user
  revoke_all-Keeps h = search token_rules

  revoke_by_hash-Keeps : (h : Digest) → Keeps (IsSound x) (Tokens.revoke_by_hash x h)
  unfolding Tokens.revoke_by_hash
  revoke_by_hash-Keeps h = search token_rules

  create_token-Keeps :
      (u : Uuid) (h : Digest) (t : Time) (ua ip : Option Text)
      → Keeps (IsSound x) (Tokens.create x u h t ua ip)
  unfolding Tokens.create
  create_token-Keeps u h t ua ip = search token_rules

  touch-Keeps : (u : User) → Keeps (IsSound x) (Users.touch_last_login x u)
  unfolding Users.touch_last_login
  touch-Keeps u = record {
    at = λ w h. record {
      current = IsConsistent-touch x (user_is u.id) (x.clock w.readings) w.started w.db h.current;
      committed = h.committed;
    };
  }

  pub find_by_id-Keeps : (u : Uuid) → Keeps (IsSound x) (Users.find_by_id u)
  unfolding Users.find_by_id
  find_by_id-Keeps u = record {
    at = λ w. (Keeps-scalar {P = IsSound x} (select (user_is u) w.db.users)).at w;
  }

  find_by_email-Keeps : (e : String) → Keeps (IsSound x) (Users.find_by_email x e)
  unfolding Users.find_by_email
  find_by_email-Keeps e = record {
    at = λ w. (Keeps-scalar {P = IsSound x} (select (email_is x e) w.db.users)).at w;
  }

  find_by_hash-Keeps : (h : Digest) → Keeps (IsSound x) (Tokens.find_by_hash h)
  unfolding Tokens.find_by_hash
  find_by_hash-Keeps h = record {
    at = λ w. (Keeps-scalar {P = IsSound x} (select (has_hash h) (tokens w))).at w;
  }

  count-Keeps : Keeps (IsSound x) (count_bcrypt x)
  unfolding count_bcrypt
  count-Keeps = record { at = λ w h. record { current = h.current; committed = h.committed } }

  value-Keeps : (o : Option String) → Keeps (IsSound x) (or_value_error x o)
  unfolding or_value_error
  value-Keeps none = search keeps_rules
  value-Keeps (some hash) = search keeps_rules

  pub hash_password-Keeps : (p : Text) → Keeps (IsSound x) (hash_password x p)
  unfolding hash_password
  hash_password-Keeps p = search (keeps_rules, draw-Keeps, count-Keeps, value-Keeps)

  set_dummy-Keeps :
      (h : String) → Keeps (IsSound x) (modify (λ w. record w { dummy_hash = some h }))
  set_dummy-Keeps hash = record {
    at = λ w h. record { current = h.current; committed = h.committed };
  }

  dummy-Keeps : (o : Option String) → Keeps (IsSound x) (dummy_or_new x o)
  unfolding dummy_or_new
  dummy-Keeps none = search (keeps_rules, hash_password-Keeps, set_dummy-Keeps)
  dummy-Keeps (some hash) = search keeps_rules

  get_dummy-Keeps : Keeps (IsSound x) (get_dummy_password_hash x)
  unfolding get_dummy_password_hash
  get_dummy-Keeps = record { at = λ w. (dummy-Keeps w.dummy_hash).at w }

  verify-Keeps : (p : Text) (h : String) → Keeps (IsSound x) (verify_password x p h)
  unfolding verify_password
  verify-Keeps p h = search (keeps_rules, Keeps-if, count-Keeps)

  ruleset service_rules = (
    token_rules, consume-Keeps, revoke_all-Keeps, revoke_by_hash-Keeps, create_token-Keeps,
    touch-Keeps, find_by_id-Keeps, find_by_email-Keeps, find_by_hash-Keeps, get_dummy-Keeps,
    hash_password-Keeps, verify-Keeps,
  )

  pub mint-Keeps : (u : User) (ua ip : Option Text) → Keeps (IsSound x) (mint_tokens x u ua ip)
  unfolding mint_tokens create_access_token generate_refresh_token
  mint-Keeps u ua ip = search service_rules

  family-Keeps : (t : RefreshToken) → Keeps (IsSound x) (revoke_family x t)
  unfolding revoke_family
  family-Keeps t = search service_rules

  react-Keeps : (o : Option RefreshToken) → Keeps (IsSound x) (react_to x o)
  unfolding react_to
  react-Keeps none = search keeps_rules
  react-Keeps (some t) = react_some t (t.revoked_at)
    where
      react_some :
          (t : RefreshToken) (at : Option Time)
          → Keeps (IsSound x) (elim at [
            | none ↦ pure tt
            | some _ ↦ (do t' ← now x; if leb t.expires_at t' then pure tt else revoke_family x t)
          ])
      react_some t none = search keeps_rules
      react_some t (some at) = search (service_rules, Keeps-if, family-Keeps)

  miss-Keeps : (h : Digest) → Keeps (IsSound x) (handle_refresh_miss x h)
  unfolding handle_refresh_miss
  miss-Keeps h = search (service_rules, react-Keeps)

  claimed-Keeps : (h : Digest) (o : Option Uuid) → Keeps (IsSound x) (require_claimed x h o)
  unfolding require_claimed
  claimed-Keeps h none = search (service_rules, miss-Keeps)
  claimed-Keeps h (some u) = search keeps_rules

  require_user-Keeps : (o : Option User) → Keeps (IsSound x) (require_user x o)
  unfolding require_user
  require_user-Keeps none = search keeps_rules
  require_user-Keeps (some u) = search keeps_rules

  reissue-Keeps : (u : Uuid) (ua ip : Option Text) → Keeps (IsSound x) (reissue x u ua ip)
  unfolding reissue
  reissue-Keeps u ua ip = search (service_rules, require_user-Keeps, mint-Keeps)

  pub refresh-Keeps : (raw : String) (ua ip : Option Text) → Keeps (IsSound x) (refresh x raw ua ip)
  unfolding refresh
  refresh-Keeps raw ua ip = search (service_rules, claimed-Keeps, reissue-Keeps)

  require_valid-Keeps : (o : Option User) (b : Bool) → Keeps (IsSound x) (require_valid x o b)
  unfolding require_valid
  require_valid-Keeps (some u) true = search keeps_rules
  require_valid-Keeps _ _ = search keeps_rules

  hash_to_verify-Keeps : (o : Option User) → Keeps (IsSound x) (hash_to_verify x o)
  unfolding hash_to_verify
  hash_to_verify-Keeps none = search service_rules
  hash_to_verify-Keeps (some u) = search keeps_rules

  pub login-Keeps :
      (email : String) (password : Text) (ua ip : Option Text)
      → Keeps (IsSound x) (login x email password ua ip)
  unfolding login
  login-Keeps email password ua ip =
      search (service_rules, mint-Keeps, hash_to_verify-Keeps, require_valid-Keeps) depth 7

  pub logout-Keeps : (raw : Option String) → Keeps (IsSound x) (logout x raw)
  unfolding logout
  logout-Keeps none = search keeps_rules
  logout-Keeps (some raw) = search (service_rules, Keeps-if)
