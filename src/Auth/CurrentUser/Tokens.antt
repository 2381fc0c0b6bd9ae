-- ===== src/Auth/CurrentUser/Tokens.antt =====
-- The access tokens that the service mints, read back by the guard of the routes.
use magna_cms.Prelude.{
  ◌+◌, ◌*◌, ◌≤◌, ◌≡◌, refl, sym, ap, ◌∙◌, String, Text, codes, Option, some, [], ◌∷◌, ◌++◌, select,
  strip, arith,
}
use magna_cms.Models.{User, Uuid, Time}
use magna_cms.Session.{World, External, ok, err, claims, expired_signature, now}
use magna_cms.Auth.Users.{user_is, find_by_id}
use magna_cms.Auth.Security.{create_access_token, decode_access_token, second}
use magna_cms.Middleware.Scopes.{lower, lower_char}
use magna_cms.Auth.Service.{get_user, or_gone}
use magna_cms.Auth.CurrentUser.{get_current_user, of_header, of_claims, user_of, token_expired}

-- What PyJWT and `uuid` document of one token: signed with a subject, an expiry and a type, it
-- gives these claims back from its issue on while a whole second is left, expires at the expiry,
-- and is a text without blanks; the text of a UUID is read back as that UUID.
pub record IsToken (x : External) (id : Uuid) (exp : Time) (kind : String) : Type 0 where
  pub jwt_decode-jwt_encode :
      (t : Time)
      → exp ≤ t + x.access_ttl * second
      → t + second ≤ exp
      → x.jwt_decode (codes (x.jwt_encode (x.uuid_str id) exp kind)) t
        ≡ claims (some (x.uuid_str id)) (some kind)
  pub jwt_decode-expired :
      (t : Time)
      → exp ≤ t
      → x.jwt_decode (codes (x.jwt_encode (x.uuid_str id) exp kind)) t ≡ expired_signature
  pub strip-jwt_encode :
      strip (codes (x.jwt_encode (x.uuid_str id) exp kind))
      ≡ codes (x.jwt_encode (x.uuid_str id) exp kind)
  pub uuid_of-uuid_str : x.uuid_of (x.uuid_str id) ≡ some id

module _ (x : External) (user : User) (token : String) (w u : World) where
  -- What the client sends: "Bearer " and the token.
  abbrev pub bearer : Option Text
  bearer = some (codes "Bearer " ++ codes token)

  abbrev issued : Time
  issued = x.clock w.readings

  minted :
      {v : World}
      → create_access_token x (x.uuid_str user.id) w ≡ (ok token, v)
      → x.jwt_encode (x.uuid_str user.id) (issued + x.access_ttl * second) "access" ≡ token
  unfolding create_access_token now
  minted m = cc

  sent :
      {v : World}
      → IsToken x user.id (issued + x.access_ttl * second) "access"
      → create_access_token x (x.uuid_str user.id) w ≡ (ok token, v)
      → strip (codes token) ≡ codes token
  sent j m = ap (λ t. strip (codes t)) (sym (minted m)) ∙ j.strip-jwt_encode ∙ ap codes (minted m)

  -- The access token that is minted for a user, sent in a Bearer header of a later request while a
  -- second of the token's lifetime is left: that user is the caller, and no row changes.
  pub get_current_user-create_access_token :
      {v : World}
      → IsToken x user.id (issued + x.access_ttl * second) "access"
      → select (user_is user.id) u.db.users ≡ user ∷ []
      → create_access_token x (x.uuid_str user.id) w ≡ (ok token, v)
      → issued ≤ x.clock u.readings
      → x.clock u.readings + second ≤ issued + x.access_ttl * second
      → get_current_user x bearer u ≡ (ok user, record u { readings = u.readings + 1 })
  unfolding get_current_user of_header of_claims user_of decode_access_token get_user or_gone
      find_by_id now lower lower_char
  get_current_user-create_access_token j e m after h =
      let read =
        ap (λ t. x.jwt_decode (codes t) (x.clock u.readings)) (sym (minted m))
        ∙ j.jwt_decode-jwt_encode (x.clock u.readings) (omega arith) h in
      rw (sent j m, read, j.uuid_of-uuid_str, e) refl

  -- From its expiry on, the access token that is minted for a user is refused with TOKEN_EXPIRED,
  -- and no row changes.
  pub get_current_user-expired :
      {v : World}
      → IsToken x user.id (issued + x.access_ttl * second) "access"
      → create_access_token x (x.uuid_str user.id) w ≡ (ok token, v)
      → issued + x.access_ttl * second ≤ x.clock u.readings
      → get_current_user x bearer u ≡ (err token_expired, record u { readings = u.readings + 1 })
  unfolding get_current_user of_header of_claims decode_access_token now lower lower_char
  get_current_user-expired j m h =
      let read =
        ap (λ t. x.jwt_decode (codes t) (x.clock u.readings)) (sym (minted m))
        ∙ j.jwt_decode-expired (x.clock u.readings) h in
      rw (sent j m, read) refl
