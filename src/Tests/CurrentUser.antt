-- ===== src/Tests/CurrentUser.antt =====
-- Access tokens at concrete data.
use magna_cms.Prelude.{ℕ, ◌≡◌, refl, [], arith, strip, rstrip, lstrip, is_space}
use magna_cms.Session.{World, ok, err, now}
use magna_cms.Auth.Security.{create_access_token}
use magna_cms.Auth.CurrentUser.{get_current_user, token_expired}
use magna_cms.Auth.CurrentUser.Tokens.{
  IsToken, bearer, get_current_user-create_access_token, get_current_user-expired,
}
use magna_cms.Tests.World.{external, world, alice}

abbrev at_reading : ℕ → World
at_reading n = record (world []) { readings = n }

external-IsToken : IsToken external 7 901_000_000 "access"
unfolding strip rstrip lstrip is_space
external-IsToken = record {
  jwt_decode-jwt_encode = λ t i h. ground arith;
  jwt_decode-expired = λ t h. ground arith;
  strip-jwt_encode = refl;
  uuid_of-uuid_str = refl;
}

get_current_user-create_access_token_example :
    get_current_user external (bearer external alice "jwt" (world []) (at_reading 5)) (at_reading 5)
    ≡ (ok alice, at_reading 6)
unfolding create_access_token now
get_current_user-create_access_token_example =
    get_current_user-create_access_token external alice "jwt" (world []) (at_reading 5)
      external-IsToken refl refl (omega arith) (omega arith)

get_current_user-expired_example :
    get_current_user external
      (bearer external alice "jwt" (world []) (at_reading 900_000_000))
      (at_reading 900_000_000)
    ≡ (err token_expired, at_reading 900_000_001)
unfolding create_access_token now
get_current_user-expired_example =
    get_current_user-expired external alice "jwt" (world []) (at_reading 900_000_000)
      external-IsToken refl (omega arith)
