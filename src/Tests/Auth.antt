-- ===== src/Tests/Auth.antt =====
-- Authentication at concrete data.
use magna_cms.Prelude.{
  ◌≤◌, ◌≡◌, ◌≢◌, ◌↔◌, inr, refl, codes, any, true, ◌&&◌, some, none, List, [], ◌∷◌, arith, select,
  length,
}
use magna_cms.Models.{User, RefreshToken, Uuid, Digest}
use magna_cms.Session.{World, Result, ok, err, get_db_session, now, draw}
use magna_cms.Auth.Security.{
  accepted, validate_password_strength, is_letter, create_access_token, generate_refresh_token,
  hash_refresh_token, hash_password,
}
use magna_cms.Auth.Users
use magna_cms.Auth.Users.{user_is, email_is}
use magna_cms.Auth.Tokens
use magna_cms.Auth.Tokens.{
  has_hash, of_user, unrevoked, active_at, revoke, tokens, consume_if_active,
}
use magna_cms.Auth.Service.{
  register, login, refresh, reissue, mint_tokens, invalid_refresh_token, invalid_credentials,
  AuthTokens,
}
use magna_cms.Auth.Service.Rotation.{issued, after_claim, minted}
use magna_cms.Auth.Service.Reuse.{refresh_reuse, refresh_reuse-rolled_back}
use magna_cms.Auth.Service.Sessions.{IsUnique, refresh_rotates, refresh_spent}
use magna_cms.Auth.Service.Integrity.{IsConsistent}
use magna_cms.Auth.Service.Requests.{
  AuthRequest, register_request, login_request, refresh_request, logout_request,
}
use magna_cms.Auth.Service.Accounts.{strength_iff, login_rejects}
use magna_cms.Auth.Service.Registration.{register-login}
use magna_cms.Tests.World.{external, world, token, alice, secret, external-AreHashes}

abbrev one : World
one = world (token "raw" none ∷ [])

one-IsUnique : IsUnique (tokens one)
one-IsUnique h = ground arith

abbrev rotated : Result (User × AuthTokens) × World
rotated = (
  ok (alice, issued external 7 none none (after_claim external "raw" none none one)),
  minted external 7 none none (after_claim external "raw" none none one),
)

refresh-one : refresh external "raw" none none one ≡ rotated
unfolding refresh reissue mint_tokens consume_if_active Users.find_by_id create_access_token
    generate_refresh_token Tokens.create now hash_refresh_token
refresh-one = refl

refresh_spent_example :
    (refresh external "raw" none none (record (world (tokens rotated.1)) { readings = 9 })).0
    ≡ err invalid_refresh_token
refresh_spent_example =
    refresh_spent external "raw" none none one one-IsUnique refresh-one
      (record (world (tokens rotated.1)) { readings = 9 }) none none refl

refresh_rotates_example :
    (row : RefreshToken) × (fresh : RefreshToken) × (select
        (has_hash (external.sha256 "raw"))
        (tokens one)
      ≡ row ∷ [])
    × (active_at 1_000_000 row ≡ true)
    × (row.user_id ≡ 7)
    × (select (has_hash (external.sha256 "raw")) (tokens rotated.1)
        ≡ revoke 1_000_000 1_000_000 row ∷ [])
    × (select (has_hash (external.sha256 "t0")) (tokens rotated.1) ≡ fresh ∷ [])
    × (fresh.user_id ≡ 7)
    × (fresh.revoked_at ≡ none)
    × (fresh.expires_at ≡ 604_801_000_002)
    × ((h : Digest)
        → h ≢ external.sha256 "raw"
        → h ≢ external.sha256 "t0"
        → select (has_hash h) (tokens rotated.1) ≡ select (has_hash h) (tokens one))
refresh_rotates_example = refresh_rotates external "raw" none none one one-IsUnique refresh-one

-- A token that was spent, beside one that is still active.
abbrev replayed : World
replayed = world (token "raw" (some 900_000) ∷ token "other" none ∷ [])

refresh_reuse_example :
    ((refresh external "raw" none none replayed).0 ≡ err invalid_refresh_token)
    × (select
          (λ r. of_user 7 r && unrevoked r)
          (tokens (refresh external "raw" none none replayed).1)
        ≡ [])
    × ((other : Uuid)
        → other ≢ 7
        → select (of_user other) (tokens (refresh external "raw" none none replayed).1)
          ≡ select (of_user other) (tokens replayed))
refresh_reuse_example =
    refresh_reuse external "raw" none none replayed (token "raw" (some 900_000)) refl refl
      (omega arith)

refresh_reuse-rolled_back_example :
    ((get_db_session (refresh external "raw" none none) replayed).0 ≡ err invalid_refresh_token)
    × ((get_db_session (refresh external "raw" none none) replayed).1.db ≡ replayed.committed)
    × ((get_db_session (refresh external "raw" none none) replayed).1.committed
        ≡ replayed.committed)
refresh_reuse-rolled_back_example =
    refresh_reuse-rolled_back external "raw" none none replayed (token "raw" (some 900_000)) refl
      refl (omega arith)

one-IsConsistent : IsConsistent external one.db
one-IsConsistent = record { emails = λ e. ground arith; hashes = one-IsUnique; owned = refl }

abbrev script : List AuthRequest
script =
    register_request "bob@example.com" secret "Bob"
    ∷ login_request "alice@example.com" secret
    ∷ refresh_request "raw"
    ∷ refresh_request "raw"
    ∷ logout_request (some "t1")
    ∷ []

strength_iff_example : (validate_password_strength external secret ≡ accepted) ↔ (
    (8 ≤ length secret)
    × (length secret ≤ 72)
    × (any is_letter secret ≡ true)
    × (any external.is_digit secret ≡ true))
strength_iff_example = strength_iff external secret

login_rejects_example :
    login external "alice@example.com" (codes "wrong") none none one
    ≡ (err invalid_credentials, record one { bcrypt_runs = 1 })
login_rejects_example =
    login_rejects external "alice@example.com" (codes "wrong") none none one refl
      (inr (alice, refl, refl))

abbrev bob : User
bob = Users.new_user external 101 "bob@example.com" "hash-of-secret" "Bob" one

abbrev registered : Result (User × AuthTokens) × World
registered =
    let w = record one {
      draws = 2;
      bcrypt_runs = 1;
      db = record one.db { users = alice ∷ bob ∷ [] };
    } in
    (ok (bob, issued external 101 none none w), minted external 101 none none w)

register_bob : register external "bob@example.com" secret "Bob" none none one ≡ registered
unfolding register validate_password_strength is_letter hash_password Users.create mint_tokens
    create_access_token generate_refresh_token Tokens.create now draw hash_refresh_token
register_bob = refl

register-login_example :
    (again : User) × (t' : AuthTokens) × ((login external "bob@example.com" secret none none
        registered.1).0
      ≡ ok (again, t'))
    × (again.id ≡ 101)
register-login_example =
    register-login external "bob@example.com" secret "Bob" one external-AreHashes none none
      register_bob registered.1 refl refl
