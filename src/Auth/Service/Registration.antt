-- ===== src/Auth/Service/Registration.antt =====
-- Registration: what a registration that succeeds has checked and written, and that the account can
-- then log in.
use magna_cms.Prelude.{
  ℕ, ◌+◌, ◌≡◌, ◌≢◌, refl, ap, sym, ◌∙◌, String, Text, true, false, Option, some, none, [], ◌∷◌,
  ◌++◌, arith, select, any, ltb, Bool-cases, inl, inr, select-append, any_of_select, ==_refl,
  update_where, any-update_where, select_of_any-false,
}
use magna_cms.Exceptions.{
  Exc, app, integrity_error, dbapi_error, multiple_results, other, http_exception,
  request_validation_error,
}
use magna_cms.Models.{Db, User}
use magna_cms.Session.{
  World, Action, External, Result, ok, err, rollback, >>=-eq-ok, bind-pure-eq-ok, handle_with, ◌>>◌,
}
use magna_cms.Auth.Security.{
  PasswordCheck, accepted, too_weak, validate_password_strength, checked, hash_password,
  verify_password, password_max_bytes,
}
use magna_cms.Auth.Users
use magna_cms.Auth.Users.{user_is, email_is, new_user, find_by_email, touched}
use magna_cms.Auth.Tokens.{tokens, has_hash}
use magna_cms.Auth.Service.{
  register, login, AuthTokens, mint_tokens, create_user, on_create_error, require_strong,
}
use magna_cms.Auth.Service.Accounts.{strength_iff}
use magna_cms.Auth.Service.Rotation.{mint-ok, mint-eq-ok, issued}

-- What is assumed of bcrypt and CITEXT: a password checks against its own hash, and an email is
-- equal to itself.
pub record AreHashes (x : External) : Type 0 where
  pub checkpw-hashpw :
      (password : Text) (salt : ℕ) (hash : String)
      → x.hashpw password salt ≡ some hash
      → x.checkpw password hash ≡ some true
  pub citext_refl : (e : String) → x.citext_eq e e ≡ true

abbrev pub with_user : World → User → World
with_user w user = record w {
  draws = w.draws + 1;
  db = record w.db { users = w.db.users ++ user ∷ [] };
}

module _ (x : External) (email : String) (password : Text) (name : String) (w : World) where
  pub hash_rows :
      (o : Option String)
      → x.hashpw password w.draws ≡ o
      → {hash : String} {v : World} → hash_password x password w ≡ (ok hash, v)
      → (o ≡ some hash) × (v ≡ record w { draws = w.draws + 1; bcrypt_runs = w.bcrypt_runs + 1 })
  unfolding hash_password
  hash_rows none e r = let r' = rw e at r in cc
  hash_rows (some h) e r = let r' = rw e at r in (cc, cc)

  pub create_rows :
      {user : User} {v : World} (hash : String)
      → Users.create x email hash name w ≡ (ok user, v)
      → (any (email_is x email) w.db.users ≡ false)
        × (user ≡ new_user x (x.uuid4 w.draws) email hash name w)
        × (v ≡ with_user w (new_user x (x.uuid4 w.draws) email hash name w))
  unfolding Users.create
  create_rows hash r = elim (Bool-cases (any (email_is x email) w.db.users)) [
    | inl dup ↦ let r' = rw dup at r in cc
    | inr fresh ↦ let r' = rw fresh at r in (fresh, cc, cc)
  ]

module _ (x : External) where
  -- Whatever `on_create_error` is given, it raises.
  on_error-ne-ok :
      (e : Exc) (w : World) {user : User} {v : World} → on_create_error x e w ≢ (ok user, v)
  unfolding on_create_error rollback
  on_error-ne-ok integrity_error w q = cc
  on_error-ne-ok (app e) w q = cc
  on_error-ne-ok (http_exception status detail) w q = cc
  on_error-ne-ok (request_validation_error errors) w q = cc
  on_error-ne-ok (dbapi_error e) w q = cc
  on_error-ne-ok multiple_results w q = cc
  on_error-ne-ok (other e) w q = cc

  uncaught :
      (r : Result User × World) {user : User} {v : World}
      → handle_with r (on_create_error x) ≡ (ok user, v)
      → r ≡ (ok user, v)
  uncaught (ok a, u) q = q
  uncaught (err e, u) q = absurd (on_error-ne-ok e u q)

module _ (x : External) (email : String) (password : Text) (name : String) (w : World) where
  abbrev pub hashed : World
  hashed = record w { draws = w.draws + 1; bcrypt_runs = w.bcrypt_runs + 1 }

  created_ok :
      {user : User} {v : World}
      → create_user x email password name w ≡ (ok user, v)
      → (hash : String) × (x.hashpw password w.draws ≡ some hash)
        × (any (email_is x email) w.db.users ≡ false)
        × (user ≡ new_user x (x.uuid4 (w.draws + 1)) email hash name w)
        × (v ≡ with_user hashed user)
  unfolding create_user
  created_ok q =
      let (hash, u, p, r) = >>=-eq-ok (hash_password x password) _ w (uncaught x _ q) in
      let (e, world) = hash_rows x email password name w _ refl p in
      let (fresh, same, after) = create_rows x email password name hashed hash (rw world at r) in
      (hash, e, fresh, same, after ∙ ap (with_user hashed) (sym same))

  strong_rows :
      (c : PasswordCheck)
      → {A : Type 0} (m : Action A) {a : A} {v : World} → (require_strong x c >> m) w ≡ (ok a, v)
      → (c ≡ accepted) × (m w ≡ (ok a, v))
  unfolding require_strong
  strong_rows accepted m q = (refl, q)
  strong_rows (too_weak e) m q = cc

module _ (x : External) (email : String) (password : Text) (name : String) (w : World) where
  -- What a registration that succeeds has checked, and the user that it wrote.
  pub register-eq-ok :
      (ua ip : Option Text) {user : User} {t : AuthTokens} {v : World}
      → register x email password name ua ip w ≡ (ok (user, t), v)
      → (hash : String) × (validate_password_strength x password ≡ accepted)
        × (x.hashpw password w.draws ≡ some hash)
        × (any (email_is x email) w.db.users ≡ false)
        × (user ≡ new_user x (x.uuid4 (w.draws + 1)) email hash name w)
        × (v.db.users ≡ w.db.users ++ user ∷ [])
  unfolding register
  register-eq-ok ua ip q =
      let (strong, q') = strong_rows x email password name w _ _ q in
      let (made, u, p, r) = >>=-eq-ok (create_user x email password name) _ w q' in
      let (hash, hashes, fresh, same, after) = created_ok x email password name w p in
      let (toks, m, pair) = bind-pure-eq-ok (mint_tokens x made ua ip) _ u r in
      let owner = ap (λ (a, b). a) pair in
      let (_, _, _, world) = mint-eq-ok x made ua ip u m in
      (
        hash,
        strong,
        hashes,
        fresh,
        sym owner ∙ same,
        ap (λ (s : World). s.db.users) world
            ∙ ap (λ (s : World). s.db.users) after
            ∙ ap (λ m. w.db.users ++ m ∷ []) owner,
      )

module _ (x : External) (email : String) (password : Text) (ua ip : Option Text) (w : World) where
  -- The world in which a login mints: one bcrypt run, one reading, the user's row touched.
  abbrev before_mint : User → World
  before_mint user = record w {
    bcrypt_runs = w.bcrypt_runs + 1;
    readings = w.readings + 1;
    db = record w.db {
      users = update_where (user_is user.id) (touched (x.clock w.readings) w.started) w.db.users;
    };
  }

  login_ok :
      {user : User}
      → select (email_is x email) w.db.users ≡ user ∷ []
      → ltb password_max_bytes (x.utf8_length password) ≡ false
      → checked (x.checkpw password user.password_hash) ≡ true
      → any (has_hash (x.sha256 (x.token_hex w.draws))) (tokens w) ≡ false
      → (t : AuthTokens) × ((login x email password ua ip w).0
          ≡ ok (touched (x.clock w.readings) w.started user, t))
  unfolding login find_by_email verify_password Users.touch_last_login
  login_ok {user} known short right fresh =
      let mint =
        mint-ok x (touched (x.clock w.readings) w.started user) ua ip (before_mint user) fresh (
          any-update_where (user_is user.id) (user_is user.id)
            (touched (x.clock w.readings) w.started) w.db.users (λ u. refl)
          ∙ any_of_select (email_is x email) (user_is user.id) w.db.users known
              (==_refl user.id)) in
      (issued x user.id ua ip (before_mint user), rw (known, short, right, mint) refl)

-- After a registration that succeeds, whatever the clock and the random draws, the same email and
-- password log the same user in, in any later world with the same rows, given that the random
-- token drawn there is new, that bcrypt accepts a password against its own hash, and that CITEXT's
-- equality is reflexive.
pub register-login :
    (x : External) (email : String) (password : Text) (name : String) (w : World)
    → AreHashes x
    → (ua ip : Option Text) {user : User} {t : AuthTokens} {v : World}
    → register x email password name ua ip w ≡ (ok (user, t), v)
    → (later : World) → later.db ≡ v.db
    → any (has_hash (x.sha256 (x.token_hex later.draws))) (tokens later) ≡ false
    → (again : User) × (t' : AuthTokens) × ((login x email password ua ip later).0 ≡ ok (again, t'))
      × (again.id ≡ user.id)
register-login x email password name w law ua ip {user} q later same fresh =
    let (hash, strong, hashes, new, made, rows) = register-eq-ok x email password name w ua ip q in
    let (_, short, _, _) = (strength_iff x password).0 strong in
    let mail : x.citext_eq user.email email ≡ true =
      ap (λ (u : User). x.citext_eq u.email email) made ∙ law.citext_refl email in
    let right : checked (x.checkpw password user.password_hash) ≡ true =
      ap (λ (u : User). checked (x.checkpw password u.password_hash)) made
      ∙ ap checked (law.checkpw-hashpw password w.draws hash hashes) in
    let known : select (email_is x email) later.db.users ≡ user ∷ [] =
      ap (λ (d : Db). select (email_is x email) d.users) same
      ∙ ap (select (email_is x email)) rows
      ∙ select-append (email_is x email) w.db.users (user ∷ [])
      ∙ rw (select_of_any-false (email_is x email) w.db.users new, mail) refl in
    let (t', done) = login_ok x email password ua ip later known (ground arith) right fresh in
    (_, t', done, refl)
