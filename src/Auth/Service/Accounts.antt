-- ===== src/Auth/Service/Accounts.antt =====
-- Registration and login: which passwords are accepted, that a failed login tells nothing, and that
-- a registered account can log in.
use magna_cms.Prelude.{
  ◌+◌, ◌≤◌, ◌≡◌, ◌↔◌, ◌⊎◌, refl, String, Text, true, false, Option, some, [], ◌∷◌, arith, select,
  any, length, ltb, Bool-cases, inl, inr, if◌then◌else◌,
}
use magna_cms.Models.{User}
use magna_cms.Session.{World, External, err}
use magna_cms.Auth.Security.{
  accepted, validate_password_strength, checked, is_letter, verify_password,
  get_dummy_password_hash, password_max_bytes,
}
use magna_cms.Auth.Users.{email_is, find_by_email}
use magna_cms.Auth.Service.{login, invalid_credentials}

-- A password is accepted exactly when it has at least 8 code points, at most 72 bytes of UTF-8, an
-- ASCII letter and a decimal digit.
pub strength_iff :
    (x : External) (password : Text)
    → (validate_password_strength x password ≡ accepted) ↔ (
        (8 ≤ length password)
        × (x.utf8_length password ≤ 72)
        × (any is_letter password ≡ true)
        × (any x.is_digit password ≡ true))
unfolding validate_password_strength
strength_iff x password = (λ h. ground arith, λ h. ground arith)

module _ (x : External) (email : String) (password : Text) (ua ip : Option Text) (w : World) where
  -- The work of a login that fails: one bcrypt run, or none for a password that is too long.
  abbrev pub spent : World
  spent = record w {
    bcrypt_runs =
        if ltb password_max_bytes (x.utf8_length password)
        then w.bcrypt_runs
        else w.bcrypt_runs + 1;
  }

  -- Once the dummy hash is computed, a login with an unknown email and one with a wrong password
  -- raise the same error, run bcrypt equally often and leave the same world, with no row changed.
  pub login_rejects :
      {dummy : String}
      → w.dummy_hash ≡ some dummy
      → (select (email_is x email) w.db.users ≡ [])
        ⊎ ((user : User) × (select (email_is x email) w.db.users ≡ user ∷ [])
            × (checked (x.checkpw password user.password_hash) ≡ false))
      → login x email password ua ip w ≡ (err invalid_credentials, spent)
  unfolding login find_by_email get_dummy_password_hash verify_password
  login_rejects {dummy} d (inl unknown) =
      elim (Bool-cases (ltb password_max_bytes (x.utf8_length password))) [
        | inl long ↦ rw (unknown, d, long) refl
        | inr short ↦ rw (unknown, d, short) refl
      ]
  login_rejects {dummy} d (inr (user, known, wrong)) =
      elim (Bool-cases (ltb password_max_bytes (x.utf8_length password))) [
        | inl long ↦ rw (known, long) refl
        | inr short ↦ rw (known, short, wrong) refl
      ]
