-- ===== src/Auth/Service/Requests.antt =====
-- Sequences of requests to the authentication endpoints, each in a transaction of its own.
use magna_cms.Prelude.{String, Text, Option, List, [], ◌∷◌, any, Bool-cases, inl, inr}
use magna_cms.Exceptions.{Exc, integrity_error}
use magna_cms.Models.{User}
use magna_cms.Session.{World, External, rollback, get_db_session}
use magna_cms.Session.Keeps.{Keeps, get_db_session-Held, keeps_rules}
use magna_cms.Auth.Security.{PasswordCheck, accepted, too_weak}
use magna_cms.Auth.Users
use magna_cms.Auth.Users.{email_is}
use magna_cms.Auth.Service.{
  register, login, refresh, logout, on_create_error, create_user, require_strong,
}
use magna_cms.Auth.Service.Integrity.{IsCitext, IsSound, IsConsistent-user}
use magna_cms.Auth.Service.Preserves.{
  draw-Keeps, hash_password-Keeps, mint-Keeps, refresh-Keeps, login-Keeps, logout-Keeps,
}

pub data AuthRequest : Type 0 where
  register_request : String → Text → String → AuthRequest
  login_request : String → Text → AuthRequest
  refresh_request : String → AuthRequest
  logout_request : Option String → AuthRequest

module _ (x : External) (ua ip : Option Text) where
  -- One request: its handler's writes are committed if it returns and undone if it raises.
  unfoldable pub serve_one : AuthRequest → World → World
  serve_one (register_request email password full_name) w =
      (get_db_session (register x email password full_name ua ip) w).1
  serve_one (login_request email password) w = (get_db_session (login x email password ua ip) w).1
  serve_one (refresh_request raw) w = (get_db_session (refresh x raw ua ip) w).1
  serve_one (logout_request raw) w = (get_db_session (logout x raw) w).1

  unfoldable pub serve : List AuthRequest → World → World
  serve [] w = w
  serve (r ∷ requests) w = serve requests (serve_one r w)

module _ (x : External) (law : IsCitext x) where
  insert_user-Keeps : (u : User) → Keeps (IsSound x) (Users.insert x u)
  unfolding Users.insert
  insert_user-Keeps u = record {
    at = λ w h. elim (Bool-cases (any (email_is x u.email) w.db.users)) [
      | inl dup ↦ rw dup h
      | inr fresh ↦ rw fresh (record {
        current = IsConsistent-user x law w.db u h.current fresh;
        committed = h.committed;
      })
    ];
  }

  rollback-Keeps : Keeps (IsSound x) rollback
  unfolding rollback
  rollback-Keeps = record { at = λ w h. record { current = h.committed; committed = h.committed } }

  create-Keeps : (e h n : String) → Keeps (IsSound x) (Users.create x e h n)
  unfolding Users.create
  create-Keeps e h n = search (keeps_rules, draw-Keeps, insert_user-Keeps)

  on_error-Keeps : (e : Exc) → Keeps (IsSound x) (on_create_error x e)
  unfolding on_create_error
  on_error-Keeps integrity_error = search (keeps_rules, rollback-Keeps)
  on_error-Keeps _ = search keeps_rules

  create_user-Keeps : (e : String) (p : Text) (n : String) → Keeps (IsSound x) (create_user x e p n)
  unfolding create_user
  create_user-Keeps e p n = search (keeps_rules, hash_password-Keeps, create-Keeps, on_error-Keeps)

  require_strong-Keeps : (c : PasswordCheck) → Keeps (IsSound x) (require_strong x c)
  unfolding require_strong
  require_strong-Keeps accepted = search keeps_rules
  require_strong-Keeps (too_weak m) = search keeps_rules

  pub register-Keeps :
      (email : String) (password : Text) (full_name : String) (ua ip : Option Text)
      → Keeps (IsSound x) (register x email password full_name ua ip)
  unfolding register
  register-Keeps e p n ua ip =
      search (keeps_rules, require_strong-Keeps, create_user-Keeps, mint-Keeps)

  serve_one-IsSound :
      (ua ip : Option Text) (r : AuthRequest) (w : World)
      → IsSound x w
      → IsSound x (serve_one x ua ip r w)
  unfolding serve_one
  serve_one-IsSound ua ip (register_request e p n) w h =
      get_db_session-Held _ w (register-Keeps e p n ua ip) h
  serve_one-IsSound ua ip (login_request e p) w h =
      get_db_session-Held _ w (login-Keeps x e p ua ip) h
  serve_one-IsSound ua ip (refresh_request raw) w h =
      get_db_session-Held _ w (refresh-Keeps x raw ua ip) h
  serve_one-IsSound ua ip (logout_request raw) w h = get_db_session-Held _ w (logout-Keeps x raw) h

  -- Whatever registrations, logins, refreshes and logouts are served in whatever order, failing or
  -- not, no two users have equal emails, no two tokens have one hash, and every token belongs to a
  -- user, given that CITEXT's equality is an equivalence as far as it is used.
  serve-IsSound :
      (ua ip : Option Text) (requests : List AuthRequest) (w : World)
      → IsSound x w
      → IsSound x (serve x ua ip requests w)
  unfolding serve
  serve-IsSound ua ip [] w h = h
  serve-IsSound ua ip (r ∷ requests) w h =
      serve-IsSound ua ip requests (serve_one x ua ip r w) (serve_one-IsSound ua ip r w h)
