-- ===== src/Tests/World.antt =====
-- A concrete clock, random source, hash and database.
use text.Mathlib.TextPositions.{eq_refl}
use magna_cms.Prelude.{
  ℕ, zero, suc, ◌+◌, ◌*◌, sym, ap, ◌∙◌, String, Text, codes, text_eq, str_eq, eq_iff, Option, some,
  none, List, [], ◌∷◌, if◌then◌else◌, ltb, length, arith,
}
use magna_cms.Models.{Db, User, RefreshToken}
use magna_cms.Session.{World, External, claims, expired_signature, invalid_token}
use magna_cms.Auth.Service.Integrity.{IsCitext}
use magna_cms.Auth.Service.Registration.{AreHashes}

abbrev digest : ℕ → Text → ℕ
digest h [] = h
digest h (c ∷ t) = digest (h * 1000 + c) t

abbrev pub secret : Text
secret = codes "correct horse 1"

-- Two hashes: the one of the secret, and that of everything else.
abbrev hash_of : Text → String
hash_of p = if text_eq p secret then "hash-of-secret" else "hash-of-other"

abbrev pub external : External
external = record {
  clock = λ n. 1_000_000 + n;
  uuid4 = λ n. n + 100;
  uuid_of = λ s. if str_eq s "seven" then some 7 else none;
  uuid_str = λ u. "seven";
  token_hex = λ n. elim n [ zero ↦ "t0" | suc zero ↦ "t1" | suc (suc zero) ↦ "t2" | _ ↦ "t3" ];
  sha256 = λ s. digest 0 (codes s);
  hashpw = λ p n. some (hash_of p);
  checkpw = λ p h. some (str_eq h (hash_of p));
  utf8_length = λ p. length p;
  is_digit = λ c. ltb b'/' c;
  citext_eq = str_eq;
  jwt_encode = λ s t k. "jwt";
  jwt_decode = λ s t.
      if ltb t 901_000_000
      then (if text_eq s (codes "jwt")
          then claims (some "seven") (some "access")
          else invalid_token)
      else expired_signature;
  access_ttl = 900;
  refresh_ttl = 604_800;
  fts_match = λ t q. text_eq t q;
  piece_error = λ p. none;
  improvement_error = λ r. none;
}

abbrev pub alice : User
alice = record {
  id = 7;
  created_at = 5;
  updated_at = 5;
  email = "alice@example.com";
  password_hash = "hash-of-secret";
  full_name = "Alice";
  email_verified_at = none;
  last_login_at = none;
}

abbrev pub token : String → Option ℕ → RefreshToken
token raw revoked = record {
  id = 1;
  created_at = 5;
  updated_at = 5;
  user_id = 7;
  token_hash = digest 0 (codes raw);
  expires_at = 2_000_000;
  revoked_at = revoked;
  user_agent = none;
  ip_address = none;
}

abbrev pub database : List RefreshToken → Db
database rows = record {
  users = alice ∷ [];
  refresh_tokens = rows;
  content_pieces = [];
  generated_images = [];
  brand_voices = [];
  improvements = [];
}

abbrev pub world : List RefreshToken → World
world rows = record {
  db = database rows;
  committed = database rows;
  started = 1_000_000;
  readings = 0;
  draws = 0;
  dummy_hash = some "hash-of-other";
  bcrypt_runs = 0;
  llm_calls = [];
  image_calls = [];
}

pub external-IsCitext : IsCitext external
external-IsCitext = record {
  euclidean = λ a b c p q. (eq_iff a b).1 ((eq_iff a c).0 p ∙ sym ((eq_iff b c).0 q));
}

pub external-AreHashes : AreHashes external
external-AreHashes = record {
  checkpw-hashpw = λ p n h e. ap some ((eq_iff h (hash_of p)).1 (ground arith));
  citext_refl = eq_refl;
}
