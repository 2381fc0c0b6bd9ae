-- ===== src/Session.antt =====
-- backend/app/db/session.py, and what a request handler runs in. A `World` is the process and its
-- database as one request sees them: the rows of its transaction (`db`), the rows that a rollback
-- brings back (`committed`), the timestamp of the transaction, and how many clock readings, random
-- draws, bcrypt runs and provider calls were made. An action returns or raises, and what it wrote
-- before it raised stays written until the session rolls back.

pub mod Keeps
pub mod Usage
use magna_cms.Prelude.{ℕ, ◌+◌, String, Text, Bool, Option, none, some}
use magna_cms.Prelude.{List, [], ◌∷◌, ◌++◌, length}
use magna_cms.Prelude.{◌≡◌, ◌≢◌, refl}
use magna_cms.Exceptions.{Exc, multiple_results}
use magna_cms.Models.{Db, Time, Uuid, Cost, Digest, ContentPiece, Improvement}

-- The arguments of one `ILLMProvider.generate` call, and what a call returns.
pub record LlmRequest : Type 0 where
  pub system_prompt : Text
  pub user_prompt : Text
  -- Whether the call passes the strict `json_schema`.
  pub strict : Bool
  pub content_type : String

pub record LlmResult : Type 0 where
  pub raw_text : Text
  pub model : String
  pub input_tokens : ℕ
  pub output_tokens : ℕ
  pub cost_usd : Cost

pub record World : Type 0 where
  pub db : Db
  pub committed : Db
  -- The transaction's timestamp, which `func.now()` returns.
  pub started : Time
  pub readings : ℕ
  pub draws : ℕ
  pub dummy_hash : Option String
  pub bcrypt_runs : ℕ
  pub llm_calls : List LlmRequest
  -- The prompts of the image provider's calls.
  pub image_calls : List Text

pub data Result {ℓ} (A : Type ℓ) : Type ℓ where
  ok : A → Result A
  err : Exc → Result A

abbrev pub Action {ℓ} : Type ℓ → Type ℓ
Action A = World → Result A × World

module _ {ℓ} {A : Type ℓ} where
  abbrev pub pure : A → Action A
  pure a w = (ok a, w)

  abbrev pub raise : Exc → Action A
  raise e w = (err e, w)

  abbrev pub gets : (World → A) → Action A
  gets f w = (ok (f w), w)

  abbrev pub handle_with : Result A × World → (Exc → Action A) → Result A × World
  handle_with (ok a, w) h = (ok a, w)
  handle_with (err e, w) h = h e w

  -- `try: m except e: h e`
  abbrev pub catch : Action A → (Exc → Action A) → Action A
  catch m h w = handle_with (m w) h

-- SQLAlchemy's `Result.scalar_one_or_none`.
abbrev pub scalar_one_or_none {ℓ} : {A : Type ℓ} → List A → Action (Option A)
scalar_one_or_none [] = pure none
scalar_one_or_none (x ∷ []) = pure (some x)
scalar_one_or_none (x ∷ y ∷ rows) = raise multiple_results

module _ {ℓ} {A B : Type ℓ} where
  abbrev pub continue : Result A × World → (A → Action B) → Result B × World
  continue (ok a, w) f = f a w
  continue (err e, w) f = (err e, w)

  infixl 5 ◌>>=◌ ◌>>◌
  abbrev pub ◌>>=◌ : Action A → (A → Action B) → Action B
  ◌>>=◌ m f w = continue (m w) f

  abbrev pub ◌>>◌ : Action A → Action B → Action B
  ◌>>◌ m n w = continue (m w) (λ _. n)

  -- A successful bind, taken apart.
  pub >>=-eq-ok :
      (m : Action A) (f : A → Action B) (w : World) {b : B} {v : World}
      → (m >>= f) w ≡ (ok b, v)
      → (a : A) × (u : World) × (m w ≡ (ok a, u)) × (f a u ≡ (ok b, v))
  >>=-eq-ok m f w e = go (m w) refl e
    where
      go :
          (r : Result A × World) {b : B} {v : World}
          → m w ≡ r
          → continue r f ≡ (ok b, v)
          → (a : A) × (u : World) × (m w ≡ (ok a, u)) × (f a u ≡ (ok b, v))
      go (ok a, u) p q = (a, u, p, q)
      go (err e, u) p q = cc

  pub bind-pure-eq-ok :
      (m : Action A) (g : A → B) (w : World) {b : B} {v : World}
      → (m >>= λ a. pure (g a)) w ≡ (ok b, v)
      → (a : A) × (m w ≡ (ok a, v)) × (g a ≡ b)
  bind-pure-eq-ok m g w e = go (m w) refl e
    where
      go :
          (r : Result A × World) {b : B} {v : World}
          → m w ≡ r
          → continue r (λ a. pure (g a)) ≡ (ok b, v)
          → (a : A) × (m w ≡ (ok a, v)) × (g a ≡ b)
      go (ok a, u) p q = (a, cc, cc)
      go (err e, u) p q = cc

  -- What raises at its end returns nothing.
  pub then-raise-ne-ok :
      (m : Action A) (e : Exc) (w : World) {b : B} {v : World} → (m >> raise e) w ≢ (ok b, v)
  then-raise-ne-ok m e w q = go (m w) q
    where
      go : (r : Result A × World) {b : B} {v : World} → continue r (λ _. raise e) ≡ (ok b, v) → ⊥
      go (ok a, u) q = cc
      go (err e, u) q = cc

abbrev pub modify : (World → World) → Action (Unit {0})
modify f w = (ok tt, f w)

abbrev pub modify_db : (Db → Db) → Action (Unit {0})
modify_db f w = (ok tt, record w { db = f w.db })

unfoldable pub commit : Action (Unit {0})
commit w = (ok tt, record w { committed = w.db })

unfoldable pub rollback : Action (Unit {0})
rollback w = (ok tt, record w { db = w.committed })

module _ {ℓ} {A : Type ℓ} where
  abbrev pub settle : Result A × World → Result A × World
  settle (ok a, w) = (ok a, record w { committed = w.db })
  settle (err e, w) = (err e, record w { db = w.committed })

  -- `get_db_session` around a handler: commit on clean exit, roll back on an exception.
  unfoldable pub get_db_session : Action A → Action A
  get_db_session handler w = settle (handler (record w { db = w.committed }))

-- A call of `ILLMProvider.generate`: the provider is a function of the number of earlier calls and
-- the request, and raises or answers. What `json.loads` then raises at an answer and is no
-- JSONDecodeError (a ValueError of a number of too many digits, a RecursionError) no service catches,
-- and no service changes a row before it decodes: such an answer counts as a call that raises.
abbrev pub call_llm : (ℕ → LlmRequest → Result LlmResult) → LlmRequest → Action LlmResult
call_llm llm r w = (llm (length w.llm_calls) r, record w { llm_calls = w.llm_calls ++ r ∷ [] })

-- What `jwt.decode` makes of a token: its `sub` and `type` claims, each if it is a text.
pub data Decoded : Type 0 where
  expired_signature invalid_token : Decoded
  claims : Option String → Option String → Decoded

-- What the program calls and does not implement, and its settings. A stream gives the n-th clock
-- reading or draw.
pub record External : Type 0 where
  -- `datetime.now(UTC)`
  pub clock : ℕ → Time
  -- `uuid.uuid4`, `uuid.UUID(text)` and `str(id)`
  pub uuid4 : ℕ → Uuid
  pub uuid_of : String → Option Uuid
  pub uuid_str : Uuid → String
  -- `secrets.token_hex(32)`
  pub token_hex : ℕ → String
  -- `hashlib.sha256(raw).hexdigest()`
  pub sha256 : String → Digest
  -- `bcrypt.hashpw` under the salt of the n-th draw; `none` is a `ValueError`
  pub hashpw : Text → ℕ → Option String
  -- `bcrypt.checkpw`; `none` is a `ValueError` or a `TypeError`
  pub checkpw : Text → String → Option Bool
  -- `len(text.encode("utf-8"))`
  pub utf8_length : Text → ℕ
  -- `\d` of `re` at one code point
  pub is_digit : ℕ → Bool
  -- Equality of the column type CITEXT
  pub citext_eq : String → String → Bool
  -- `jwt.encode` of a subject, an expiry and a type; `jwt.decode` at a time
  pub jwt_encode : String → Time → String → String
  pub jwt_decode : Text → Time → Decoded
  -- `settings.jwt_access_token_ttl_seconds` and `settings.jwt_refresh_token_ttl_seconds`
  pub access_ttl : ℕ
  pub refresh_ttl : ℕ
  -- `to_tsvector('english', text) @@ plainto_tsquery('english', query)`, the query second
  pub fts_match : Text → Text → Bool
  -- What the driver or the database raises at the values of a new row: a text with a NUL, a float in
  -- JSONB that is not finite, a cost beyond the column's precision.
  pub piece_error : ContentPiece → Option Exc
  pub improvement_error : Improvement → Option Exc

-- `func.now()`
abbrev pub transaction_time : Action Time
transaction_time = gets (λ w. w.started)

-- `datetime.now(UTC)`
unfoldable pub now : External → Action Time
now x w = (ok (x.clock w.readings), record w { readings = w.readings + 1 })

-- One draw of randomness.
unfoldable pub draw : Action ℕ
draw w = (ok w.draws, record w { draws = w.draws + 1 })
