-- ===== src/Config/Database.antt =====
-- backend/app/core/aws_secrets.py and the validator of config.py that calls it: the URL of the
-- database from the secret that RDS manages. boto3, `json.loads` and `str` are parameters.
pub mod Encrypted
use magna_cms.Prelude.{String, Text, codes, Option, none, some, ◌++◌, is_empty, if◌then◌else◌}
use magna_cms.Models.{Json, null, bool, number, str, arr, obj}
use magna_cms.Schemas.Values.{value_of}

-- What `get_secret_value` does: it raises, or its response has a `SecretString` or none.
pub data Response : Type 0 where
  boto_error : Response
  response : Option Text → Response

pub record Secrets : Type 0 where
  pub get_secret_value : Text → Response
  -- `json.loads`, with `none` for a JSONDecodeError.
  pub loads : Text → Option Json
  -- `str` of a member of the secret, as an f-string calls it.
  pub python_str : Json → Text

-- Why the URL cannot be built. `type_error` is a subscript of what is no dict.
pub data Failure : Type 0 where
  no_response no_payload not_json type_error : Failure
  key_error : String → Failure

pub data Fetched (A : Type 0) : Type 0 where
  fetched : A → Fetched A
  failed : Failure → Fetched A

module _ (secrets : Secrets) where
  abbrev pub of_json : Option Json → Fetched Json
  of_json none = failed not_json
  of_json (some creds) = fetched creds

  abbrev pub of_response : Response → Fetched Json
  of_response boto_error = failed no_response
  of_response (response none) = failed no_payload
  of_response (response (some payload)) =
      if is_empty payload then failed no_payload else of_json (secrets.loads payload)

  unfoldable pub fetch_secret_json : Text → Fetched Json
  fetch_secret_json secret_arn = of_response (secrets.get_secret_value secret_arn)

  abbrev pub subscript : Json → String → Fetched Text
  subscript (obj members) key = elim (value_of key members) [
    | some value ↦ fetched (secrets.python_str value)
    | none ↦ failed (key_error key)
  ]
  subscript null key = failed type_error
  subscript (bool b) key = failed type_error
  subscript (number n) key = failed type_error
  subscript (str s) key = failed type_error
  subscript (arr a) key = failed type_error

  abbrev pub then_url : {A : Type 0} → Fetched A → (A → Fetched Text) → Fetched Text
  then_url (fetched a) rest = rest a
  then_url (failed e) rest = failed e

  abbrev pub server_of : Text → Text → Text → Text → Text → Text
  server_of username password host port dbname =
      codes "postgresql+asyncpg://"
      ++ username
      ++ codes ":"
      ++ password
      ++ codes "@"
      ++ host
      ++ codes ":"
      ++ port
      ++ codes "/"
      ++ dbname

  abbrev pub dsn : Text → Text → Text → Text → Text → Text
  dsn username password host port dbname =
      server_of username password host port dbname ++ codes "?ssl=require"

  unfoldable pub assemble_postgres_dsn : Json → Fetched Text
  assemble_postgres_dsn creds = then_url (subscript creds "username") (λ username.
      then_url (subscript creds "password") (λ password. then_url (subscript creds "host") (λ host.
        then_url (subscript creds "port") (λ port.
          then_url (subscript creds "dbname")
            (λ dbname. fetched (dsn username password host port dbname))))))

  unfoldable pub resolve_database_url_from_rds_secret : Text → Fetched Text
  unfolding fetch_secret_json assemble_postgres_dsn
  resolve_database_url_from_rds_secret secret_arn =
      then_url (fetch_secret_json secret_arn) assemble_postgres_dsn

  -- `Settings._resolve_database_url_from_rds_secret`: the `database_url` after it.
  unfoldable pub resolve_database_url : Text → Text → Fetched Text
  unfolding resolve_database_url_from_rds_secret
  resolve_database_url rds_secret_arn database_url =
      if is_empty rds_secret_arn
      then fetched database_url
      else resolve_database_url_from_rds_secret rds_secret_arn
