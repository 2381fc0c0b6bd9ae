-- ===== src/Config/Database/Encrypted.antt =====
-- The URL of a database that a secret names.
use magna_cms.Prelude.{◌≡◌, sym, Text, codes, false, ◌++◌, is_empty}
use magna_cms.Models.{Json}
use magna_cms.Config.Database.{
  Secrets, Fetched, fetched, failed, then_url, subscript, server_of, fetch_secret_json,
  assemble_postgres_dsn, resolve_database_url_from_rds_secret, resolve_database_url,
}

module _ (secrets : Secrets) where
  -- What succeeds after a step, succeeds after a value of the step.
  then_url-fetched :
      {A : Type 0} (s : Fetched A) (rest : A → Fetched Text) {url : Text}
      → then_url secrets s rest ≡ fetched url
      → (a : A) × (rest a ≡ fetched url)
  then_url-fetched (fetched a) rest h = (a, h)
  then_url-fetched (failed e) rest h = cc

  fetched-eq : {a b : Text} → fetched a ≡ fetched b → a ≡ b
  fetched-eq h = cc

  assemble-ssl :
      (creds : Json) {url : Text}
      → assemble_postgres_dsn secrets creds ≡ fetched url
      → (base : Text) × (url ≡ base ++ codes "?ssl=require")
  unfolding assemble_postgres_dsn
  assemble-ssl creds h =
      let (user, h1) = then_url-fetched (subscript secrets creds "username") _ h in
      let (password, h2) = then_url-fetched (subscript secrets creds "password") _ h1 in
      let (host, h3) = then_url-fetched (subscript secrets creds "host") _ h2 in
      let (port, h4) = then_url-fetched (subscript secrets creds "port") _ h3 in
      let (dbname, h5) = then_url-fetched (subscript secrets creds "dbname") _ h4 in
      (server_of secrets user password host port dbname, sym (fetched-eq h5))

  -- A process that is given a secret connects to the database with TLS or does not start.
  resolve_database_url-ssl :
      (rds_secret_arn database_url : Text) {url : Text}
      → is_empty rds_secret_arn ≡ false
      → resolve_database_url secrets rds_secret_arn database_url ≡ fetched url
      → (base : Text) × (url ≡ base ++ codes "?ssl=require")
  unfolding resolve_database_url resolve_database_url_from_rds_secret
  resolve_database_url-ssl rds_secret_arn database_url given h =
      let h' = rw given at h in
      let (creds, assembled) =
        then_url-fetched (fetch_secret_json secrets rds_secret_arn) (assemble_postgres_dsn secrets)
          h' in
      assemble-ssl creds assembled
