-- ===== src/Lib.antt =====
-- MagnaCMS backend: accounts and sessions, rate limiting, header guards, the generation of content
-- and its dashboard, brand voices, the improver and the image pipeline.
--
-- The backend is a FastAPI service. A request passes the middlewares (CORS, security headers, a
-- request id, a CSRF guard, a rate limiter, the access log), its handler runs in one database transaction that commits when the handler
-- returns and rolls back when it raises, the handler calls services, and these call repositories
-- that hold the SQL. Each of these is a module here:
--
--   Exceptions          backend/app/core/exceptions.py: the errors, their statuses and envelopes
--   Models              backend/app/db/models, db/enums.py: the tables as records
--   Session             backend/app/db/session.py: the transaction of a request (`get_db_session`),
--                       and the actions that handlers are written in; what the program calls and
--                       does not implement is the record `External`
--   Session/Keeps       rules for invariants of actions; Session/Usage sums what calls of a model cost
--   Auth/Security       backend/app/core/security.py
--   Auth/Users, Tokens  backend/app/repositories/user_repository.py, refresh_token_repository.py
--   Auth/Service        backend/app/services/auth_service.py: register, login, get_user, refresh,
--                       logout. Its children prove what holds of them: Rotation (the rows after a
--                       refresh), Reuse (a replayed token), Sessions (tokens across requests),
--                       Accounts (logins and passwords), Registration (a login after a
--                       registration), Integrity and Preserves (uniqueness and references),
--                       Requests (any sequence of requests)
--   Auth/CurrentUser    backend/app/api/v1/deps.py: the caller of a request
--   Auth/Bodies         backend/app/schemas/auth.py: the bodies of registrations and logins; Rejected
--                       is about bodies that never reach the service
--   Auth/Routes         backend/app/api/v1/routers/auth.py; Clients is about what is stored of a client
--   RateLimit           backend/app/middleware/rate_limit.py and the rules of main.py; Window is
--                       about one bucket, Buckets about the table and the hint to retry
--   Middleware          backend/app/middleware/csrf.py, request_id.py, security_headers.py
--   Pipeline            backend/app/main.py and middleware/logging.py: the application around its
--                       routes. Guarded is about answers of the guards, Logged about the access
--                       log, Unhandled about exceptions that no handler expects
--   Schemas             backend/app/schemas/content.py and improvement.py: what a model may answer,
--                       read from JSON, checked and written (Values is Pydantic's reading)
--   Prompts             backend/app/prompts: the texts that a model is sent
--   Renderers           backend/app/services/renderers: Layouts, AdCopy, Tags and Words
--   BrandVoices         backend/app/repositories/brand_voice_repository.py (Repository),
--                       services/brand_voice_service.py (Block), api/v1/routers/brand_voices.py
--                       (Routes; Patches is about updates)
--   Content/Service     backend/app/services/content_service.py; Stages is about the answers of the
--                       model, Stored about reading a stored result
--   Content/Repository  backend/app/repositories/content_repository.py; Restore is about deleting
--                       and restoring, Readable about results
--   Content/Routes      backend/app/api/v1/routers/content.py; Media has the routes of images and
--                       exports, Pages is about the list, Owners about other users' pieces,
--                       Generated about reading what was generated, Readable and Requests about
--                       sequences of requests
--   Content/Export      backend/app/services/export_service.py; Names is about slugs and file names
--   Improver            backend/app/services/improver_service.py (Service; Stages and Endings are
--                       about its calls), repositories/improvement_repository.py (Repository) and
--                       api/v1/routers/improve.py (Routes; Reads is about what is read back)
--   Providers/Retry     backend/app/providers: the loop that both clients of OpenAI
--                       retry in; Attempts is about its results
--   Providers/Chat      backend/app/providers/llm/openai_provider.py: one call of the text model;
--                       Requests is about a model that fails
--   Providers/ImageClient  backend/app/providers/image/openai_provider.py
--   Providers/Mock      backend/app/providers/llm/mock.py; Canned holds its answers, Runs is about
--                       generations with it
--   Providers/Factory   backend/app/providers/factory.py: the providers by the settings; Modes is
--                       about settings that pass
--   Images              backend/app/services/image_service.py (Service), image_storage.py
--                       (Storage), repositories/image_repository.py (Repository) and
--                       prompts/image_prompt_builder.py (Prompt)
--   Config              backend/app/core/config.py: the checks of the settings at startup; Accepted
--                       is about settings that pass
--   Config/Database     backend/app/core/aws_secrets.py: the URL of the database; Encrypted is about
--                       the URLs that a secret gives
--   Health              backend/app/api/v1/routers/health.py
--   Seed                backend/app/scripts/seed.py: the demo data; Steps, Pieces, Images and
--                       Improvements are about its parts, Again about a second run
--   Prelude             lists by native numbers, SQL's WHERE, UPDATE and ORDER BY, Python's texts
--   Tests               runs and theorems at concrete data
--
-- How state and operations correspond. A `World` is the process and the database as one request
-- sees them: the rows of its transaction, the committed rows, and how often the clock, the random
-- source, bcrypt and the providers were asked. An action takes a world and returns a result or an
-- exception with the next world; what it wrote before it raised stays in the transaction until
-- `get_db_session` rolls back. `SELECT` is `select`, `UPDATE` is `update_where`,
-- `scalar_one_or_none` raises on two rows, and an insert checks the unique constraints and foreign
-- keys that the models declare. Concurrent requests are sequences of such steps; a row lock that
-- another transaction holds is the parameter `lock_held`.
--
-- Numbers. A UUID is a number, ordered as PostgreSQL orders UUIDs; a time is a number of
-- microseconds; a cost is a number of units of 1e-8 USD, so that the sums of the services are exact,
-- and a row keeps it as its column `Numeric(10, 6)` rounds it. Page numbers and
-- sizes are natural, as the routes validate them. A float of a model's answer is the text that
-- writes it. All functions are structural recursion, so no fuel is needed; a generation makes at
-- most two calls of a model and an improvement at most four, and a call makes as many attempts as
-- the setting says, as the code does.
--
-- What is not modelled: the network calls of the providers, bcrypt, PyJWT, hashing and random
-- sources, which are parameters with the laws that a theorem names; Starlette's own layers and
-- Pydantic's checks of types, likewise (`IsStarlette`, `Pydantic`); the format of log lines and
-- their configuration, and the reading of settings from the environment; the JSON schemas of the
-- prompts, which the provider gets as a flag; the migrations, the frontend and the infrastructure.
-- A statement's effect on the rows is one step: the isolation of concurrent statements is
-- PostgreSQL's. What the driver or the database raises at the values of a new row (a NUL in a text,
-- a float in JSONB that is not finite, a cost beyond the precision) is a parameter of the inserts of
-- pieces, improvements and images; the other tables are taken to accept theirs. An exception of
-- json.loads that the services do not catch counts as one of the call of the model.
pub mod Prelude
pub mod Exceptions
pub mod Models
pub mod Schemas
pub mod Session
pub mod Auth
pub mod RateLimit
pub mod Prompts
pub mod Renderers
pub mod BrandVoices
pub mod Content
pub mod Improver
pub mod Providers
pub mod Config
pub mod Middleware
pub mod Pipeline
pub mod Health
pub mod Seed
pub mod Images
mod Tests
