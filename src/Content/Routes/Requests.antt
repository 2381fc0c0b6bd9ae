-- ===== src/Content/Routes/Requests.antt =====
-- Sequences of requests to the routes of pieces, each in a transaction of its own.
use magna_cms.Prelude.{ℕ, Text, Option, List, [], ◌∷◌}
use magna_cms.Models.{Json, Uuid}
use magna_cms.Session.{World, External, Result, LlmRequest, LlmResult, get_db_session}
use magna_cms.Session.Keeps.{get_db_session-Held}
use magna_cms.Schemas.Content.{GenerateRequest}
use magna_cms.Content.Repository.Readable.{AllReadable}
use magna_cms.Content.Routes.{generate, get_content, delete_content, restore_content}
use magna_cms.Content.Routes.Readable.{
  generate-Keeps, get_content-Keeps, delete_content-Keeps, restore_content-Keeps,
}

-- A request of a user.
pub data ContentRequest : Type 0 where
  generate_request : Uuid → GenerateRequest → ContentRequest
  get_request delete_request restore_request : Uuid → Uuid → ContentRequest

module _ (x : External) (llm : ℕ → LlmRequest → Result LlmResult)
    (json_loads : Text → Option Json) where
  unfoldable pub serve_one : ContentRequest → World → World
  serve_one (generate_request user_id request) w =
      (get_db_session (generate x llm json_loads user_id request) w).1
  serve_one (get_request user_id id) w = (get_db_session (get_content x user_id id) w).1
  serve_one (delete_request user_id id) w = (get_db_session (delete_content x user_id id) w).1
  serve_one (restore_request user_id id) w = (get_db_session (restore_content x user_id id) w).1

  unfoldable pub serve : List ContentRequest → World → World
  serve [] w = w
  serve (r ∷ requests) w = serve requests (serve_one r w)

  serve_one-AllReadable :
      (r : ContentRequest) (w : World) → AllReadable w → AllReadable (serve_one r w)
  unfolding serve_one
  serve_one-AllReadable (generate_request user_id request) w h =
      get_db_session-Held _ w (generate-Keeps x llm json_loads user_id request) h
  serve_one-AllReadable (get_request user_id id) w h =
      get_db_session-Held _ w (get_content-Keeps x llm json_loads user_id id) h
  serve_one-AllReadable (delete_request user_id id) w h =
      get_db_session-Held _ w (delete_content-Keeps x llm json_loads user_id id) h
  serve_one-AllReadable (restore_request user_id id) w h =
      get_db_session-Held _ w (restore_content-Keeps x llm json_loads user_id id) h

  -- Whatever pieces are generated, read, deleted and restored in whatever order and by whatever
  -- users, whatever the model answers and whether the requests fail or not: the result of every
  -- stored piece stays one that its type's model accepts, or none.
  pub serve-AllReadable :
      (requests : List ContentRequest) (w : World) → AllReadable w → AllReadable (serve requests w)
  unfolding serve
  serve-AllReadable [] w h = h
  serve-AllReadable (r ∷ requests) w h =
      serve-AllReadable requests (serve_one r w) (serve_one-AllReadable r w h)
