-- ===== src/Content/Routes/Readable.antt =====
-- The stored results stay readable, whatever requests are served.
use magna_cms.Prelude.{ℕ, ◌≡◌, refl, Text, true, Option, none, some, Option-cases, inl, inr, select}
use magna_cms.Exceptions.{Exc}
use magna_cms.Models.{
  ContentPiece, ContentType, ResultParseStatus, parsed, retried, Json, Uuid, Time, BrandVoice,
}
use magna_cms.Session.{
  World, External, Result, LlmRequest, LlmResult, call_llm, draw, transaction_time, raise, commit,
  ◌>>=◌, ◌>>◌,
}
use magna_cms.Session.Keeps.{
  Keeps, Keeps-bind, Keeps-bind_given, Keeps-scalar, Gives, Gives-pure, Gives-bind, Keeps-gets,
  keeps_rules,
}
use magna_cms.Session.Usage.{Totals}
use magna_cms.Schemas.Content.{GenerateRequest, ContentResult, model_validate}
use magna_cms.BrandVoices.Repository as Voices
use magna_cms.Content.Repository.{restore}
use magna_cms.Content.Repository.Readable.{
  is_readable, AllReadable, create-Keeps, get_for_user-Keeps, include_deleted-Keeps,
  soft_delete-Keeps, restore-Keeps,
}
use magna_cms.Content.Service as Service
use magna_cms.Content.Service.{
  ParseOutcome, try_parse, settle_outcome, persist, maybe_brand_voice_block, block_of,
  project_result, validated, new_piece, result_jsonb, read_result, outcome_of, first_request,
}
use magna_cms.Content.Service.Stored.{IsReadable, read_result-IsReadable}
use magna_cms.Content.Routes.{
  ContentDetailResponse, generate, get_content, delete_content, restore_content, restore_checked,
  or_raise, detail, content_not_deleted, restore_window_expired,
}

call-Keeps :
    (llm : ℕ → LlmRequest → Result LlmResult) (r : LlmRequest) → Keeps AllReadable (call_llm llm r)
call-Keeps llm r = record { at = λ w h. record { current = h.current; committed = h.committed } }

draw-Keeps : Keeps AllReadable draw
unfolding draw
draw-Keeps = record { at = λ w h. record { current = h.current; committed = h.committed } }

commit-Keeps : Keeps AllReadable commit
unfolding commit
commit-Keeps = record { at = λ w h. record { current = h.current; committed = h.current } }

pub block-Keeps :
    {P : World → Type 0} (user_id : Uuid) (voice : Option Uuid)
    → Keeps P (maybe_brand_voice_block user_id voice)
unfolding maybe_brand_voice_block Voices.get_for_user block_of
block-Keeps user_id none = search keeps_rules
block-Keeps {P} user_id (some id) =
    Keeps-bind (Voices.get_for_user id user_id) block_of
      (record {
        at = λ w.
            (Keeps-scalar {P = P} (select (Voices.usable_voice id user_id) w.db.brand_voices)).at w;
      })
      found
  where
    found : (o : Option BrandVoice) → Keeps P (block_of o)
    found none = unfold block_of in search keeps_rules
    found (some voice) = unfold block_of in search keeps_rules

-- What a reading of an answer gives is readable, and so is the piece that is made of it.
IsReadable-read :
    (t : ContentType) (raw : Text) (status : ResultParseStatus) (j : Option Json)
    → IsReadable t (outcome_of raw status (read_result t j)).result
IsReadable-read t raw status j = elim (Option-cases (read_result t j)) [
  | inl e ↦ inl (rw e refl)
  | inr (r, e) ↦ inr (r, rw e refl, read_result-IsReadable t j r e)
]

new_piece-is_readable :
    (id user_id : Uuid) (at : Time) (request : GenerateRequest) (first : LlmRequest)
    (answer : LlmResult) (o : ParseOutcome) (totals : Totals)
    → IsReadable request.content_type o.result
    → is_readable (new_piece id at user_id request first answer o totals) ≡ true
new_piece-is_readable id user_id at request first answer o totals (inl e) = rw e refl
new_piece-is_readable id user_id at request first answer o totals (inr (r, e, again)) =
    rw (e, again) refl

validated-Keeps : (o : Option ContentResult) → Keeps AllReadable (validated o)
unfolding validated
validated-Keeps none = search keeps_rules
validated-Keeps (some r) = search keeps_rules

project-Keeps : (t : ContentType) (o : Option Json) → Keeps AllReadable (project_result t o)
unfolding project_result
project-Keeps t none = search keeps_rules
project-Keeps t (some j) = validated-Keeps (model_validate t j)

detail-Keeps : (piece : ContentPiece) → Keeps AllReadable (detail piece)
detail-Keeps piece = search (keeps_rules, project-Keeps)

or_raise-Keeps : (e : Exc) (o : Option ContentPiece) → Keeps AllReadable (or_raise e o)
unfolding or_raise
or_raise-Keeps e none = search keeps_rules
or_raise-Keeps e (some piece) = search keeps_rules

module _ (x : External) (llm : ℕ → LlmRequest → Result LlmResult)
    (json_loads : Text → Option Json) where
  -- The outcome that is stored.
  abbrev IsGood : ContentType → ParseOutcome × Totals → Type 0
  IsGood t p = IsReadable t p.0.result

  settle-Keeps :
      (t : ContentType) (first : LlmRequest) (answer : LlmResult) (o : Option ContentResult)
      → Keeps AllReadable (settle_outcome x llm json_loads t first answer o)
  unfolding settle_outcome
  settle-Keeps t first answer none = search (keeps_rules, call-Keeps)
  settle-Keeps t first answer (some r) = search keeps_rules

  settle-Gives :
      (t : ContentType) (first : LlmRequest) (answer : LlmResult) (o : Option ContentResult)
      → IsReadable t o
      → Gives (IsGood t) (settle_outcome x llm json_loads t first answer o)
  unfolding settle_outcome try_parse
  settle-Gives t first answer none h =
      Gives-bind (call_llm llm _) _ (λ again.
        Gives-pure _ (IsReadable-read t again.raw_text retried (json_loads again.raw_text)))
  settle-Gives t first answer (some r) h = Gives-pure _ h

  persist-Keeps :
      (user_id : Uuid) (request : GenerateRequest) (first : LlmRequest) (answer : LlmResult)
      (p : ParseOutcome × Totals)
      → IsGood request.content_type p
      → Keeps AllReadable (persist x llm json_loads user_id request first answer p.0 p.1)
  unfolding persist
  persist-Keeps user_id request first answer (o, totals) h = Keeps-bind draw _ draw-Keeps (λ n.
      Keeps-bind transaction_time _ (Keeps-gets (λ w. w.started)) (λ at.
        create-Keeps x (new_piece (x.uuid4 n) at user_id request first answer o totals)
          (new_piece-is_readable (x.uuid4 n) user_id at request first answer o totals h)))

  service-Keeps :
      (user_id : Uuid) (request : GenerateRequest)
      → Keeps AllReadable (Service.generate x llm json_loads user_id request)
  unfolding Service.generate try_parse
  service-Keeps user_id request =
      let t = request.content_type in
      Keeps-bind (maybe_brand_voice_block user_id request.brand_voice_id) _
        (block-Keeps user_id request.brand_voice_id)
        (λ block.
          let first = first_request request block in
          Keeps-bind (call_llm llm first) _ (call-Keeps llm first) (λ answer.
            let read = read_result t (json_loads answer.raw_text) in
            let o = (outcome_of answer.raw_text parsed read).result in
            Keeps-bind_given {Q = IsGood t} (settle_outcome x llm json_loads t first answer o) _
              (settle-Keeps t first answer o)
              (settle-Gives t first answer o
                (IsReadable-read t answer.raw_text parsed (json_loads answer.raw_text)))
              (λ p h. persist-Keeps user_id request first answer p h)))

  pub generate-Keeps :
      (user_id : Uuid) (request : GenerateRequest)
      → Keeps AllReadable (generate x llm json_loads user_id request)
  unfolding generate
  generate-Keeps user_id request = search (keeps_rules, service-Keeps, commit-Keeps, project-Keeps)

  restore_checked-Keeps :
      (user_id id : Uuid) (piece : ContentPiece)
      → Keeps AllReadable (restore_checked x user_id id piece)
  unfolding restore_checked
  restore_checked-Keeps user_id id piece = go piece.deleted_at
    where
      go :
          (d : Option Time)
          → Keeps {A = ContentDetailResponse} AllReadable (elim d [
            | none ↦ raise content_not_deleted
            | some _ ↦ do
              found ← restore x id user_id
              restored ← or_raise restore_window_expired found
              commit
              detail restored
          ])
      go none = search keeps_rules
      go (some t) = search (keeps_rules, restore-Keeps, or_raise-Keeps, commit-Keeps, detail-Keeps)

  pub get_content-Keeps : (user_id id : Uuid) → Keeps AllReadable (get_content x user_id id)
  unfolding get_content
  get_content-Keeps user_id id =
      search (keeps_rules, get_for_user-Keeps, or_raise-Keeps, detail-Keeps)

  pub delete_content-Keeps : (user_id id : Uuid) → Keeps AllReadable (delete_content x user_id id)
  unfolding delete_content
  delete_content-Keeps user_id id =
      search (keeps_rules, soft_delete-Keeps, or_raise-Keeps, commit-Keeps, detail-Keeps)

  pub restore_content-Keeps : (user_id id : Uuid) → Keeps AllReadable (restore_content x user_id id)
  unfolding restore_content
  restore_content-Keeps user_id id =
      search (keeps_rules, include_deleted-Keeps, or_raise-Keeps, restore_checked-Keeps)
