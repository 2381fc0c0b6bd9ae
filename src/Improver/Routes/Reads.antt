-- ===== src/Improver/Routes/Reads.antt =====
-- What a GET reads after a POST and after a DELETE.
use magna_cms.Prelude.{
  ◌+◌, ◌≡◌, refl, ap, ◌∙◌, Text, codes, true, false, ◌&&◌, Option, none, some, List, [], ◌∷◌, ◌++◌,
  any, select, update_where, select-append, select_of_any-false, select-and, select-update_where_to,
  map, select-head, ==_refl, ==_iff, arith, inl, inr, subst,
}
use magna_cms.Models.{Improvement, Uuid, Time, Json, str}
use magna_cms.Auth.Users.{user_is}
use magna_cms.Session.{World, External, ok, err, now, commit}
use magna_cms.Session.Usage.{Answers}
use magna_cms.Schemas.Values.{to_texts, text_of, items_of-to_items}
use magna_cms.Schemas.Improvement.{
  ImproveRequest, ImprovementResult, ImprovementChangesSummary, is_improve_request, summary_dump,
  summary_of-summary_dump, result-IsFloat, IsFloat,
}
use magna_cms.Improver.Repository.{
  improvements, improvement_is, active_of, get_for_user, soft_delete, delete_found, deleted,
}
use magna_cms.Improver.Service.{Reader, fallback, rewrite_of}
use magna_cms.Improver.Service.Stages.{IsRewrite}
use magna_cms.Improver.Service.Endings.{Accepts, improve-stored, row_of, stored}
use magna_cms.Improver.Routes.{
  ImprovementResponse, improve, get_improvement, delete_improvement, project, response_with,
  improvement_not_found,
}

-- How Pydantic reads a float: what it has read it reads again, and it reads 0.0.
pub record AreFloats (float_of : Json → Option Text) : Type 0 where
  pub again : (k : Json) (t : Text) → float_of k ≡ some t → IsFloat float_of t
  pub zero_float : IsFloat float_of (codes "0.0")

module _ (x : External) (p : Reader) (w : World) (request : ImproveRequest) where
  summary_of_IsRewrite :
      (r : ImprovementResult)
      → AreFloats p.float_of
      → IsRewrite x p w request r
      → IsFloat p.float_of r.changes_summary.length_change_pct
  unfolding rewrite_of fallback
  summary_of_IsRewrite r floats (inl (answer, e)) = go (p.json_loads answer.raw_text) e
    where
      go :
          (j : Option Json)
          → rewrite_of p.float_of j ≡ some r
          → IsFloat p.float_of r.changes_summary.length_change_pct
      go none e = cc
      go (some j) e = result-IsFloat p.float_of j floats.again e
  summary_of_IsRewrite r floats (inr (raw, e)) =
      subst (λ q. IsFloat p.float_of q.changes_summary.length_change_pct) e floats.zero_float

-- The row of a fresh id is the one row of it.
select-fresh :
    (user_id : Uuid) (r : Improvement) (rows : List Improvement)
    → any (improvement_is r.id) rows ≡ false
    → r.user_id ≡ user_id
    → r.deleted_at ≡ none
    → select (λ q. improvement_is r.id q && active_of user_id q) (rows ++ r ∷ []) ≡ r ∷ []
select-fresh user_id r rows fresh o d =
    select-and (improvement_is r.id) (active_of user_id) (rows ++ r ∷ [])
    ∙ ap (select (active_of user_id)) (select-append (improvement_is r.id) rows (r ∷ []))
    ∙ rw (select_of_any-false (improvement_is r.id) rows fresh, ==_refl r.id, o, d, ==_refl user_id)
        refl

select-active :
    (improvement_id user_id : Uuid) (rows : List Improvement) (row : Improvement)
    → select (improvement_is improvement_id) rows ≡ row ∷ []
    → row.user_id ≡ user_id
    → row.deleted_at ≡ none
    → select (λ q. improvement_is improvement_id q && active_of user_id q) rows ≡ row ∷ []
select-active improvement_id user_id rows row e o d =
    select-and (improvement_is improvement_id) (active_of user_id) rows
    ∙ rw (e, o, d, ==_refl user_id) refl

select-gone :
    (improvement_id user_id : Uuid) (t at : Time) (rows : List Improvement) (row : Improvement)
    → select (improvement_is improvement_id) rows ≡ row ∷ []
    → row.id ≡ improvement_id
    → select
        (λ q. improvement_is improvement_id q && active_of user_id q)
        (update_where (improvement_is row.id) (deleted t at) rows)
      ≡ []
select-gone improvement_id user_id t at rows row e here = rw here (
    select-and (improvement_is improvement_id) (active_of user_id)
      (update_where (improvement_is improvement_id) (deleted t at) rows)
    ∙ ap (select (active_of user_id)) (
        select-update_where_to (improvement_is improvement_id) (deleted t at) rows (λ q h. h)
        ∙ ap (map (deleted t at)) e)
    ∙ ground arith)

module _ (x : External) (p : Reader) (user_id : Uuid) where
  -- A stored row of texts and a dumped summary is projected.
  project_lem :
      (r : Improvement) (lines : List Text) (s : ImprovementChangesSummary) (w : World)
      → IsFloat p.float_of s.length_change_pct
      → r.explanation ≡ to_texts lines
      → r.changes_summary ≡ summary_dump s
      → project p.float_of r w ≡ (ok (response_with r lines s), w)
  unfolding project
  project_lem r lines s w float e f =
      rw
        (
          e,
          f,
          items_of-to_items (λ j. text_of (some j)) str lines (λ t. refl),
          summary_of-summary_dump p.float_of s float,
        )
        refl

  -- A user's POST of a valid request, under a fresh id and with calls that answer, if
  -- the database accepts the values of its row, returns the
  -- improvement that a GET of its id then returns.
  pub improve-get_improvement :
      (request : ImproveRequest) (w : World)
      → is_improve_request request ≡ true
      → any (user_is user_id) w.db.users ≡ true
      → Answers p.llm
      → Accepts x p user_id request w
      → AreFloats p.float_of
      → any (improvement_is (x.uuid4 w.draws)) (improvements w) ≡ false
      → (response : ImprovementResponse) × (v : World) × (improve x p user_id request w
          ≡ (ok response, v))
        × (v.committed ≡ v.db)
        × (get_improvement x p user_id response.id v ≡ (ok response, v))
  unfolding improve get_improvement get_for_user commit
  improve-get_improvement request w valid user answers accepts floats fresh =
      let (a, b, requests, run, is_rewrite) =
        improve-stored x p user_id request w valid user answers accepts in
      let r = row_of x p user_id request w a b in
      let u = stored x p user_id request w requests r in
      let v = record u { committed = u.db } in
      let float = summary_of_IsRewrite x p w request b.result floats is_rewrite in
      let shown = project_lem r b.result.explanation b.result.changes_summary v float refl refl in
      let row = select-fresh user_id r (improvements w) fresh refl refl in
      (
        response_with r b.result.explanation b.result.changes_summary,
        v,
        rw run shown,
        refl,
        rw row shown,
      )

  -- A user's DELETE of an active improvement of theirs returns it with the time of its deletion and
  -- commits; a GET of it is IMPROVEMENT_NOT_FOUND from then on, and so is a second DELETE.
  pub delete_improvement-get_improvement :
      (improvement_id : Uuid) (w : World) (row : Improvement) (lines : List Text)
      (s : ImprovementChangesSummary)
      → select (improvement_is improvement_id) (improvements w) ≡ row ∷ []
      → row.user_id ≡ user_id
      → row.deleted_at ≡ none
      → row.explanation ≡ to_texts lines
      → row.changes_summary ≡ summary_dump s
      → IsFloat p.float_of s.length_change_pct
      → (response : ImprovementResponse) × (v : World) × (delete_improvement x p user_id
            improvement_id w
          ≡ (ok response, v))
        × (response.deleted_at ≡ some (x.clock w.readings))
        × (v.committed ≡ v.db)
        × (get_improvement x p user_id improvement_id v ≡ (err improvement_not_found, v))
        × (delete_improvement x p user_id improvement_id v ≡ (err improvement_not_found, v))
  unfolding delete_improvement get_improvement soft_delete delete_found get_for_user now commit
  delete_improvement-get_improvement improvement_id w row lines s e o d texts dump float =
      let here =
        (==_iff row.id improvement_id).0
          (select-head (improvement_is improvement_id) (improvements w) e) in
      let found = select-active improvement_id user_id (improvements w) row e o d in
      let gone =
        select-gone improvement_id user_id (x.clock w.readings) w.started (improvements w) row e
          here in
      let r = deleted (x.clock w.readings) w.started row in
      let u = record w {
        readings = w.readings + 1;
        db = record w.db {
          improvements =
              update_where (improvement_is row.id) (deleted (x.clock w.readings) w.started)
                (improvements w);
        };
      } in
      let v = record u { committed = u.db } in
      let shown = project_lem r lines s v float texts dump in
      (response_with r lines s, v, rw found shown, refl, refl, rw gone refl, rw gone refl)
