-- ===== src/Seed/Improvements.antt =====
-- The improvement of the seed.
use magna_cms.Prelude.{
  ◌+◌, ◌≡◌, refl, sym, ap, ◌∙◌, subst, Text, true, inl, inr, Option, none, some, List, [], ◌∷◌,
  ◌++◌, select, select-append, any, ==_refl, Bool-cases, Option-cases,
}
use magna_cms.Models.{User, Improvement, Db, Uuid}
use magna_cms.Session.{World, External, ok, LlmRequest, LlmResult, draw, >>=-eq-ok}
use magna_cms.Session.Keeps.{
  Keeps, Keeps-pure, Keeps-raise, Keeps-if, keeps_rules, IsDb, same_db, call-IsDb, ok-pair,
}
use magna_cms.Auth.Users.{user_is}
use magna_cms.Schemas.Values.{filled}
use magna_cms.Schemas.Improvement.{ImproveRequest, ImprovementResult}
use magna_cms.Improver.Repository as Repository
use magna_cms.Improver.Repository.{improvements, refreshed, active_of}
use magna_cms.Improver.Service as Service
use magna_cms.Improver.Service.{
  Reader, Analysis, AnalyzeOutcome, RewriteOutcome, settle_analyze, run_analyze, degrade,
  settle_second, settle_rewrite, run_rewrite, store, new_improvement, fallback,
}
use magna_cms.Seed.{Tools, reader, improvement_or_new, find_improvement, ensure_one_improvement}
use magna_cms.Seed.Steps.{found_or_made}

module _ (x : External) (p : Reader) where
  settle_analyze-IsDb :
      (db : Db) (first : LlmRequest) (answer : LlmResult) (o : Option Analysis)
      → Keeps (IsDb db) (settle_analyze x p first answer o)
  unfolding settle_analyze
  settle_analyze-IsDb db first answer none = search (keeps_rules, call-IsDb)
  settle_analyze-IsDb db first answer (some a) = search keeps_rules

  run_analyze-IsDb :
      (db : Db) (request : ImproveRequest) → Keeps (IsDb db) (run_analyze x p request)
  unfolding run_analyze
  run_analyze-IsDb db request = search (keeps_rules, call-IsDb, settle_analyze-IsDb)

  settle_second-IsDb :
      (db : Db) (request : ImproveRequest) (one two : LlmResult) (o : Option ImprovementResult)
      → Keeps (IsDb db) (settle_second x p request one two o)
  unfolding settle_second degrade
  settle_second-IsDb db request one two none =
      Keeps-if (filled (fallback request two.raw_text).improved_text) _ _ (Keeps-pure _)
        (Keeps-raise _)
  settle_second-IsDb db request one two (some r) = search keeps_rules

  settle_rewrite-IsDb :
      (db : Db) (request : ImproveRequest) (first : LlmRequest) (answer : LlmResult)
      (o : Option ImprovementResult)
      → Keeps (IsDb db) (settle_rewrite x p request first answer o)
  unfolding settle_rewrite
  settle_rewrite-IsDb db request first answer none =
      search (keeps_rules, call-IsDb, settle_second-IsDb)
  settle_rewrite-IsDb db request first answer (some r) = search keeps_rules

  run_rewrite-IsDb :
      (db : Db) (request : ImproveRequest) (changes : List Text)
      → Keeps (IsDb db) (run_rewrite x p request changes)
  unfolding run_rewrite
  run_rewrite-IsDb db request changes = search (keeps_rules, call-IsDb, settle_rewrite-IsDb)

  stored-rows :
      (user_id : Uuid) (request : ImproveRequest) (a : AnalyzeOutcome) (b : RewriteOutcome)
      (w : World) {r : Improvement} {v : World}
      → store x p user_id request a b w ≡ (ok r, v)
      → (v.db ≡ record w.db { improvements = improvements w ++ r ∷ [] })
        × (active_of user_id r ≡ true)
  unfolding store draw Repository.create
  stored-rows user_id request a b w {r} {v} e =
      let row = refreshed (new_improvement (x.uuid4 w.draws) w.started user_id request a b) in
      elim (Option-cases (x.improvement_error row)) [
        | inr (refusal, refused) ↦ let e' = rw refused at e in cc
        | inl accepted ↦
            let e = rw accepted at e in
            elim (Bool-cases (any (user_is user_id) w.db.users)) [
              | inr lost ↦ let e' = rw lost at e in cc
              | inl there ↦
                  let (same, world) =
                    ok-pair {a = row} {b = r}
                      {w = record w {
                        draws = w.draws + 1;
                        db = record w.db { improvements = improvements w ++ row ∷ [] };
                      }}
                      {v = v} (rw there at e) in
                  (
                    ap (λ (s : World). s.db) (sym world)
                        ∙ ap (λ i. record w.db { improvements = improvements w ++ i ∷ [] }) same,
                    ap (active_of user_id) (sym same) ∙ rw (==_refl user_id) refl,
                  )
            ]
      ]

  improved :
      (user_id : Uuid) (request : ImproveRequest) (w : World) {r : Improvement} {v : World}
      → Service.improve x p user_id request w ≡ (ok r, v)
      → (v.db ≡ record w.db { improvements = improvements w ++ r ∷ [] })
        × (active_of user_id r ≡ true)
  unfolding Service.improve
  improved user_id request w {r} e =
      let (a, w1, e1, r1) = >>=-eq-ok (run_analyze x p request) _ w e in
      let (b, w2, e2, r2) = >>=-eq-ok (run_rewrite x p request _) _ w1 r1 in
      let rows : w2.db ≡ w.db =
        same_db (run_rewrite x p request _) w1 (run_rewrite-IsDb w1.db request _) e2
        ∙ same_db (run_analyze x p request) w (run_analyze-IsDb w.db request) e1 in
      let (stored, is) = stored-rows user_id request a b w2 r2 in
      (stored ∙ ap (λ (db : Db). record db { improvements = db.improvements ++ r ∷ [] }) rows, is)

module _ (t : Tools) (user : User) where
  -- The user has one improvement.
  abbrev pub IsImproved : Improvement → Db → Type 0
  IsImproved r db = select (active_of user.id) db.improvements ≡ r ∷ []

  pub ensure_improvement-made :
      (w : World) {r : Improvement} {v : World}
      → ensure_one_improvement t user w ≡ (ok r, v)
      → IsImproved r v.db × (v.db ≡ record w.db { improvements = v.db.improvements })
  unfolding ensure_one_improvement find_improvement improvement_or_new
  ensure_improvement-made w {r} {v} e =
      elim (found_or_made (select (active_of user.id) (improvements w)) (improvement_or_new t user)
        w (λ b. refl) e) [
          | inl (only, world) ↦
              subst
                (λ (s : World).
                  IsImproved r s.db × (s.db ≡ record w.db { improvements = s.db.improvements }))
                world (only, refl)
          | inr (none_yet, made) ↦
              let (rows, is) = improved t.external (reader t) user.id _ w made in
              subst
                (λ (db : Db).
                  IsImproved r db × (db ≡ record w.db { improvements = db.improvements }))
                (sym rows)
                (
                  select-append (active_of user.id) (improvements w) (r ∷ [])
                      ∙ rw (none_yet, is) refl,
                  refl,
                )
        ]

  pub ensure_improvement-again :
      (r : Improvement) (w : World)
      → IsImproved r w.db
      → ensure_one_improvement t user w ≡ (ok r, w)
  unfolding ensure_one_improvement find_improvement improvement_or_new
  ensure_improvement-again r w h = rw h refl
