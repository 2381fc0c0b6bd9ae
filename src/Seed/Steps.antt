-- ===== src/Seed/Steps.antt =====
-- What the steps of the seed establish about their rows, and that a step finds what it once made.
use magna_cms.Prelude.{
  ◌+◌, ◌≡◌, refl, sym, ap, ◌∙◌, subst, true, ◌⊎◌, inl, inr, Option, none, some, List, [], ◌∷◌, ◌++◌,
  select, select-append, any, Bool-cases, ==_refl,
}
use magna_cms.Models.{User, BrandVoice, Db}
use magna_cms.Session.{World, Action, ok, scalar_one_or_none, >>=-eq-ok, draw, pure, continue}
use magna_cms.Session.Keeps.{ok-pair}
use magna_cms.Auth.Security.{hash_password}
use magna_cms.Auth.Users.{find_by_email, email_is, user_is}
use magna_cms.Auth.Service.Registration.{hash_rows, create_rows, hashed}
use magna_cms.BrandVoices.Repository as Voices
use magna_cms.BrandVoices.Repository.{voices}
use magna_cms.Seed.{
  Tools, demo_email, demo_password, demo_name, is_demo_voice, user_or_new, ensure_user,
  voice_or_new, find_voice, ensure_brand_voice,
}

-- What is ensured was found as the only row, or made because there was none.
pub found_or_made :
    {A : Type 0} (rows : List A) (or_new : Option A → Action A) (w : World) {a : A} {v : World}
    → ((b : A) → or_new (some b) ≡ pure b)
    → continue (scalar_one_or_none rows w) or_new ≡ (ok a, v)
    → ((rows ≡ a ∷ []) × (w ≡ v)) ⊎ ((rows ≡ []) × (or_new none w ≡ (ok a, v)))
found_or_made [] or_new w h e = inr (refl, e)
found_or_made (b ∷ []) or_new w {a} {v} h e =
    let (same, world) = ok-pair (ap (λ m. m w) (sym (h b)) ∙ e) in
    inl (ap (λ c. c ∷ []) same, world)
found_or_made (b ∷ c ∷ rows) or_new w h e = cc

module _ (t : Tools) where
  -- The demo user is the only row of its address.
  abbrev pub IsUser : User → Db → Type 0
  IsUser user db = select (email_is t.external demo_email) db.users ≡ user ∷ []

  user-made :
      (w : World) {user : User} {v : World}
      → t.external.citext_eq demo_email demo_email ≡ true
      → select (email_is t.external demo_email) w.db.users ≡ []
      → user_or_new t none w ≡ (ok user, v)
      → IsUser user v.db
  unfolding user_or_new
  user-made w {user} {v} c none_yet e =
      let x = t.external in
      let (hash, u, p, r) = >>=-eq-ok (hash_password x demo_password) _ w e in
      let (_, world) = hash_rows x demo_email demo_password demo_name w _ refl p in
      let before = hashed x demo_email demo_password demo_name w in
      let (fresh, same, after) =
        create_rows x demo_email demo_password demo_name before hash (rw world at r) in
      let rows : v.db.users ≡ w.db.users ++ user ∷ [] =
        ap (λ (s : World). s.db.users) after ∙ ap (λ m. w.db.users ++ m ∷ []) (sym same) in
      let named : email_is x demo_email user ≡ true =
        ap (λ (m : User). email_is x demo_email m) same ∙ c in
      rw (rows, select-append (email_is x demo_email) w.db.users (user ∷ []), none_yet, named) refl

  pub ensure_user-made :
      (w : World) {user : User} {v : World}
      → t.external.citext_eq demo_email demo_email ≡ true
      → ensure_user t w ≡ (ok user, v)
      → IsUser user v.db
  unfolding ensure_user find_by_email user_or_new
  ensure_user-made w {user} {v} c e =
      elim (found_or_made (select (email_is t.external demo_email) w.db.users) (user_or_new t) w
        (λ b. refl) e) [
          | inl (only, world) ↦ subst (λ (s : World). IsUser user s.db) world only
          | inr (none_yet, made) ↦ user-made w c none_yet made
        ]

  pub ensure_user-again :
      (user : User) (w : World) → IsUser user w.db → ensure_user t w ≡ (ok user, w)
  unfolding ensure_user find_by_email user_or_new
  ensure_user-again user w h = rw h refl

  -- The demo voice is the only active one of its name and user.
  abbrev pub IsVoice : User → BrandVoice → Db → Type 0
  IsVoice user voice db = select (is_demo_voice user.id) db.brand_voices ≡ voice ∷ []

  IsVoice-inserted :
      (user : User) (row : BrandVoice) (w : World) {voice : BrandVoice} {v : World}
      → is_demo_voice user.id row ≡ true
      → select (is_demo_voice user.id) (voices w) ≡ []
      → Voices.insert t.external row w ≡ (ok voice, v)
      → IsVoice user voice v.db × (v.db.users ≡ w.db.users)
  unfolding Voices.insert
  IsVoice-inserted user row w {voice} {v} is none_yet e =
      elim (Bool-cases (any (user_is row.user_id) w.db.users)) [
        | inl there ↦
            let e' = rw there at e in
            let same : row ≡ voice = cc in
            let world : record w { db = record w.db { brand_voices = voices w ++ row ∷ [] } } ≡ v =
              cc in
            let only : select (is_demo_voice user.id) (voices w ++ row ∷ []) ≡ voice ∷ [] =
              rw (select-append (is_demo_voice user.id) (voices w) (row ∷ []), none_yet, is)
                (ap (λ m. m ∷ []) same) in
            (
              subst (λ (s : World). IsVoice user voice s.db) world only,
              ap (λ (s : World). s.db.users) (sym world),
            )
        | inr lost ↦ let e' = rw lost at e in cc
      ]

  pub ensure_brand_voice-IsVoice :
      (user : User) (w : World) {voice : BrandVoice} {v : World}
      → ensure_brand_voice t user w ≡ (ok voice, v)
      → IsVoice user voice v.db × (v.db.users ≡ w.db.users)
  unfolding ensure_brand_voice find_voice voice_or_new Voices.create draw
  ensure_brand_voice-IsVoice user w {voice} {v} e =
      elim (found_or_made (select (is_demo_voice user.id) (voices w)) (voice_or_new t user) w
        (λ b. refl) e) [
          | inl (only, world) ↦ (
            subst (λ (s : World). IsVoice user voice s.db) world only,
            ap (λ (s : World). s.db.users) (sym world),
          )
          | inr (none_yet, made) ↦
              IsVoice-inserted user _ (record w { draws = w.draws + 1 }) (rw (==_refl user.id) refl)
                none_yet made
        ]

  pub ensure_brand_voice-again :
      (user : User) (voice : BrandVoice) (w : World)
      → IsVoice user voice w.db
      → ensure_brand_voice t user w ≡ (ok voice, w)
  unfolding ensure_brand_voice find_voice voice_or_new
  ensure_brand_voice-again user voice w h = rw h refl
