-- ===== src/BrandVoices/Routes/Patches.antt =====
-- What a PATCH of a brand voice leaves behind, and what a later GET reads.
use magna_cms.Prelude.{
  ◌≡◌, ◌≢◌, refl, sym, ap, ◌∙◌, Text, true, ◌&&◌, Option, none, some, List, [], ◌∷◌, arith, select,
  select-and, update_where, select-update_where_to, select-update_where_apart, subst, map,
  select-head, ==_refl, ◌==◌, ==_iff, text_eq→≡, is_none, if◌then◌else◌, Bool-cases, inl, inr,
}
use magna_cms.Models.{BrandVoice, Uuid}
use magna_cms.Session.{World, External, ok, commit}
use magna_cms.BrandVoices.Repository
use magna_cms.BrandVoices.Repository.{
  VoiceUpdates, Sent, unsent, sent, voices, voice_is, usable_voice, get_for_user, name_after,
  nullable_after, with_updates, unchanged, text_option_eq, texts_eq, texts_option_eq, update_named,
  flush_update, save,
}
use magna_cms.BrandVoices.Routes.{update_voice, get_voice, found_voice, project}

text_option_eq→≡ : (s t : Option Text) → text_option_eq s t ≡ true → s ≡ t
text_option_eq→≡ none none h = refl
text_option_eq→≡ none (some u) h = cc
text_option_eq→≡ (some t) none h = cc
text_option_eq→≡ (some t) (some u) h = ap some (text_eq→≡ t u h)

texts_eq→≡ : (s t : List Text) → texts_eq s t ≡ true → s ≡ t
texts_eq→≡ [] [] h = refl
texts_eq→≡ [] (u ∷ us) h = cc
texts_eq→≡ (t ∷ ts) [] h = cc
texts_eq→≡ (t ∷ ts) (u ∷ us) h = ground (arith, text_eq→≡ t u, texts_eq→≡ ts us)

texts_option_eq→≡ : (s t : Option (List Text)) → texts_option_eq s t ≡ true → s ≡ t
texts_option_eq→≡ none none h = refl
texts_option_eq→≡ none (some u) h = cc
texts_option_eq→≡ (some t) none h = cc
texts_option_eq→≡ (some t) (some u) h = ap some (texts_eq→≡ t u h)

-- Where the flush finds nothing to write, the row has the new values already.
unchanged-eq :
    (v : BrandVoice) (updates : VoiceUpdates) (name : Text)
    → unchanged v (with_updates updates name v) ≡ true
    → with_updates updates name v ≡ v
unfolding unchanged
unchanged-eq v updates name h =
    let n : v.name ≡ name = text_eq→≡ v.name name (ground arith) in
    let d =
      text_option_eq→≡ v.description (nullable_after updates.description v.description)
        (ground arith) in
    let t =
      texts_option_eq→≡ v.tone_descriptors
        (nullable_after updates.tone_descriptors v.tone_descriptors) (ground arith) in
    let b =
      texts_option_eq→≡ v.banned_words (nullable_after updates.banned_words v.banned_words)
        (ground arith) in
    let s =
      text_option_eq→≡ v.sample_text (nullable_after updates.sample_text v.sample_text)
        (ground arith) in
    let a =
      text_option_eq→≡ v.target_audience (nullable_after updates.target_audience v.target_audience)
        (ground arith) in
    λ i. record v {
      name = sym n i;
      description = sym d i;
      tone_descriptors = sym t i;
      banned_words = sym b i;
      sample_text = sym s i;
      target_audience = sym a i;
    }

-- A field after the update: the value that was sent, null included, or the old one.
abbrev pub IsApplied : {A : Type 0} → Sent A → Option A → Option A → Type 0
IsApplied unsent old new = new ≡ old
IsApplied (sent value) old new = new ≡ value

-- A row of which every field that was sent has the value that was sent, and every other one is as
-- before but for `updated_at`.
abbrev pub IsPatched : VoiceUpdates → BrandVoice → BrandVoice → Type 0
IsPatched body old new =
    IsApplied body.name (some old.name) (some new.name)
    × IsApplied body.description old.description new.description
    × IsApplied body.tone_descriptors old.tone_descriptors new.tone_descriptors
    × IsApplied body.banned_words old.banned_words new.banned_words
    × IsApplied body.sample_text old.sample_text new.sample_text
    × IsApplied body.target_audience old.target_audience new.target_audience
    × (new.id ≡ old.id)
    × (new.user_id ≡ old.user_id)
    × (new.created_at ≡ old.created_at)
    × (new.deleted_at ≡ old.deleted_at)

nullable_after-IsApplied :
    {A : Type 0} (u : Sent A) (old : Option A) → IsApplied u old (nullable_after u old)
nullable_after-IsApplied unsent old = refl
nullable_after-IsApplied (sent value) old = refl

-- The name after an update that does not send null for it.
named :
    (u : Sent Text) (old : Text)
    → u ≢ sent none
    → (name : Text) × (name_after u old ≡ some name) × IsApplied u (some old) (some name)
named unsent old h = (old, refl, refl)
named (sent none) old h = absurd (h refl)
named (sent (some name)) old h = (name, refl, refl)

with_updates-IsPatched :
    (body : VoiceUpdates) (old : BrandVoice) (name : Text)
    → IsApplied body.name (some old.name) (some name)
    → IsPatched body old (with_updates body name old)
with_updates-IsPatched body old name h = (
  h,
  nullable_after-IsApplied body.description old.description,
  nullable_after-IsApplied body.tone_descriptors old.tone_descriptors,
  nullable_after-IsApplied body.banned_words old.banned_words,
  nullable_after-IsApplied body.sample_text old.sample_text,
  nullable_after-IsApplied body.target_audience old.target_audience,
  refl,
  refl,
  refl,
  refl,
)

module _ (voice_id user_id : Uuid) (w : World) (row : BrandVoice) where
  pub select-usable :
      select (voice_is voice_id) (voices w) ≡ row ∷ []
      → row.user_id ≡ user_id
      → row.deleted_at ≡ none
      → select (usable_voice voice_id user_id) (voices w) ≡ row ∷ []
  select-usable e o d =
      select-and (voice_is voice_id) (λ v. v.user_id == user_id && is_none v.deleted_at) (voices w)
      ∙ rw (e, o, d, ==_refl user_id) refl

module _ (x : External) (user_id voice_id : Uuid) (w : World) (row : BrandVoice) where
  -- The world in which a row has taken the place of the voice's, committed.
  abbrev written : BrandVoice → World
  written v =
      let db = record w.db { brand_voices = update_where (voice_is v.id) (λ _. v) (voices w) } in
      record w { db = db; committed = db }

  update_voice-found :
      (body : VoiceUpdates) {name : Text}
      → select (usable_voice voice_id user_id) (voices w) ≡ row ∷ []
      → name_after body.name row.name ≡ some name
      → update_voice x user_id voice_id body w ≡ (
          if unchanged row (with_updates body name row)
          then (ok (project row), record w { committed = w.db })
          else (
            ok (project (record (with_updates body name row) { updated_at = w.started })),
            written (record (with_updates body name row) { updated_at = w.started }),
          ))
  unfolding update_voice get_for_user found_voice Repository.update update_named flush_update save
      commit
  update_voice-found body {name} e n = rw (e, n) (ground arith)

  get_voice-found :
      (u : World) (v : BrandVoice)
      → select (usable_voice voice_id user_id) (voices u) ≡ v ∷ []
      → get_voice x user_id voice_id u ≡ (ok (project v), u)
  unfolding get_voice get_for_user found_voice
  get_voice-found u v e = rw e refl

  written_row :
      (v : BrandVoice)
      → select (voice_is voice_id) (voices w) ≡ row ∷ []
      → v.id ≡ row.id
      → select (voice_is voice_id) (voices (written v)) ≡ v ∷ []
  written_row v e same =
      let here : voice_id ≡ v.id =
        sym (same ∙ (==_iff row.id voice_id).0 (select-head (voice_is voice_id) (voices w) e)) in
      subst (λ k. select (voice_is k) (voices (written v)) ≡ v ∷ []) (sym here)
        (select-update_where_to (voice_is v.id) (λ _. v) (voices w) (λ _ _. ==_refl v.id)
          ∙ ap (map (λ _. v)) (subst (λ k. select (voice_is k) (voices w) ≡ row ∷ []) here e))

  other_voices :
      (v : BrandVoice) (other : Uuid)
      → v.id ≢ other
      → select (voice_is other) (voices (written v)) ≡ select (voice_is other) (voices w)
  other_voices v other ne =
      select-update_where_apart (voice_is other) (voice_is v.id) (λ _. v) (voices w)
        (λ u h. ground arith) (λ u h. ground arith)

  -- A user's PATCH of an active brand voice of theirs that does not send null for the name: it
  -- succeeds, commits and returns the voice as it is then stored, and a GET after it returns the
  -- same: every field that was sent has the value that was sent, null included, every other one is
  -- as before, and only `updated_at` may change besides; no other voice changes.
  pub update_voice-get_voice :
      (body : VoiceUpdates)
      → select (voice_is voice_id) (voices w) ≡ row ∷ []
      → row.user_id ≡ user_id
      → row.deleted_at ≡ none
      → body.name ≢ sent none
      → (v : BrandVoice) × (u : World) × (update_voice x user_id voice_id body w
          ≡ (ok (project v), u))
        × (get_voice x user_id voice_id u ≡ (ok (project v), u))
        × (select (voice_is voice_id) (voices u) ≡ v ∷ [])
        × (u.committed ≡ u.db)
        × IsPatched body row v
        × ((other : Uuid)
            → other ≢ voice_id
            → select (voice_is other) (voices u) ≡ select (voice_is other) (voices w))
  update_voice-get_voice body e o d not_null =
      let (name, n, is_name) = named body.name row.name not_null in
      let patched = with_updates-IsPatched body row name is_name in
      let usable = select-usable voice_id user_id w row e o d in
      let result = update_voice-found body usable n in
      let here = (==_iff row.id voice_id).0 (select-head (voice_is voice_id) (voices w) e) in
      let v = record (with_updates body name row) { updated_at = w.started } in
      elim (Bool-cases (unchanged row (with_updates body name row))) [
        | inl same ↦ (
          row,
          record w { committed = w.db },
          result ∙ rw same refl,
          get_voice-found (record w { committed = w.db }) row usable,
          e,
          refl,
          subst (IsPatched body row) (unchanged-eq row body name same) patched,
          λ other ne. refl,
        )
        | inr differs ↦ (
          v,
          written v,
          result ∙ rw differs refl,
          get_voice-found (written v) v
              (select-usable voice_id user_id (written v) v (written_row v e refl) o d),
          written_row v e refl,
          refl,
          patched,
          λ other ne. other_voices v other (λ k. ne (sym k ∙ here)),
        )
      ]
