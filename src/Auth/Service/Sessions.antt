-- ===== src/Auth/Service/Sessions.antt =====
-- What a client may rely on across refreshes and logouts: a refresh hands over to one new token of
-- the same user, and a token that was spent or logged out is never exchanged again.
use magna_cms.Prelude.{
  Text, ◌≤◌, ◌≡◌, ◌≢◌, refl, ap, sym, ◌∙◌, String, Bool, true, false, ◌&&◌, Option, none, List, [],
  ◌∷◌, ◌++◌, arith, select, length, any, ==_refl, select-and, select-append, select-head, ◌==◌,
  ==_iff, select-update_where, select-update_where_other, select_of_any-false, Bool-cases, inl, inr,
  append-nil,
}
use magna_cms.Models.{User, RefreshToken, Digest, Time}
use magna_cms.Session.{World, External, ok, err}
use magna_cms.Auth.Users.{user_is}
use magna_cms.Auth.Tokens.{has_hash, active_at, tokens, revoke}
use magna_cms.Auth.Service.{AuthTokens, refresh, invalid_refresh_token}
use magna_cms.Auth.Service.Rotation.{minted_token, after_claim, refresh-eq-ok}
use magna_cms.Auth.Service.Reuse.{refresh-revoked}

-- The unique constraint of the column `token_hash`.
abbrev pub IsUnique : List RefreshToken → Type 0
IsUnique rows = (h : Digest) → length (select (has_hash h) rows) ≤ 1

-- A row that a filter of the rows keeps is the only one, and passes the filter.
one_of_select :
    (q : RefreshToken → Bool) (rows : List RefreshToken) {row : RefreshToken}
    → length rows ≤ 1
    → select q rows ≡ row ∷ []
    → (rows ≡ row ∷ []) × (q row ≡ true)
one_of_select q [] u e = cc
one_of_select q (r ∷ []) u e = ground arith
one_of_select q (r ∷ s ∷ rows) u e = absurd (omega arith)

-- The new row is not seen under a hash that is not its own.
select-snoc_ne :
    (h : Digest) (rows : List RefreshToken) (m : RefreshToken)
    → h ≢ m.token_hash
    → select (has_hash h) (rows ++ m ∷ []) ≡ select (has_hash h) rows
select-snoc_ne h rows m ne =
    select-append (has_hash h) rows (m ∷ []) ∙ (elim (Bool-cases (m.token_hash == h)) [
      | inl same ↦ absurd (ne (sym ((==_iff m.token_hash h).0 same)))
      | inr differs ↦ rw (differs, append-nil) refl
    ])

select-snoc_eq :
    (h : Digest) (rows : List RefreshToken) (m : RefreshToken)
    → m.token_hash ≡ h
    → any (has_hash h) rows ≡ false
    → select (has_hash h) (rows ++ m ∷ []) ≡ m ∷ []
select-snoc_eq h rows m same fresh =
    select-append (has_hash h) rows (m ∷ [])
    ∙ rw (select_of_any-false (has_hash h) rows fresh, same, ==_refl h) refl

other_hash :
    (h g : Digest) (t : Time)
    → g ≢ h
    → (r : RefreshToken) → (has_hash h r && active_at t r) ≡ true
    → has_hash g r ≡ false
other_hash h g t ne r p = ground arith

module _ (x : External) (raw : String) (ua ip : Option Text) (w : World) where
  abbrev new_hash : Digest
  new_hash = x.sha256 (x.token_hex w.draws)

  -- The row under the old hash after a refresh is the old row, revoked.
  spent_row :
      {row : RefreshToken}
      → select (has_hash (x.sha256 raw)) (tokens w) ≡ row ∷ []
      → active_at (x.clock w.readings) row ≡ true
      → any (has_hash new_hash) (tokens (after_claim x raw ua ip w)) ≡ false
      → (m : RefreshToken) → m.token_hash ≡ new_hash
      → select (has_hash (x.sha256 raw)) (tokens (after_claim x raw ua ip w) ++ m ∷ [])
        ≡ revoke w.started (x.clock w.readings) row ∷ []
  spent_row {row} e a fresh m hm =
      let h = x.sha256 raw in
      let hashed = select-head (has_hash h) (tokens w) e in
      let t = x.clock w.readings in
      let found : select (has_hash h) (tokens (after_claim x raw ua ip w))
          ≡ revoke w.started t row ∷ [] =
        select-update_where (has_hash h) (λ r. has_hash h r && active_at t r) (revoke w.started t)
          (tokens w) (λ r. refl)
        ∙ rw (e, hashed, a) in
      select-snoc_ne h (tokens (after_claim x raw ua ip w)) m (λ same.
        let k : new_hash ≡ h = sym (same ∙ hm) in
        let absent =
          select_of_any-false (has_hash new_hash) (tokens (after_claim x raw ua ip w)) fresh in
        let absent' = rw k at absent in cc)
      ∙ found

module _ (x : External) (raw : String) (ua ip : Option Text) (w : World) where
  -- A refresh that succeeds was given the hash of a token that was active, and its user exists. It
  -- leaves that row revoked, adds one row under the new hash for the same user, not revoked
  -- and with the expiry of the returned tokens, and changes no row under another hash. The response
  -- carries the raw token of the new row.
  pub refresh_rotates :
      IsUnique (tokens w)
      → {user : User} {t : AuthTokens} {v : World} → refresh x raw ua ip w ≡ (ok (user, t), v)
      → (row : RefreshToken) × (fresh : RefreshToken) × (select (has_hash (x.sha256 raw)) (tokens w)
          ≡ row ∷ [])
        × (active_at (x.clock w.readings) row ≡ true)
        × (row.user_id ≡ user.id)
        × (select (has_hash (x.sha256 raw)) (tokens v)
            ≡ revoke w.started (x.clock w.readings) row ∷ [])
        × (select (has_hash (x.sha256 t.refresh_token_raw)) (tokens v) ≡ fresh ∷ [])
        × (fresh.user_id ≡ user.id)
        × (fresh.revoked_at ≡ none)
        × (fresh.expires_at ≡ t.refresh_expires_at)
        × ((h : Digest)
            → h ≢ x.sha256 raw
            → h ≢ x.sha256 t.refresh_token_raw
            → select (has_hash h) (tokens v) ≡ select (has_hash h) (tokens w))
  refresh_rotates u e =
      let (row, one, owner, fresh, toks, world) = refresh-eq-ok x raw ua ip w e in
      let h = x.sha256 raw in
      let t = x.clock w.readings in
      let (found, active) =
        one_of_select (active_at t) (select (has_hash h) (tokens w)) (u h)
          (sym (select-and (has_hash h) (active_at t) (tokens w)) ∙ one) in
      rw (toks, world)
        (
          row,
          minted_token x _ ua ip (after_claim x raw ua ip w),
          found,
          active,
          sym ((==_iff _ _).0 (select-head (user_is row.user_id) w.db.users owner)),
          spent_row x raw ua ip w found active fresh _ refl,
          select-snoc_eq _ _ _ refl fresh,
          refl,
          refl,
          refl,
          λ g old new.
              select-snoc_ne g _ _ new
              ∙ select-update_where_other (has_hash g) _ (revoke w.started t) (tokens w)
                  (other_hash h g t old) (λ r. refl),
        )

  -- A raw token that one refresh has exchanged is refused by every later refresh over the rows
  -- that the first one left, whatever the clock says.
  pub refresh_spent :
      IsUnique (tokens w)
      → {user : User} {t : AuthTokens} {v : World} → refresh x raw ua ip w ≡ (ok (user, t), v)
      → (later : World) (ua' ip' : Option Text) → tokens later ≡ tokens v
      → (refresh x raw ua' ip' later).0 ≡ err invalid_refresh_token
  refresh_spent u e later ua' ip' same =
      let (row, fresh, found, active, owner, spent, _, _, _, _, _) = refresh_rotates u e in
      ap (λ (r, s). r)
        (refresh-revoked x raw ua' ip' later _ (ap (select (has_hash (x.sha256 raw))) same ∙ spent)
          refl)
