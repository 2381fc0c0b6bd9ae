-- ===== src/Auth/Service/Integrity.antt =====
-- The database's constraints on accounts: emails and token hashes are unique and a token belongs to
-- a user that exists. Every operation keeps them, whether it returns or raises.
use magna_cms.Prelude.{
  ◌≤◌, ◌≡◌, refl, ap, sym, ◌∙◌, String, Bool, true, false, List, [], ◌∷◌, ◌++◌, select, length,
  update_where, any, all, all-append, all-update_where, any-update_where, any-append, select_imp,
  all_mono, length-select-snoc, select_of_any-false, ==_iff, select-update_where,
  length-update_where,
}
use magna_cms.Models.{Db, User, RefreshToken, Digest, Time}
use magna_cms.Session.Keeps.{Held}
use magna_cms.Session.{World, External}
use magna_cms.Auth.Users.{user_is, email_is, touched}
use magna_cms.Auth.Tokens.{has_hash, revoke}

-- What is documented of CITEXT's equality: it is one, as far as uniqueness needs it.
pub record IsCitext (x : External) : Type 0 where
  pub euclidean :
      (a b c : String) → x.citext_eq a c ≡ true → x.citext_eq b c ≡ true → x.citext_eq a b ≡ true

module _ (x : External) where
  abbrev pub IsOwned : List User → List RefreshToken → Type 0
  IsOwned users rows = all (λ r. any (user_is r.user_id) users) rows ≡ true

  pub record IsConsistent (db : Db) : Type 0 where
    pub emails : (e : String) → length (select (email_is x e) db.users) ≤ 1
    pub hashes : (h : Digest) → length (select (has_hash h) db.refresh_tokens) ≤ 1
    pub owned : IsOwned db.users db.refresh_tokens

  abbrev pub IsSound : World → Type 0
  IsSound = Held IsConsistent

  pub IsConsistent-revoke :
      (p : RefreshToken → Bool) (at t : Time) (db : Db)
      → IsConsistent db
      → IsConsistent (record db { refresh_tokens = update_where p (revoke at t) db.refresh_tokens })
  IsConsistent-revoke p at t db c = record {
    emails = c.emails;
    hashes = λ h.
        rw
          (
            select-update_where (has_hash h) p (revoke at t) db.refresh_tokens (λ r. refl),
            length-update_where,
          )
          (c.hashes h);
    owned = all-update_where _ p (revoke at t) db.refresh_tokens (λ r. refl) ∙ c.owned;
  }

  pub IsConsistent-token :
      (db : Db) (t : RefreshToken)
      → IsConsistent db
      → any (has_hash t.token_hash) db.refresh_tokens ≡ false
      → any (user_is t.user_id) db.users ≡ true
      → IsConsistent (record db { refresh_tokens = db.refresh_tokens ++ t ∷ [] })
  IsConsistent-token db t c fresh known = record {
    emails = c.emails;
    hashes = λ h.
        length-select-snoc (has_hash h) db.refresh_tokens t
          (λ same. select_of_any-false (has_hash h) db.refresh_tokens (
            ap (λ k. any (has_hash k) db.refresh_tokens) (sym ((==_iff t.token_hash h).0 same))
            ∙ fresh))
          (c.hashes h);
    owned = all-append _ db.refresh_tokens (t ∷ []) ∙ rw (c.owned, known) refl;
  }

  pub IsConsistent-touch :
      (p : User → Bool) (t at : Time) (db : Db)
      → IsConsistent db
      → IsConsistent (record db { users = update_where p (touched t at) db.users })
  IsConsistent-touch p t at db c = record {
    emails = λ e.
        rw
          (
            select-update_where (email_is x e) p (touched t at) db.users (λ u. refl),
            length-update_where,
          )
          (c.emails e);
    hashes = c.hashes;
    owned =
        all_mono _ _ db.refresh_tokens
          (λ r known.
            any-update_where (user_is r.user_id) p (touched t at) db.users (λ u. refl) ∙ known)
          c.owned;
  }

  pub IsConsistent-user :
      IsCitext x
      → (db : Db) (u : User) → IsConsistent db
      → any (email_is x u.email) db.users ≡ false
      → IsConsistent (record db { users = db.users ++ u ∷ [] })
  IsConsistent-user law db u c fresh = record {
    emails = λ e. length-select-snoc (email_is x e) db.users u (taken e) (c.emails e);
    hashes = c.hashes;
    owned =
        all_mono _ _ db.refresh_tokens
          (λ r known. any-append (user_is r.user_id) db.users (u ∷ []) ∙ rw (known) refl) c.owned;
  }
    where
      taken : (e : String) → x.citext_eq u.email e ≡ true → select (email_is x e) db.users ≡ []
      taken e same =
          select_imp (email_is x e) (email_is x u.email) db.users
            (λ v h. law.euclidean v.email u.email e h same)
            (select_of_any-false (email_is x u.email) db.users fresh)
