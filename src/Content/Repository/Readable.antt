-- ===== src/Content/Repository/Readable.antt =====
-- The operations of the repository keep the stored results readable.
use magna_cms.Prelude.{
  ◌≡◌, refl, ◌∙◌, Bool, true, ◌&&◌, not, Option, none, some, [], ◌∷◌, all, any, all-append,
  all-update_where, is_none, ltb, ◌+◌, Bool-cases, Option-cases, inl, inr, update_where, select,
}
use magna_cms.Models.{Db, ContentPiece, Uuid, Time}
use magna_cms.Auth.Users.{user_is}
use magna_cms.Session.{World, External, pure, now}
use magna_cms.Session.Keeps.{Held, Keeps, Keeps-scalar, keeps_rules}
use magna_cms.Schemas.Content.{model_validate}
use magna_cms.Content.Repository.{
  pieces, create, refreshed, get_for_user, get_for_user_include_deleted, soft_delete, delete_found,
  restore, restore_found, restore_deleted, piece_is, owned_piece, active, mark, restore_window,
  voice_exists,
}

-- A piece whose result is none or is accepted by its type's model.
abbrev pub is_readable : ContentPiece → Bool
is_readable piece = elim piece.result [
  | none ↦ true
  | some j ↦ not (is_none (model_validate piece.content_type j))
]

-- The rows of a database are readable.
abbrev pub IsReadableDb : Db → Type 0
IsReadableDb db = all is_readable db.content_pieces ≡ true

abbrev pub AllReadable : World → Type 0
AllReadable = Held IsReadableDb

pub create-Keeps :
    (x : External) (piece : ContentPiece)
    → is_readable piece ≡ true
    → Keeps AllReadable (create x piece)
unfolding create
create-Keeps x piece readable = record {
  at = λ w h. elim (Option-cases (x.piece_error (refreshed piece))) [
    | inr (e, refused) ↦ rw refused h
    | inl accepted ↦
        rw accepted
          (elim (Bool-cases (
            any (user_is piece.user_id) w.db.users
            && voice_exists piece.brand_voice_id w.db.brand_voices)) [
              | inl known ↦ rw known (record {
                current =
                    all-append is_readable (pieces w) (refreshed piece ∷ [])
                    ∙ rw (h.current, readable) refl;
                committed = h.committed;
              })
              | inr unknown ↦ rw unknown h
            ])
  ];
}

pub get_for_user-Keeps : (id user : Uuid) → Keeps AllReadable (get_for_user id user)
unfolding get_for_user
get_for_user-Keeps id user = record {
  at = λ w.
      (Keeps-scalar {P = AllReadable}
          (select (λ p. owned_piece id user p && active p) (pieces w))).at
        w;
}

pub include_deleted-Keeps :
    (id user : Uuid) → Keeps AllReadable (get_for_user_include_deleted id user)
unfolding get_for_user_include_deleted
include_deleted-Keeps id user = record {
  at = λ w. (Keeps-scalar {P = AllReadable} (select (owned_piece id user) (pieces w))).at w;
}

module _ (x : External) where
  -- A mark changes no result.
  marked-AllReadable :
      (p : ContentPiece → Bool) (d : Option Time) (w : World)
      → AllReadable w
      → all is_readable (update_where p (mark d w.started) (pieces w)) ≡ true
  marked-AllReadable p d w h =
      all-update_where is_readable p (mark d w.started) (pieces w) (λ q. refl) ∙ h.current

  delete_found-Keeps : (o : Option ContentPiece) → Keeps AllReadable (delete_found x o)
  unfolding delete_found now
  delete_found-Keeps none = search keeps_rules
  delete_found-Keeps (some piece) = record {
    at = λ w h. record {
      current = marked-AllReadable (piece_is piece.id) (some (x.clock w.readings)) w h;
      committed = h.committed;
    };
  }

  pub soft_delete-Keeps : (id user : Uuid) → Keeps AllReadable (soft_delete x id user)
  unfolding soft_delete
  soft_delete-Keeps id user = search (keeps_rules, get_for_user-Keeps, delete_found-Keeps)

  restore_deleted-Keeps :
      (id user : Uuid) (piece : ContentPiece) (t : Time)
      → Keeps AllReadable (restore_deleted x id user piece t)
  unfolding restore_deleted now
  restore_deleted-Keeps id user piece t = record {
    at = λ w h. elim (Bool-cases (ltb (t + restore_window) (x.clock w.readings))) [
      | inl late ↦ rw late (record { current = h.current; committed = h.committed })
      | inr in_time ↦ rw in_time (record {
        current = marked-AllReadable (owned_piece id user) none w h;
        committed = h.committed;
      })
    ];
  }

  restore_found-Keeps :
      (id user : Uuid) (o : Option ContentPiece) → Keeps AllReadable (restore_found x id user o)
  unfolding restore_found
  restore_found-Keeps id user none = search keeps_rules
  restore_found-Keeps id user (some piece) = go piece.deleted_at
    where
      go :
          (d : Option Time)
          → Keeps {A = Option ContentPiece} AllReadable
              (elim d [ none ↦ pure none | some t ↦ restore_deleted x id user piece t ])
      go none = search keeps_rules
      go (some t) = restore_deleted-Keeps id user piece t

  pub restore-Keeps : (id user : Uuid) → Keeps AllReadable (restore x id user)
  unfolding restore
  restore-Keeps id user = search (keeps_rules, include_deleted-Keeps, restore_found-Keeps)
