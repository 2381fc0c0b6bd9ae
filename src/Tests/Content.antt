-- ===== src/Tests/Content.antt =====
-- The dashboard's theorems at concrete content pieces.
use magna_cms.Prelude.{
  ℕ, ◌≤◌, ◌≡◌, ◌≢◌, refl, codes, none, some, [], ◌∷◌, arith, Bool, true, length, select, is_sorted,
}
use magna_cms.Models.{ContentPiece, blog_post, parsed, Uuid, Time}
use magna_cms.Session.{World, ok, err, now}
use magna_cms.Content.Repository.{
  piece_is, pieces, soft_delete, restore, get_for_user, mark, newer, base_filters,
}
use magna_cms.Content.Repository.Restore.{soft_delete-hides, restore-soft_delete, after_delete}
use magna_cms.Content.Routes.{
  build_preview, total_pages, content_not_found, get_content, delete_content, restore_content,
}
use magna_cms.Content.Routes.Owners.{stranger_rejected}
use magna_cms.Content.Routes.Pages.{
  list_for_user-pages, page_at, pages_to, rows_of, total_of, no_error,
}
use magna_cms.Tests.World.{external, world}

abbrev pub post : Uuid → Time → ContentPiece
post id created = record {
  id = id;
  created_at = created;
  updated_at = created;
  deleted_at = none;
  user_id = 7;
  content_type = blog_post;
  topic = codes "Tea";
  tone = none;
  target_audience = none;
  brand_voice_id = none;
  prompt_version = "blog_post.v1";
  system_prompt_snapshot = codes "s";
  user_prompt_snapshot = codes "u";
  result = none;
  rendered_text = codes "Tea is hot.";
  result_parse_status = parsed;
  word_count = some 3;
  model_id = "mock";
  input_tokens = 1;
  output_tokens = 2;
  cost_usd = 3;
}

abbrev pub desk : World
desk =
    let w = world [] in
    record w { db = record w.db { content_pieces = post 1 10 ∷ post 2 30 ∷ post 3 30 ∷ [] } }

-- The same rows one hour, and one day and a second, after the delete.
abbrev later : ℕ → World
later n = record (after_delete external 2 7 desk (post 2 30)) { readings = n }

total_pages_three : total_pages 3 2 ≡ 2
unfolding total_pages
total_pages_three = refl

build_preview_short : build_preview (codes "Tea") ≡ codes "Tea"
unfolding build_preview
build_preview_short = refl

soft_delete-hides_example :
    ((soft_delete external 2 7 desk).0
      ≡ ok (some (mark (some (external.clock desk.readings)) desk.started (post 2 30))))
    × (get_for_user 2 7 (later 1) ≡ (ok none, later 1))
    × ((other : Uuid)
        → other ≢ 2
        → select (piece_is other) (pieces (later 1)) ≡ select (piece_is other) (pieces desk))
unfolding soft_delete get_for_user now
soft_delete-hides_example = soft_delete-hides external 2 7 desk (post 2 30) refl refl refl

restore-soft_delete_example :
    ((restore external 2 7 (later 3_600_000_000)).0
      ≡ ok (some (record (post 2 30) { updated_at = desk.started })))
    × ((get_for_user 2 7 (restore external 2 7 (later 3_600_000_000)).1).0
        ≡ ok (some (record (post 2 30) { updated_at = desk.started })))
unfolding soft_delete get_for_user now
restore-soft_delete_example =
    restore-soft_delete external 2 7 desk (post 2 30) (later 3_600_000_000) refl refl refl refl
      (omega arith)

stranger_rejected_example :
    (get_content external 8 2 desk ≡ (err content_not_found, desk))
    × (delete_content external 8 2 desk ≡ (err content_not_found, desk))
    × (restore_content external 8 2 desk ≡ (err content_not_found, desk))
stranger_rejected_example =
    stranger_rejected external 8 2 desk (post 2 30) refl (λ e. absurd (omega (arith, e)))

list_for_user-pages_example :
    (no_error (page_at external 7 none none 2 desk 2) ≡ true)
    × (length (rows_of (page_at external 7 none none 2 desk 2)) ≤ 2)
    × (total_of (page_at external 7 none none 2 desk 2)
        ≡ length (select (base_filters external 7 none none) (pieces desk)))
    × (is_sorted newer (
          pages_to external 7 none none 2 desk
            (total_pages (total_of (page_at external 7 none none 2 desk 2)) 2))
        ≡ true)
    × ((p : ContentPiece → Bool)
        → length (
            select p (
              pages_to external 7 none none 2 desk
                (total_pages (total_of (page_at external 7 none none 2 desk 2)) 2)))
          ≡ length (select p (select (base_filters external 7 none none) (pieces desk))))
list_for_user-pages_example = list_for_user-pages external 7 none none 2 desk (omega arith) 2
