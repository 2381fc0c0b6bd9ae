-- ===== src/Content/Routes/Pages.antt =====
-- The pages of the dashboard's list, put together again.
use native.Mathlib.Nat.{div-add-mod', mod-lt, zero-mul}
use magna_cms.Prelude.{
  ℕ, zero, suc, ◌+◌, ◌-◌, ◌*◌, ◌≤◌, ◌≡◌, refl, ◌∙◌, Text, Bool, true, false, Option, List, [], ◌++◌,
  arith, select, length, take, drop, take_add, take_all, length-take, is_sorted, is_sorted-order_by,
  length-select-order_by, length-order_by, Bool-cases, inl, inr, ◌==◌,
}
use magna_cms.Models.{ContentPiece, ContentType, Uuid}
use magna_cms.Session.{World, External, Result, ok, err}
use magna_cms.Content.Repository.{pieces, newer, base_filters, matching, list_for_user}
use magna_cms.Content.Routes.{total_pages}

newer_total : (p q : ContentPiece) → newer p q ≡ false → newer q p ≡ true
newer_total p q h = ground arith

abbrev pub rows_of {ℓ} : {A : Type ℓ} → Result (List A × ℕ) × World → List A
rows_of (ok (rows, total), w) = rows
rows_of (err e, w) = []

abbrev pub total_of {ℓ} : {A : Type ℓ} → Result (List A × ℕ) × World → ℕ
total_of (ok (rows, total), w) = total
total_of (err e, w) = 0

abbrev pub no_error {ℓ} : {A : Type ℓ} → Result A × World → Bool
no_error (ok a, w) = true
no_error (err e, w) = false

le-total_pages : (t s : ℕ) → 1 ≤ s → t ≤ total_pages t s * s
unfolding total_pages
le-total_pages t s h =
    let n = t + (s - 1) in
    let below = mod-lt n {m = s} h in
    let whole = div-add-mod' n s in
    elim (Bool-cases (t == 0)) [ inl e ↦ ground arith | inr e ↦ rw e (omega (arith, below, whole)) ]

module _ (x : External) (user_id : Uuid) (content_type : Option ContentType) (q : Option Text)
    (page_size : ℕ) (w : World) where
  abbrev pub page_at : ℕ → Result (List ContentPiece × ℕ) × World
  page_at page = list_for_user x user_id content_type q page page_size w

  -- The rows of the pages 1 to n, in order.
  abbrev pub pages_to : ℕ → List ContentPiece
  pages_to zero = []
  pages_to (suc n) = pages_to n ++ rows_of (page_at (suc n))

  abbrev found : List ContentPiece
  found = matching x user_id content_type q w

  pages_to_lem : (n : ℕ) → pages_to n ≡ take (n * page_size) found
  unfolding list_for_user
  pages_to_lem zero = rw (zero-mul page_size) refl
  pages_to_lem (suc n) =
      let more = take_add (n * page_size) page_size found in
      let next : suc n - 1 ≡ n = omega arith in
      let size : suc n * page_size ≡ n * page_size + page_size = omega arith in
      rw (next, size, more, pages_to_lem n) refl

  -- With pages of at least one row, every page is returned, with the number of all the matching
  -- rows and at most `page_size` rows; the pages from 1 to `total_pages` together are the matching
  -- rows, newest first, none skipped and none twice: any test holds of as many rows of theirs as
  -- of the table's rows that pass the filters.
  pub list_for_user-pages :
      1 ≤ page_size
      → ((page : ℕ)
          → (no_error (page_at page) ≡ true)
            × (length (rows_of (page_at page)) ≤ page_size)
            × (total_of (page_at page)
                ≡ length (select (base_filters x user_id content_type q) (pieces w)))
            × (is_sorted newer (pages_to (total_pages (total_of (page_at page)) page_size)) ≡ true)
            × ((p : ContentPiece → Bool)
                → length (select p (pages_to (total_pages (total_of (page_at page)) page_size)))
                  ≡ length (select p (select (base_filters x user_id content_type q) (pieces w)))))
  unfolding list_for_user
  list_for_user-pages h page =
      let rows = select (base_filters x user_id content_type q) (pieces w) in
      let n = total_pages (length rows) page_size in
      let every : pages_to n ≡ found =
        pages_to_lem n
        ∙ take_all (n * page_size) found
            (omega (arith, length-order_by newer rows, le-total_pages (length rows) page_size h)) in
      (
        refl,
        omega (arith, length-take page_size (drop ((page - 1) * page_size) found)),
        refl,
        rw every (is_sorted-order_by newer newer_total rows),
        λ p. rw every (length-select-order_by newer p rows),
      )
