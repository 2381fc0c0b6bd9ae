-- ===== src/Prelude/Lists.antt =====
-- Lists measured by native numbers, and the two SQL shapes of the repositories:
-- `SELECT … WHERE p` and `UPDATE … SET f WHERE p`.
use Prim.Native.Nat.{ℕ, zero, suc, ◌+◌, ◌-◌, ◌≤◌, ◌<◌, min}
use mathlib.Core.Path.{◌≡◌, refl, ap}
use mathlib.Core.Logic.{inl, inr}
use mathlib.Core.Bool.{Bool, true, false, ◌&&◌, ◌||◌, not}
use mathlib.Core.List.{List, [], ◌∷◌, ◌++◌, append-nil, map}
use native.Mathlib.Omega.{arith}
use magna_cms.Prelude.Tests.{if◌then◌else◌, Bool-cases}

module _ {ℓ} {A : Type ℓ} where
  abbrev pub length : List A → ℕ
  length [] = 0
  length (x ∷ xs) = suc (length xs)

  abbrev pub take : ℕ → List A → List A
  take zero xs = []
  take (suc n) [] = []
  take (suc n) (x ∷ xs) = x ∷ take n xs

  abbrev pub drop : ℕ → List A → List A
  drop zero xs = xs
  drop (suc n) [] = []
  drop (suc n) (x ∷ xs) = drop n xs

  -- The rows on which a test holds.
  abbrev pub select : (A → Bool) → List A → List A
  select p [] = []
  select p (x ∷ xs) = if p x then x ∷ select p xs else select p xs

  -- The rows with the matching ones changed.
  abbrev pub update_where : (A → Bool) → (A → A) → List A → List A
  update_where p f [] = []
  update_where p f (x ∷ xs) = (if p x then f x else x) ∷ update_where p f xs

  abbrev pub any : (A → Bool) → List A → Bool
  any p [] = false
  any p (x ∷ xs) = p x || any p xs

  abbrev pub all : (A → Bool) → List A → Bool
  all p [] = true
  all p (x ∷ xs) = p x && all p xs

module _ {ℓ} {A : Type ℓ} where
  pub length-append : (xs ys : List A) → length (xs ++ ys) ≡ length xs + length ys
  length-append [] ys = omega arith
  length-append (x ∷ xs) ys = omega (arith, length-append xs ys)

  pub length-take : (n : ℕ) (xs : List A) → length (take n xs) ≡ min n (length xs)
  length-take zero xs = omega arith
  length-take (suc n) [] = omega arith
  length-take (suc n) (x ∷ xs) = omega (arith, length-take n xs)

  pub length-drop : (n : ℕ) (xs : List A) → length (drop n xs) ≡ length xs - n
  length-drop zero xs = omega arith
  length-drop (suc n) [] = omega arith
  length-drop (suc n) (x ∷ xs) = omega (arith, length-drop n xs)

  pub select-append :
      (p : A → Bool) (xs ys : List A) → select p (xs ++ ys) ≡ select p xs ++ select p ys
  select-append p [] ys = refl
  select-append p (x ∷ xs) ys = ground (arith, select-append p xs ys)

  -- A conjunction of WHERE clauses filters twice.
  pub select-and :
      (p q : A → Bool) (xs : List A) → select (λ x. p x && q x) xs ≡ select q (select p xs)
  select-and p q [] = refl
  select-and p q (x ∷ xs) = ground (arith, select-and p q xs)

  pub length-select : (p : A → Bool) (xs : List A) → length (select p xs) ≤ length xs
  length-select p [] = omega arith
  length-select p (x ∷ xs) = ground (arith, length-select p xs)

  -- An update that keeps the test keeps what the test selects, up to the update.
  pub select-update_where :
      (p q : A → Bool) (f : A → A) (xs : List A)
      → ((x : A) → p (f x) ≡ p x)
      → select p (update_where q f xs) ≡ update_where q f (select p xs)
  select-update_where p q f [] h = refl
  select-update_where p q f (x ∷ xs) h = ground (arith, h x, select-update_where p q f xs h)

  pub length-update_where :
      (p : A → Bool) (f : A → A) (xs : List A) → length (update_where p f xs) ≡ length xs
  length-update_where p f [] = refl
  length-update_where p f (x ∷ xs) = omega (arith, length-update_where p f xs)

  pub update_where-eq-map :
      (p : A → Bool) (f : A → A) (xs : List A)
      → update_where p f xs ≡ map (λ x. if p x then f x else x) xs
  update_where-eq-map p f [] = refl
  update_where-eq-map p f (x ∷ xs) =
      ap (λ ys. (if p x then f x else x) ∷ ys) (update_where-eq-map p f xs)

  -- An update that matches no row changes nothing.
  pub update_where_of_none :
      (p : A → Bool) (f : A → A) (xs : List A) → select p xs ≡ [] → update_where p f xs ≡ xs
  update_where_of_none p f [] h = refl
  update_where_of_none p f (x ∷ xs) h = ground (arith, update_where_of_none p f xs)

  pub any-eq-false_of_select : (p : A → Bool) (xs : List A) → select p xs ≡ [] → any p xs ≡ false
  any-eq-false_of_select p [] h = refl
  any-eq-false_of_select p (x ∷ xs) h = ground (arith, any-eq-false_of_select p xs)

  pub select_of_any-false : (p : A → Bool) (xs : List A) → any p xs ≡ false → select p xs ≡ []
  select_of_any-false p [] h = refl
  select_of_any-false p (x ∷ xs) h = ground (arith, select_of_any-false p xs)

  -- An update that ends the test it selects by leaves no row to select.
  pub select-update_where_off :
      (p : A → Bool) (f : A → A) (xs : List A)
      → ((x : A) → p (f x) ≡ false)
      → select p (update_where p f xs) ≡ []
  select-update_where_off p f [] h = refl
  select-update_where_off p f (x ∷ xs) h = ground (arith, h x, select-update_where_off p f xs h)

  -- An update of other rows is not seen.
  pub select-update_where_other :
      (q p : A → Bool) (f : A → A) (xs : List A)
      → ((x : A) → p x ≡ true → q x ≡ false)
      → ((x : A) → q (f x) ≡ q x)
      → select q (update_where p f xs) ≡ select q xs
  select-update_where_other q p f [] h k = refl
  select-update_where_other q p f (x ∷ xs) h k =
      ground (arith, h x, k x, select-update_where_other q p f xs h k)

  -- What is selected passes the test.
  pub select-head :
      (p : A → Bool) (xs : List A) {y : A} {ys : List A} → select p xs ≡ y ∷ ys → p y ≡ true
  select-head p [] e = ground arith
  select-head p (x ∷ xs) {y} {ys} e = ground (arith, select-head p xs {y = y} {ys = ys})

  pub any-append : (p : A → Bool) (xs ys : List A) → any p (xs ++ ys) ≡ (any p xs || any p ys)
  any-append p [] ys = refl
  any-append p (x ∷ xs) ys = ground (arith, any-append p xs ys)

  pub all-append : (p : A → Bool) (xs ys : List A) → all p (xs ++ ys) ≡ (all p xs && all p ys)
  all-append p [] ys = refl
  all-append p (x ∷ xs) ys = ground (arith, all-append p xs ys)

  pub any-update_where :
      (p q : A → Bool) (f : A → A) (xs : List A)
      → ((x : A) → p (f x) ≡ p x)
      → any p (update_where q f xs) ≡ any p xs
  any-update_where p q f [] h = refl
  any-update_where p q f (x ∷ xs) h = ground (arith, h x, any-update_where p q f xs h)

  pub all-update_where :
      (p q : A → Bool) (f : A → A) (xs : List A)
      → ((x : A) → p (f x) ≡ p x)
      → all p (update_where q f xs) ≡ all p xs
  all-update_where p q f [] h = refl
  all-update_where p q f (x ∷ xs) h = ground (arith, h x, all-update_where p q f xs h)

  pub all_mono :
      (p q : A → Bool) (xs : List A)
      → ((x : A) → p x ≡ true → q x ≡ true)
      → all p xs ≡ true
      → all q xs ≡ true
  all_mono p q [] h k = refl
  all_mono p q (x ∷ xs) h k = ground (arith, h x, all_mono p q xs h)

  -- A row that no row of the list agrees with makes the tested rows at most one.
  pub length-select-snoc :
      (p : A → Bool) (xs : List A) (x : A)
      → (p x ≡ true → select p xs ≡ [])
      → length (select p xs) ≤ 1
      → length (select p (xs ++ x ∷ [])) ≤ 1
  length-select-snoc p xs x h k = rw (select-append p xs (x ∷ [])) (elim (Bool-cases (p x)) [
    | inl same ↦ rw (same, h same) (omega arith)
    | inr other ↦ rw (other, append-nil) k
  ])

  -- A stronger test selects nothing where the weaker one does not.
  pub select_imp :
      (p q : A → Bool) (xs : List A)
      → ((x : A) → p x ≡ true → q x ≡ true)
      → select q xs ≡ []
      → select p xs ≡ []
  select_imp p q [] h e = refl
  select_imp p q (x ∷ xs) h e = ground (arith, h x, select_imp p q xs h)

  -- A selected row that passes another test is a row that passes it.
  pub any_of_select :
      (p q : A → Bool) (xs : List A) {y : A} {ys : List A}
      → select p xs ≡ y ∷ ys
      → q y ≡ true
      → any q xs ≡ true
  any_of_select p q [] e h = cc
  any_of_select p q (x ∷ xs) {y} {ys} e h = ground (arith, any_of_select p q xs {y = y} {ys = ys})

  pub any_mono :
      (p q : A → Bool) (xs : List A)
      → ((x : A) → p x ≡ true → q x ≡ true)
      → any p xs ≡ true
      → any q xs ≡ true
  any_mono p q [] h k = cc
  any_mono p q (x ∷ xs) h k = ground (arith, h x, any_mono p q xs h)

  -- A test that some row passes makes its negation select fewer rows.
  pub length-select-not :
      (p : A → Bool) (xs : List A)
      → any p xs ≡ true
      → length (select (λ x. not (p x)) xs) < length xs
  length-select-not p [] h = cc
  length-select-not p (x ∷ xs) h =
      ground (arith, length-select-not p xs, length-select (λ x. not (p x)) xs)

module _ {ℓ} {A : Type ℓ} where
  take_nil : (n : ℕ) → ◌≡◌ {A = List A} (take n []) []
  take_nil zero = refl
  take_nil (suc n) = refl

  pub take_add : (m n : ℕ) (xs : List A) → take (m + n) xs ≡ take m xs ++ take n (drop m xs)
  take_add zero n xs = ground arith
  take_add (suc m) n [] = rw (take_nil (suc m + n), take_nil n) refl
  take_add (suc m) n (x ∷ xs) =
      let next : suc m + n ≡ suc (m + n) = omega arith in
      rw next (ap (λ ys. x ∷ ys) (take_add m n xs))

  -- A `LIMIT` that is no less than the rows drops none.
  pub take_all : (n : ℕ) (xs : List A) → length xs ≤ n → take n xs ≡ xs
  take_all zero [] h = refl
  take_all zero (x ∷ xs) h = absurd (omega arith)
  take_all (suc n) [] h = refl
  take_all (suc n) (x ∷ xs) h = ap (λ ys. x ∷ ys) (take_all n xs (omega arith))

  -- An update that keeps its own test.
  pub select-update_where_to :
      (p : A → Bool) (f : A → A) (xs : List A)
      → ((x : A) → p x ≡ true → p (f x) ≡ true)
      → select p (update_where p f xs) ≡ map f (select p xs)
  select-update_where_to p f [] h = refl
  select-update_where_to p f (x ∷ xs) h = ground (arith, h x, select-update_where_to p f xs h)

  -- An update of rows that a test does not hold of, before or after.
  pub select-update_where_apart :
      (q p : A → Bool) (f : A → A) (xs : List A)
      → ((x : A) → p x ≡ true → q x ≡ false)
      → ((x : A) → p x ≡ true → q (f x) ≡ false)
      → select q (update_where p f xs) ≡ select q xs
  select-update_where_apart q p f [] h k = refl
  select-update_where_apart q p f (x ∷ xs) h k =
      ground (arith, h x, k x, select-update_where_apart q p f xs h k)
