-- ===== src/Prelude/Sorting.antt =====
-- `ORDER BY`: insertion sort by a Boolean order, and what a sorted table keeps.
use Prim.Native.Nat.{◌+◌}
use mathlib.Core.Path.{◌≡◌, refl}
use mathlib.Core.Bool.{Bool, true, false, ◌&&◌}
use mathlib.Core.List.{List, [], ◌∷◌}
use native.Mathlib.Omega.{arith}
use magna_cms.Prelude.Tests.{if◌then◌else◌}
use magna_cms.Prelude.Lists.{length, select}

module _ {ℓ} {A : Type ℓ} (before : A → A → Bool) where
  abbrev pub insert_sorted : A → List A → List A
  insert_sorted x [] = x ∷ []
  insert_sorted x (y ∷ ys) =
      let rest = insert_sorted x ys in if before x y then x ∷ y ∷ ys else y ∷ rest

  abbrev pub order_by : List A → List A
  order_by [] = []
  order_by (x ∷ xs) = insert_sorted x (order_by xs)

  -- Each row comes before the next.
  abbrev pub follows : A → List A → Bool
  follows x [] = true
  follows x (y ∷ ys) = before x y && follows y ys

  abbrev pub is_sorted : List A → Bool
  is_sorted [] = true
  is_sorted (x ∷ xs) = follows x xs

  length-select-insert_sorted :
      (p : A → Bool) (x : A) (xs : List A)
      → length (select p (insert_sorted x xs)) ≡ length (select p (x ∷ xs))
  length-select-insert_sorted p x [] = refl
  length-select-insert_sorted p x (y ∷ ys) = ground (arith, length-select-insert_sorted p x ys)

  -- Sorting keeps each row as often as it stood there.
  pub length-select-order_by :
      (p : A → Bool) (xs : List A) → length (select p (order_by xs)) ≡ length (select p xs)
  length-select-order_by p [] = refl
  length-select-order_by p (x ∷ xs) =
      ground (arith, length-select-insert_sorted p x (order_by xs), length-select-order_by p xs)

  length-insert_sorted : (x : A) (xs : List A) → length (insert_sorted x xs) ≡ length xs + 1
  length-insert_sorted x [] = refl
  length-insert_sorted x (y ∷ ys) = ground (arith, length-insert_sorted x ys)

  pub length-order_by : (xs : List A) → length (order_by xs) ≡ length xs
  length-order_by [] = refl
  length-order_by (x ∷ xs) =
      ground (arith, length-insert_sorted x (order_by xs), length-order_by xs)

  module _ (total : (x y : A) → before x y ≡ false → before y x ≡ true) where
    follows-insert_sorted :
        (w x : A) (xs : List A)
        → before w x ≡ true
        → follows w xs ≡ true
        → follows w (insert_sorted x xs) ≡ true
    follows-insert_sorted w x [] h k = ground arith
    follows-insert_sorted w x (y ∷ ys) h k = ground (arith, follows-insert_sorted y x ys, total x y)

    is_sorted-insert_sorted :
        (x : A) (xs : List A) → is_sorted xs ≡ true → is_sorted (insert_sorted x xs) ≡ true
    is_sorted-insert_sorted x [] h = refl
    is_sorted-insert_sorted x (y ∷ ys) h = ground (arith, follows-insert_sorted y x ys, total x y)

    -- A total order sorts.
    pub is_sorted-order_by : (xs : List A) → is_sorted (order_by xs) ≡ true
    is_sorted-order_by [] = refl
    is_sorted-order_by (x ∷ xs) = is_sorted-insert_sorted x (order_by xs) (is_sorted-order_by xs)
