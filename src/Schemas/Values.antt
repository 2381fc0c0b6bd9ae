-- ===== src/Schemas/Values.antt =====
-- Pydantic's reading of a JSON value: members by name, closed objects, texts and lists of texts.
-- `json.loads` leaves one member of a name.
use magna_cms.Prelude.{
  ℕ, ◌≡◌, refl, String, Text, Bool, true, ◌&&◌, Option, none, some, List, [], ◌∷◌, any, str_eq, leb,
  length, arith, if◌then◌else◌,
}
use magna_cms.Models.{Json, str, arr, obj, Items, nil, cons, Members, end, member}

module _ {ℓ} {A B : Type ℓ} where
  infixl 5 ◌>>=◌
  abbrev pub ◌>>=◌ : Option A → (A → Option B) → Option B
  none >>= f = none
  some a >>= f = f a

  -- A bind that gives a value, taken apart.
  pub >>=-eq-some :
      (o : Option A) (f : A → Option B) {b : B}
      → (o >>= f) ≡ some b
      → (a : A) × (o ≡ some a) × (f a ≡ some b)
  >>=-eq-some none f e = cc
  >>=-eq-some (some a) f e = (a, refl, e)

-- A value that passes a test, or a `ValidationError`.
abbrev pub checked {ℓ} : {A : Type ℓ} → (A → Bool) → Option A → Option A
checked ok none = none
checked ok (some a) = if ok a then some a else none

abbrev pub value_of : String → Members → Option Json
value_of name end = none
value_of name (member k v rest) =
    let later = value_of name rest in if str_eq k name then some v else later

-- `extra="forbid"`
abbrev pub only_members : List String → Members → Bool
only_members names end = true
only_members names (member k v rest) = any (str_eq k) names && only_members names rest

-- The members of an object with no others than the named ones.
abbrev pub closed : List String → Json → Option Members
closed names (obj ms) = if only_members names ms then some ms else none
closed names _ = none

abbrev pub opened : Json → Option Members
opened (obj ms) = some ms
opened _ = none

abbrev pub text_of : Option Json → Option Text
text_of (some (str t)) = some t
text_of _ = none

module _ {A : Type 0} where
  -- A list whose items are all read by a function.
  abbrev pub items_of : (Json → Option A) → Items → Option (List A)
  items_of read nil = some []
  items_of read (cons j js) = read j >>= λ a. items_of read js >>= λ rest. some (a ∷ rest)

  abbrev pub list_of : (Json → Option A) → Option Json → Option (List A)
  list_of read (some (arr js)) = items_of read js
  list_of read _ = none

  abbrev pub to_items : (A → Json) → List A → Items
  to_items write [] = nil
  to_items write (a ∷ rest) = cons (write a) (to_items write rest)

  -- What is written item by item is read again.
  pub items_of-to_items :
      (read : Json → Option A) (write : A → Json) (xs : List A)
      → ((a : A) → read (write a) ≡ some a)
      → items_of read (to_items write xs) ≡ some xs
  items_of-to_items read write [] h = refl
  items_of-to_items read write (a ∷ xs) h = rw (h a, items_of-to_items read write xs h) refl

  -- A checked value passes the check.
  pub checked-eq-some : (ok : A → Bool) (o : Option A) {a : A} → checked ok o ≡ some a → ok a ≡ true
  checked-eq-some ok none h = cc
  checked-eq-some ok (some b) h = ground arith

abbrev pub texts_of : Option Json → Option (List Text)
texts_of = list_of (λ j. text_of (some j))

abbrev pub to_texts : List Text → Json
to_texts ts = arr (to_items str ts)

-- `min_length` and `max_length`
abbrev pub within : ℕ → ℕ → Text → Bool
within lo hi t = leb lo (length t) && leb (length t) hi

-- `min_length=1`
abbrev pub filled : Text → Bool
filled t = leb 1 (length t)

pub checked-eq {ℓ} :
    {A : Type ℓ} (ok : A → Bool) (o : Option A) {a : A} → checked ok o ≡ some a → o ≡ some a
checked-eq ok none h = cc
checked-eq ok (some b) h = ground arith
