-- ===== src/Session/Keeps.antt =====
-- Invariants of actions: an action keeps `P` if `P` holds after it, whether it returned or raised.
use magna_cms.Prelude.{
  ℕ, ◌∙◌, sym, ap, ◌≡◌, refl, subst, List, [], ◌∷◌, Bool, true, false, if◌then◌else◌,
}
use magna_cms.Exceptions.{Exc}
use magna_cms.Models.{Db}
use magna_cms.Session.{
  World, Action, Result, ok, err, pure, raise, catch, gets, modify, modify_db, scalar_one_or_none,
  ◌>>=◌, ◌>>◌, continue, handle_with, >>=-eq-ok, settle, get_db_session, call_llm, LlmRequest,
  LlmResult,
}

module _ {ℓ} {A : Type ℓ} where
  pub record Keeps (P : World → Type ℓ) (m : Action A) : Type ℓ where
    pub at : (w : World) → P w → P (m w).1

module _ {ℓ} {A : Type ℓ} {P : World → Type ℓ} where
  pub Keeps-pure : (a : A) → Keeps P (pure a)
  Keeps-pure a = record { at = λ w h. h }

  pub Keeps-raise : (e : Exc) → Keeps P (raise {A = A} e)
  Keeps-raise e = record { at = λ w h. h }

  caught :
      (h : Exc → Action A) (r : Result A × World)
      → ((e : Exc) → Keeps P (h e))
      → P r.1
      → P (handle_with r h).1
  caught h (ok a, w) kh p = p
  caught h (err e, w) kh p = (kh e).at w p

  pub Keeps-catch :
      (m : Action A) (h : Exc → Action A)
      → Keeps P m
      → ((e : Exc) → Keeps P (h e))
      → Keeps P (catch m h)
  Keeps-catch m h km kh = record { at = λ w p. caught h (m w) kh (km.at w p) }

module _ {ℓ} {A B : Type ℓ} {P : World → Type ℓ} where
  continued :
      (f : A → Action B) (r : Result A × World)
      → ((a : A) → Keeps P (f a))
      → P r.1
      → P (continue r f).1
  continued f (ok a, w) kf p = (kf a).at w p
  continued f (err e, w) kf p = p

  pub Keeps-bind :
      (m : Action A) (f : A → Action B) → Keeps P m → ((a : A) → Keeps P (f a)) → Keeps P (m >>= f)
  Keeps-bind m f km kf = record { at = λ w p. continued f (m w) kf (km.at w p) }

  pub Keeps-then : (m : Action A) (n : Action B) → Keeps P m → Keeps P n → Keeps P (m >> n)
  Keeps-then m n km kn = record { at = λ w p. continued (λ _. n) (m w) (λ _. kn) (km.at w p) }

-- What an action returns satisfies `Q`, whatever world it runs in.
module _ {ℓ} {A : Type ℓ} where
  pub record Gives (Q : A → Type ℓ) (m : Action A) : Type ℓ where
    pub gives : (w : World) (a : A) (v : World) → m w ≡ (ok a, v) → Q a

  pub Gives-pure : {Q : A → Type ℓ} (a : A) → Q a → Gives Q (pure a)
  Gives-pure {Q} a q = record { gives = λ w b v e. subst Q (same a b w v e) q }
    where
      same : (a b : A) (w v : World) → pure a w ≡ (ok b, v) → a ≡ b
      same a b w v e = cc

module _ {ℓ} {A B : Type ℓ} where
  pub Gives-bind :
      {Q : B → Type ℓ} (m : Action A) (f : A → Action B)
      → ((a : A) → Gives Q (f a))
      → Gives Q (m >>= f)
  Gives-bind m f g = record {
    gives = λ w b v e. let (a, u, _, q) = >>=-eq-ok m f w e in (g a).gives u b v q;
  }

module _ {ℓ} {A B : Type ℓ} {P : World → Type ℓ} {Q : A → Type ℓ} where
  continued_given :
      (m : Action A) (f : A → Action B) (w : World) (r : Result A × World)
      → m w ≡ r
      → Gives Q m
      → ((a : A) → Q a → Keeps P (f a))
      → P r.1
      → P (continue r f).1
  continued_given m f w (ok a, v) e g kf p = (kf a (g.gives w a v e)).at v p
  continued_given m f w (err x, v) e g kf p = p

  pub Keeps-bind_given :
      (m : Action A) (f : A → Action B)
      → Keeps P m
      → Gives Q m
      → ((a : A) → Q a → Keeps P (f a))
      → Keeps P (m >>= f)
  Keeps-bind_given m f km g kf = record {
    at = λ w p. continued_given m f w (m w) refl g kf (km.at w p);
  }

pub Keeps-scalar {ℓ} :
    {A : Type ℓ} {P : World → Type ℓ} (rows : List A) → Keeps P (scalar_one_or_none rows)
Keeps-scalar [] = record { at = λ w h. h }
Keeps-scalar (x ∷ []) = record { at = λ w h. h }
Keeps-scalar (x ∷ y ∷ rows) = record { at = λ w h. h }

-- A change of the counters, or of the rows by a function that keeps the predicate.
pub Keeps-modify :
    {P : World → Type 0} (f : World → World) → ((w : World) → P w → P (f w)) → Keeps P (modify f)
Keeps-modify f h = record { at = h }

pub Keeps-modify_db :
    {P : World → Type 0} (f : Db → Db)
    → ((w : World) → P w → P (record w { db = f w.db }))
    → Keeps P (modify_db f)
Keeps-modify_db f h = record { at = h }

pub Keeps-gets {ℓ} : {A : Type ℓ} {P : World → Type ℓ} (f : World → A) → Keeps P (gets f)
Keeps-gets f = record { at = λ w h. h }

pub Keeps-if {ℓ} :
    {A : Type ℓ} {P : World → Type ℓ} (b : Bool) (m n : Action A)
    → Keeps P m
    → Keeps P n
    → Keeps P (if b then m else n)
Keeps-if true m n km kn = km
Keeps-if false m n km kn = kn

pub ruleset keeps_rules =
    (Keeps-pure, Keeps-gets, Keeps-raise, Keeps-catch, Keeps-bind, Keeps-then, Keeps-scalar)

-- A predicate of databases that holds of the transaction's rows and of the committed ones.
pub record Held (C : Db → Type 0) (w : World) : Type 0 where
  pub current : C w.db
  pub committed : C w.committed

module _ {A : Type 0} {C : Db → Type 0} where
  settled : (r : Result A × World) → Held C r.1 → Held C (settle r).1
  settled (ok a, w) h = record { current = h.current; committed = h.current }
  settled (err e, w) h = record { current = h.committed; committed = h.committed }

  -- What a handler keeps, its request keeps, committed or rolled back.
  pub get_db_session-Held :
      (m : Action A) (w : World) → Keeps (Held C) m → Held C w → Held C (get_db_session m w).1
  unfolding get_db_session
  get_db_session-Held m w k h = settled (m (record w { db = w.committed })) (
      k.at (record w { db = w.committed })
        (record { current = h.committed; committed = h.committed }))

-- The rows are these.
abbrev pub IsDb : Db → World → Type 0
IsDb db w = w.db ≡ db

-- An action that keeps the rows returns with the same rows.
pub same_db :
    {A : Type 0} (m : Action A) (w : World) {a : A} {v : World}
    → Keeps (IsDb w.db) m
    → m w ≡ (ok a, v)
    → v.db ≡ w.db
same_db m w k e = ap (λ r. r.1.db) (sym e) ∙ k.at w refl

pub call-IsDb :
    (db : Db) (llm : ℕ → LlmRequest → Result LlmResult) (r : LlmRequest)
    → Keeps (IsDb db) (call_llm llm r)
call-IsDb db llm r = record { at = λ w h. h }

-- Equal results are equal values in equal worlds.
pub ok-pair :
    {A : Type 0} {a b : A} {w v : World}
    → ◌≡◌ {A = Result A × World} (ok a, w) (ok b, v)
    → (a ≡ b) × (w ≡ v)
ok-pair e = (cc, cc)
