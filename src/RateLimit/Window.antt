-- ===== src/RateLimit/Window.antt =====
-- The budget of one bucket: however the requests fall, no window of a minute admits more than the
-- limit.
use magna_cms.Prelude.{
  ℕ, ◌+◌, ◌-◌, ◌≤◌, ◌<◌, ◌≡◌, refl, sym, ap, append-nil, ◌∙◌, ◌⊎◌, append_assoc, Bool, true, false,
  ◌&&◌, List, [], ◌∷◌, ◌++◌, arith, length, length-append, ltb, leb, Bool-cases, inl, inr,
  if◌then◌else◌, select, select-append,
}
use magna_cms.RateLimit.{Verdict, passed, decide, prune, window}

abbrev pub admits : Verdict → Bool
admits passed = true
admits _ = false

-- The admitted ones of a sequence of request times, from the timestamps of the bucket.
unfoldable pub admitted : ℕ → List ℕ → List ℕ → List ℕ
admitted limit [] ts = []
admitted limit (now ∷ requests) ts =
    let (v, ts') = decide limit now (prune (now - window) ts) in
    let rest = admitted limit requests ts' in if admits v then now ∷ rest else rest

-- How many times lie from `c` on, and in the closed window of a minute from `a` on.
abbrev pub count_from : ℕ → List ℕ → ℕ
count_from c ts = length (select (λ t. leb c t) ts)

abbrev pub count_in : ℕ → List ℕ → ℕ
count_in a ts = length (select (λ t. leb a t && leb t (a + window)) ts)

-- The times ascend from `lo` and end at `hi` at the latest.
abbrev pub IsOrdered : ℕ → List ℕ → ℕ → Type 0
IsOrdered lo [] hi = lo ≤ hi
IsOrdered lo (t ∷ ts) hi = (lo ≤ t) × IsOrdered t ts hi

-- The times ascend from `lo`.
abbrev pub IsAscending : ℕ → List ℕ → Type 0
IsAscending lo [] = Unit {0}
IsAscending lo (t ∷ ts) = (lo ≤ t) × IsAscending t ts

count_all :
    (c lo : ℕ) (ts : List ℕ) (hi : ℕ) → IsOrdered lo ts hi → c ≤ lo → count_from c ts ≡ length ts
count_all c lo [] hi o h = refl
count_all c lo (t ∷ ts) hi (p, o) h = ground (arith, count_all c t ts hi o)

length-prune :
    (c lo : ℕ) (ts : List ℕ) (hi : ℕ) → IsOrdered lo ts hi → length (prune c ts) ≡ count_from c ts
unfolding prune
length-prune c lo [] hi o = refl
length-prune c lo (t ∷ ts) hi (p, o) =
    ground (arith, length-prune c t ts hi o, count_all c t ts hi o)

-- Pruning loses nothing from the cutoff on.
count_from-prune : (c d : ℕ) (ts : List ℕ) → c ≤ d → count_from d (prune c ts) ≡ count_from d ts
unfolding prune
count_from-prune c d [] h = refl
count_from-prune c d (t ∷ ts) h = ground (arith, count_from-prune c d ts h)

IsOrdered-weaken :
    (lo lo' : ℕ) (ts : List ℕ) (hi : ℕ) → lo ≤ lo' → IsOrdered lo' ts hi → IsOrdered lo ts hi
IsOrdered-weaken lo lo' [] hi h o = omega arith
IsOrdered-weaken lo lo' (t ∷ ts) hi h (p, o) = (omega arith, o)

IsOrdered-prune :
    (c lo : ℕ) (ts : List ℕ) (hi : ℕ) → IsOrdered lo ts hi → IsOrdered lo (prune c ts) hi
unfolding prune
IsOrdered-prune c lo [] hi o = o
IsOrdered-prune c lo (t ∷ ts) hi (p, o) = elim (Bool-cases (ltb t c)) [
  | inl old ↦ rw old (IsOrdered-weaken lo t (prune c ts) hi p (IsOrdered-prune c t ts hi o))
  | inr kept ↦ rw kept (p, o)
]

IsOrdered-snoc :
    (lo : ℕ) (ts : List ℕ) (hi now : ℕ)
    → IsOrdered lo ts hi
    → hi ≤ now
    → IsOrdered lo (ts ++ now ∷ []) now
IsOrdered-snoc lo [] hi now o h = omega arith
IsOrdered-snoc lo (t ∷ ts) hi now (p, o) h = (p, IsOrdered-snoc t ts hi now o h)

-- A window that reaches the present holds at most what lies from its start on.
count_in-le : (a c : ℕ) (ts : List ℕ) → c ≤ a → count_in a ts ≤ count_from c ts
count_in-le a c [] h = omega arith
count_in-le a c (t ∷ ts) h = ground (arith, count_in-le a c ts h)

count_from-snoc :
    (c : ℕ) (ts : List ℕ) (t : ℕ)
    → count_from c (ts ++ t ∷ []) ≡ count_from c ts + count_from c (t ∷ [])
count_from-snoc c ts t = rw select-append (length-append (select (λ t. leb c t) ts) _)

count_in-snoc :
    (a : ℕ) (ts : List ℕ) (t : ℕ) → count_in a (ts ++ t ∷ []) ≡ count_in a ts + count_in a (t ∷ [])
count_in-snoc a ts t =
    rw select-append (length-append (select (λ t. leb a t && leb t (a + window)) ts) _)

-- What the decision does to the bucket.
decide_cases :
    (limit now : ℕ) (ts : List ℕ)
    → ((length ts < limit) × (decide limit now ts ≡ (passed, ts ++ now ∷ [])))
      ⊎ ((limit ≤ length ts)
          × (admits (decide limit now ts).0 ≡ false)
          × ((decide limit now ts).1 ≡ ts))
unfolding decide
decide_cases limit now [] = elim (Bool-cases (leb limit 0)) [
  | inl full ↦ inr (ground arith, rw full refl, rw full refl)
  | inr room ↦ inl (ground arith, rw room refl)
]
decide_cases limit now (t ∷ ts) = elim (Bool-cases (leb limit (length (t ∷ ts)))) [
  | inl full ↦ inr (ground arith, rw full refl, rw full refl)
  | inr room ↦ inl (ground arith, rw room refl)
]

-- What was admitted so far, against the bucket that was kept of it.
record Faithful (limit last : ℕ) (ts history : List ℕ) : Type 0 where
  ordered : IsOrdered 0 ts last
  recent : (c : ℕ) → last - window ≤ c → count_from c history ≡ count_from c ts
  budget : (a : ℕ) → count_in a history ≤ limit

IsOrdered-later :
    (lo : ℕ) (ts : List ℕ) (hi hi' : ℕ) → hi ≤ hi' → IsOrdered lo ts hi → IsOrdered lo ts hi'
IsOrdered-later lo [] hi hi' h o = omega arith
IsOrdered-later lo (t ∷ ts) hi hi' h (p, o) = (p, IsOrdered-later t ts hi hi' h o)

module _ (limit last now : ℕ) (ts history : List ℕ) (f : Faithful limit last ts history)
    (h : last ≤ now) where
  kept : (c : ℕ) → now - window ≤ c → count_from c history ≡ count_from c (prune (now - window) ts)
  kept c k = f.recent c (omega arith) ∙ sym (count_from-prune (now - window) c ts k)

  -- The pruned bucket counts the admitted requests of the last minute.
  pruned_count : length (prune (now - window) ts) ≡ count_from (now - window) history
  pruned_count =
      length-prune (now - window) 0 ts last f.ordered ∙ sym (f.recent (now - window) (omega arith))

  pruned-IsOrdered : IsOrdered 0 (prune (now - window) ts) last
  pruned-IsOrdered = IsOrdered-prune (now - window) 0 ts last f.ordered

  budget_kept :
      length (prune (now - window) ts) < limit → (a : ℕ) → count_in a (history ++ now ∷ []) ≤ limit
  budget_kept room a = elim (Bool-cases (leb a now && leb now (a + window))) [
    | inl inside ↦
        let one : count_in a (now ∷ []) ≡ 1 = rw inside refl in
        let recent : now - window ≤ a = ground arith in
        omega (
          arith,
          count_in-snoc a history now,
          one,
          count_in-le a (now - window) history recent,
          pruned_count,
        )
    | inr outside ↦
        let zero : count_in a (now ∷ []) ≡ 0 = rw outside refl in
        omega (arith, count_in-snoc a history now, zero, f.budget a)
  ]

  Faithful-admit :
      length (prune (now - window) ts) < limit
      → Faithful limit now (prune (now - window) ts ++ now ∷ []) (history ++ now ∷ [])
  Faithful-admit room = record {
    ordered = IsOrdered-snoc 0 _ last now pruned-IsOrdered h;
    recent = λ c k.
        count_from-snoc c history now
        ∙ ap (λ n. n + count_from c (now ∷ [])) (kept c k)
        ∙ sym (count_from-snoc c _ now);
    budget = budget_kept room;
  }

  Faithful-refuse : Faithful limit now (prune (now - window) ts) history
  Faithful-refuse = record {
    ordered = IsOrdered-later 0 _ last now h pruned-IsOrdered;
    recent = kept;
    budget = f.budget;
  }

-- The sliding-window limiter that keeps everything it ever admitted.
unfoldable pub sliding : ℕ → List ℕ → List ℕ → List ℕ
sliding limit [] history = []
sliding limit (now ∷ requests) history =
    let admit = now ∷ sliding limit requests (history ++ now ∷ []) in
    let refuse = sliding limit requests history in
    if ltb (count_from (now - window) history) limit then admit else refuse

module _ (limit : ℕ) where
  admitted_step :
      (last : ℕ) (requests ts history : List ℕ)
      → Faithful limit last ts history
      → IsAscending last requests
      → (admitted limit requests ts ≡ sliding limit requests history)
        × ((a : ℕ) → count_in a (history ++ admitted limit requests ts) ≤ limit)
  unfolding admitted sliding
  admitted_step last [] ts history f o = (refl, λ a. rw append-nil (f.budget a))
  admitted_step last (now ∷ requests) ts history f (h, o) =
      let count = pruned_count limit last now ts history f h in
      elim (decide_cases limit now (prune (now - window) ts)) [
        | inl (room, e) ↦
            let (same, budget) =
              admitted_step now requests _ _ (Faithful-admit limit last now ts history f h room)
                o in
            let open_ : ltb (count_from (now - window) history) limit ≡ true =
              ground (arith, count) in
            rw (e, open_) (ap (λ r. now ∷ r) same, λ a. rw append_assoc at (budget a))
        | inr (full, no_, e) ↦
            let (same, budget) =
              admitted_step now requests _ _ (Faithful-refuse limit last now ts history f h) o in
            let shut : ltb (count_from (now - window) history) limit ≡ false =
              ground (arith, count) in
            rw (no_, e, shut) (same, budget)
      ]

  fresh : Faithful limit 0 [] []
  fresh = record { ordered = omega arith; recent = λ c k. refl; budget = λ a. omega arith }

  -- The pruned bucket decides as the limiter with the whole history does: on requests in the order
  -- of the clock, a request is admitted exactly if fewer than the limit were in the last minute.
  pub admitted-eq-sliding :
      (requests : List ℕ)
      → IsAscending 0 requests
      → admitted limit requests [] ≡ sliding limit requests []
  admitted-eq-sliding requests o = (admitted_step 0 requests [] [] fresh o).0

  -- Whatever the request times, in the order of the clock, every closed window of a minute holds at
  -- most the limit of admitted requests.
  pub admitted_budget :
      (requests : List ℕ)
      → IsAscending 0 requests
      → (a : ℕ) → count_in a (admitted limit requests []) ≤ limit
  admitted_budget requests o = (admitted_step 0 requests [] [] fresh o).1
