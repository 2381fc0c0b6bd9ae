-- ===== src/RateLimit/Buckets.antt =====
-- The dict of buckets under a request: the address's own bucket holds the decision's result, the
-- retry hint lies within the minute, the table never grows past its cap.
use native.Mathlib.Nat.{le_trans}
use magna_cms.Prelude.{
  ℕ, ◌+◌, ◌-◌, ◌*◌, ◌/◌, ◌≤◌, ◌<◌, ◌≡◌, ◌⊎◌, refl, sym, ap, ◌∙◌, text_eq→≡, text_eq_refl, Bool,
  true, ◌||◌, some, List, [], ◌∷◌, arith, length, suc, max, any_mono, length-select-not, take, any,
  ltb, leb, Bool-cases, Option-cases, inl, inr,
}
use magna_cms.RateLimit.{
  Verdict, passed, limited, index_error, decide, prune, window, tick, Bucket, Key, Buckets, key_eq,
  lookup, insert, insert_by_touch, sorted_by_touch, is_key_of, prune_oldest_buckets_if_over_cap,
  hit, finish, timestamps_of,
}

key_eq→≡ : (j k : Key) → key_eq j k ≡ true → j ≡ k
key_eq→≡ (a, b) (c, d) h = ground (arith, text_eq→≡ a c, text_eq→≡ b d)

key_eq_refl : (k : Key) → key_eq k k ≡ true
key_eq_refl (a, b) = ground (arith, text_eq_refl a, text_eq_refl b)

length-insert_known :
    (k : Key) (b c : Bucket) (d : Buckets) → lookup k d ≡ some c → length (insert k b d) ≡ length d
unfolding lookup insert
length-insert_known k b c [] e = cc
length-insert_known k b c ((j, x) ∷ d) e = elim (Bool-cases (key_eq j k)) [
  | inl same ↦ rw same refl
  | inr other ↦
      let found : lookup k d ≡ some c = rw other at e in
      rw other (ap suc (length-insert_known k b c d found))
]

length-insert : (k : Key) (b : Bucket) (d : Buckets) → length (insert k b d) ≤ length d + 1
unfolding insert
length-insert k b [] = omega arith
length-insert k b ((j, x) ∷ d) = ground (arith, length-insert k b d)

-- A refusal's hint is at least a second and at most a minute, and a second after it the oldest
-- timestamp that was counted has left the window.
retry_bounds :
    (limit now r t : ℕ) (ts rest : List ℕ)
    → prune (now - window) ts ≡ t ∷ rest
    → t ≤ now
    → (decide limit now (prune (now - window) ts)).0 ≡ limited r
    → (1 ≤ r) × (r ≤ 60) × (t < now + (r + 1) * tick - window)
unfolding decide
retry_bounds limit now r t ts rest e p h = elim (Bool-cases (leb limit (length (t ∷ rest)))) [
  | inl full ↦
      let v : limited (max 1 ((t + window - now) / tick)) ≡ limited r = rw (e, full) at h in
      let hint : max 1 ((t + window - now) / tick) ≡ r = cc in omega arith
  | inr room ↦ let v : passed ≡ limited r = rw (e, room) at h in cc
]

any-insert_by_touch :
    (p : Key × Bucket → Bool) (e : Key × Bucket) (d : Buckets)
    → any p (insert_by_touch e d) ≡ (p e || any p d)
unfolding insert_by_touch
any-insert_by_touch p e [] = refl
any-insert_by_touch p (k, b) ((j, c) ∷ d) = ground (arith, any-insert_by_touch p (k, b) d)

any-sorted : (p : Key × Bucket → Bool) (d : Buckets) → any p (sorted_by_touch d) ≡ any p d
unfolding sorted_by_touch
any-sorted p [] = refl
any-sorted p (e ∷ d) =
    any-insert_by_touch p e (sorted_by_touch d) ∙ ap (λ b. p e || b) (any-sorted p d)

-- The first of the sorted items is among the dropped ones, and it is an item of the dict.
drops_one :
    (n : ℕ) (d s : Buckets)
    → sorted_by_touch d ≡ s
    → 0 < length s
    → any (is_key_of (take (suc n) s)) d ≡ true
drops_one n d [] e h = absurd (omega arith)
drops_one n d ((k, b) ∷ s) e h =
    any_mono (λ (j, _). key_eq k j) (is_key_of (take (suc n) ((k, b) ∷ s))) d
      (λ (j, c) same. rw same refl)
      (sym (any-sorted (λ (j, _). key_eq k j) d) ∙ rw (e, key_eq_refl k) refl)

length-sorted : (d : Buckets) → 0 < length d → 0 < length (sorted_by_touch d)
unfolding sorted_by_touch
length-sorted [] h = h
length-sorted (e ∷ d) h = grows e (sorted_by_touch d)
  where
    grows : (e : Key × Bucket) (d : Buckets) → 0 < length (insert_by_touch e d)
    grows e [] = omega arith
    grows (k, b) ((j, c) ∷ d) = ground arith

length-prune_oldest :
    (cap : ℕ) (d : Buckets)
    → 10 ≤ cap
    → length d ≤ cap
    → length (prune_oldest_buckets_if_over_cap cap d) < cap
unfolding prune_oldest_buckets_if_over_cap
length-prune_oldest cap d h k = elim (Bool-cases (ltb (length d) cap)) [
  | inl under ↦ rw under (ground arith)
  | inr over ↦
      let full : 0 < length d = ground arith in
      let tenth : cap / 10 ≡ suc (cap / 10 - 1) = omega arith in
      let dropped = drops_one (cap / 10 - 1) d (sorted_by_touch d) refl (length-sorted d full) in
      let fewer =
        length-select-not (is_key_of (take (cap / 10) (sorted_by_touch d))) d (rw tenth dropped) in
      rw over (omega arith)
]

finished :
    (cap : ℕ) (v : Verdict) (d : Buckets)
    → 10 ≤ cap
    → length d ≤ cap
    → (v ≡ passed) ⊎ (length d < cap)
    → length (finish cap v d).1 < cap
finished cap passed d h k o = length-prune_oldest cap d h k
finished cap (limited r) d h k (inl e) = cc
finished cap (limited r) d h k (inr o) = o
finished cap index_error d h k (inl e) = cc
finished cap index_error d h k (inr o) = o

decide-nil : (limit now : ℕ) → 0 < limit → (decide limit now []).0 ≡ passed
unfolding decide
decide-nil limit now p = ground arith

-- A table below the cap stays below it, whatever request comes, under a positive limit.
pub length-hit :
    (cap : ℕ) (k : Key) (limit now : ℕ) (d : Buckets)
    → 10 ≤ cap
    → 0 < limit
    → length d < cap
    → length (hit cap k limit now d).1 < cap
unfolding hit prune
length-hit cap k limit now d h p l = elim (Option-cases (lookup k d)) [
  | inl new ↦ rw new (
      finished cap _ _ h (le_trans (length-insert k _ d) (omega arith))
        (inl (decide-nil limit now p)))
  | inr (b, known) ↦
      let decision = decide limit now (prune (now - window) (timestamps_of (lookup k d))) in
      let kept : Bucket = record { timestamps = decision.1; last_touch = now } in
      let same = length-insert_known k kept b d known in
      finished cap decision.0 (insert k kept d) h (omega (arith, same)) (inr (omega (arith, same)))
]
