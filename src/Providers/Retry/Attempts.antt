-- ===== src/Providers/Retry/Attempts.antt =====
-- What the attempts of one call of a provider come to.
use magna_cms.Prelude.{
  ℕ, ◌+◌, ◌*◌, ◌≤◌, ◌<◌, zero, suc, ◌≡◌, refl, ap, ◌∙◌, Bool, true, false, ◌&&◌, ◌⊎◌, inl, inr,
  subst, arith,
}
use magna_cms.Session.{Result, err}
use magna_cms.Providers.Retry.{
  Reply, completed, retryable, refused, crashed, Call, settled, retry_exhausted, doublings,
  attempts_from, call_with_retry, after_reply,
}

abbrev pub is_retryable : {C : Type 0} → Reply C → Bool
is_retryable (completed c) = false
is_retryable retryable = true
is_retryable refused = false
is_retryable (crashed e) = false

-- Whether so many attempts from one on all fail in a way that is tried again.
abbrev pub all_retryable : {C : Type 0} → (ℕ → Reply C) → ℕ → ℕ → Bool
all_retryable client from zero = true
all_retryable client from (suc n) = is_retryable (client from) && all_retryable client (from + 1) n

-- The attempts that a call may make, by what the client answers.
abbrev pub IsOutcome : {A C : Type 0} → (C → Result A) → (ℕ → Reply C) → ℕ → ℕ → Call A → Type 0
IsOutcome build client from n call =
    ((k : ℕ) × (k < n)
      × (all_retryable client from k ≡ true)
      × (is_retryable (client (from + k)) ≡ false)
      × (call.result ≡ settled build (client (from + k)))
      × (call.attempts ≡ k + 1))
    ⊎ ((all_retryable client from n ≡ true)
        × (call.result ≡ err retry_exhausted)
        × (call.attempts ≡ n))

module _ {A C : Type 0} (build : C → Result A) (client : ℕ → Reply C) (jitter : ℕ → ℕ) where
  abbrev from_here : ℕ → ℕ → Call A
  from_here = attempts_from build client jitter

  -- A first attempt that settles the call.
  settled_here :
      (n from : ℕ) (call : Call A)
      → is_retryable (client from) ≡ false
      → call.result ≡ settled build (client from)
      → call.attempts ≡ 1
      → IsOutcome build client from (suc n) call
  settled_here n from call e r a =
      let here : from ≡ from + 0 = omega arith in
      inl (
        0,
        omega arith,
        refl,
        subst (λ k. is_retryable (client k) ≡ false) here e,
        subst (λ k. call.result ≡ settled build (client k)) here r,
        a,
      )

  -- A first attempt that fails, and what follows.
  tried_again :
      (n from : ℕ) (call later : Call A)
      → is_retryable (client from) ≡ true
      → IsOutcome build client (from + 1) n later
      → call.result ≡ later.result
      → call.attempts ≡ later.attempts + 1
      → IsOutcome build client from (suc n) call
  tried_again n from call later e (inl (k, lo, again, final, result, attempts)) r a =
      let next : from + 1 + k ≡ from + (k + 1) = omega arith in
      let count : suc k ≡ k + 1 = omega arith in
      inl (
        k + 1,
        omega arith,
        subst (λ j. all_retryable client from j ≡ true) count (rw (e, again) refl),
        subst (λ j. is_retryable (client j) ≡ false) next final,
        r ∙ subst (λ j. later.result ≡ settled build (client j)) next result,
        a ∙ ap (λ j. j + 1) attempts,
      )
  tried_again n from call later e (inr (again, result, attempts)) r a =
      inr (rw (e, again) refl, r ∙ result, omega arith)

  one_more :
      (reply : Reply C) (n from : ℕ) (later : Call A)
      → client from ≡ reply
      → IsOutcome build client (from + 1) n later
      → IsOutcome build client from (suc n) (after_reply build client jitter reply n from later)
  one_more (completed c) n from later e ih =
      settled_here n from (after_reply build client jitter (completed c) n from later) (rw e refl)
        (rw e refl) refl
  one_more refused n from later e ih =
      settled_here n from (after_reply build client jitter refused n from later) (rw e refl)
        (rw e refl) refl
  one_more (crashed x) n from later e ih =
      settled_here n from (after_reply build client jitter (crashed x) n from later) (rw e refl)
        (rw e refl) refl
  one_more retryable zero from later e ih = inr (rw e refl, refl, refl)
  one_more retryable (suc n) from later e ih =
      tried_again (suc n) from (after_reply build client jitter retryable (suc n) from later) later
        (rw e refl) ih refl refl

  attempts_from-IsOutcome : (n from : ℕ) → IsOutcome build client from n (from_here n from)
  attempts_from-IsOutcome zero from = inr (refl, refl, refl)
  attempts_from-IsOutcome (suc n) from =
      one_more (client from) n from (from_here n (from + 1)) refl
        (attempts_from-IsOutcome n (from + 1))

  -- A call of a provider with so many attempts ends in one of two ways. Either the attempts before
  -- some attempt fail in a way that is tried again and that one does not: then it is the last
  -- attempt, and its reply decides the result. Or all the attempts fail so, all of them are made,
  -- and the result is that the retries are exhausted.
  pub call_with_retry_ends :
      (max_retries : ℕ)
      → IsOutcome build client 0 max_retries (call_with_retry build client jitter max_retries)
  unfolding call_with_retry
  call_with_retry_ends max_retries = attempts_from-IsOutcome max_retries 0

  -- The waiting of one more failed attempt.
  waited_more :
      (reply : Reply C) (n from : ℕ) (later : Call A)
      → jitter from ≤ 250 * doublings from
      → later.waited + 1_250 * (2 * doublings from) ≤ 1_250 * doublings (suc from + n)
      → (after_reply build client jitter reply (suc n) from later).waited + 1_250 * doublings from
        ≤ 1_250 * doublings (suc from + n)
  waited_more (completed c) n from later j h = omega arith
  waited_more refused n from later j h = omega arith
  waited_more (crashed e) n from later j h = omega arith
  waited_more retryable n from later j h = omega arith

  waited_once :
      (reply : Reply C) (from : ℕ) (later : Call A)
      → (after_reply build client jitter reply zero from later).waited ≡ 0
  waited_once (completed c) from later = refl
  waited_once refused from later = refl
  waited_once (crashed e) from later = refl
  waited_once retryable from later = refl

  attempts_from-waited :
      (n from : ℕ)
      → ((k : ℕ) → jitter k ≤ 250 * doublings k)
      → (from_here (suc n) from).waited + 1_250 * doublings from ≤ 1_250 * doublings (from + n)
  attempts_from-waited zero from small =
      let here : from + 0 ≡ from = omega arith in
      rw here (omega (arith, waited_once (client from) from (from_here 0 (from + 1))))
  attempts_from-waited (suc n) from small =
      let next : from + 1 ≡ suc from = omega arith in
      let end : from + 1 + n ≡ suc from + n = omega arith in
      let last : from + suc n ≡ suc from + n = omega arith in
      let ih = attempts_from-waited n (from + 1) small in
      let later = from_here (suc n) (from + 1) in
      let start : doublings (from + 1) ≡ 2 * doublings from = ap doublings next in
      let stop : doublings (from + 1 + n) ≡ doublings (suc from + n) = ap doublings end in
      rw last (waited_more (client from) n from later (small from) (omega arith))

  -- The waiting times of a call of at least one attempt, of which each doubles the one before and
  -- whose jitter is at most a quarter, are less than 1.25 seconds times two to the number of its
  -- attempts after the first.
  pub call_with_retry-waited :
      (n : ℕ)
      → ((k : ℕ) → jitter k ≤ 250 * doublings k)
      → (call_with_retry build client jitter (n + 1)).waited + 1_250 ≤ 1_250 * doublings n
  unfolding call_with_retry
  call_with_retry-waited n small =
      let count : n + 1 ≡ suc n = omega arith in
      let none_yet : 0 + n ≡ n = omega arith in
      let h = rw none_yet at (attempts_from-waited n 0 small) in rw count h

-- Attempts that all fail in a way that is tried again exhaust the retries.
module _ {A C : Type 0} (build : C → Result A) (replies : ℕ → Reply C) (jitter : ℕ → ℕ) where
  exhausted_reply :
      (reply : Reply C) (n from : ℕ) (later : Call A)
      → is_retryable reply ≡ true
      → later.result ≡ err retry_exhausted
      → (after_reply build replies jitter reply n from later).result ≡ err retry_exhausted
  exhausted_reply (completed c) n from later e h = cc
  exhausted_reply refused n from later e h = cc
  exhausted_reply (crashed x) n from later e h = cc
  exhausted_reply retryable zero from later e h = refl
  exhausted_reply retryable (suc n) from later e h = h

  pub exhausted :
      (n from : ℕ)
      → all_retryable replies from n ≡ true
      → (attempts_from build replies jitter n from).result ≡ err retry_exhausted
  exhausted zero from h = refl
  exhausted (suc n) from h =
      exhausted_reply (replies from) n from (attempts_from build replies jitter n (from + 1))
        (ground arith) (exhausted n (from + 1) (ground arith))
