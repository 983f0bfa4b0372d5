-- ===== src/Resilience/Retry/Attempts.antt =====
-- How often the two loops call the operation, and what each ending says of the calls made.
use chainfx_payment_core.Common.{
  ℕ, zero, suc, ◌+◌, ◌-◌, ◌≤◌, ◌<◌, ◌≡◌, Bool, false, Option, none, some, inl, inr, arith,
  Bool-cases, Option-cases, ◌∙◌,
}
use mathlib.Core.Path.{subst}
use chainfx_payment_core.Common.Int.{ℤ, pos, pos_part, ◌≤ℤ◌}
use chainfx_payment_core.Resilience.Retry.{
  Outcome, success, returned, exhausted, cancelled, World, is_retryable, at_least_one, attempts,
  attempt_once, pause, do_with_context, relay_attempts, execute_with_retry,
}

module _ {E S : Type 0} (w : World E S) (calls : S → ℕ) where
  -- `calls` counts the calls of the operation: only the operation adds to it, and it adds one.
  pub record Counts : Type 0 where
    pub by_operation : (s : S) → calls (w.operation s).1 ≡ calls s + 1
    pub not_by_wait : (n : ℕ) (s : S) → calls (w.wait n s).1 ≡ calls s

  -- What an ending says when at most `n` calls follow the first `c`.
  abbrev pub Ends : (E → Bool) → ℕ → ℕ → Outcome E × S → Type 0
  Ends retryable n c (success, s) = (c < calls s) × (calls s ≤ c + n)
  Ends retryable n c (returned e, s) = (retryable e ≡ false) × (c < calls s) × (calls s < c + n)
  Ends retryable n c (exhausted e, s) = calls s ≡ c + n
  Ends retryable n c (cancelled e, s) = (c ≤ calls s) × (calls s < c + n)

  Ends-suc :
      (retryable : E → Bool) (n c c' : ℕ) (r : Outcome E × S)
      → c' ≡ c + 1
      → Ends retryable n c' r
      → Ends retryable (suc n) c r
  Ends-suc retryable n c c' (success, s) e h = omega arith
  Ends-suc retryable n c c' (returned x, s) e h = (h.0, omega arith, omega arith)
  Ends-suc retryable n c c' (exhausted x, s) e h = omega arith
  Ends-suc retryable n c c' (cancelled x, s) e h = omega arith

  pause-Ends :
      (counts : Counts) (retryable : E → Bool) (n c attempt : ℕ) (s : S) (again : S → Outcome E × S)
      → calls s ≡ c + 1
      → ((t : S) → Ends retryable (suc n) (calls t) (again t))
      → Ends retryable (suc (suc n)) c (pause w attempt s again)
  unfolding pause
  pause-Ends counts retryable n c attempt s again e h =
      let (ended, t) = w.wait attempt s in
      elim (Option-cases (w.wait attempt s).0) [
        | inl o ↦
            rw (o, Ends, pause)
              (Ends-suc retryable (suc n) c _ (again (w.wait attempt s).1)
                (counts.not_by_wait attempt s ∙ e) (h (w.wait attempt s).1))
        | inr (x, o) ↦ rw (o, Ends, pause) (omega (arith, counts.not_by_wait attempt s))
      ]

  attempts-Ends :
      (counts : Counts) (left : ℕ) (retryable : E → Bool) (attempt : ℕ) (s : S)
      → Ends retryable (suc left) (calls s) (attempts left retryable w attempt s)
  unfolding attempts attempt_once
  attempts-Ends counts zero retryable attempt s = elim (Option-cases (w.context_error s)) [
    | inr (x, o) ↦ rw (o, Ends, attempts, attempt_once) (omega arith)
    | inl o ↦ elim (Option-cases (w.operation s).0) [
      | inl p ↦ rw (o, p, Ends, attempts, attempt_once) (omega (arith, counts.by_operation s))
      | inr (x, p) ↦ rw (o, p, Ends, attempts, attempt_once) (omega (arith, counts.by_operation s))
    ]
  ]
  attempts-Ends counts (suc left) retryable attempt s = elim (Option-cases (w.context_error s)) [
    | inr (x, o) ↦ rw (o, Ends, attempts, attempt_once) (omega arith)
    | inl o ↦ elim (Option-cases (w.operation s).0) [
      | inl p ↦ rw (o, p, Ends, attempts, attempt_once) (omega (arith, counts.by_operation s))
      | inr (x, p) ↦ elim (Bool-cases (retryable x)) [
        | inl again ↦
            rw (o, p, again, Ends, attempts, attempt_once)
              (pause-Ends counts retryable left (calls s) attempt (w.operation s).1 _
                (counts.by_operation s) (λ t. attempts-Ends counts left retryable (attempt + 1) t))
        | inr final ↦
            rw (o, p, final, Ends, attempts, attempt_once)
              (final, omega (arith, counts.by_operation s), omega (arith, counts.by_operation s))
      ]
    ]
  ]

  -- With `n` the configured limit, one if that is not positive: a nil result comes after one to `n`
  -- calls, an error of the operation as it is only if it is not retryable and fewer than `n` calls
  -- were made, the error that says that all attempts failed after exactly `n` calls, and the
  -- context's error after fewer than `n`.
  pub do_with_context-Ends :
      Counts
      → (max_attempts : ℤ) (retryable : Option (E → Bool)) (s : S)
      → Ends
          (is_retryable retryable)
          (at_least_one max_attempts)
          (calls s)
          (do_with_context max_attempts retryable w s)
  unfolding do_with_context
  do_with_context-Ends counts max_attempts retryable s =
      let n = at_least_one max_attempts in
      subst
        (λ k.
          Ends (is_retryable retryable) k (calls s) (do_with_context max_attempts retryable w s))
        (let e : suc (n - 1) ≡ n = ground arith in e)
        (attempts-Ends counts (n - 1) (is_retryable retryable) 1 s)

  relay_attempts-calls :
      (counts : Counts) (left : ℕ) (fatal : E → Bool) (attempt : ℕ) (last : Option E) (s : S)
      → let s' = (relay_attempts left fatal w attempt last s).1 in
        (calls s' ≤ calls s + left) × (calls s ≤ calls s') × (calls s + 1 ≤ calls s' + (1 - left))
  unfolding relay_attempts
  relay_attempts-calls counts zero fatal attempt last s = omega arith
  relay_attempts-calls counts (suc zero) fatal attempt last s =
      ground (arith, counts.by_operation s)
  relay_attempts-calls counts (suc (suc left)) fatal attempt last s =
      let s' = (w.operation s).1 in
      elim (Option-cases (w.operation s).0) [
        | inl nil ↦ ground (arith, nil, counts.by_operation s)
        | inr (x, failed) ↦ ground (
          arith,
          failed,
          counts.by_operation s,
          counts.not_by_wait attempt s',
          relay_attempts-calls counts (suc left) fatal (attempt + 1) (some x) (w.wait attempt s').1,
        )
      ]

  -- With a positive limit the paymaster's loop calls the operation at least once, and no more often
  -- than the limit.
  pub execute_with_retry-calls :
      Counts
      → (max_attempts : ℤ) (fatal : E → Bool) (s : S) → pos 1 ≤ℤ max_attempts
      → let s' = (execute_with_retry max_attempts fatal w s).1 in
        (calls s < calls s') × (calls s' ≤ calls s + pos_part max_attempts)
  unfolding execute_with_retry
  execute_with_retry-calls counts max_attempts fatal s h =
      omega (arith, relay_attempts-calls counts (pos_part max_attempts) fatal 0 none s)
