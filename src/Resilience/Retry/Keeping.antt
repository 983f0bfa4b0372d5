-- ===== src/Resilience/Retry/Keeping.antt =====
-- What every call of the loop of internal/resilience/retry.go keeps, the loop keeps.
use chainfx_payment_core.Common.{
  ℕ, zero, suc, ◌+◌, ◌-◌, Bool, Option, inl, inr, Bool-cases, Option-cases,
}
use chainfx_payment_core.Common.Int.{ℤ}
use chainfx_payment_core.Resilience.Retry.{
  Outcome, World, is_retryable, at_least_one, attempts, attempt_once, pause, do_with_context,
}

module _ {E S : Type 0} (w : World E S) (P : S → Type 0) where
  pub record Keeps : Type 0 where
    pub by_operation : (s : S) → P s → P (w.operation s).1
    pub by_wait : (n : ℕ) (s : S) → P s → P (w.wait n s).1

  pause-keeps :
      (keeps : Keeps) (attempt : ℕ) (s : S) (again : S → Outcome E × S)
      → P s
      → ((t : S) → P t → P (again t).1)
      → P (pause w attempt s again).1
  unfolding pause
  pause-keeps keeps attempt s again h next = elim (Option-cases (w.wait attempt s).0) [
    | inl o ↦ rw (o, pause) (next (w.wait attempt s).1 (keeps.by_wait attempt s h))
    | inr (x, o) ↦ rw (o, pause) (keeps.by_wait attempt s h)
  ]

  attempt_once-keeps :
      (keeps : Keeps) (s : S) (next : E → S → Outcome E × S)
      → P s
      → ((e : E) (t : S) → P t → P (next e t).1)
      → P (attempt_once w s next).1
  unfolding attempt_once
  attempt_once-keeps keeps s next h f = elim (Option-cases (w.context_error s)) [
    | inr (x, o) ↦ rw (o, attempt_once) h
    | inl o ↦ elim (Option-cases (w.operation s).0) [
      | inl p ↦ rw (o, p, attempt_once) (keeps.by_operation s h)
      | inr (x, p) ↦ rw (o, p, attempt_once) (f x (w.operation s).1 (keeps.by_operation s h))
    ]
  ]

  attempts-keeps :
      (keeps : Keeps) (left : ℕ) (retryable : E → Bool) (attempt : ℕ) (s : S)
      → P s
      → P (attempts left retryable w attempt s).1
  unfolding attempts
  attempts-keeps keeps zero retryable attempt s h =
      attempt_once-keeps keeps s (λ e s'. (Outcome.exhausted e, s')) h (λ e t g. g)
  attempts-keeps keeps (suc left) retryable attempt s h =
      attempt_once-keeps keeps s
        (λ e s'. elim (retryable e) [
          | Bool.true ↦ pause w attempt s' (attempts left retryable w (attempt + 1))
          | Bool.false ↦ (Outcome.returned e, s')
        ])
        h
        (λ e t g. elim (Bool-cases (retryable e)) [
          | inl r ↦ rw r (
              pause-keeps keeps attempt t (attempts left retryable w (attempt + 1)) g
                (attempts-keeps keeps left retryable (attempt + 1)))
          | inr r ↦ rw r g
        ])

  pub do_with_context-keeps :
      (keeps : Keeps) (max_attempts : ℤ) (retryable : Option (E → Bool)) (s : S)
      → P s
      → P (do_with_context max_attempts retryable w s).1
  unfolding do_with_context
  do_with_context-keeps keeps max_attempts retryable s h =
      attempts-keeps keeps (at_least_one max_attempts - 1) (is_retryable retryable) 1 s h
