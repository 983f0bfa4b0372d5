-- ===== src/Resilience/Retry.antt =====
-- internal/resilience/retry.go, and the like loop of internal/paymaster/retry.go. What the loops
-- call is a parameter over a state `S` of the world: the operation, the error of the context, and
-- the wait between two attempts, which the context may end. The length of the wait (backoffDelay,
-- which computes on floats and reads the clock) is part of that parameter.
pub mod Attempts
pub mod Keeping
pub mod Effects
mod Tests
use chainfx_payment_core.Common.{
  ℕ, zero, suc, ◌+◌, ◌-◌, Bool, true, false, Option, none, some, if◌then◌else◌,
}
use chainfx_payment_core.Common.Int.{ℤ, pos, pos_part, ltb_ℤ}

-- How the loop ends: with nil, with the operation's own error, with the error that says that all
-- attempts failed and wraps the last one, or with the context's error.
pub data Outcome (E : Type 0) : Type 0 where
  success : Outcome E
  returned : E → Outcome E
  exhausted : E → Outcome E
  cancelled : E → Outcome E

-- `none` is a nil error; `wait attempt` ends with an error if the context is done first.
pub record World (E S : Type 0) : Type 0 where
  pub operation : S → Option E × S
  pub context_error : S → Option E
  pub wait : ℕ → S → Option E × S

-- `if retryable == nil { retryable = AlwaysRetry }`
abbrev pub is_retryable : {E : Type 0} → Option (E → Bool) → E → Bool
is_retryable none e = true
is_retryable (some test) e = test e

-- `if cfg.MaxAttempts <= 0 { cfg.MaxAttempts = 1 }`
abbrev pub at_least_one : ℤ → ℕ
at_least_one n = if ltb_ℤ (pos 0) n then pos_part n else 1

module _ {E S : Type 0} where
  -- The pause after a failed attempt, then the next one.
  pause : World E S → ℕ → S → (S → Outcome E × S) → Outcome E × S
  pause w attempt s again =
      let (ended, s') = w.wait attempt s in
      elim ended [ some c ↦ (cancelled c, s') | none ↦ again s' ]

  -- One round; `next` says what follows a failure.
  attempt_once : World E S → S → (E → S → Outcome E × S) → Outcome E × S
  attempt_once w s next = elim (w.context_error s) [
    | some c ↦ (cancelled c, s)
    | none ↦
        let (result, s') = w.operation s in
        elim result [ none ↦ (success, s') | some e ↦ next e s' ]
  ]

  -- The loop with `left` attempts after this one.
  attempts : ℕ → (E → Bool) → World E S → ℕ → S → Outcome E × S
  unfolding pause attempt_once
  attempts zero retryable w attempt s = attempt_once w s λ e s'. (exhausted e, s')
  attempts (suc left) retryable w attempt s = attempt_once w s λ e s'. elim (retryable e) [
    | true ↦ pause w attempt s' (attempts left retryable w (attempt + 1))
    | false ↦ (returned e, s')
  ]

  pub do_with_context : ℤ → Option (E → Bool) → World E S → S → Outcome E × S
  unfolding attempts
  do_with_context max_attempts retryable w s =
      attempts (at_least_one max_attempts - 1) (is_retryable retryable) w 1 s

  -- internal/paymaster/retry.go: no check of the context before an attempt, the last error is
  -- returned as it is, and it stays nil if the limit allows no attempt. `wraps_non_retryable` is
  -- errors.Is(err, ErrNonRetryable).
  relay_attempts : ℕ → (E → Bool) → World E S → ℕ → Option E → S → Option E × S
  relay_attempts zero wraps_non_retryable w attempt last s = (last, s)
  relay_attempts (suc left) wraps_non_retryable w attempt last s =
      let (result, s') = w.operation s in
      elim result [
        | none ↦ (none, s')
        | some e ↦ elim (wraps_non_retryable e) [
          | true ↦ (some e, s')
          | false ↦ elim left [
            | zero ↦ (some e, s')
            | suc more ↦
                let (ended, rested) = w.wait attempt s' in
                elim ended [
                  | some c ↦ (some c, rested)
                  | none ↦ relay_attempts left wraps_non_retryable w (attempt + 1) (some e) rested
                ]
          ]
        ]
      ]

  unfoldable pub execute_with_retry : ℤ → (E → Bool) → World E S → S → Option E × S
  unfolding relay_attempts
  execute_with_retry max_attempts wraps_non_retryable w s =
      relay_attempts (pos_part max_attempts) wraps_non_retryable w 0 none s
