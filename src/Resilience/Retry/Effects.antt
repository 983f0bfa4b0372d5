-- ===== src/Resilience/Retry/Effects.antt =====
-- What the loop of internal/paymaster/retry.go has done when it ends, by what each of its calls does.
use chainfx_payment_core.Common.{
  ℕ, zero, suc, ◌+◌, ◌≡◌, Bool, Option, none, some, inl, inr, Bool-cases, Option-cases,
}
use chainfx_payment_core.Common.Int.{pos}
use chainfx_payment_core.Resilience.Retry.{World, relay_attempts, execute_with_retry}

module _ {E S : Type 0} (w : World E S) (Before After : S → Type 0) where
  -- A call that fails and a wait change nothing that matters; a call that succeeds does its work.
  pub record Effects : Type 0 where
    pub by_success : (s : S) → Before s → (w.operation s).0 ≡ none → After (w.operation s).1
    pub by_failure :
        (s : S) (e : E) → Before s → (w.operation s).0 ≡ some e → Before (w.operation s).1
    pub by_wait : (n : ℕ) (s : S) → Before s → Before (w.wait n s).1

  abbrev pub Done : Option E × S → Type 0
  Done (none, s) = After s
  Done (some e, s) = Before s

  relay_attempts-Done :
      (effects : Effects) (left : ℕ) (wraps : E → Bool) (attempt : ℕ) (last : Option E) (s : S)
      → Before s
      → Done (relay_attempts (suc left) wraps w attempt last s)
  unfolding relay_attempts
  relay_attempts-Done effects zero wraps attempt last s h = elim (Option-cases (w.operation s).0) [
    | inl o ↦ rw (o, relay_attempts, Done) (effects.by_success s h o)
    | inr (e, o) ↦ elim (Bool-cases (wraps e)) [
      | inl f ↦ rw (o, f, relay_attempts, Done) (effects.by_failure s e h o)
      | inr f ↦ rw (o, f, relay_attempts, Done) (effects.by_failure s e h o)
    ]
  ]
  relay_attempts-Done effects (suc left) wraps attempt last s h =
      elim (Option-cases (w.operation s).0) [
        | inl o ↦ rw (o, relay_attempts, Done) (effects.by_success s h o)
        | inr (e, o) ↦
            let t = (w.operation s).1 in
            let k = effects.by_failure s e h o in
            elim (Bool-cases (wraps e)) [
              | inl f ↦ rw (o, f, relay_attempts, Done) k
              | inr f ↦ elim (Option-cases (w.wait attempt t).0) [
                | inl x ↦
                    rw (o, f, x, relay_attempts, Done)
                      (relay_attempts-Done effects left wraps (attempt + 1) (some e)
                        (w.wait attempt t).1 (effects.by_wait attempt t k))
                | inr (c, x) ↦ rw (o, f, x, relay_attempts, Done) (effects.by_wait attempt t k)
              ]
            ]
      ]

  -- If the limit allows an attempt, a nil error comes after the work is done, and an error when it is
  -- not.
  pub execute_with_retry-Done :
      (effects : Effects) (n : ℕ) (wraps : E → Bool) (s : S)
      → Before s
      → Done (execute_with_retry (pos (suc n)) wraps w s)
  unfolding execute_with_retry
  execute_with_retry-Done effects n wraps s h = relay_attempts-Done effects n wraps 0 none s h
