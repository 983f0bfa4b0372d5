-- ===== src/Resilience/Breaker/Tripping.antt =====
-- When a closed breaker opens.
use chainfx_payment_core.Common.{
  ℕ, ◌+◌, ◌≤◌, ◌≡◌, List, [], ◌∷◌, some, none, arith, ltb, length, if◌then◌else◌,
}
use chainfx_payment_core.Resilience.Breaker.{
  closed, open_state, CircuitBreaker, Config, new_circuit_breaker, record_result,
}

module _ {E : Type 0} where
  -- Failures reported one after another, each at its instant.
  pub fail_run : List (ℕ × E) → CircuitBreaker E → CircuitBreaker E
  fail_run [] cb = cb
  fail_run ((now, e) ∷ es) cb = fail_run es (record_result now (some e) cb)

  stays_open :
      (es : List (ℕ × E)) (cb : CircuitBreaker E)
      → cb.ignore ≡ none
      → cb.state ≡ open_state
      → (fail_run es cb).state ≡ open_state
  unfolding fail_run record_result
  stays_open [] cb i h = h
  stays_open ((now, e) ∷ es) cb i h = ground (arith, stays_open es (record_result now (some e) cb))

  fail_run-closed :
      (es : List (ℕ × E)) (cb : CircuitBreaker E)
      → cb.ignore ≡ none
      → cb.state ≡ closed
      → cb.failures + 1 ≤ cb.max_failures
      → (fail_run es cb).state
        ≡ (if ltb (cb.failures + length es) cb.max_failures then closed else open_state)
  unfolding fail_run record_result
  fail_run-closed [] cb i h lt = ground arith
  fail_run-closed ((now, e) ∷ es) cb i h lt = ground (
    arith,
    stays_open es (record_result now (some e) cb),
    fail_run-closed es (record_result now (some e) cb),
  )

  -- A new breaker that sees failures only is closed while they are fewer than the limit, and open
  -- from the failure that reaches it on. That holds whether or not the configured `IgnoreError`
  -- accepts the errors: the constructor drops that function.
  pub fail_run-state :
      (cfg : Config E) (es : List (ℕ × E))
      → (fail_run es (new_circuit_breaker cfg)).state
        ≡ (if ltb (length es) (new_circuit_breaker cfg).max_failures then closed else open_state)
  unfolding new_circuit_breaker
  fail_run-state cfg es = ground (arith, fail_run-closed es (new_circuit_breaker cfg))
