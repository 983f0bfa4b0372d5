-- ===== src/Resilience/Breaker/Invariant.antt =====
-- Interleavings of the goroutines that use one breaker, and the invariant of its fields.
use chainfx_payment_core.Common.{ℕ, ◌<◌, ◌≡◌, ◌≢◌, Option, List, [], ◌∷◌, some, none, arith}
use chainfx_payment_core.Resilience.Breaker.{
  State, closed, open_state, half_open, CircuitBreaker, Config, new_circuit_breaker, observe, claim,
  get_state, maybe_transition_to_half_open, on_success, on_failure, record_result,
}

-- One atomic step: a locked section, or the compare-and-swap on the state that was seen before.
pub data Event (E : Type 0) : Type 0 where
  observing : ℕ → Event E
  claiming : State → Event E
  reporting : ℕ → Option E → Event E

module _ {E : Type 0} where
  pub apply : Event E → CircuitBreaker E → CircuitBreaker E
  unfolding observe claim record_result
  apply (observing now) cb = (observe now cb).1
  apply (claiming seen) cb = (claim seen cb).1
  apply (reporting now result) cb = record_result now result cb

  unfoldable pub run_events : List (Event E) → CircuitBreaker E → CircuitBreaker E
  unfolding apply
  run_events [] cb = cb
  run_events (e ∷ es) cb = run_events es (apply e cb)

  pub record IsValid (cb : CircuitBreaker E) : Type 0 where
    pub some_failures : 0 < cb.max_failures
    pub below_close : cb.successes < cb.half_open_success
    pub below_trip : cb.state ≡ closed → cb.failures < cb.max_failures
    pub probing_only : cb.successes ≢ 0 → cb.state ≡ half_open

  -- To ask an open breaker for its state changes nothing.
  pub get_state-unchanged :
      (now : ℕ) (cb : CircuitBreaker E)
      → (get_state now cb).0 ≡ open_state
      → (get_state now cb).1 ≡ cb
  unfolding get_state maybe_transition_to_half_open
  get_state-unchanged now cb h = ground arith

  pub new-IsValid : (cfg : Config E) → IsValid (new_circuit_breaker cfg)
  unfolding new_circuit_breaker
  new-IsValid cfg = ground arith

  observe-IsValid : (now : ℕ) (cb : CircuitBreaker E) → IsValid cb → IsValid (observe now cb).1
  unfolding observe
  observe-IsValid now cb v = ground arith

  claim-IsValid : (seen : State) (cb : CircuitBreaker E) → IsValid cb → IsValid (claim seen cb).1
  unfolding claim
  claim-IsValid closed cb v = v
  claim-IsValid open_state cb v = v
  claim-IsValid half_open cb v = ground arith

  on_success-IsValid : (cb : CircuitBreaker E) → IsValid cb → IsValid (on_success cb)
  unfolding on_success
  on_success-IsValid cb v = ground arith

  on_failure-IsValid : (now : ℕ) (cb : CircuitBreaker E) → IsValid cb → IsValid (on_failure now cb)
  unfolding on_failure
  on_failure-IsValid now cb v = ground arith

  record_result-IsValid :
      (now : ℕ) (result : Option E) (cb : CircuitBreaker E)
      → IsValid cb
      → IsValid (record_result now result cb)
  unfolding record_result
  record_result-IsValid now none cb v = on_success-IsValid cb v
  record_result-IsValid now (some e) cb v = ground (arith, on_failure-IsValid now cb v)

  apply-IsValid : (e : Event E) (cb : CircuitBreaker E) → IsValid cb → IsValid (apply e cb)
  unfolding apply
  apply-IsValid (observing now) = observe-IsValid now
  apply-IsValid (claiming seen) = claim-IsValid seen
  apply-IsValid (reporting now result) = record_result-IsValid now result

  run_events-IsValid' :
      (es : List (Event E)) (cb : CircuitBreaker E) → IsValid cb → IsValid (run_events es cb)
  unfolding run_events
  run_events-IsValid' [] cb v = v
  run_events-IsValid' (e ∷ es) cb v = run_events-IsValid' es (apply e cb) (apply-IsValid e cb v)

  -- However the goroutines interleave their steps on a new breaker, whatever its configuration, the
  -- thresholds stay positive, a closed breaker has fewer failures than its limit, fewer successes
  -- are counted than would close it, and successes are counted only while it is half-open.
  pub run_events-IsValid :
      (cfg : Config E) (es : List (Event E)) → IsValid (run_events es (new_circuit_breaker cfg))
  run_events-IsValid cfg es = run_events-IsValid' es (new_circuit_breaker cfg) (new-IsValid cfg)
