-- ===== src/Resilience/Breaker/Tests.antt =====
-- Runs of the breaker on concrete configurations.
use chainfx_payment_core.Common.{ℕ, ◌≡◌, refl, Bool, true, none, some, List, [], ◌∷◌}
use chainfx_payment_core.Common.Int.{pos}
use chainfx_payment_core.Resilience.Breaker.{
  State, closed, open_state, half_open, Config, CircuitBreaker, new_circuit_breaker,
}
use chainfx_payment_core.Resilience.Breaker.Invariant.{
  Event, observing, claiming, reporting, run_events, IsValid, run_events-IsValid,
}
use chainfx_payment_core.Resilience.Breaker.Probing.{Half}

-- The RPC pool's thresholds; errors are numbers, and all of them are to be ignored.
abbrev pool : Config ℕ
pool = record {
  max_failures = pos 2;
  reset_timeout = pos 60;
  half_open_success = pos 2;
  ignore_error = some (λ e. true);
}

abbrev breaker : State → Bool → CircuitBreaker ℕ
breaker s probing = record {
  state = s;
  failures = 2;
  successes = 0;
  last_trip = 100;
  probe_in_flight = probing;
  max_failures = 2;
  reset_timeout = 60;
  half_open_success = 2;
  ignore = none;
}

abbrev trace : List (Event ℕ)
trace =
    observing 1
    ∷ claiming closed
    ∷ reporting 2 (some 7)
    ∷ reporting 3 (some 7)
    ∷ observing 70
    ∷ claiming half_open
    ∷ reporting 71 none
    ∷ []

trace-state : (run_events trace (new_circuit_breaker pool)).state ≡ half_open
unfolding run_events new_circuit_breaker
trace-state = refl

run_events-IsValid_example : IsValid (run_events trace (new_circuit_breaker pool))
run_events-IsValid_example = run_events-IsValid pool trace

-- Three other calls come to the breaker together; they saw it half-open, open, and closed.
abbrev others : List Half
others =
    Half.looking 170
    ∷ Half.looking 171
    ∷ Half.claiming half_open
    ∷ Half.claiming open_state
    ∷ Half.claiming closed
    ∷ []
