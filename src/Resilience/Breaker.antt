-- ===== src/Resilience/Breaker.antt =====
-- internal/resilience/circuit_breaker.go. An instant is a number of nanoseconds of the monotonic
-- clock. `allow` locks the mutex for its first half only, so the two halves are two operations,
-- `observe` and `claim`, between which other goroutines run; `record`, under the lock, is one.
pub mod Invariant
pub mod Tripping
pub mod Probing
mod Tests
use chainfx_payment_core.Common.{
  ℕ, ◌+◌, Bool, true, false, Option, none, some, leb, ◌==◌, if◌then◌else◌, ◌&&◌, not,
}
use chainfx_payment_core.Common.Int.{ℤ, pos, pos_part, ltb_ℤ}

pub data State : Type 0 where
  closed open_state half_open : State

abbrev pub same_state : State → State → Bool
same_state closed closed = true
same_state open_state open_state = true
same_state half_open half_open = true
same_state _ _ = false

-- The thresholds as the caller gives them; Go's `int` and `Duration` are signed.
pub record Config (E : Type 0) : Type 0 where
  pub max_failures : ℤ
  pub reset_timeout : ℤ
  pub half_open_success : ℤ
  pub ignore_error : Option (E → Bool)

-- The name is left out: it occurs in messages only. Once set, the thresholds are positive.
pub record CircuitBreaker (E : Type 0) : Type 0 where
  pub state : State
  pub failures : ℕ
  pub successes : ℕ
  pub last_trip : ℕ
  pub probe_in_flight : Bool
  pub max_failures : ℕ
  pub reset_timeout : ℕ
  pub half_open_success : ℕ
  pub ignore : Option (E → Bool)

-- `if cfg.X <= 0 { cfg.X = d }`
abbrev pub or_default : ℤ → ℕ → ℕ
or_default x d = if ltb_ℤ (pos 0) x then pos_part x else d

module _ {E : Type 0} where
  -- `cfg.IgnoreError` is not copied, so the field keeps its zero value, nil.
  unfoldable pub new_circuit_breaker : Config E → CircuitBreaker E
  new_circuit_breaker cfg = record {
    state = closed;
    failures = 0;
    successes = 0;
    last_trip = 0;
    probe_in_flight = false;
    max_failures = or_default cfg.max_failures 5;
    reset_timeout = or_default cfg.reset_timeout 30_000_000_000;
    half_open_success = or_default cfg.half_open_success 2;
    ignore = none;
  }

  pub maybe_transition_to_half_open : ℕ → CircuitBreaker E → CircuitBreaker E
  maybe_transition_to_half_open now cb =
      if same_state cb.state open_state && leb (cb.last_trip + cb.reset_timeout) now
      then record cb { state = half_open; successes = 0; probe_in_flight = false }
      else cb

  unfoldable pub get_state : ℕ → CircuitBreaker E → State × CircuitBreaker E
  unfolding maybe_transition_to_half_open
  get_state now cb = let cb' = maybe_transition_to_half_open now cb in (cb'.state, cb')

  -- The first half of `allow`, under the mutex: the state that the goroutine sees.
  pub observe : ℕ → CircuitBreaker E → State × CircuitBreaker E
  unfolding maybe_transition_to_half_open
  observe now cb = let cb' = maybe_transition_to_half_open now cb in (cb'.state, cb')

  -- The second half, on the state seen; `false` is ErrCircuitOpen.
  pub claim : State → CircuitBreaker E → Bool × CircuitBreaker E
  claim closed cb = (true, cb)
  claim open_state cb = (false, cb)
  claim half_open cb =
      if cb.probe_in_flight then (false, cb) else (true, record cb { probe_in_flight = true })

  -- The whole of `allow`, when no other goroutine runs between the halves.
  pub allow : ℕ → CircuitBreaker E → Bool × CircuitBreaker E
  unfolding observe claim
  allow now cb = let (seen, cb') = observe now cb in claim seen cb'

  pub on_success : CircuitBreaker E → CircuitBreaker E
  on_success cb =
      if same_state cb.state half_open
      then if leb cb.half_open_success (cb.successes + 1)
        then record cb { failures = 0; probe_in_flight = false; state = closed; successes = 0 }
        else record cb { failures = 0; probe_in_flight = false; successes = cb.successes + 1 }
      else record cb { failures = 0 }

  pub on_failure : ℕ → CircuitBreaker E → CircuitBreaker E
  on_failure now cb =
      if same_state cb.state half_open
      then record cb { probe_in_flight = false; state = open_state; last_trip = now; successes = 0 }
      else if leb cb.max_failures (cb.failures + 1) && not (same_state cb.state open_state)
      then record cb { failures = cb.failures + 1; state = open_state; last_trip = now }
      else record cb { failures = cb.failures + 1 }

  abbrev pub is_ignored : Option (E → Bool) → E → Bool
  is_ignored none e = false
  is_ignored (some ignores) e = ignores e

  -- `none` is a nil error.
  pub record_result : ℕ → Option E → CircuitBreaker E → CircuitBreaker E
  unfolding on_success on_failure
  record_result now none cb = on_success cb
  record_result now (some e) cb = if is_ignored cb.ignore e then cb else on_failure now cb

  -- `none` is ErrCircuitOpen: fn was not run. `finished` is the instant at which fn returns.
  pub execute : ℕ → ℕ → Option E → CircuitBreaker E → Option (Option E) × CircuitBreaker E
  unfolding allow record_result
  execute now finished result cb =
      let (granted, cb') = allow now cb in
      if granted then (some result, record_result finished result cb') else (none, cb')
