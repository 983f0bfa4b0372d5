-- ===== src/Resilience/Breaker/Probing.antt =====
-- How an open breaker recovers: the wait, the single probe, and the return to closed.
use chainfx_payment_core.Common.{
  ℕ, zero, suc, ◌+◌, ◌≤◌, ◌<◌, ◌≡◌, true, false, List, [], ◌∷◌, Option, some, none, arith, ltb,
  if◌then◌else◌,
}
use chainfx_payment_core.Resilience.Breaker.{
  State, same_state, observe, closed, open_state, half_open, CircuitBreaker, claim, allow, execute,
  record_result,
}

-- One half of a call: its look at the state, or its claim after the state that it saw.
pub data Half : Type 0 where
  looking : ℕ → Half
  claiming : State → Half

-- The calls that claim after they saw the breaker closed.
unfoldable pub saw_closed : List Half → ℕ
saw_closed [] = 0
saw_closed (looking now ∷ hs) = saw_closed hs
saw_closed (claiming seen ∷ hs) = (if same_state seen closed then 1 else 0) + saw_closed hs

module _ {E : Type 0} where
  -- Before the reset timeout is over, `Execute` on an open breaker fails fast and changes nothing.
  execute_open :
      (now finished : ℕ) (result : Option E) (cb : CircuitBreaker E)
      → cb.state ≡ open_state
      → now < cb.last_trip + cb.reset_timeout
      → execute now finished result cb ≡ (none, cb)
  unfolding execute
  execute_open now finished result cb o early = ground arith

  -- How many calls are let through while these halves run.
  unfoldable pub granted : List Half → CircuitBreaker E → ℕ
  granted [] cb = 0
  granted (looking now ∷ hs) cb = granted hs (observe now cb).1
  granted (claiming seen ∷ hs) cb =
      let (passes, cb') = claim seen cb in (if passes then 1 else 0) + granted hs cb'

  -- Probes that succeed one after another.
  pub probes : ℕ → CircuitBreaker E → CircuitBreaker E
  probes zero cb = cb
  probes (suc n) cb = probes n (record_result 0 none (claim half_open cb).1)

  -- A half-open breaker with no probe in flight closes at the very success that completes the
  -- configured number, and stays half-open before it.
  pub probes-state :
      (n : ℕ) (cb : CircuitBreaker E)
      → cb.state ≡ half_open
      → cb.probe_in_flight ≡ false
      → cb.successes + n ≤ cb.half_open_success
      → cb.successes < cb.half_open_success
      → (probes n cb).state
        ≡ (if ltb (cb.successes + n) cb.half_open_success then half_open else closed)
  unfolding probes record_result claim
  probes-state zero cb h p le lt = ground arith
  probes-state (suc zero) cb h p le lt = ground arith
  probes-state (suc (suc n)) cb h p le lt =
      ground (arith, probes-state (suc n) (record_result 0 none (claim half_open cb).1))

  -- A probe that fails opens the breaker again, and the timeout runs from that instant: no call is
  -- let through before it is over.
  failed_probe :
      (now later : ℕ) (e : E) (cb : CircuitBreaker E)
      → cb.ignore ≡ none
      → cb.state ≡ half_open
      → later < now + cb.reset_timeout
      → ((record_result now (some e) cb).state ≡ open_state)
        × ((allow later (record_result now (some e) cb)).0 ≡ false)
  unfolding record_result allow
  failed_probe now later e cb i h early = ground arith

  -- The success of a call that began before the breaker tripped, reported while a probe is in
  -- flight, lets a second probe through although the first has not reported: unless that success
  -- closes the breaker, `claim` grants it.
  pub second_probe :
      (now later : ℕ) (cb : CircuitBreaker E)
      → cb.state ≡ half_open
      → cb.probe_in_flight ≡ true
      → cb.successes + 1 < cb.half_open_success
      → ((claim half_open cb).0 ≡ false)
        × ((allow later (record_result now none cb)).0 ≡ true)
        × ((record_result now none cb).state ≡ half_open)
  unfolding claim allow record_result
  second_probe now later cb h p lt = ground arith
