-- ===== src/Rpc/Pool/Tests.antt =====
-- Runs of internal/rpc/pool.go.
use chainfx_payment_core.Common.{
  List, ℕ, ◌+◌, ◌<◌, ◌≡◌, refl, true, false, [], ◌∷◌, some, none, length, ◌==◌, if◌then◌else◌,
}
use chainfx_payment_core.Common.Text.{
  Text, codes, text_eq, trim_space, to_lower, contains, has_prefix,
}
use chainfx_payment_core.Resilience.Breaker.{CircuitBreaker, get_state, closed, open_state}
use chainfx_payment_core.Rpc.Pool.{
  Node, Pool, usable, split_urls, split, rpc_retryable, rpc_capacity_exhausted, pick_excluding,
}
use chainfx_payment_core.Rpc.Pool.Pick.{pick_enabled, is_enabled}
use chainfx_payment_core.Rpc.Pool.Loop.{Calls, Later}
use chainfx_payment_core.Rpc.Pool.Loop.Disabled.{
  Event, doing, attempting, probing, run, disabled_stays,
}

split_lem : split_urls (codes " a, ,b") ≡ codes "a" ∷ codes "b" ∷ []
unfolding split_urls split trim_space
split_lem = refl

retryable_lem : rpc_retryable (some (codes "connection reset")) ≡ true
unfolding rpc_retryable to_lower contains has_prefix
retryable_lem = refl

-- The message of an open breaker holds the node's URL, which is read as a reason not to go on.
archive_lem : rpc_retryable (some (codes "circuit breaker open: rpc:https://archive.node")) ≡ false
unfolding rpc_retryable to_lower contains has_prefix
archive_lem = refl

exhausted_lem : rpc_capacity_exhausted (some (codes "Quota exceeded")) ≡ true
unfolding rpc_capacity_exhausted to_lower contains has_prefix
exhausted_lem = refl

abbrev breaker : CircuitBreaker Text
breaker = record {
  state = closed;
  failures = 0;
  successes = 0;
  last_trip = 0;
  probe_in_flight = false;
  max_failures = 5;
  reset_timeout = 60_000_000_000;
  half_open_success = 2;
  ignore = none;
}

abbrev up : Node
up = record { url = codes "b"; breaker = breaker; healthy = true; disabled = false }

abbrev down : Node
down = record { url = codes "a"; breaker = breaker; healthy = false; disabled = true }

abbrev tripped : Node
tripped = record {
  url = codes "c";
  breaker = record breaker { state = open_state };
  healthy = true;
  disabled = false;
}

abbrev three : Pool
three = record { nodes = down ∷ up ∷ tripped ∷ []; idx = 7 }

tripped_enabled : is_enabled three.nodes 2 ≡ true
unfolding is_enabled
tripped_enabled = refl

-- Only the node with the open breaker is left.
pick_enabled_example :
    (i : ℕ) × ((pick_excluding [] 9 (some 1) three).0 ≡ some i)
    × (is_enabled three.nodes i ≡ true)
    × (1 < length three.nodes → (1 == i) ≡ false)
pick_enabled_example = pick_enabled [] 9 (some 1) three 2 tripped_enabled refl

-- Other picks take the turns of the only healthy node: the round ends without it, and the first
-- enabled node is picked although it is not healthy.
abbrev weak : Node
weak = record { url = codes "d"; breaker = breaker; healthy = false; disabled = false }

skipped_lem :
    (pick_excluding (1 ∷ 1 ∷ []) 9 none (record { nodes = weak ∷ up ∷ []; idx = 0 })).0 ≡ some 0
unfolding pick_excluding usable get_state
skipped_lem = refl

picked_lem : (pick_excluding [] 9 (some 1) three).0 ≡ some 2
unfolding pick_excluding usable get_state
picked_lem = refl

-- A world that counts the calls; the node `b` has no credit left.
abbrev calls : Calls ℕ
calls = record {
  clock = λ w. w;
  others = λ w. 1 ∷ [];
  dial = λ url w. (none, w);
  call = λ url w. (if text_eq url (codes "b") then some (codes "quota exceeded") else none, w + 1);
  context_error = λ w. none;
  wait = λ n w. (none, w);
}

-- The node `b` is probed while a call of Do is between two attempts.
abbrev mixed : List Event
mixed = attempting none ∷ probing 1 ∷ attempting (some 1) ∷ doing ∷ []

disabled_stays_example : Later three.nodes (run calls (λ url w. (none, w)) mixed (three, 0)).0.nodes
disabled_stays_example = disabled_stays calls (λ url w. (none, w)) mixed three 0
