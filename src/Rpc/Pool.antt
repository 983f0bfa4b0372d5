-- ===== src/Rpc/Pool.antt =====
-- internal/rpc/pool.go: which node a call goes to, and the loop that tries one node after the other.
-- A node is its index in the pool. An error is its message. The connection and the function that the
-- caller passes are parameters over a state of the world, and so is the clock.
pub mod Rotation
pub mod Pick
pub mod Loop
pub mod Probe
mod Tests
use chainfx_payment_core.Common.{
  ℕ, zero, suc, ◌+◌, ◌*◌, ◌%◌, ◌^◌, Bool, true, false, ◌&&◌, ◌||◌, ◌==◌, not, List, [], ◌∷◌, Option,
  none, some, if◌then◌else◌, ltb, length, get_elem?, set, map,
}
use chainfx_payment_core.Common.Int.{ℤ, pos}
use chainfx_payment_core.Common.Text.{Text, codes, is_empty, trim_space, to_lower, contains}
use chainfx_payment_core.Resilience.Breaker.{
  CircuitBreaker, open_state, same_state, new_circuit_breaker, get_state, allow, record_result,
}
use chainfx_payment_core.Resilience.Retry.{Outcome, World, do_with_context}

pub record Node : Type 0 where
  pub url : Text
  pub breaker : CircuitBreaker Text
  pub healthy : Bool
  pub disabled : Bool

pub record Pool : Type 0 where
  pub nodes : List Node
  pub idx : ℕ

abbrev pub any_of : Text → List Text → Bool
any_of msg [] = false
any_of msg (w ∷ ws) = let rest = any_of msg ws in if contains msg w then true else rest

-- `none` is a nil error.
pub rpc_retryable : Option Text → Bool
unfolding to_lower
rpc_retryable none = false
rpc_retryable (some e) =
    let msg = to_lower e in
    if any_of msg
      (codes "invalid block range" ∷ codes "block range params" ∷ codes "invalid argument" ∷ [])
    then false
    else not (any_of msg (codes "archive" ∷ codes "debug" ∷ codes "trace" ∷ []))

pub rpc_capacity_exhausted : Option Text → Bool
unfolding to_lower
rpc_capacity_exhausted none = false
rpc_capacity_exhausted (some e) = any_of (to_lower e) (
    codes "402"
    ∷ codes "payment required"
    ∷ codes "out of cu"
    ∷ codes "out of compute"
    ∷ codes "capacity limit exceeded"
    ∷ codes "monthly capacity limit exceeded"
    ∷ codes "quota exceeded"
    ∷ codes "billing"
    ∷ [])

-- strings.Split by one byte.
pub split : ℕ → Text → List Text
split sep [] = [] ∷ []
split sep (c ∷ s) =
    let rest = split sep s in
    elim rest [ [] ↦ [] | w ∷ ws ↦ if c == sep then [] ∷ w ∷ ws else (c ∷ w) ∷ ws ]

abbrev pub non_empty : List Text → List Text
non_empty [] = []
non_empty (u ∷ us) = let rest = non_empty us in if is_empty u then rest else u ∷ rest

pub split_urls : Text → List Text
unfolding split
split_urls raw = non_empty (map trim_space (split b',' raw))

pub new_node : Text → Node
new_node url = record {
  url = url;
  breaker = new_circuit_breaker record {
    max_failures = pos 5;
    reset_timeout = pos 60_000_000_000;
    half_open_success = pos 2;
    ignore_error = some (λ e. not (rpc_retryable (some e)));
  };
  healthy = true;
  disabled = false;
}

pub new_pool : Text → Option Pool
unfolding split_urls new_node
new_pool raw_urls =
    let urls = split_urls raw_urls in
    if length urls == 0 then none else some record { nodes = map new_node urls; idx = 0 }

abbrev pub is_excluded : Option ℕ → ℕ → Bool
is_excluded none i = false
is_excluded (some j) i = j == i

-- The conditions on a node, of which the last one calls its breaker.
pub usable : ℕ → Node → Bool × Node
usable now n =
    let (state, breaker) = get_state now n.breaker in
    if not n.disabled && n.healthy
    then (not (same_state state open_state), record n { breaker = breaker })
    else (false, n)

-- One turn of the loop of pickExcluding. The index is less than the length of a pool with a node.
pub take_turn : ℕ → Option ℕ → Pool → Option ℕ × Pool
unfolding usable
take_turn now exclude p =
    let idx = (p.idx + 1) % 2 ^ 64 in
    let i = idx % length p.nodes in
    if is_excluded exclude i && ltb 1 (length p.nodes)
    then (none, record p { idx = idx })
    else elim (get_elem? p.nodes i) [
      | none ↦ (none, record p { idx = idx })
      | some n ↦
          let (ok, n') = usable now n in
          (if ok then some i else none, record { nodes = set p.nodes i n'; idx = idx })
    ]

-- The turns that picks of other goroutines take of the counter before each turn of this one; none
-- after the end of the list.
abbrev pub shifted : List ℕ → ℕ → ℕ
shifted [] idx = idx
shifted (k ∷ ks) idx = (idx + k) % 2 ^ 64

abbrev pub after : List ℕ → Pool → Pool
after others p = record p { idx = shifted others p.idx }

abbrev pub later : List ℕ → List ℕ
later [] = []
later (k ∷ ks) = ks

pub rotate : ℕ → List ℕ → ℕ → Option ℕ → Pool → Option ℕ × Pool
unfolding take_turn
rotate zero others now exclude p = (none, p)
rotate (suc left) others now exclude p =
    let (got, p') = take_turn now exclude (after others p) in
    elim got [ some i ↦ (some i, p') | none ↦ rotate left (later others) now exclude p' ]

pub first_enabled : Option ℕ → ℕ → List Node → Option ℕ
first_enabled exclude i [] = none
first_enabled exclude i (n ∷ ns) =
    let rest = first_enabled exclude (i + 1) ns in
    if not n.disabled && not (is_excluded exclude i) then some i else rest

-- `none` is the public node that stands in for an empty pool. Others only take turns of the counter
-- meanwhile: what they do to the nodes comes before or after a pick.
pub pick_excluding : List ℕ → ℕ → Option ℕ → Pool → Option ℕ × Pool
unfolding rotate first_enabled
pick_excluding others now exclude p =
    let (got, p') = rotate (length p.nodes) others now exclude p in
    if length p.nodes == 0 then (none, p) else elim got [
      | some i ↦ (some i, p')
      | none ↦ elim (first_enabled exclude 0 p'.nodes) [
        | some i ↦ (some i, p')
        | none ↦ (some 0, p')
      ]
    ]
