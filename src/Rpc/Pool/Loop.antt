-- ===== src/Rpc/Pool/Loop.antt =====
-- The loop of internal/rpc/pool.go that tries one node after the other. The client library, the
-- function of the caller, the context and the clock are a parameter over a state of the world.
mod Kept
pub mod Disabled
use chainfx_payment_core.Common.{
  ℕ, ◌+◌, ◌*◌, ◌≡◌, true, false, ◌&&◌, not, List, [], ◌∷◌, ◌++◌, Option, none, some, if◌then◌else◌,
  ltb, length, get_elem?, set, take,
}
use chainfx_payment_core.Common.Int.{pos}
use chainfx_payment_core.Common.Text.{Text, codes}
use chainfx_payment_core.Resilience.Breaker.{half_open, same_state, allow, record_result}
use chainfx_payment_core.Resilience.Retry.{Outcome, World, do_with_context}
use chainfx_payment_core.Rpc.Pool.{
  Node, Pool, rpc_retryable, rpc_capacity_exhausted, new_node, pick_excluding,
}

-- `dial` and `call` take the URL; `none` is a nil error. `others` are the turns that picks of other
-- goroutines take during a pick.
pub record Calls (W : Type 0) : Type 0 where
  pub clock : W → ℕ
  pub others : W → List ℕ
  pub dial : Text → W → Option Text × W
  pub call : Text → W → Option Text × W
  pub context_error : W → Option Text
  pub wait : ℕ → W → Option Text × W

-- The pool, the node of the last attempt, and the world.
pub record Attempt (W : Type 0) : Type 0 where
  pub pool : Pool
  pub last : Option ℕ
  pub world : W

-- The error of a breaker that lets no call pass, with the breaker's name.
pub circuit_open : Node → Text
circuit_open n =
    codes "circuit breaker open: rpc:"
    ++ take 32 n.url
    ++ (if same_state n.breaker.state half_open then codes " (half-open, probe in flight)" else [])

-- The node behind a pick; an empty pool has a new public node at each attempt.
pub node_at : Option ℕ → Pool → Node
unfolding new_node
node_at none p = new_node (codes "https://bsc-dataseed.binance.org/")
node_at (some i) p = elim (get_elem? p.nodes i) [
  | none ↦ new_node (codes "https://bsc-dataseed.binance.org/")
  | some n ↦ n
]

-- What a call leaves in its node.
pub put_back : Option ℕ → Node → Pool → Pool
put_back none n p = p
put_back (some i) n p = record p { nodes = set p.nodes i n }

-- `if cfg.MaxAttempts < 3 { cfg.MaxAttempts = 3 }`
pub pool_attempts : Pool → ℕ
pool_attempts p = let n = length p.nodes * 2 + 1 in if ltb n 3 then 3 else n

module _ {W : Type 0} (calls : Calls W) where
  -- The call of a node that its breaker lets pass.
  pub call_node : Node → W → Option Text × Node × W
  call_node n w =
      let (refused, w') = calls.dial n.url w in
      elim refused [
        | some e ↦ (
          some e,
          record n { healthy = false; breaker = record_result (calls.clock w') (some e) n.breaker },
          w',
        )
        | none ↦
            let (failed, w'') = calls.call n.url w' in
            let recorded = record n {
              breaker = record_result (calls.clock w'') failed n.breaker;
            } in
            elim failed [
              | none ↦ (none, record recorded { healthy = true }, w'')
              | some e ↦ (
                some e,
                if rpc_capacity_exhausted (some e) && not n.disabled
                    then record recorded { disabled = true; healthy = false }
                    else recorded,
                w'',
              )
            ]
      ]

  pub run_node : Node → W → Option Text × Node × W
  unfolding call_node circuit_open
  run_node n w =
      let (granted, breaker) = allow (calls.clock w) n.breaker in
      let asked = record n { breaker = breaker } in
      if granted then call_node asked w else (some (circuit_open asked), asked, w)

  pub attempt : Attempt W → Option Text × Attempt W
  unfolding run_node node_at put_back
  attempt s =
      let (picked, pool) =
        pick_excluding (calls.others s.world) (calls.clock s.world) s.last s.pool in
      let (failed, n, w) = run_node (node_at picked pool) s.world in
      (failed, record { pool = put_back picked n pool; last = picked; world = w })

  pub retrying : World Text (Attempt W)
  unfolding attempt
  retrying = record {
    operation = attempt;
    context_error = λ s. calls.context_error s.world;
    wait = λ n s. let (ended, w) = calls.wait n s.world in (ended, record s { world = w });
  }

  pub pool_do : Pool → W → Outcome Text × Attempt W
  unfolding retrying pool_attempts
  pool_do p w =
      do_with_context (pos (pool_attempts p)) (some (λ e. rpc_retryable (some e))) retrying
        (record { pool = p; last = none; world = w })

-- A node, later: the same URL, and if it was disabled it still is.
abbrev pub LaterNode : Node → Node → Type 0
LaterNode n m = (m.url ≡ n.url) × (n.disabled ≡ true → m.disabled ≡ true)

abbrev pub Later : List Node → List Node → Type 0
Later [] [] = Unit
Later (n ∷ ns) (m ∷ ms) = (m.url ≡ n.url) × (n.disabled ≡ true → m.disabled ≡ true) × Later ns ms
Later _ _ = ⊥
