-- ===== src/Rpc/Pool/Probe.antt =====
-- The probes of internal/rpc/pool.go, each a goroutine of its own, and the health that the pool
-- reports. What the dialled client answers to BlockNumber is a parameter, as in the loop.
mod Tests
use chainfx_payment_core.Common.{
  ℕ, Bool, true, false, ◌&&◌, not, List, [], ◌∷◌, ◌++◌, Option, none, some, if◌then◌else◌, leb,
  length, take, get_elem?, set,
}
use chainfx_payment_core.Common.Assoc.{insert, text_key}
use chainfx_payment_core.Common.Text.{Text}
use chainfx_payment_core.Rpc.Pool.{Node, Pool, rpc_capacity_exhausted}
use chainfx_payment_core.Rpc.Pool.Loop.{Calls}

module _ {W : Type 0} (calls : Calls W) (block_number : Text → W → Option Text × W) where
  -- The goroutine of one node.
  unfoldable pub probe_node : Node → W → Node × W
  probe_node n w =
      let (refused, w') = calls.dial n.url w in
      let (failed, w'') = block_number n.url w' in
      if n.disabled then (n, w) else elim refused [
        | some e ↦ (record n { healthy = false }, w')
        | none ↦ elim failed [
          | none ↦ (record n { healthy = true }, w'')
          | some e ↦ (
            if rpc_capacity_exhausted (some e)
                then record n { healthy = false; disabled = true }
                else record n { healthy = false },
            w'',
          )
        ]
      ]

  unfoldable pub probe_at : ℕ → Pool → W → Pool × W
  unfolding probe_node
  probe_at i p w = elim (get_elem? p.nodes i) [
    | none ↦ (p, w)
    | some n ↦ let (n', w') = probe_node n w in (record p { nodes = set p.nodes i n' }, w')
  ]

-- A cut text ends with the three bytes of an ellipsis.
pub truncate : Text → ℕ → Text
truncate s n = if leb (length s) n then s else take n s ++ 226 ∷ 128 ∷ 166 ∷ []

health_from : List Node → List (Text × Bool) → List (Text × Bool)
unfolding truncate
health_from [] out = out
health_from (n ∷ ns) out = health_from ns (insert (truncate n.url 40) n.healthy out)

-- The map from the cut URLs to the health.
pub health : Pool → List (Text × Bool)
unfolding health_from
health p = health_from p.nodes []
