-- ===== src/Rpc/Pool/Loop/Disabled.antt =====
-- What the loop of internal/rpc/pool.go and the probes leave of the nodes.
use chainfx_payment_core.Common.{
  ℕ, refl, List, [], ◌∷◌, Option, get_elem?, arith, Option-cases, Bool-cases, inl, inr,
}
use chainfx_payment_core.Rpc.Pool.{Node, Pool}
use chainfx_payment_core.Common.Text.{Text}
use chainfx_payment_core.Rpc.Pool.Probe.{probe_node, probe_at}
use chainfx_payment_core.Rpc.Pool.Loop.{Calls, attempt, pool_do, Later, LaterNode}
use chainfx_payment_core.Rpc.Pool.Loop.Kept.{
  Later-refl, Later-trans, Later-set, attempt-Later, do-Later,
}

-- A call of Do, one attempt of such a call that others interrupt, or the probe of one node.
pub data Event : Type 0 where
  doing : Event
  attempting : Option ℕ → Event
  probing : ℕ → Event

module _ {W : Type 0} (calls : Calls W) (block_number : Text → W → Option Text × W) where
  pub apply : Event → Pool × W → Pool × W
  apply doing (p, w) = let (outcome, s) = pool_do calls p w in (s.pool, s.world)
  apply (attempting last) (p, w) =
      let (failed, s) = attempt calls (record { pool = p; last = last; world = w }) in
      (s.pool, s.world)
  apply (probing i) (p, w) = probe_at calls block_number i p w

  pub run : List Event → Pool × W → Pool × W
  unfolding apply
  run [] s = s
  run (e ∷ es) s = run es (apply e s)

  probe_node-LaterNode : (n : Node) (w : W) → LaterNode n (probe_node calls block_number n w).0
  unfolding probe_node
  probe_node-LaterNode n w = elim (Bool-cases n.disabled) [
    | inl b ↦ rw (b, probe_node) (refl, λ h. ground arith)
    | inr b ↦ elim (Option-cases (calls.dial n.url w).0) [
      | inr (x, o) ↦ rw (b, o, probe_node) (refl, λ h. ground arith)
      | inl o ↦ elim (Option-cases (block_number n.url (calls.dial n.url w).1).0) [
        | inl q ↦ rw (b, o, q, probe_node) (refl, λ h. ground arith)
        | inr (x, q) ↦ rw (b, o, q, probe_node) (ground arith)
      ]
    ]
  ]

  probe_at-Later :
      (i : ℕ) (p : Pool) (w : W) → Later p.nodes (probe_at calls block_number i p w).0.nodes
  unfolding probe_at
  probe_at-Later i p w = elim (Option-cases (get_elem? p.nodes i)) [
    | inl e ↦ rw (e, probe_at) (Later-refl p.nodes)
    | inr (n, e) ↦
        rw (e, probe_at)
          (Later-set p.nodes i n (probe_node calls block_number n w).0 e (probe_node-LaterNode n w))
  ]

  apply-Later : (e : Event) (s : Pool × W) → Later s.0.nodes (apply e s).0.nodes
  unfolding apply
  apply-Later doing (p, w) = do-Later calls p w
  apply-Later (attempting last) (p, w) =
      attempt-Later calls (record { pool = p; last = last; world = w })
  apply-Later (probing i) (p, w) = probe_at-Later i p w

  run-Later : (es : List Event) (s : Pool × W) → Later s.0.nodes (run es s).0.nodes
  unfolding run
  run-Later [] s = Later-refl s.0.nodes
  run-Later (e ∷ es) s =
      Later-trans s.0.nodes (apply e s).0.nodes (run es (apply e s)).0.nodes (apply-Later e s)
        (run-Later es (apply e s))

-- Whatever the calls answer, no order of calls, of single attempts and of probes adds, drops or
-- renames a node, or enables one that was disabled before.
pub disabled_stays :
    {W : Type 0} (calls : Calls W) (block_number : Text → W → Option Text × W) (es : List Event)
    (p : Pool) (w : W)
    → Later p.nodes (run calls block_number es (p, w)).0.nodes
disabled_stays calls block_number es p w = run-Later calls block_number es (p, w)
