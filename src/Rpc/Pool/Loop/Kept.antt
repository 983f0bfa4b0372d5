-- ===== src/Rpc/Pool/Loop/Kept.antt =====
-- What one run of the loop of internal/rpc/pool.go leaves of the nodes.
use chainfx_payment_core.Common.{
  ℕ, zero, suc, ◌+◌, ◌%◌, ◌^◌, ◌≡◌, refl, ap, sym, ◌∙◌, ◌&&◌, List, [], ◌∷◌, Option, none, some,
  ltb, length, get_elem?, set, arith, Option-cases, Bool-cases, inl, inr,
}
use mathlib.Core.Path.{subst}
use chainfx_payment_core.Common.Int.{pos}
use chainfx_payment_core.Resilience.Breaker.{allow}
use chainfx_payment_core.Resilience.Retry.Keeping.{Keeps, do_with_context-keeps}
use chainfx_payment_core.Rpc.Pool.{
  Node, Pool, is_excluded, usable, take_turn, after, later, rotate, pick_excluding, rpc_retryable,
}
use chainfx_payment_core.Rpc.Pool.Loop.{
  Calls, Attempt, call_node, run_node, node_at, put_back, attempt, retrying, pool_attempts, pool_do,
  Later, LaterNode,
}

pub Later-refl : (ns : List Node) → Later ns ns
Later-refl [] = tt
Later-refl (n ∷ ns) = (refl, λ h. h, Later-refl ns)

pub Later-trans : (ns ms ks : List Node) → Later ns ms → Later ms ks → Later ns ks
Later-trans [] [] [] a b = tt
Later-trans (n ∷ ns) (m ∷ ms) (k ∷ ks) (u, d, a) (v, e, b) =
    (v ∙ u, λ h. e (d h), Later-trans ns ms ks a b)
Later-trans [] [] (k ∷ ks) a b = absurd b
Later-trans [] (m ∷ ms) ks a b = absurd a
Later-trans (n ∷ ns) [] ks a b = absurd a
Later-trans (n ∷ ns) (m ∷ ms) [] a b = absurd b

pub Later-set :
    (ns : List Node) (i : ℕ) (n m : Node)
    → get_elem? ns i ≡ some n
    → LaterNode n m
    → Later ns (set ns i m)
Later-set [] i n m e h = tt
Later-set (x ∷ xs) zero n m e h = ground (arith, Later-refl xs)
Later-set (x ∷ xs) (suc i) n m e h = (refl, λ d. d, Later-set xs i n m e h)

set_missing : (ns : List Node) (i : ℕ) (m : Node) → get_elem? ns i ≡ none → set ns i m ≡ ns
set_missing [] i m e = refl
set_missing (x ∷ xs) zero m e = absurd (ground arith)
set_missing (x ∷ xs) (suc i) m e = ap (λ ys. x ∷ ys) (set_missing xs i m e)

usable-LaterNode : (now : ℕ) (n : Node) → LaterNode n (usable now n).1
unfolding usable
usable-LaterNode now n = ground arith

take_turn-Later :
    (now : ℕ) (exclude : Option ℕ) (p : Pool) → Later p.nodes (take_turn now exclude p).1.nodes
unfolding take_turn
take_turn-Later now exclude p =
    let i = (p.idx + 1) % 2 ^ 64 % length p.nodes in
    elim (Bool-cases (is_excluded exclude i && ltb 1 (length p.nodes))) [
      | inl b ↦ rw (b, take_turn) (Later-refl p.nodes)
      | inr b ↦ elim (Option-cases (get_elem? p.nodes i)) [
        | inl e ↦ rw (b, e, take_turn) (Later-refl p.nodes)
        | inr (n, e) ↦
            rw (b, e, take_turn) (Later-set p.nodes i n (usable now n).1 e (usable-LaterNode now n))
      ]
    ]

rotate-Later :
    (left : ℕ) (others : List ℕ) (now : ℕ) (exclude : Option ℕ) (p : Pool)
    → Later p.nodes (rotate left others now exclude p).1.nodes
unfolding rotate
rotate-Later zero others now exclude p = Later-refl p.nodes
rotate-Later (suc left) others now exclude p =
    let t = take_turn now exclude (after others p) in
    let h : Later p.nodes t.1.nodes = take_turn-Later now exclude (after others p) in
    elim (Option-cases t.0) [
      | inr (i, e) ↦ rw (e, rotate) h
      | inl e ↦
          rw (e, rotate)
            (Later-trans p.nodes t.1.nodes (rotate left (later others) now exclude t.1).1.nodes h
              (rotate-Later left (later others) now exclude t.1))
    ]

pick-Later :
    (others : List ℕ) (now : ℕ) (exclude : Option ℕ) (p : Pool)
    → Later p.nodes (pick_excluding others now exclude p).1.nodes
unfolding pick_excluding
pick-Later others now exclude p =
    let r = rotate (length p.nodes) others now exclude p in
    let h = rotate-Later (length p.nodes) others now exclude p in
    ground (arith, Later-refl p.nodes, h)

module _ {W : Type 0} (calls : Calls W) where
  call_node-LaterNode : (n : Node) (w : W) → LaterNode n (call_node calls n w).1
  unfolding call_node
  call_node-LaterNode n w = elim (Option-cases (calls.dial n.url w).0) [
    | inr (x, o) ↦ rw (o, call_node) (refl, λ h. h)
    | inl o ↦ elim (Option-cases (calls.call n.url (calls.dial n.url w).1).0) [
      | inl p ↦ rw (o, p, call_node) (refl, λ h. h)
      | inr (x, p) ↦ rw (o, p, call_node) (ground arith)
    ]
  ]

  run_node-LaterNode : (n : Node) (w : W) → LaterNode n (run_node calls n w).1
  unfolding run_node
  run_node-LaterNode n w =
      let asked = record n { breaker = (allow (calls.clock w) n.breaker).1 } in
      elim (Bool-cases (allow (calls.clock w) n.breaker).0) [
        | inl e ↦ rw (e, run_node) (call_node-LaterNode asked w)
        | inr e ↦ rw (e, run_node) (refl, λ h. h)
      ]

  put_back-Later :
      (picked : Option ℕ) (p : Pool) (w : W)
      → Later p.nodes (put_back picked (run_node calls (node_at picked p) w).1 p).nodes
  unfolding put_back node_at
  put_back-Later none p w = Later-refl p.nodes
  put_back-Later (some i) p w = elim (Option-cases (get_elem? p.nodes i)) [
    | inl e ↦
        subst (Later p.nodes)
          (sym (set_missing p.nodes i (run_node calls (node_at (some i) p) w).1 e))
          (Later-refl p.nodes)
    | inr (n, e) ↦
        rw (e, node_at) (Later-set p.nodes i n (run_node calls n w).1 e (run_node-LaterNode n w))
  ]

  pub attempt-Later : (s : Attempt W) → Later s.pool.nodes (attempt calls s).1.pool.nodes
  unfolding attempt
  attempt-Later s =
      let r = pick_excluding (calls.others s.world) (calls.clock s.world) s.last s.pool in
      Later-trans s.pool.nodes r.1.nodes (attempt calls s).1.pool.nodes
        (pick-Later (calls.others s.world) (calls.clock s.world) s.last s.pool)
        (put_back-Later r.0 r.1 s.world)

  retrying-Keeps : (ns : List Node) → Keeps (retrying calls) (λ s. Later ns s.pool.nodes)
  unfolding retrying
  retrying-Keeps ns = record {
    by_operation =
        λ s h. Later-trans ns s.pool.nodes (attempt calls s).1.pool.nodes h (attempt-Later s);
    by_wait = λ n s h. h;
  }

pub do-Later :
    {W : Type 0} (calls : Calls W) (p : Pool) (w : W)
    → Later p.nodes (pool_do calls p w).1.pool.nodes
unfolding pool_do
do-Later calls p w =
    do_with_context-keeps (retrying calls) (λ s. Later p.nodes s.pool.nodes)
      (retrying-Keeps calls p.nodes) (pos (pool_attempts p)) (some (λ e. rpc_retryable (some e)))
      (record { pool = p; last = none; world = w }) (Later-refl p.nodes)
