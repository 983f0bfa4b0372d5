-- ===== src/Rpc/Pool/Rotation.antt =====
-- The turns of the loop of internal/rpc/pool.go.
use chainfx_payment_core.Common.{
  ℕ, zero, suc, ◌+◌, ◌-◌, ◌%◌, ◌^◌, ◌<◌, ◌≡◌, refl, ap, sym, ◌∙◌, ◌⊎◌, inl, inr, Bool, true, false,
  ◌&&◌, not, List, [], ◌∷◌, Option, none, some, arith, ltb, length, get_elem?, set, Option-cases,
  Bool-cases,
}
use native.Mathlib.Nat.{mod-add-mod, mod-lt, mod-eq_of_lt, add-mod_right}
use mathlib.Core.Path.{subst}
use chainfx_payment_core.Resilience.Breaker.Invariant.{get_state-unchanged}
use chainfx_payment_core.Rpc.Pool.{
  Node, Pool, is_excluded, usable, take_turn, rotate, shifted, after, later,
}

set_same {ℓ} :
    {A : Type ℓ} (xs : List A) (i : ℕ) (v : A) → get_elem? xs i ≡ some v → set xs i v ≡ xs
set_same [] i v h = refl
set_same (x ∷ xs) zero v h = ground arith
set_same (x ∷ xs) (suc i) v h = ap (λ ys. x ∷ ys) (set_same xs i v h)

-- A node that the loop takes: one that is not excluded, and serves.
unfoldable pub serves : ℕ → Option ℕ → List Node → ℕ → Bool
serves now exclude nodes i = elim (get_elem? nodes i) [
  | none ↦ false
  | some n ↦ not (is_excluded exclude i && ltb 1 (length nodes)) && (usable now n).0
]

-- A node that is passed over is left as it was.
usable-unchanged : (now : ℕ) (n : Node) → (usable now n).0 ≡ false → (usable now n).1 ≡ n
unfolding usable
usable-unchanged now n h = ground (arith, get_state-unchanged now n.breaker)

module _ (now : ℕ) (exclude : Option ℕ) (p : Pool) where
  pub take_turn-serves :
      let i = (p.idx + 1) % 2 ^ 64 % length p.nodes in
      serves now exclude p.nodes i ≡ true → (take_turn now exclude p).0 ≡ some i
  unfolding take_turn serves
  take_turn-serves h =
      elim (Option-cases (get_elem? p.nodes ((p.idx + 1) % 2 ^ 64 % length p.nodes))) [
        | inl e ↦ absurd (let d = rw (e, serves) at h in ground arith)
        | inr (n, e) ↦ let d = rw (e, serves) at h in rw (e, take_turn) (ground arith)
      ]

  take_turn-passes :
      let i = (p.idx + 1) % 2 ^ 64 % length p.nodes in
      serves now exclude p.nodes i ≡ false
      → take_turn now exclude p ≡ (none, record p { idx = (p.idx + 1) % 2 ^ 64 })
  unfolding take_turn serves
  take_turn-passes h =
      elim (Option-cases (get_elem? p.nodes ((p.idx + 1) % 2 ^ 64 % length p.nodes))) [
        | inl e ↦ rw (e, take_turn) (ground arith)
        | inr (n, e) ↦
            let d = rw (e, serves) at h in
            rw (e, take_turn)
              (ground (
                arith,
                usable-unchanged now n,
                set_same p.nodes ((p.idx + 1) % 2 ^ 64 % length p.nodes) n e,
              ))
      ]

-- The index of the node pool does not wrap around in a round.
step_idx : (idx m : ℕ) → idx + 1 < 2 ^ 64 → (idx + 1) % 2 ^ 64 + m ≡ idx + 1 + m
step_idx idx m h = omega (arith, mod-eq_of_lt h)

shift : (idx m : ℕ) → (idx + 1) % 2 ^ 64 + suc m ≡ (idx + 1) % 2 ^ 64 + 1 + m
shift idx m = omega arith

module _ (now : ℕ) (exclude : Option ℕ) where
  rotate-serves :
      (left i : ℕ) (os : List ℕ) (p : Pool)
      → (take_turn now exclude (after os p)).0 ≡ some i
      → (rotate (suc left) os now exclude p).0 ≡ some i
  unfolding rotate
  rotate-serves left i os p h = ground (arith, h)

  rotate-passes :
      (left : ℕ) (os : List ℕ) (p p' : Pool)
      → take_turn now exclude (after os p) ≡ (none, p')
      → rotate (suc left) os now exclude p ≡ rotate left (later os) now exclude p'
  unfolding rotate
  rotate-passes left os p p' h =
      ap
        (λ (t : Option ℕ × Pool). elim t.0 [
          | some i ↦ (some i, t.1)
          | none ↦ rotate left (later os) now exclude t.1
        ])
        h

  -- What the rounds of the loop come to.
  abbrev pub Found : Pool → Option ℕ × Pool → Type 0
  Found p r = (i : ℕ) × (r.0 ≡ some i) × (serves now exclude p.nodes i ≡ true)

  module _ (left : ℕ) (os : List ℕ) (p : Pool) where
    abbrev turned : Pool
    turned = record p { idx = (shifted os p.idx + 1) % 2 ^ 64 }

    turn-cases :
        Found p (rotate (suc left) os now exclude p)
        ⊎ ((serves now exclude p.nodes (turned.idx % length p.nodes) ≡ false)
            × (rotate (suc left) os now exclude p ≡ rotate left (later os) now exclude turned))
    turn-cases =
        let i = turned.idx % length p.nodes in
        let q = after os p in
        elim (Bool-cases (serves now exclude p.nodes i)) [
          | inl e ↦ inl (i, rotate-serves left i os p (take_turn-serves now exclude q e), e)
          | inr e ↦ inr (e, rotate-passes left os p turned (take_turn-passes now exclude q e))
        ]

  abbrev Rounds : Pool → Option ℕ × Pool → Type 0
  Rounds p r = Found p r ⊎ ((r.0 ≡ none) × (r.1.nodes ≡ p.nodes))

  pub rotate-cases : (left : ℕ) (os : List ℕ) (p : Pool) → Rounds p (rotate left os now exclude p)
  unfolding rotate
  rotate-cases zero os p = inr (refl, refl)
  rotate-cases (suc left) os p = elim (turn-cases left os p) [
    | inl found ↦ inl found
    | inr (e, q) ↦ subst (Rounds p) (sym q) (rotate-cases left (later os) (turned left os p))
  ]

  -- A round in which no other pick takes a turn.
  pub rotate-finds :
      (left : ℕ) (p : Pool) (m : ℕ)
      → p.idx + left < 2 ^ 64
      → m < left
      → serves now exclude p.nodes ((p.idx + 1 + m) % length p.nodes) ≡ true
      → Found p (rotate left [] now exclude p)
  rotate-finds zero p m b l h = absurd (omega arith)
  rotate-finds (suc left) p zero b l h = elim (turn-cases left [] p) [
    | inl found ↦ found
    | inr (e, q) ↦ absurd (
        let w = step_idx p.idx 0 (omega arith) in
        ground (arith, ap (λ x. serves now exclude p.nodes (x % length p.nodes)) w))
  ]
  rotate-finds (suc left) p (suc m) b l h = elim (turn-cases left [] p) [
    | inl found ↦ found
    | inr (e, q) ↦ subst (Found p) (sym q) (
        rotate-finds left (turned left [] p) m (omega arith) (omega arith) (
          subst (λ x. serves now exclude p.nodes (x % length p.nodes) ≡ true)
            (sym (step_idx p.idx (suc m) (omega arith)) ∙ shift p.idx m) h))
  ]

-- Some turn of a round comes to the node `j`.
pub turn_to : (base j len : ℕ) → j < len → (m : ℕ) × (m < len) × ((base + m) % len ≡ j)
turn_to base j len l =
    let b = base % len in
    let small : b < len = mod-lt base (omega arith) in
    elim (Bool-cases (ltb j b)) [
      | inl e ↦ (
        len - b + j,
        ground arith,
        sym (mod-add-mod base len (len - b + j))
            ∙ ap (λ x. x % len) (let q : b + (len - b + j) ≡ j + len = ground arith in q)
            ∙ add-mod_right j len
            ∙ mod-eq_of_lt l,
      )
      | inr e ↦ (
        j - b,
        ground arith,
        sym (mod-add-mod base len (j - b))
            ∙ ap (λ x. x % len) (let q : b + (j - b) ≡ j = ground arith in q)
            ∙ mod-eq_of_lt l,
      )
    ]
