-- ===== src/Rpc/Pool/Pick.antt =====
-- Which node internal/rpc/pool.go picks.
use chainfx_payment_core.Common.{
  ℕ, zero, suc, ◌+◌, ◌<◌, ◌≡◌, ap, sym, ◌∙◌, inl, inr, Bool, true, false, ◌&&◌, not, ◌==◌, List, [],
  ◌∷◌, Option, none, some, arith, length, get_elem?, Option-cases, Bool-cases,
}
use mathlib.Core.Path.{subst}
use chainfx_payment_core.Rpc.Pool.{
  Node, Pool, is_excluded, usable, rotate, first_enabled, pick_excluding,
}
use chainfx_payment_core.Rpc.Pool.Rotation.{serves, rotate-cases, Found}

module _ (others : List ℕ) (now : ℕ) (exclude : Option ℕ) (p : Pool) where
  picked :
      Found now exclude p (rotate (length p.nodes) others now exclude p)
      → (length p.nodes == 0) ≡ false
      → Found now exclude p (pick_excluding others now exclude p)
  unfolding pick_excluding
  picked (i, e, h) some_node = (i, ground (arith, e, some_node), h)

-- The node is there, and is not disabled.
unfoldable pub is_enabled : List Node → ℕ → Bool
is_enabled nodes i = elim (get_elem? nodes i) [ none ↦ false | some n ↦ not n.disabled ]

Fallback : Option ℕ → ℕ → List Node → Type 0
Fallback exclude base ns =
    (i : ℕ) × (first_enabled exclude base ns ≡ some (base + i))
    × (is_enabled ns i ≡ true)
    × (is_excluded exclude (base + i) ≡ false)

first_enabled-finds :
    (exclude : Option ℕ) (base : ℕ) (ns : List Node) (j : ℕ)
    → is_enabled ns j ≡ true
    → is_excluded exclude (base + j) ≡ false
    → Fallback exclude base ns
unfolding first_enabled is_enabled Fallback
first_enabled-finds exclude base [] j e x = absurd (ground arith)
first_enabled-finds exclude base (n ∷ ns) zero e x =
    let y : is_excluded exclude base ≡ false =
      subst (λ b. is_excluded exclude b ≡ false) (let q : base + 0 ≡ base = omega arith in q) x in
    (0, ground (arith, e, y), e, x)
first_enabled-finds exclude base (n ∷ ns) (suc j) e x =
    elim (Bool-cases (not n.disabled && not (is_excluded exclude base))) [
      | inl h ↦ (
        0,
        ground (arith, h),
        ground (arith, h),
        subst (λ b. is_excluded exclude b ≡ false) (let q : base ≡ base + 0 = omega arith in q)
            (ground (arith, h)),
      )
      | inr h ↦
          let (i, found, on, free) = first_enabled-finds exclude (base + 1) ns j e (
            subst (λ b. is_excluded exclude b ≡ false)
              (let q : base + suc j ≡ base + 1 + j = omega arith in q) x) in
          (
            suc i,
            ground (arith, h, found),
            on,
            subst (λ b. is_excluded exclude b ≡ false)
                (let q : base + 1 + i ≡ base + suc i = omega arith in q) free,
          )
    ]

serves-is_enabled :
    (now : ℕ) (exclude : Option ℕ) (nodes : List Node) (i : ℕ)
    → serves now exclude nodes i ≡ true
    → (is_enabled nodes i ≡ true) × (1 < length nodes → is_excluded exclude i ≡ false)
unfolding serves is_enabled usable
serves-is_enabled now exclude nodes i h = elim (Option-cases (get_elem? nodes i)) [
  | inl e ↦ absurd (let d = rw (e, serves) at h in ground arith)
  | inr (n, e) ↦
      let d = rw (e, serves) at h in (rw (e, is_enabled) (ground arith), λ l. ground arith)
]

is_enabled-positive :
    (nodes : List Node) (j : ℕ) → is_enabled nodes j ≡ true → (length nodes == 0) ≡ false
unfolding is_enabled
is_enabled-positive [] j h = absurd (ground arith)
is_enabled-positive (n ∷ ns) j h = ground arith

module _ (others : List ℕ) (now : ℕ) (exclude : Option ℕ) (p : Pool) where
  fallen_back :
      (i : ℕ)
      → (length p.nodes == 0) ≡ false
      → (rotate (length p.nodes) others now exclude p).0 ≡ none
      → first_enabled exclude 0 (rotate (length p.nodes) others now exclude p).1.nodes ≡ some i
      → (pick_excluding others now exclude p).0 ≡ some i
  unfolding pick_excluding
  fallen_back i some_node q e = ground (arith, q, e, some_node)

from_zero : (exclude : Option ℕ) (i : ℕ) → is_excluded exclude (0 + i) ≡ is_excluded exclude i
from_zero exclude i = ap (is_excluded exclude) (let q : 0 + i ≡ i = omega arith in q)

-- As long as some node is not disabled, and not the excluded one, the node that is picked is not
-- disabled either, and in a pool of several nodes it is not the excluded one, whatever turns of the
-- counter other picks take in between.
pub pick_enabled :
    (others : List ℕ) (now : ℕ) (exclude : Option ℕ) (p : Pool) (j : ℕ)
    → is_enabled p.nodes j ≡ true
    → is_excluded exclude j ≡ false
    → (i : ℕ) × ((pick_excluding others now exclude p).0 ≡ some i)
      × (is_enabled p.nodes i ≡ true)
      × (1 < length p.nodes → is_excluded exclude i ≡ false)
unfolding Fallback
pick_enabled others now exclude p j e x =
    let some_node = is_enabled-positive p.nodes j e in
    elim (rotate-cases now exclude (length p.nodes) others p) [
      | inl found ↦
          let (i, q, h) = picked others now exclude p found some_node in
          let (on, free) = serves-is_enabled now exclude p.nodes i h in (i, q, on, free)
      | inr (q, same) ↦
          let (i, found, on, free) =
            first_enabled-finds exclude 0 p.nodes j e (from_zero exclude j ∙ x) in
          (
            i,
            fallen_back others now exclude p i some_node q (
                ap (first_enabled exclude 0) same
                ∙ found
                ∙ ap some (let r : 0 + i ≡ i = omega arith in r)),
            on,
            λ l. sym (from_zero exclude i) ∙ free,
          )
    ]
