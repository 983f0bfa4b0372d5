-- ===== src/Bitcoin/CoinSelect/Rounds.antt =====
-- One round of the loop in internal/bitcoin/coin_select.go, on amounts that fit in int64.
use chainfx_payment_core.Common.{
  ℕ, ◌*◌, ◌/◌, ◌+◌, ◌-◌, ◌^◌, ◌≤◌, ◌<◌, ◌≡◌, ◌≢◌, ◌⊎◌, some, none, arith, not, ltb, if◌then◌else◌,
  ◌&&◌, Option, Bool-cases, Option-cases, true, inl, inr,
}
use native.Mathlib.Nat.{mul-le-mul_right}
use chainfx_payment_core.Common.Int.{ℤ, pos, pos_part}
use chainfx_payment_core.Common.Int64.{add64-pos, sub64-pos, mul64-pos, div64-pos}
use chainfx_payment_core.Bitcoin.CoinSelect.{round, estimate_vsize, fee_of}

-- The round on natural numbers, of which none is subtracted from a smaller one.
pub round_ℕ : ℕ → ℕ → ℕ → ℕ → ℕ → Option (ℕ × ℕ)
round_ℕ a d s f g =
    if ltb s (a + g)
    then none
    else if ltb (s - (a + g)) d
    then some (0, s - a)
    else if ltb s (a + f)
    then none
    else if not (ltb 0 (s - (a + f)) && ltb (s - (a + f)) d)
    then some (s - (a + f), f)
    else some (s - (a + g), g)

pub round-pos :
    (a d s f g : ℕ)
    → g ≤ f
    → a + f < 2 ^ 63
    → s < 2 ^ 63
    → round (pos a) (pos d) (pos s) (pos f) (pos g)
      ≡ (elim (round_ℕ a d s f g) [ none ↦ none | some (c, k) ↦ some (pos c, pos k) ])
unfolding round round_ℕ
round-pos a d s f g h ha hs =
    rw (add64-pos a f ha, add64-pos a g (omega arith))
      (elim (Bool-cases (ltb s (a + g))) [
        | inl e ↦ rw (
          let l : ltb (s + 0) (a + g + 0) ≡ true = ground arith in l,
          let l : ltb (s + 0) (a + f + 0) ≡ true = ground arith in l,
          e,
        )
        | inr e ↦
            rw (sub64-pos s (a + g) (ground arith) hs, sub64-pos s a (ground arith) hs)
              (elim (Bool-cases (ltb s (a + f))) [
                | inl e2 ↦ ground arith
                | inr e2 ↦ rw (sub64-pos s (a + f) (ground arith) hs) ground arith
              ])
      ])

-- What a round hands out adds up to what is accumulated. The change is zero or no dust, and the fee
-- is at least that of a transaction without change.
abbrev pub Balanced : ℕ → ℕ → ℕ → ℕ → ℤ × ℤ → Type 0
Balanced a d s g (c, k) =
    (c ≡ pos (pos_part c))
    × (k ≡ pos (pos_part k))
    × (s ≡ a + pos_part c + pos_part k)
    × (g ≤ pos_part k)
    × ((c ≡ pos 0) ⊎ (d ≤ pos_part c))

round_ℕ-some :
    (a d s f g c k : ℕ)
    → g ≤ f
    → round_ℕ a d s f g ≡ some (c, k)
    → (s ≡ a + c + k) × (g ≤ k) × ((c ≡ 0) ⊎ (d ≤ c))
unfolding round_ℕ
round_ℕ-some a d s f g c k h e = elim (Bool-cases (ltb s (a + g))) [
  | inl e1 ↦ let q = rw e1 at e in ground arith
  | inr e1 ↦ elim (Bool-cases (ltb (s - (a + g)) d)) [
    | inl e2 ↦ let q = rw (e1, e2) at e in ground arith
    | inr e2 ↦ elim (Bool-cases (ltb s (a + f))) [
      | inl e3 ↦ let q = rw (e1, e2, e3) at e in ground arith
      | inr e3 ↦ let q = rw (e1, e2, e3) at e in ground arith
    ]
  ]
]

pub round-Balanced :
    (a d s f g : ℕ) (r : ℤ × ℤ)
    → g ≤ f
    → a + f < 2 ^ 63
    → s < 2 ^ 63
    → round (pos a) (pos d) (pos s) (pos f) (pos g) ≡ some r
    → Balanced a d s g r
round-Balanced a d s f g (c, k) h ha hs e = elim (Option-cases (round_ℕ a d s f g)) [
  | inl q ↦ let p = rw (round-pos a d s f g h ha hs, q) at e in ground arith
  | inr ((c', k'), q) ↦
      let p = rw (round-pos a d s f g h ha hs, q) at e in
      let b = round_ℕ-some a d s f g c' k' h q in ground arith
]

-- Coins that cover the amount and the fee of a transaction with change are enough.
pub round-enough :
    (a d s f g : ℕ)
    → g ≤ f
    → a + f < 2 ^ 63
    → s < 2 ^ 63
    → a + f ≤ s
    → round (pos a) (pos d) (pos s) (pos f) (pos g) ≢ none
unfolding round_ℕ
round-enough a d s f g h ha hs l e = let q = round-pos a d s f g h ha hs in ground arith

-- The size and the fee as natural numbers.
unfoldable pub vsize : ℕ → ℕ → ℕ
vsize n m = ((10 + n * 41 + m * 31) * 4 + (2 + n * 108) + 3) / 4

estimate_vsize-pos : (n m : ℕ) → n < 2 ^ 32 → m < 2 ^ 32 → estimate_vsize n m ≡ pos (vsize n m)
unfolding estimate_vsize vsize
estimate_vsize-pos n m h k = rw (
  mul64-pos n 41 (omega arith),
  mul64-pos m 31 (omega arith),
  add64-pos 10 (n * 41) (omega arith),
  add64-pos (10 + n * 41) (m * 31) (omega arith),
  mul64-pos n 108 (omega arith),
  add64-pos 2 (n * 108) (omega arith),
  mul64-pos (10 + n * 41 + m * 31) 4 (omega arith),
  add64-pos ((10 + n * 41 + m * 31) * 4) (2 + n * 108) (omega arith),
  add64-pos ((10 + n * 41 + m * 31) * 4 + (2 + n * 108)) 3 (omega arith),
  div64-pos ((10 + n * 41 + m * 31) * 4 + (2 + n * 108) + 3) 3 (omega arith),
)

pub fee_of-pos :
    (rate n m : ℕ)
    → n < 2 ^ 32
    → m < 2 ^ 32
    → vsize n m * rate < 2 ^ 63
    → fee_of (pos rate) n m ≡ pos (vsize n m * rate)
unfolding fee_of
fee_of-pos rate n m h k l = rw (estimate_vsize-pos n m h k, mul64-pos (vsize n m) rate l)

-- More inputs and outputs do not cost less.
pub fee_mono : (rate n m n' m' : ℕ) → n ≤ n' → m ≤ m' → vsize n m * rate ≤ vsize n' m' * rate
unfolding vsize
fee_mono rate n m n' m' h k = mul-le-mul_right rate (omega arith)
