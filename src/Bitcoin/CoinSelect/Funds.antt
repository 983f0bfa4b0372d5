-- ===== src/Bitcoin/CoinSelect/Funds.antt =====
-- SelectUTXOs in internal/bitcoin/coin_select.go, for any sort that rearranges the coins.
use chainfx_payment_core.Common.{
  ℕ, ◌+◌, ◌*◌, ◌^◌, ◌≤◌, ◌<◌, ◌≡◌, List, [], ◌∷◌, Bool, true, ok, arith, length, ap,
}
use mathlib.Core.Path.{subst}
use chainfx_payment_core.Common.Int64.{is_positive}
use chainfx_payment_core.Common.Int.{pos}
use chainfx_payment_core.Bitcoin.CoinSelect.{Utxo, Selection, select_utxos, choose, is_larger}
use chainfx_payment_core.Bitcoin.CoinSelect.Rounds.{vsize}
use chainfx_payment_core.Bitcoin.CoinSelect.Balance.{
  total, NonNegative, IsFair, choose-IsFair, choose_enough,
}

-- The lists that have the same coins, each as often.
pub data Rearranged : List Utxo → List Utxo → Type 0 where
  nothing : Rearranged [] []
  keep : {us vs : List Utxo} (u : Utxo) → Rearranged us vs → Rearranged (u ∷ us) (u ∷ vs)
  swap : {us : List Utxo} (u v : Utxo) → Rearranged (u ∷ v ∷ us) (v ∷ u ∷ us)
  then_also : {us vs ws : List Utxo} → Rearranged us vs → Rearranged vs ws → Rearranged us ws

total-Rearranged :
    {us vs : List Utxo} → Rearranged us vs → (total us ≡ total vs) × (length us ≡ length vs)
unfolding total
total-Rearranged nothing = omega arith
total-Rearranged (keep u r) = omega (arith, total-Rearranged r)
total-Rearranged (swap u v) = omega arith
total-Rearranged (then_also r s) = omega (arith, total-Rearranged r, total-Rearranged s)

NonNegative-Rearranged : {us vs : List Utxo} → Rearranged us vs → NonNegative us → NonNegative vs
unfolding NonNegative
NonNegative-Rearranged nothing h = h
NonNegative-Rearranged (keep u r) (h, hs) = (h, NonNegative-Rearranged r hs)
NonNegative-Rearranged (swap u v) (h, (k, hs)) = (k, (h, hs))
NonNegative-Rearranged (then_also r s) h = NonNegative-Rearranged s (NonNegative-Rearranged r h)

choose_enough_all :
    (a rate d : ℕ) (us : List Utxo)
    → 0 < length us
    → length us < 2 ^ 32
    → a + vsize (length us) 2 * rate < 2 ^ 63
    → NonNegative us
    → total us < 2 ^ 63
    → a + vsize (length us) 2 * rate ≤ total us
    → (sel : Selection) × (choose (pos a) (pos rate) (pos d) (length us) us [] (pos 0) ≡ ok sel)
unfolding total
choose_enough_all a rate d [] l few fits p b e = absurd (omega arith)
choose_enough_all a rate d (u ∷ us) l few fits p b e =
    choose_enough a rate d (length (u ∷ us)) few fits u us [] p (omega arith) (omega arith)
      (omega arith)

module _ (sort : (Utxo → Utxo → Bool) → List Utxo → List Utxo)
    (rearranges : (larger : Utxo → Utxo → Bool) (us : List Utxo)
      → Rearranged us (sort larger us)) where
  -- The coins that are selected pay for the amount, the change and the fee, to the unit; the change
  -- is zero or no dust, and the fee is at least that of a transaction without change. That is for
  -- a positive amount, coins and a fee rate that are not negative, fewer than 2^32 coins, and sums
  -- that fit in int64.
  pub select_utxos-IsFair :
      (us : List Utxo) (a rate d : ℕ) (sel : Selection)
      → length us < 2 ^ 32
      → a + vsize (length us) 2 * rate < 2 ^ 63
      → 0 < a
      → NonNegative us
      → total us < 2 ^ 63
      → select_utxos sort us (pos a) (pos rate) (pos d) ≡ ok sel
      → IsFair a rate d sel
  unfolding select_utxos total
  select_utxos-IsFair [] a rate d sel few fits h p b e = ground arith
  select_utxos-IsFair (u ∷ us) a rate d sel few fits h p b e =
      let sorted = sort is_larger (u ∷ us) in
      let r = rearranges is_larger (u ∷ us) in
      let (t, n) = total-Rearranged r in
      choose-IsFair a rate d (length sorted) (omega (arith, n))
        (subst (λ k. a + vsize k 2 * rate < 2 ^ 63) n fits) sorted [] sel
        (NonNegative-Rearranged r p) (omega arith) (omega (arith, t))
        (rw (let q : is_positive (pos a) ≡ true = ground arith in q) at e)

  -- For a positive amount and at most 2^32 - 1 coins, none of a negative value: coins that cover the
  -- amount and the fee of spending them all, with change, are enough for the selection, whatever the
  -- non-negative rate and dust limit, provided that this sum and the coins' total are below 2^63.
  pub select_utxos_enough :
      (us : List Utxo) (a rate d : ℕ)
      → length us < 2 ^ 32
      → a + vsize (length us) 2 * rate < 2 ^ 63
      → 0 < a
      → NonNegative us
      → total us < 2 ^ 63
      → a + vsize (length us) 2 * rate ≤ total us
      → (sel : Selection) × (select_utxos sort us (pos a) (pos rate) (pos d) ≡ ok sel)
  unfolding select_utxos total
  select_utxos_enough [] a rate d few fits h p b e = absurd (omega arith)
  select_utxos_enough (u ∷ us) a rate d few fits h p b e =
      let r = rearranges is_larger (u ∷ us) in
      let (t, n) = total-Rearranged r in
      rw (let q : is_positive (pos a) ≡ true = ground arith in q) (
        choose_enough_all a rate d (sort is_larger (u ∷ us)) (omega (arith, n)) (omega (arith, n))
          (subst (λ k. a + vsize k 2 * rate < 2 ^ 63) n fits) (NonNegative-Rearranged r p)
          (omega (arith, t)) (omega (arith, t, ap (λ k. vsize k 2 * rate) n)))
