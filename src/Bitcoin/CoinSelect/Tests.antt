-- ===== src/Bitcoin/CoinSelect/Tests.antt =====
-- Runs of the coin selection in internal/bitcoin/coin_select.go.
use chainfx_payment_core.Common.{
  ℕ, true, false, if◌then◌else◌, ◌≡◌, refl, List, [], ◌∷◌, Bool, ok, err, arith,
}
use chainfx_payment_core.Common.Int.{pos}
use chainfx_payment_core.Common.Text.{codes}
use chainfx_payment_core.Bitcoin.CoinSelect.{
  Utxo, Selection, select_utxos, estimate_vsize, insufficient_funds,
}
use chainfx_payment_core.Bitcoin.CoinSelect.Rounds.{vsize}
use chainfx_payment_core.Bitcoin.CoinSelect.Balance.{total, NonNegative, IsFair}
use chainfx_payment_core.Bitcoin.CoinSelect.Funds.{
  Rearranged, keep, nothing, swap, then_also, select_utxos-IsFair, select_utxos_enough,
}

abbrev coin : ℕ → Utxo
coin n = record { txid = codes "t"; vout = 0; value_sats = pos n; script_pub_key = codes "0014" }

-- An insertion sort, for sort.Slice.
insert : (Utxo → Utxo → Bool) → Utxo → List Utxo → List Utxo
insert larger u [] = u ∷ []
insert larger u (v ∷ us) = if larger v u then v ∷ insert larger u us else u ∷ v ∷ us

sort : (Utxo → Utxo → Bool) → List Utxo → List Utxo
unfolding insert
sort larger [] = []
sort larger (u ∷ us) = insert larger u (sort larger us)

same : (us : List Utxo) → Rearranged us us
same [] = nothing
same (u ∷ us) = keep u (same us)

insert-Rearranged :
    (larger : Utxo → Utxo → Bool) (u : Utxo) (us : List Utxo)
    → Rearranged (u ∷ us) (insert larger u us)
unfolding insert
insert-Rearranged larger u [] = keep u nothing
insert-Rearranged larger u (v ∷ us) =
    elim (larger v u)
      as (λ b. Rearranged (u ∷ v ∷ us) (if b then v ∷ insert larger u us else u ∷ v ∷ us)) [
        | true ↦ then_also (swap u v) (keep v (insert-Rearranged larger u us))
        | false ↦ same (u ∷ v ∷ us)
      ]

sort-Rearranged : (larger : Utxo → Utxo → Bool) (us : List Utxo) → Rearranged us (sort larger us)
unfolding sort
sort-Rearranged larger [] = nothing
sort-Rearranged larger (u ∷ us) =
    then_also (keep u (sort-Rearranged larger us)) (insert-Rearranged larger u (sort larger us))

abbrev coins : List Utxo
coins = coin 1000 ∷ coin 70000 ∷ []

one_in_two_out : estimate_vsize 1 2 ≡ pos 141
unfolding estimate_vsize
one_in_two_out = refl

abbrev paid : Selection
paid = record { selected = coin 70000 ∷ []; change_sats = pos 48590; fee_sats = pos 1410 }

selected : select_utxos sort coins (pos 20000) (pos 10) (pos 546) ≡ ok paid
unfolding select_utxos sort
selected = refl

-- With 141 vbytes for two outputs the fee would be 1410: the fee of 1100 for one output is charged,
-- and a change of 610 is returned.
change_underpaid :
    select_utxos sort (coin 21710 ∷ []) (pos 20000) (pos 10) (pos 546)
    ≡ ok (record { selected = coin 21710 ∷ []; change_sats = pos 610; fee_sats = pos 1100 })
unfolding select_utxos sort
change_underpaid = refl

too_few :
    select_utxos sort (coin 1000 ∷ []) (pos 20000) (pos 10) (pos 546)
    ≡ err (insufficient_funds (pos 1000) (pos 21410) (pos 1410))
unfolding select_utxos sort
too_few = refl

select_utxos-IsFair_example : IsFair 20000 10 546 paid
unfolding NonNegative total vsize
select_utxos-IsFair_example =
    select_utxos-IsFair sort sort-Rearranged coins 20000 10 546 paid (omega arith) (omega arith)
      (omega arith) (refl, (refl, tt)) (omega arith) selected

select_utxos_enough_example :
    (sel : Selection) × (select_utxos sort coins (pos 20000) (pos 10) (pos 546) ≡ ok sel)
unfolding NonNegative total vsize
select_utxos_enough_example =
    select_utxos_enough sort sort-Rearranged coins 20000 10 546 (omega arith) (omega arith)
      (omega arith) (refl, (refl, tt)) (omega arith) (omega arith)
