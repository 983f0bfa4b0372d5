-- ===== src/Bitcoin/CoinSelect.antt =====
-- internal/bitcoin/coin_select.go: the size of a transaction, and the outputs that pay for it.
pub mod Rounds
pub mod Balance
pub mod Funds
mod Tests
use chainfx_payment_core.Common.{
  ℕ, suc, Bool, true, false, List, [], ◌∷◌, ◌++◌, Option, none, some, Result, ok, err, not, ◌&&◌,
  length, if◌then◌else◌,
}
use chainfx_payment_core.Common.Int.{ℤ, pos, ltb_ℤ}
use chainfx_payment_core.Common.Int64.{add64, sub64, mul64, div64, is_positive}
use chainfx_payment_core.Common.Text.{Text}

-- What the selection reads and hands on of an unspent output.
pub record Utxo : Type 0 where
  pub txid : Text
  pub vout : ℕ
  pub value_sats : ℤ
  pub script_pub_key : Text

-- The error of too few coins carries what its message prints: the available and the needed amount
-- and the fee.
pub data SelectError : Type 0 where
  no_utxos amount_not_positive : SelectError
  insufficient_funds : ℤ → ℤ → ℤ → SelectError

pub record Selection : Type 0 where
  pub selected : List Utxo
  pub change_sats : ℤ
  pub fee_sats : ℤ

abbrev pub tx_overhead_base : ℤ
tx_overhead_base = pos 10

abbrev pub tx_witness_overhead : ℤ
tx_witness_overhead = pos 2

abbrev pub p2wpkh_input_base : ℤ
p2wpkh_input_base = pos 41

abbrev pub p2wpkh_input_wit : ℤ
p2wpkh_input_wit = pos 108

abbrev pub p2wpkh_output_size : ℤ
p2wpkh_output_size = pos 31

-- Go's int has 64 bits.
pub estimate_vsize : ℕ → ℕ → ℤ
unfolding add64 mul64 div64
estimate_vsize inputs outputs =
    let base_size =
      add64 (add64 tx_overhead_base (mul64 (pos inputs) p2wpkh_input_base))
        (mul64 (pos outputs) p2wpkh_output_size) in
    let witness_size = add64 tx_witness_overhead (mul64 (pos inputs) p2wpkh_input_wit) in
    let weight = add64 (mul64 base_size (pos 4)) witness_size in
    div64 (add64 weight (pos 3)) (pos 4)

-- `a >= b`
abbrev pub at_least : ℤ → ℤ → Bool
at_least a b = not (ltb_ℤ a b)

-- One round on what is accumulated, with the fee for two outputs and the fee for one: the change
-- and the fee, if the coins are enough.
pub round : ℤ → ℤ → ℤ → ℤ → ℤ → Option (ℤ × ℤ)
unfolding add64 sub64
round amount dust accumulated fee fee_no_change =
    let total = add64 amount fee in
    let total_no_change = add64 amount fee_no_change in
    let change = sub64 accumulated total in
    let rest = sub64 accumulated total_no_change in
    if at_least accumulated total_no_change && ltb_ℤ rest dust
    then some (pos 0, sub64 accumulated amount)
    else if not (at_least accumulated total)
    then none
    else if not (is_positive change && ltb_ℤ change dust)
    then some (change, fee)
    else if not (at_least accumulated total_no_change)
    then some (change, fee_no_change)
    else if ltb_ℤ rest dust
    then some (pos 0, sub64 accumulated amount)
    else some (rest, fee_no_change)

pub fee_of : ℤ → ℕ → ℕ → ℤ
unfolding mul64 estimate_vsize
fee_of fee_rate inputs outputs = mul64 (estimate_vsize inputs outputs) fee_rate

-- A round that ends the loop, or what follows it.
pub end_or :
    List Utxo → Option (ℤ × ℤ) → Result SelectError Selection → Result SelectError Selection
end_or chosen (some (change, fee)) rest =
    ok (record { selected = chosen; change_sats = change; fee_sats = fee })
end_or chosen none rest = rest

-- The loop, on the coins chosen so far and their sum; `all` is the number of coins there are.
pub choose : ℤ → ℤ → ℤ → ℕ → List Utxo → List Utxo → ℤ → Result SelectError Selection
unfolding round fee_of add64 end_or
choose amount fee_rate dust all [] chosen accumulated =
    let fee = fee_of fee_rate all 2 in err (insufficient_funds accumulated (add64 amount fee) fee)
choose amount fee_rate dust all (u ∷ us) chosen accumulated =
    let chosen' = chosen ++ u ∷ [] in
    let accumulated' = add64 accumulated u.value_sats in
    let n = length chosen' in
    end_or chosen' (round amount dust accumulated' (fee_of fee_rate n 2) (fee_of fee_rate n 1))
      (choose amount fee_rate dust all us chosen' accumulated')

-- The order that sort.Slice is given.
pub is_larger : Utxo → Utxo → Bool
is_larger u v = ltb_ℤ v.value_sats u.value_sats

-- `sort` is sort.Slice on a copy.
pub select_utxos :
    ((Utxo → Utxo → Bool) → List Utxo → List Utxo)
    → List Utxo
    → ℤ
    → ℤ
    → ℤ
    → Result SelectError Selection
unfolding choose is_larger
select_utxos sort [] amount fee_rate dust = err no_utxos
select_utxos sort (u ∷ us) amount fee_rate dust =
    if not (is_positive amount)
    then err amount_not_positive
    else let sorted = sort is_larger (u ∷ us) in
      choose amount fee_rate dust (length sorted) sorted [] (pos 0)
