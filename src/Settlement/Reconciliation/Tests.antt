-- ===== src/Settlement/Reconciliation/Tests.antt =====
-- A settled receipt and one with an unrelated log. Unpack reads the first bytes of the data.
use chainfx_payment_core.Common.{ℕ, ◌≡◌, ◌↔◌, refl, List, [], ◌∷◌, Option, none, some}
use chainfx_payment_core.Common.Int.{pos}
use chainfx_payment_core.Common.Text.{Text}
use chainfx_payment_core.Settlement.Reconciliation.{
  Abi, SettlementInstruction, Log, ReceiptObservation, FinalityPolicy, confirming, fully_reconciled,
  decode_failed, decode_vault_payout_log, payout_mismatch, decode_erc20_transfer_log,
  transfer_mismatch, reconcile_settlement,
}
use chainfx_payment_core.Settlement.Reconciliation.Outcome.{
  IsSettled, Agrees, fully_reconciled_iff, reconcile_settlement-Agrees,
}

first_two : Text → Option (ℕ × ℕ)
first_two (a ∷ b ∷ s) = some (a, b)
first_two _ = none

first_one : Text → Option ℕ
first_one (a ∷ s) = some a
first_one _ = none

abbrev abi : Abi
unfolding first_two first_one
abi = record {
  vault_payout_topic = 1;
  vault_payout_executed_topic = 2;
  erc20_transfer_topic = 3;
  unpack_payout = first_two;
  unpack_value = first_one;
}

abbrev instruction : SettlementInstruction
instruction = record {
  operation_id = 70;
  tx_hash = 71;
  chain_id = 56;
  vault_address = 11;
  token_address = 12;
  recipient_address = 14;
  amount_raw = some (pos 200);
  operator_address = 0;
}

abbrev payout_log : Log
payout_log = record {
  address = 11;
  topics = 2 ∷ 70 ∷ 12 ∷ 14 ∷ [];
  bytes = 200 ∷ 9 ∷ [];
  index = 0;
}

abbrev transfer_log : Log
transfer_log = record { address = 12; topics = 3 ∷ 11 ∷ 14 ∷ []; bytes = 200 ∷ []; index = 1 }

-- The transfer of another token standard: the same first topic, but four topics.
abbrev foreign_log : Log
foreign_log = record { address = 99; topics = 3 ∷ 11 ∷ 14 ∷ 5 ∷ []; bytes = []; index = 2 }

abbrev receipt : List Log → ReceiptObservation
receipt logs = record {
  tx_hash = 71;
  to = 11;
  chain_id = 56;
  status = 1;
  block_number = 1000;
  block_hash = 8;
  transaction_index = 0;
  confirmations = 15;
  logs = logs;
}

abbrev finality : ℕ → FinalityPolicy
finality n = record {
  network = [];
  chain_id = 56;
  required_confirmations = n;
  reorg_safety_depth = 0;
  version = [];
}

abbrev logs : List Log
logs = payout_log ∷ transfer_log ∷ []

reconciled :
    (reconcile_settlement abi instruction 0 (receipt logs) (finality 15)).status ≡ fully_reconciled
unfolding reconcile_settlement abi decode_vault_payout_log payout_mismatch decode_erc20_transfer_log
    transfer_mismatch
reconciled = refl

waits : (reconcile_settlement abi instruction 0 (receipt logs) (finality 16)).status ≡ confirming
unfolding reconcile_settlement abi decode_vault_payout_log payout_mismatch decode_erc20_transfer_log
    transfer_mismatch
waits = refl

-- A log of an unrelated contract that cannot be read as a token transfer spoils the settlement.
foreign_log_fails :
    (reconcile_settlement abi instruction 0
      (receipt (payout_log ∷ transfer_log ∷ foreign_log ∷ []))
      (finality 15)).failure
    ≡ some decode_failed
unfolding reconcile_settlement abi decode_vault_payout_log payout_mismatch decode_erc20_transfer_log
    transfer_mismatch
foreign_log_fails = refl

fully_reconciled_iff_example :
    ((reconcile_settlement abi instruction 0 (receipt logs) (finality 15)).status
      ≡ fully_reconciled)
    ↔ IsSettled abi instruction (receipt logs) (finality 15)
fully_reconciled_iff_example = fully_reconciled_iff abi instruction 0 (receipt logs) (finality 15)

reconcile_settlement-Agrees_example :
    let r = reconcile_settlement abi instruction 0 (receipt logs) (finality 15) in Agrees r.status r
reconcile_settlement-Agrees_example =
    reconcile_settlement-Agrees abi instruction 0 (receipt logs) (finality 15)
