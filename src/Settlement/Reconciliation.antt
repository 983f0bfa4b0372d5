-- ===== src/Settlement/Reconciliation.antt =====
-- internal/settlement/reconciliation.go: an on-chain receipt against the instruction that was to be
-- settled. Addresses and hashes are the numbers that their bytes spell, and a text such as
-- `receipt.TxHash.Hex()` is kept as its number. The ABI decoding and the Keccak topics of
-- go-ethereum are the fields of `Abi`.
pub mod Events
pub mod Outcome
mod Tests
use chainfx_payment_core.Common.{
  ℕ, ◌+◌, ◌%◌, ◌^◌, Bool, true, false, List, [], ◌∷◌, ◌++◌, Option, none, some, Result, ok, err,
  ltb, ◌==◌, ◌&&◌, ◌||◌, not, if◌then◌else◌,
}
use chainfx_payment_core.Common.Int.{ℤ, pos, ltb_ℤ, neg_part, pos_part}
use chainfx_payment_core.Common.Text.{Text, codes}

pub data Status : Type 0 where
  pending receipt_verified vault_event_verified token_transfer_verified : Status
  confirming fully_reconciled mismatch : Status

pub data FailureCode : Type 0 where
  receipt_reverted tx_hash_mismatch tx_to_mismatch chain_id_mismatch : FailureCode
  vault_event_missing vault_event_duplicate transfer_event_missing : FailureCode
  transfer_event_duplicate operation_id_mismatch token_mismatch recipient_mismatch : FailureCode
  amount_mismatch vault_mismatch operator_mismatch log_decode_failed : FailureCode

-- reconciliationError: the code and the field.
abbrev pub Failure : Type 0
Failure = FailureCode × Text

pub record SettlementInstruction : Type 0 where
  pub operation_id : ℕ
  pub tx_hash : ℕ
  pub chain_id : ℕ
  pub vault_address : ℕ
  pub token_address : ℕ
  pub recipient_address : ℕ
  pub amount_raw : Option ℤ
  pub operator_address : ℕ

pub record Log : Type 0 where
  pub address : ℕ
  pub topics : List ℕ
  pub bytes : Text
  pub index : ℕ

pub record ReceiptObservation : Type 0 where
  pub tx_hash : ℕ
  pub to : ℕ
  pub chain_id : ℕ
  pub status : ℕ
  pub block_number : ℕ
  pub block_hash : ℕ
  pub transaction_index : ℕ
  pub confirmations : ℕ
  pub logs : List Log

pub record VaultPayoutEvent : Type 0 where
  pub operation_id : ℕ
  pub token : ℕ
  pub recipient : ℕ
  pub amount : ℕ
  pub operator : ℕ
  pub log_index : ℕ

pub record Erc20TransferEvent : Type 0 where
  pub token : ℕ
  pub from : ℕ
  pub to : ℕ
  pub value : ℕ
  pub log_index : ℕ

-- No failure is `none`, where the source has the empty code and field.
pub record ReconciliationResult : Type 0 where
  pub operation_id : ℕ
  pub tx_hash : ℕ
  pub receipt_verified : Bool
  pub vault_event_verified : Bool
  pub transfer_event_verified : Bool
  pub confirmations_verified : Bool
  pub vault_event_log_index : ℕ
  pub transfer_event_log_index : ℕ
  pub block_number : ℕ
  pub block_hash : ℕ
  pub status : Status
  pub failure : Option Failure
  pub reconciled_at : ℕ

pub record FinalityPolicy : Type 0 where
  pub network : Text
  pub chain_id : ℕ
  pub required_confirmations : ℕ
  pub reorg_safety_depth : ℕ
  pub version : Text

-- The hashes of the event signatures, and what Unpack reads from a log's data: an amount and an
-- operator, or a value. `none` is an error of Unpack or a value of another type.
pub record Abi : Type 0 where
  pub vault_payout_topic : ℕ
  pub vault_payout_executed_topic : ℕ
  pub erc20_transfer_topic : ℕ
  pub unpack_payout : Text → Option (ℕ × ℕ)
  pub unpack_value : Text → Option ℕ

-- The results `(_, false, nil)`, `(_, true, err)` and `(event, true, nil)` of a decoder.
pub data Decoded (A : Type 0) : Type 0 where
  other : Decoded A
  malformed : Decoded A
  event : A → Decoded A

-- common.BytesToAddress(topic.Bytes()[12:])
abbrev pub topic_address : ℕ → ℕ
topic_address t = t % 2 ^ 160

module _ (abi : Abi) where
  payout_event : Log → ℕ → ℕ → ℕ → Decoded VaultPayoutEvent
  payout_event log id token recipient = elim (abi.unpack_payout log.bytes) [
    | none ↦ malformed
    | some (amount, operator) ↦ event (record {
      operation_id = id;
      token = topic_address token;
      recipient = topic_address recipient;
      amount = amount;
      operator = operator;
      log_index = log.index;
    })
  ]

  is_payout : ℕ → Bool
  is_payout topic = topic == abi.vault_payout_topic || topic == abi.vault_payout_executed_topic

  payout_of_topics : Log → List ℕ → Decoded VaultPayoutEvent
  unfolding payout_event is_payout
  payout_of_topics log [] = other
  payout_of_topics log (topic ∷ id ∷ token ∷ recipient ∷ []) =
      if is_payout topic then payout_event log id token recipient else other
  payout_of_topics log (topic ∷ rest) = if is_payout topic then malformed else other

  pub decode_vault_payout_log : Log → Decoded VaultPayoutEvent
  unfolding payout_of_topics
  decode_vault_payout_log log = payout_of_topics log log.topics

  transfer_event : Log → ℕ → ℕ → Decoded Erc20TransferEvent
  transfer_event log from to = elim (abi.unpack_value log.bytes) [
    | none ↦ malformed
    | some value ↦ event (record {
      token = log.address;
      from = topic_address from;
      to = topic_address to;
      value = value;
      log_index = log.index;
    })
  ]

  transfer_of_topics : Log → List ℕ → Decoded Erc20TransferEvent
  unfolding transfer_event
  transfer_of_topics log [] = other
  transfer_of_topics log (topic ∷ from ∷ to ∷ []) =
      if topic == abi.erc20_transfer_topic then transfer_event log from to else other
  transfer_of_topics log (topic ∷ rest) =
      if topic == abi.erc20_transfer_topic then malformed else other

  pub decode_erc20_transfer_log : Log → Decoded Erc20TransferEvent
  unfolding transfer_of_topics
  decode_erc20_transfer_log log = transfer_of_topics log log.topics

-- `decoded.Amount.Cmp(instruction.AmountRaw) == 0`
abbrev pub same_amount : ℕ → Option ℤ → Bool
same_amount n none = false
same_amount n (some (pos m)) = n == m
same_amount n (some _) = false

-- The error of the first field of a payout that is not the instruction's.
pub payout_mismatch : SettlementInstruction → Log → VaultPayoutEvent → Option Failure
payout_mismatch ins log e =
    if not (log.address == ins.vault_address)
    then some (vault_mismatch, codes "vaultAddress")
    else if not (e.operation_id == ins.operation_id)
    then some (operation_id_mismatch, codes "operationId")
    else if not (e.token == ins.token_address)
    then some (token_mismatch, codes "tokenAddress")
    else if not (e.recipient == ins.recipient_address)
    then some (recipient_mismatch, codes "recipientAddress")
    else if not (same_amount e.amount ins.amount_raw)
    then some (amount_mismatch, codes "amountRaw")
    else if not (ins.operator_address == 0) && not (e.operator == ins.operator_address)
    then some (operator_mismatch, codes "operatorAddress")
    else none

-- A transfer of the token that is not the instruction's.
pub transfer_mismatch : SettlementInstruction → Erc20TransferEvent → Bool
transfer_mismatch ins e =
    not (e.from == ins.vault_address)
    || not (e.to == ins.recipient_address)
    || not (same_amount e.value ins.amount_raw)

-- What is returned when the loop is over.
abbrev pub only_match {ℓ} : {A : Type ℓ} → Failure → Failure → List A → Result Failure A
only_match missing duplicate [] = err missing
only_match missing duplicate (e ∷ []) = ok e
only_match missing duplicate (e ∷ e' ∷ es) = err duplicate

abbrev decode_failed : Failure
decode_failed = (log_decode_failed, codes "logs")

abbrev pub fail : ReconciliationResult → Failure → ReconciliationResult
fail r f = record r { status = mismatch; failure = some f }

abbrev pub amount_positive : Option ℤ → Bool
amount_positive none = false
amount_positive (some a) = ltb_ℤ (pos 0) a

-- The checks of the receipt itself, before any log is read.
pub receipt_failure : SettlementInstruction → ReceiptObservation → Option Failure
receipt_failure ins receipt =
    if not (amount_positive ins.amount_raw)
    then some (amount_mismatch, codes "amountRaw")
    else if not (receipt.tx_hash == ins.tx_hash)
    then some (tx_hash_mismatch, codes "txHash")
    else if not (receipt.status == 1)
    then some (receipt_reverted, codes "receipt.status")
    else if not (receipt.chain_id == ins.chain_id)
    then some (chain_id_mismatch, codes "chainId")
    else if not (receipt.to == ins.vault_address)
    then some (tx_to_mismatch, codes "receipt.to")
    else none

abbrev pub required : FinalityPolicy → ℕ
required finality =
    if finality.required_confirmations == 0 then 1 else finality.required_confirmations

start : SettlementInstruction → ℕ → ReceiptObservation → ReconciliationResult
start ins clock receipt = record {
  operation_id = ins.operation_id;
  tx_hash = receipt.tx_hash;
  receipt_verified = false;
  vault_event_verified = false;
  transfer_event_verified = false;
  confirmations_verified = false;
  vault_event_log_index = 0;
  transfer_event_log_index = 0;
  block_number = receipt.block_number;
  block_hash = receipt.block_hash;
  status = pending;
  failure = none;
  reconciled_at = clock;
}

with_payout : ReconciliationResult → VaultPayoutEvent → ReconciliationResult
with_payout r e = record r {
  vault_event_verified = true;
  vault_event_log_index = e.log_index;
  status = vault_event_verified;
}

with_transfer : ReconciliationResult → Erc20TransferEvent → ReconciliationResult
with_transfer r e = record r {
  transfer_event_verified = true;
  transfer_event_log_index = e.log_index;
  status = token_transfer_verified;
}

-- The last step: the confirmations.
confirm : FinalityPolicy → ReceiptObservation → ReconciliationResult → ReconciliationResult
confirm finality receipt r =
    if ltb receipt.confirmations (required finality)
    then record r { status = confirming }
    else record r { confirmations_verified = true; status = fully_reconciled }

module _ (abi : Abi) (ins : SettlementInstruction) where
  -- The loop of findMatchingVaultPayout, on the matches so far. A decoding error comes out as
  -- `classifyReconciliationError` reports it.
  payouts : List Log → List VaultPayoutEvent → Result Failure VaultPayoutEvent
  payouts [] matches =
      only_match (vault_event_missing, codes "vaultEvent")
        (vault_event_duplicate, codes "vaultEvent") matches
  payouts (log ∷ logs) matches = elim (decode_vault_payout_log abi log) [
    | other ↦ payouts logs matches
    | malformed ↦ err decode_failed
    | event e ↦ elim (payout_mismatch ins log e) [
      | some f ↦ err f
      | none ↦ payouts logs (matches ++ e ∷ [])
    ]
  ]

  transfers : List Log → List Erc20TransferEvent → Result Failure Erc20TransferEvent
  transfers [] matches =
      only_match (transfer_event_missing, codes "transferEvent")
        (transfer_event_duplicate, codes "transferEvent") matches
  transfers (log ∷ logs) matches = elim (decode_erc20_transfer_log abi log) [
    | other ↦ transfers logs matches
    | malformed ↦ err decode_failed
    | event e ↦ elim (e.token == ins.token_address) [
      | false ↦ transfers logs matches
      | true ↦ elim (transfer_mismatch ins e) [
        | true ↦ err (transfer_event_missing, codes "transferEvent")
        | false ↦ transfers logs (matches ++ e ∷ [])
      ]
    ]
  ]

  pub find_matching_vault_payout : List Log → Result Failure VaultPayoutEvent
  unfolding payouts
  find_matching_vault_payout logs = payouts logs []

  pub find_matching_erc20_transfer : List Log → Result Failure Erc20TransferEvent
  unfolding transfers
  find_matching_erc20_transfer logs = transfers logs []

  -- ReconcileSettlement; `clock` is time.Now().
  unfoldable pub reconcile_settlement :
      ℕ → ReceiptObservation → FinalityPolicy → ReconciliationResult
  unfolding receipt_failure find_matching_vault_payout find_matching_erc20_transfer start
      with_payout with_transfer confirm
  reconcile_settlement clock receipt finality =
      let r = start ins clock receipt in
      elim (receipt_failure ins receipt) [
        | some f ↦ fail r f
        | none ↦
            let r1 = record r { receipt_verified = true; status = receipt_verified } in
            elim (find_matching_vault_payout receipt.logs) [
              | err f ↦ fail r1 f
              | ok payout ↦
                  let r2 = with_payout r1 payout in
                  elim (find_matching_erc20_transfer receipt.logs) [
                    | err f ↦ fail r2 f
                    | ok transfer ↦ confirm finality receipt (with_transfer r2 transfer)
                  ]
            ]
      ]
