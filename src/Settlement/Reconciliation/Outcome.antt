-- ===== src/Settlement/Reconciliation/Outcome.antt =====
-- How a reconciliation ends, and when it ends well.
use chainfx_payment_core.Common.{
  ℕ, ◌≤◌, ◌≡◌, ◌↔◌, ◌≢◌, ◌⊎◌, inl, inr, refl, true, false, Option, none, some, Result, ok, err,
  arith, ltb, Bool-cases, Option-cases,
}
use chainfx_payment_core.Common.Int.{ℤ, pos, ◌≤ℤ◌}
use chainfx_payment_core.Settlement.Reconciliation.{
  Abi, SettlementInstruction, ReceiptObservation, FinalityPolicy, ReconciliationResult, Status,
  receipt_verified, confirming, fully_reconciled, mismatch, receipt_failure, required, confirm,
  start, with_payout, with_transfer, reconcile_settlement, amount_positive,
  find_matching_vault_payout, find_matching_erc20_transfer, VaultPayoutEvent, Erc20TransferEvent,
}
use chainfx_payment_core.Settlement.Reconciliation.Events.{
  HasOnePayout, HasOneTransfer, Succeeds, find_matching_vault_payout-Succeeds,
  find_matching_erc20_transfer-Succeeds,
}

abbrev pub IsPositive : Option ℤ → Type 0
IsPositive none = ⊥
IsPositive (some a) = pos 1 ≤ℤ a

-- The receipt of the transaction that was to settle the instruction.
pub record ReceiptFits (ins : SettlementInstruction) (receipt : ReceiptObservation) : Type 0 where
  pub positive : IsPositive ins.amount_raw
  pub same_transaction : receipt.tx_hash ≡ ins.tx_hash
  pub successful : receipt.status ≡ 1
  pub same_chain : receipt.chain_id ≡ ins.chain_id
  pub to_vault : receipt.to ≡ ins.vault_address

-- With its events, seen deep enough.
pub record IsSettled (abi : Abi) (ins : SettlementInstruction) (receipt : ReceiptObservation)
    (finality : FinalityPolicy) : Type 0 where
  pub receipt_fits : ReceiptFits ins receipt
  pub one_payout : HasOnePayout abi ins receipt.logs
  pub one_transfer : HasOneTransfer abi ins receipt.logs
  pub confirmed : 1 ≤ receipt.confirmations
  pub confirmed_enough : finality.required_confirmations ≤ receipt.confirmations

amount_positive_iff : (a : Option ℤ) → (amount_positive a ≡ true) ↔ IsPositive a
amount_positive_iff none = ground arith
amount_positive_iff (some a) = ground arith

receipt_failure-none :
    (ins : SettlementInstruction) (receipt : ReceiptObservation)
    → (receipt_failure ins receipt ≡ none) ↔ ReceiptFits ins receipt
unfolding receipt_failure
receipt_failure-none ins receipt =
    let positive = amount_positive_iff ins.amount_raw in
    (
      λ h. record {
        positive = positive.0 (ground arith);
        same_transaction = ground arith;
        successful = ground arith;
        same_chain = ground arith;
        to_vault = ground arith;
      },
      λ r. ground (arith, positive.1 r.positive),
    )

confirm-reconciled :
    (finality : FinalityPolicy) (receipt : ReceiptObservation) (r : ReconciliationResult)
    → ((confirm finality receipt r).status ≡ fully_reconciled)
      ↔ ((1 ≤ receipt.confirmations) × (finality.required_confirmations ≤ receipt.confirmations))
unfolding confirm
confirm-reconciled finality receipt r = ground arith

Result-cases {ℓ κ} :
    {E : Type κ} {A : Type ℓ} (r : Result E A) → ((a : A) × (r ≡ ok a)) ⊎ ((e : E) × (r ≡ err e))
Result-cases (ok a) = inl (a, refl)
Result-cases (err e) = inr (e, refl)

-- The result when all three checks have passed.
abbrev verified :
    SettlementInstruction
    → ℕ
    → ReceiptObservation
    → VaultPayoutEvent
    → Erc20TransferEvent
    → ReconciliationResult
verified ins clock receipt payout transfer =
    let r = start ins clock receipt in
    with_transfer
      (with_payout (record r { receipt_verified = true; status = receipt_verified }) payout)
      transfer

-- A settlement is reported as fully reconciled exactly if the instruction has a positive amount, the
-- receipt is that of its transaction, successful, on its chain and sent to its vault, its logs hold
-- one payout event and one transfer of the token, both those that the instruction asks for, no
-- other payout event, no other transfer of the token and no payout or transfer log that cannot be
-- decoded, and it has the confirmations that the policy asks for, and at least one.
pub fully_reconciled_iff :
    (abi : Abi) (ins : SettlementInstruction) (clock : ℕ) (receipt : ReceiptObservation)
    (finality : FinalityPolicy)
    → ((reconcile_settlement abi ins clock receipt finality).status ≡ fully_reconciled)
      ↔ IsSettled abi ins receipt finality
unfolding reconcile_settlement
fully_reconciled_iff abi ins clock receipt finality =
    let fits = receipt_failure-none ins receipt in
    let paid = find_matching_vault_payout-Succeeds abi ins receipt.logs in
    let moved = find_matching_erc20_transfer-Succeeds abi ins receipt.logs in
    elim (Option-cases (receipt_failure ins receipt)) [
      | inr (f, bad) ↦ rw (bad, reconcile_settlement) (λ h. cc, λ s. cc (fits.1 s.receipt_fits))
      | inl good ↦ elim (Result-cases (find_matching_vault_payout abi ins receipt.logs)) [
        | inr (f, bad) ↦
            rw (good, bad, reconcile_settlement)
              (λ h. cc, λ s. absurd (rw (bad, Succeeds) at (paid.1 s.one_payout)))
        | inl (payout, e) ↦
            elim (Result-cases (find_matching_erc20_transfer abi ins receipt.logs)) [
              | inr (f, bad) ↦
                  rw (good, e, bad, reconcile_settlement)
                    (λ h. cc, λ s. absurd (rw (bad, Succeeds) at (moved.1 s.one_transfer)))
              | inl (transfer, e') ↦
                  let last =
                    confirm-reconciled finality receipt
                      (verified ins clock receipt payout transfer) in
                  rw (good, e, e', reconcile_settlement)
                    (
                      λ h. record {
                        receipt_fits = fits.0 good;
                        one_payout = paid.0 (rw (e, Succeeds) tt);
                        one_transfer = moved.0 (rw (e', Succeeds) tt);
                        confirmed = (last.0 h).0;
                        confirmed_enough = (last.0 h).1;
                      },
                      λ s. last.1 (s.confirmed, s.confirmed_enough),
                    )
            ]
      ]
    ]

-- What the other fields say in each of the states in which a reconciliation can end.
abbrev pub Agrees : Status → ReconciliationResult → Type 0
Agrees fully_reconciled r =
    (r.receipt_verified ≡ true)
    × (r.vault_event_verified ≡ true)
    × (r.transfer_event_verified ≡ true)
    × (r.confirmations_verified ≡ true)
    × (r.failure ≡ none)
Agrees confirming r =
    (r.receipt_verified ≡ true)
    × (r.vault_event_verified ≡ true)
    × (r.transfer_event_verified ≡ true)
    × (r.confirmations_verified ≡ false)
    × (r.failure ≡ none)
Agrees mismatch r =
    (r.transfer_event_verified ≡ false) × (r.confirmations_verified ≡ false) × (r.failure ≢ none)
Agrees _ r = ⊥

confirm-Agrees :
    (finality : FinalityPolicy) (receipt : ReceiptObservation) (r : ReconciliationResult)
    → r.receipt_verified ≡ true
    → r.vault_event_verified ≡ true
    → r.transfer_event_verified ≡ true
    → r.confirmations_verified ≡ false
    → r.failure ≡ none
    → Agrees (confirm finality receipt r).status (confirm finality receipt r)
unfolding confirm
confirm-Agrees finality receipt r a b c d e =
    elim (Bool-cases (ltb receipt.confirmations (required finality))) [
      | inl few ↦ rw (few, confirm) (a, b, c, d, e)
      | inr enough ↦ rw (enough, confirm) (a, b, c, refl, e)
    ]

-- Every reconciliation ends fully reconciled, confirming or in a mismatch: in the first two all three
-- checks of the receipt have passed and no failure is set, in the last one a failure is set and the
-- transfer is not verified, and the confirmations are verified in the first only.
pub reconcile_settlement-Agrees :
    (abi : Abi) (ins : SettlementInstruction) (clock : ℕ) (receipt : ReceiptObservation)
    (finality : FinalityPolicy)
    → let r = reconcile_settlement abi ins clock receipt finality in Agrees r.status r
unfolding reconcile_settlement
reconcile_settlement-Agrees abi ins clock receipt finality =
    elim (Option-cases (receipt_failure ins receipt)) [
      | inr (f, bad) ↦ rw (bad, reconcile_settlement) (refl, refl, cc)
      | inl good ↦ elim (Result-cases (find_matching_vault_payout abi ins receipt.logs)) [
        | inr (f, bad) ↦ rw (good, bad, reconcile_settlement) (refl, refl, cc)
        | inl (payout, e) ↦
            elim (Result-cases (find_matching_erc20_transfer abi ins receipt.logs)) [
              | inr (f, bad) ↦ rw (good, e, bad, reconcile_settlement) (refl, refl, cc)
              | inl (transfer, e') ↦
                  rw (good, e, e', reconcile_settlement)
                    (confirm-Agrees finality receipt (verified ins clock receipt payout transfer)
                      refl refl refl refl refl)
            ]
      ]
    ]
