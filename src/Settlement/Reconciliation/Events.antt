-- ===== src/Settlement/Reconciliation/Events.antt =====
-- The logs in which the two searches find their one event.
use chainfx_payment_core.Common.{
  ℕ, ◌+◌, ◌≡◌, ◌≢◌, ◌↔◌, ◌⊎◌, inl, inr, refl, true, false, List, [], ◌∷◌, ◌++◌, Option, none, some,
  Result, ok, err, arith, ◌==◌, length, length-append, Bool-cases, Option-cases, if◌then◌else◌,
}
use chainfx_payment_core.Common.Int.{ℤ, pos, negsuc}
use chainfx_payment_core.Common.Text.{All, codes}
use chainfx_payment_core.Settlement.Reconciliation.{
  Abi, SettlementInstruction, Log, VaultPayoutEvent, Erc20TransferEvent, Failure, Decoded, other,
  malformed, event, decode_vault_payout_log, decode_erc20_transfer_log, same_amount,
  payout_mismatch, transfer_mismatch, only_match, payouts, transfers, find_matching_vault_payout,
  find_matching_erc20_transfer, vault_event_missing, vault_event_duplicate, transfer_event_missing,
  transfer_event_duplicate,
}

-- The payout that the instruction asks for.
pub record PaysOut (ins : SettlementInstruction) (log : Log) (e : VaultPayoutEvent) : Type 0 where
  pub from_vault : log.address ≡ ins.vault_address
  pub same_operation : e.operation_id ≡ ins.operation_id
  pub same_token : e.token ≡ ins.token_address
  pub same_recipient : e.recipient ≡ ins.recipient_address
  pub full_amount : ins.amount_raw ≡ some (pos e.amount)
  pub by_operator : (ins.operator_address ≡ 0) ⊎ (e.operator ≡ ins.operator_address)

-- The transfer of the token that it asks for.
pub record Transfers (ins : SettlementInstruction) (e : Erc20TransferEvent) : Type 0 where
  pub out_of_vault : e.from ≡ ins.vault_address
  pub to_recipient : e.to ≡ ins.recipient_address
  pub full_value : ins.amount_raw ≡ some (pos e.value)

same_amount_iff : (n : ℕ) (a : Option ℤ) → (same_amount n a ≡ true) ↔ (a ≡ some (pos n))
same_amount_iff n none = ground arith
same_amount_iff n (some (pos m)) = ground arith
same_amount_iff n (some (negsuc m)) = ground arith

payout_mismatch-none :
    (ins : SettlementInstruction) (log : Log) (e : VaultPayoutEvent)
    → (payout_mismatch ins log e ≡ none) ↔ PaysOut ins log e
unfolding payout_mismatch
payout_mismatch-none ins log e =
    let amounts = same_amount_iff e.amount ins.amount_raw in
    (
      λ h. record {
        from_vault = ground arith;
        same_operation = ground arith;
        same_token = ground arith;
        same_recipient = ground arith;
        full_amount = ground (arith, amounts);
        by_operator = ground arith;
      },
      λ p. ground (arith, amounts),
    )

transfer_mismatch-false :
    (ins : SettlementInstruction) (e : Erc20TransferEvent)
    → (transfer_mismatch ins e ≡ false) ↔ Transfers ins e
unfolding transfer_mismatch
transfer_mismatch-false ins e =
    let amounts = same_amount_iff e.value ins.amount_raw in
    (
      λ h. record {
        out_of_vault = ground arith;
        to_recipient = ground arith;
        full_value = ground (arith, amounts);
      },
      λ p. ground (arith, amounts),
    )

abbrev pub sum_of {ℓ} : {A : Type ℓ} → (A → ℕ) → List A → ℕ
sum_of f [] = 0
sum_of f (x ∷ xs) = f x + sum_of f xs

abbrev pub Succeeds {ℓ κ} : {E : Type κ} {A : Type ℓ} → Result E A → Type 0
Succeeds (ok a) = Unit
Succeeds (err e) = ⊥

only_match-Succeeds {ℓ} :
    {A : Type ℓ} (missing duplicate : Failure) (matches : List A)
    → Succeeds (only_match missing duplicate matches) ↔ (length matches ≡ 1)
only_match-Succeeds missing duplicate [] = (λ h. absurd h, λ h. cc)
only_match-Succeeds missing duplicate (e ∷ []) = (λ _. refl, λ _. tt)
only_match-Succeeds missing duplicate (e ∷ e' ∷ es) = (λ h. absurd h, λ h. absurd (omega arith))

Decoded-cases :
    {A : Type 0} (d : Decoded A) → (d ≡ other) ⊎ (d ≡ malformed) ⊎ ((a : A) × (d ≡ event a))
Decoded-cases other = inl refl
Decoded-cases malformed = inr (inl refl)
Decoded-cases (event a) = inr (inr (a, refl))

module _ (abi : Abi) (ins : SettlementInstruction) where
  -- Every payout event that the logs hold is the one asked for, and every such log can be decoded.
  abbrev pub PayoutFits : Log → Decoded VaultPayoutEvent → Type 0
  PayoutFits log other = Unit
  PayoutFits log malformed = ⊥
  PayoutFits log (event e) = PaysOut ins log e

  abbrev pub payout_count : Decoded VaultPayoutEvent → ℕ
  payout_count (event e) = 1
  payout_count _ = 0

  -- So for the transfers of the instruction's token; other tokens may move as they like.
  abbrev pub TransferFits : Decoded Erc20TransferEvent → Type 0
  TransferFits other = Unit
  TransferFits malformed = ⊥
  TransferFits (event e) = (e.token ≢ ins.token_address) ⊎ Transfers ins e

  abbrev pub transfer_count : Decoded Erc20TransferEvent → ℕ
  transfer_count (event e) = if e.token == ins.token_address then 1 else 0
  transfer_count _ = 0

  pub HasOnePayout : List Log → Type 0
  HasOnePayout logs =
      All (λ log. PayoutFits log (decode_vault_payout_log abi log)) logs
      × (sum_of (λ log. payout_count (decode_vault_payout_log abi log)) logs ≡ 1)

  pub HasOneTransfer : List Log → Type 0
  HasOneTransfer logs =
      All (λ log. TransferFits (decode_erc20_transfer_log abi log)) logs
      × (sum_of (λ log. transfer_count (decode_erc20_transfer_log abi log)) logs ≡ 1)

  payouts-Succeeds :
      (logs : List Log) (matches : List VaultPayoutEvent)
      → Succeeds (payouts abi ins logs matches) ↔ (
          All (λ log. PayoutFits log (decode_vault_payout_log abi log)) logs
          × (length matches + sum_of (λ log. payout_count (decode_vault_payout_log abi log)) logs
              ≡ 1))
  unfolding payouts
  payouts-Succeeds [] matches =
      let (to, back) =
        only_match-Succeeds (vault_event_missing, codes "vaultEvent")
          (vault_event_duplicate, codes "vaultEvent") matches in
      (λ h. (tt, omega (arith, to h)), λ h. back (omega (arith, h.1)))
  payouts-Succeeds (log ∷ logs) matches = elim (Decoded-cases (decode_vault_payout_log abi log)) [
    | inl o ↦
        let (to, back) = payouts-Succeeds logs matches in
        rw (o, payouts, All, sum_of)
          (λ h. ((tt, (to h).0), omega (arith, to h)), λ h. back (h.0.1, omega (arith, h.1)))
    | inr (inl m) ↦ rw (m, payouts, All, sum_of) (λ h. absurd h, λ h. absurd h.0.0)
    | inr (inr (e, found)) ↦
        let (to, back) = payouts-Succeeds logs (matches ++ e ∷ []) in
        let longer = length-append matches (e ∷ []) in
        let fits = payout_mismatch-none ins log e in
        elim (Option-cases (payout_mismatch ins log e)) [
          | inl none_wrong ↦
              rw (found, payouts, All, sum_of, none_wrong)
                (
                  λ h. ((fits.0 none_wrong, (to h).0), omega (arith, to h, longer)),
                  λ h. back (h.0.1, omega (arith, h.1, longer)),
                )
          | inr (f, wrong) ↦
              rw (found, payouts, All, sum_of, wrong) (λ h. absurd h, λ h. cc (fits.1 h.0.0))
        ]
  ]

  transfers-Succeeds :
      (logs : List Log) (matches : List Erc20TransferEvent)
      → Succeeds (transfers abi ins logs matches) ↔ (
          All (λ log. TransferFits (decode_erc20_transfer_log abi log)) logs
          × (length matches
                + sum_of (λ log. transfer_count (decode_erc20_transfer_log abi log)) logs
              ≡ 1))
  unfolding transfers
  transfers-Succeeds [] matches =
      let (to, back) =
        only_match-Succeeds (transfer_event_missing, codes "transferEvent")
          (transfer_event_duplicate, codes "transferEvent") matches in
      (λ h. (tt, omega (arith, to h)), λ h. back (omega (arith, h.1)))
  transfers-Succeeds (log ∷ logs) matches =
      elim (Decoded-cases (decode_erc20_transfer_log abi log)) [
        | inl o ↦
            let (to, back) = transfers-Succeeds logs matches in
            rw (o, transfers, All, sum_of)
              (λ h. ((tt, (to h).0), omega (arith, to h)), λ h. back (h.0.1, omega (arith, h.1)))
        | inr (inl m) ↦ rw (m, transfers, All, sum_of) (λ h. absurd h, λ h. absurd h.0.0)
        | inr (inr (e, found)) ↦ elim (Bool-cases (e.token == ins.token_address)) [
          | inr elsewhere ↦
              let (to, back) = transfers-Succeeds logs matches in
              rw (found, transfers, All, sum_of, elsewhere)
                (
                  λ h. ((inl (ground arith), (to h).0), omega (arith, to h)),
                  λ h. back (h.0.1, omega (arith, h.1)),
                )
          | inl same ↦
              let (to, back) = transfers-Succeeds logs (matches ++ e ∷ []) in
              let longer = length-append matches (e ∷ []) in
              let fits = transfer_mismatch-false ins e in
              elim (Bool-cases (transfer_mismatch ins e)) [
                | inr fine ↦
                    rw (found, transfers, All, sum_of, same, fine)
                      (
                        λ h. ((inr (fits.0 fine), (to h).0), omega (arith, to h, longer)),
                        λ h. back (h.0.1, omega (arith, h.1, longer)),
                      )
                | inl wrong ↦
                    rw (found, transfers, All, sum_of, same, wrong)
                      (
                        λ h. absurd h,
                        λ h. elim h.0.0 [
                          | inl different ↦ absurd (different (ground arith))
                          | inr good ↦ cc (fits.1 good)
                        ],
                      )
              ]
        ]
      ]

  pub find_matching_vault_payout-Succeeds :
      (logs : List Log) → Succeeds (find_matching_vault_payout abi ins logs) ↔ HasOnePayout logs
  unfolding find_matching_vault_payout HasOnePayout
  find_matching_vault_payout-Succeeds logs =
      let (to, back) = payouts-Succeeds logs [] in
      (λ h. ((to h).0, omega (arith, to h)), λ h. back (h.0, omega (arith, h.1)))

  pub find_matching_erc20_transfer-Succeeds :
      (logs : List Log) → Succeeds (find_matching_erc20_transfer abi ins logs) ↔ HasOneTransfer logs
  unfolding find_matching_erc20_transfer HasOneTransfer
  find_matching_erc20_transfer-Succeeds logs =
      let (to, back) = transfers-Succeeds logs [] in
      (λ h. ((to h).0, omega (arith, to h)), λ h. back (h.0, omega (arith, h.1)))
