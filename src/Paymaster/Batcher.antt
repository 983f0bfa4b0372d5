-- ===== src/Paymaster/Batcher.antt =====
-- internal/paymaster/batcher.go: the legs of a relay and their dispatch. The
-- signer, the wait of the retry loop and the callback for a relay that is given up are parameters
-- over a state of the world. The batch that goes out as one contract call is in Multicall.antt.
pub mod Legs
mod Tests
use chainfx_payment_core.Common.{
  ℕ, suc, ◌+◌, Bool, true, false, not, ◌&&◌, ◌||◌, List, [], ◌∷◌, ◌++◌, Option, none, some,
  if◌then◌else◌, ltb, leb, ◌==◌, length,
}
use chainfx_payment_core.Common.Int.{pos}
use chainfx_payment_core.Common.Text.{Text, codes, is_empty, text_eq}
use chainfx_payment_core.Resilience.Retry.{World, execute_with_retry}
use chainfx_payment_core.Paymaster.Relay.{RelayJob}
use chainfx_payment_core.Paymaster.Amounts.{
  TokenRelayer, RelayPlan, plan, has_fee_destination, micro_usdt_to_string,
}

-- signerTransferPayload; the derivation index is always 0.
pub record Transfer : Type 0 where
  pub to : Text
  pub amount : Text
  pub token_contract : Text
  pub network : Text
  pub idempotency_key : Text

-- The amount of the net leg, and that of the fee leg, which is empty when there is none.
abbrev pub fee_text : TokenRelayer → RelayPlan → Text
fee_text tr p =
    if has_fee_destination tr && ltb 0 p.fee_micro
    then micro_usdt_to_string (pos p.fee_micro)
    else []

unfoldable pub split : Option TokenRelayer → Text → Text × Text
unfolding plan has_fee_destination micro_usdt_to_string text_eq
split none amount = (amount, [])
split (some tr) amount =
    if is_empty amount || text_eq amount (codes "0") then (amount, []) else elim (plan tr amount) [
      | none ↦ (amount, [])
      | some p ↦ (micro_usdt_to_string p.net_micro, fee_text tr p)
    ]

-- `rb.relayer.FeeDestination()`
abbrev pub fee_destination : Option TokenRelayer → Text
fee_destination none = []
fee_destination (some tr) = tr.hot_wallet

pub net_leg : Option TokenRelayer → RelayJob → Transfer
unfolding split
net_leg relayer job = record {
  to = job.to;
  amount = (split relayer job.amount).0;
  token_contract = job.token;
  network = job.network;
  idempotency_key = job.relay_id;
}

pub fee_leg : Option TokenRelayer → RelayJob → Transfer
unfolding split
fee_leg relayer job = record {
  to = fee_destination relayer;
  amount = (split relayer job.amount).1;
  token_contract = job.token;
  network = job.network;
  idempotency_key = job.relay_id ++ codes "_fee";
}

module _ {E S : Type 0} (signer_transfer : Transfer → S → Option E × S)
    (wait : ℕ → S → Option E × S) (wraps_non_retryable : E → Bool) (retry_fn : Text → S → S) where
  -- ExecuteWithRetry with the default configuration of four attempts.
  pub send : Transfer → S → Option E × S
  send t s =
      execute_with_retry (pos 4) wraps_non_retryable
        (record { operation = signer_transfer t; context_error = λ _. none; wait = wait }) s

  -- The leg that follows the net leg, if a fee was planned.
  pub dispatch_fee : Option TokenRelayer → RelayJob → S → S
  unfolding split
  dispatch_fee relayer job s =
      let (e, s') = send (fee_leg relayer job) s in
      if is_empty (split relayer job.amount).1
      then s
      else elim e [ none ↦ s' | some _ ↦ retry_fn job.relay_id s' ]

  unfoldable pub dispatch_one : Option TokenRelayer → RelayJob → S → S
  dispatch_one relayer job s =
      let (e, s') = send (net_leg relayer job) s in
      elim e [ none ↦ dispatch_fee relayer job s' | some _ ↦ retry_fn job.relay_id s' ]

  -- The goroutines of the jobs of a batch that is not to go out as one call, from the `i`-th job on. A
  -- goroutine starts from its view of the world; since the signer, the wait and the callback are any
  -- functions of it, what the others do in between is part of what they answer.
  unfoldable pub dispatch_apart : Option TokenRelayer → (ℕ → S) → ℕ → List RelayJob → List S
  dispatch_apart relayer view i [] = []
  dispatch_apart relayer view i (job ∷ jobs) =
      dispatch_one relayer job (view i) ∷ dispatch_apart relayer view (suc i) jobs

  -- The loop over the jobs of a batch whose call cannot be built: one after the other.
  unfoldable pub dispatch_each : Option TokenRelayer → List RelayJob → S → S
  unfolding dispatch_one
  dispatch_each relayer [] s = s
  dispatch_each relayer (job ∷ jobs) s = dispatch_each relayer jobs (dispatch_one relayer job s)
