-- ===== src/Paymaster/Multicall/Dispatch.antt =====
-- internal/paymaster/batcher.go: how a batch goes out. The calls of the signer, the wait of the retry
-- loop and the callback are parameters over a state of the world. The jobs that go out in goroutines,
-- three at a time, each have their own view of it.
use chainfx_payment_core.Common.{
  ℕ, Bool, not, ◌&&◌, List, [], ◌∷◌, Option, none, some, if◌then◌else◌, ltb, length,
}
use chainfx_payment_core.Common.Int.{pos}
use chainfx_payment_core.Common.Text.{Text, is_empty}
use chainfx_payment_core.Resilience.Retry.{execute_with_retry}
use chainfx_payment_core.Paymaster.Relay.{RelayJob}
use chainfx_payment_core.Paymaster.Amounts.{TokenRelayer}
use chainfx_payment_core.Paymaster.Batcher.{Transfer, dispatch_each, dispatch_apart}
use chainfx_payment_core.Paymaster.Multicall.{
  SignerContractCallPayload, can_multicall, build_multicall_payload,
}

-- What is left of the world: by one sequence of calls, or by the goroutine of each job.
pub data Dispatched (S : Type 0) : Type 0 where
  together : S → Dispatched S
  apart : List S → Dispatched S

module _ {E S : Type 0} (signer_transfer : Transfer → S → Option E × S)
    (signer_contract_call : SignerContractCallPayload → S → Option E × S)
    (wait : ℕ → S → Option E × S) (wraps_non_retryable : E → Bool) (retry_fn : Text → S → S) where
  -- Every job of a call that fails is given up.
  unfoldable pub give_up : List RelayJob → S → S
  give_up [] s = s
  give_up (job ∷ jobs) s = give_up jobs (retry_fn job.relay_id s)

  unfoldable pub dispatch_multicall_batch : Option TokenRelayer → Text → List RelayJob → S → S
  dispatch_multicall_batch relayer multicall batch s =
      elim (build_multicall_payload relayer multicall batch) [
        | none ↦ dispatch_each signer_transfer wait wraps_non_retryable retry_fn relayer batch s
        | some payload ↦
            let (e, s') =
              execute_with_retry (pos 4) wraps_non_retryable
                (record {
                  operation = signer_contract_call payload;
                  context_error = λ _. none;
                  wait = wait;
                })
                s in
            elim e [ none ↦ s' | some _ ↦ give_up batch s' ]
      ]

  unfoldable pub dispatch_batch :
      Option TokenRelayer → Text → (ℕ → S) → List RelayJob → S → Dispatched S
  dispatch_batch relayer multicall view batch s =
      if not (ltb (length batch) 2) && not (is_empty multicall) && can_multicall multicall batch
      then together (dispatch_multicall_batch relayer multicall batch s)
      else apart
          (dispatch_apart signer_transfer wait wraps_non_retryable retry_fn relayer view 0 batch)
