-- ===== src/Paymaster/Multicall/Tests.antt =====
-- Runs of the batch call of internal/paymaster/batcher.go.
use chainfx_payment_core.Common.{
  ℕ, ◌+◌, ◌*◌, ◌^◌, ◌≡◌, refl, Bool, true, false, List, [], ◌∷◌, Option, none, some, arith,
  replicate,
}
use chainfx_payment_core.Common.Int.{pos, ◌+ℤ◌}
use chainfx_payment_core.Common.Text.{
  Text, codes, text_eq, trim_space, to_upper, to_lower, has_prefix,
}
use chainfx_payment_core.Paymaster.Relay.{RelayJob}
use chainfx_payment_core.Paymaster.Amounts.{
  token_decimals_for_network, TokenRelayer, plan, has_fee_destination, micro_usdt_to_string,
  decimal_to_token_units,
}
use chainfx_payment_core.Paymaster.Multicall.{
  SignerContractCallPayload, build_multicall_payload, is_hex_address_string, fits_batch, all_fit,
  can_multicall, legs_of, fee_calls, job_calls, build_calls, transfer_call,
}
use chainfx_payment_core.Resilience.Retry.{execute_with_retry}
use chainfx_payment_core.Paymaster.Batcher.{Transfer}
use chainfx_payment_core.Paymaster.Batcher.Legs.{Ledger, noted, rested, reports}
use chainfx_payment_core.Paymaster.Multicall.Dispatch.{
  together, give_up, dispatch_multicall_batch, dispatch_batch,
}
use chainfx_payment_core.Paymaster.Multicall.Settles.{
  Book, batch_dispatched, BatchSettled, dispatch_batch-BatchSettled,
}
use chainfx_payment_core.Paymaster.Multicall.Calldata.{nibble, decode_hex, is_hex, address_word}
use chainfx_payment_core.Paymaster.Multicall.Encode.{Multicall3Call}
use chainfx_payment_core.Paymaster.Multicall.Conserves.{transferred, total_of, delivered}
use chainfx_payment_core.Paymaster.Multicall.Batch.{sum_of, InRange, build_calls-transferred}

abbrev token : Text
token = codes "0x55d398326f99059ff775485246999027b3197955"

abbrev alice : Text
alice = codes "0x1111111111111111111111111111111111111111"

abbrev wallet : Text
wallet = codes "0x2222222222222222222222222222222222222222"

abbrev job : Text → RelayJob
job amount = record {
  relay_id = codes "rl_1";
  to = alice;
  amount = amount;
  token = token;
  network = codes "bsc";
}

abbrev jobs : List RelayJob
jobs = job (codes "100") ∷ job (codes "2.5") ∷ []

abbrev relayer : TokenRelayer
relayer = record { spread_bps = 100; hot_wallet = wallet }

abbrev calls : List Multicall3Call
calls =
    transfer_call token alice (99 * 10 ^ 18)
    ∷ transfer_call token wallet (10 ^ 18)
    ∷ transfer_call token alice (2_475_000 * 10 ^ 12)
    ∷ transfer_call token wallet (25_000 * 10 ^ 12)
    ∷ []

fit_lem : can_multicall wallet jobs ≡ true
unfolding can_multicall all_fit fits_batch is_hex_address_string is_hex trim_space to_upper to_lower
    text_eq has_prefix
fit_lem = refl

fits : all_fit (codes "BSC") token jobs ≡ true
unfolding all_fit fits_batch is_hex_address_string is_hex trim_space to_upper to_lower text_eq
    has_prefix
fits = refl

built_lem : build_calls (some relayer) token 18 jobs ≡ some (calls, pos 102_500_000)
unfolding build_calls job_calls fee_calls legs_of plan has_fee_destination micro_usdt_to_string
    decimal_to_token_units trim_space text_eq ◌+ℤ◌
built_lem = refl

in_range : InRange relayer 12 jobs
unfolding total_of plan trim_space
in_range = ground arith

build_calls-transferred_example : transferred calls ≡ sum_of (delivered relayer) jobs * 10 ^ 12
build_calls-transferred_example =
    build_calls-transferred relayer token 12 (omega arith) (omega arith) (codes "BSC") token jobs
      (calls, pos 102_500_000) fits in_range built_lem

delivered_lem : sum_of (delivered relayer) jobs ≡ 102_500_000
unfolding sum_of delivered plan trim_space has_fee_destination
delivered_lem = refl

-- Without a wallet for the fee the destination still gets the net amount only.
no_wallet_lem : sum_of (delivered (record { spread_bps = 100; hot_wallet = [] })) jobs ≡ 101_475_000
unfolding sum_of delivered plan trim_space has_fee_destination
no_wallet_lem = refl

abbrev first_call : Multicall3Call
first_call = record { target = token; allow_failure = false; call_data = 1 ∷ 2 ∷ 3 ∷ [] }

abbrev second : Multicall3Call
second = record { target = alice; allow_failure = true; call_data = 4 ∷ [] }

-- A destination with a space in front passes the test, and is the zero address in the calldata.
spaced_lem : is_hex_address_string (b' ' ∷ alice) ≡ true
unfolding is_hex_address_string is_hex trim_space has_prefix
spaced_lem = refl

spaced_word_lem : address_word (b' ' ∷ alice) ≡ replicate 32 0
unfolding address_word decode_hex nibble has_prefix
spaced_word_lem = refl

-- A signer that accepts every transfer and refuses every contract call; the state counts its calls.
abbrev accepts_transfer : Transfer → ℕ → Option Bool × ℕ
accepts_transfer t n = (none, n + 1)

abbrev refuses_call : SignerContractCallPayload → ℕ → Option Bool × ℕ
refuses_call p n = (some true, n + 1)

abbrev no_wait : ℕ → ℕ → Option Bool × ℕ
no_wait attempt n = (none, n)

abbrev never : Bool → Bool
never e = false

abbrev before : Ledger (Book ℕ)
before = record { world = record { outside = 0; calls = [] }; accepted = []; reported = [] }

-- The ledger of each goroutine.
abbrev view : ℕ → Ledger (Book ℕ)
view i = before

refused_lem :
    batch_dispatched accepts_transfer refuses_call no_wait never
      (some relayer)
      wallet
      view
      jobs
      before
    ≡ together (record {
      world = record { outside = 4; calls = [] };
      accepted = [];
      reported = codes "rl_1" ∷ codes "rl_1" ∷ [];
    })
unfolding batch_dispatched dispatch_batch dispatch_multicall_batch give_up execute_with_retry noted
    rested reports build_multicall_payload build_calls job_calls fee_calls legs_of plan
    has_fee_destination micro_usdt_to_string decimal_to_token_units token_decimals_for_network
    trim_space to_upper text_eq ◌+ℤ◌ can_multicall all_fit fits_batch is_hex_address_string is_hex
    to_lower has_prefix
refused_lem = refl

dispatch_batch-BatchSettled_example :
    BatchSettled accepts_transfer refuses_call no_wait never
      (some relayer)
      wallet
      view
      jobs
      before
      (batch_dispatched accepts_transfer refuses_call no_wait never
        (some relayer)
        wallet
        view
        jobs
        before)
dispatch_batch-BatchSettled_example =
    dispatch_batch-BatchSettled accepts_transfer refuses_call no_wait never (some relayer) wallet
      view jobs before
