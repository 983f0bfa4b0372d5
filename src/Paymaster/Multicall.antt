-- ===== src/Paymaster/Multicall.antt =====
-- internal/paymaster/batcher.go: the batch of relays that goes out as one contract call. Bytes are
-- numbers below 256.
pub mod Calldata
pub mod Encode
pub mod Amount
pub mod Conserves
pub mod Batch
pub mod Layout
pub mod Offsets
pub mod Dispatch
pub mod Settles
mod Tests
use chainfx_payment_core.Common.{
  ℕ, zero, suc, ◌+◌, ◌*◌, Bool, true, false, not, ◌&&◌, ◌||◌, List, [], ◌∷◌, ◌++◌, Option, none,
  some, if◌then◌else◌, ltb, ◌==◌, length, drop,
}
use chainfx_payment_core.Common.Int.{ℤ, pos, pos_part, ◌+ℤ◌, ltb_ℤ}
use chainfx_payment_core.Common.Text.{
  Text, codes, is_empty, text_eq, trim_space, to_upper, to_lower, has_prefix,
}
use chainfx_payment_core.Common.Digits.{to_digits}
use chainfx_payment_core.Paymaster.Relay.{RelayJob}
use chainfx_payment_core.Paymaster.Amounts.{
  TokenRelayer, RelayPlan, plan, has_fee_destination, micro_usdt_to_string, decimal_to_token_units,
  token_decimals_for_network, token_units_to_decimal,
}
use chainfx_payment_core.Paymaster.Batcher.{fee_text, fee_destination}
use chainfx_payment_core.Paymaster.Multicall.Calldata.{is_hex, encode_erc20_transfer}
use chainfx_payment_core.Paymaster.Multicall.Encode.{Multicall3Call, encode_multicall3}

pub is_hex_address_string : Text → Bool
is_hex_address_string value =
    let s = trim_space value in length s == 42 && has_prefix s (codes "0x") && is_hex (drop 2 s)

-- The test of one job against the network and the token of the first.
pub fits_batch : Text → Text → RelayJob → Bool
fits_batch network token job =
    text_eq (to_upper (trim_space job.network)) network
    && text_eq (to_lower (trim_space job.token)) token
    && is_hex_address_string job.to
    && not (is_empty (trim_space job.amount) || text_eq (trim_space job.amount) (codes "0"))

pub all_fit : Text → Text → List RelayJob → Bool
all_fit network token [] = true
all_fit network token (job ∷ jobs) = fits_batch network token job && all_fit network token jobs

pub can_multicall : Text → List RelayJob → Bool
can_multicall multicall [] = false
can_multicall multicall (job ∷ jobs) =
    let network = to_upper (trim_space job.network) in
    let token = to_lower (trim_space job.token) in
    not (ltb (length (job ∷ jobs)) 2)
    && not (is_empty (trim_space multicall))
    && not (is_empty network)
    && not (is_empty token)
    && is_hex_address_string token
    && is_hex_address_string multicall
    && all_fit network token (job ∷ jobs)

-- The amounts of a job's legs, with the fee empty when there is none; an amount that no plan is made
-- for is an error here.
pub legs_of : Option TokenRelayer → Text → Option (Text × Text)
legs_of none amount = some (amount, [])
legs_of (some tr) amount =
    if is_empty amount || text_eq amount (codes "0")
    then some (amount, [])
    else elim (plan tr amount) [
      | none ↦ none
      | some p ↦ some (micro_usdt_to_string p.net_micro, fee_text tr p)
    ]

abbrev transfer_call : Text → Text → ℕ → Multicall3Call
transfer_call token to units = record {
  target = token;
  allow_failure = false;
  call_data = encode_erc20_transfer to (to_digits 256 units);
}

-- The call for the fee, if there is one.
pub fee_calls : Text → ℕ → Text → Text → Option (List Multicall3Call)
fee_calls token decimals to fee_amount =
    if is_empty fee_amount then some [] else elim (decimal_to_token_units fee_amount decimals) [
      | none ↦ none
      | some units ↦
          some (if ltb_ℤ (pos 0) units then transfer_call token to (pos_part units) ∷ [] else [])
    ]

-- The calls for one job, and the amount that is added to the audit.
pub job_calls : Option TokenRelayer → Text → ℕ → RelayJob → Option (List Multicall3Call × ℤ)
job_calls relayer token decimals job = elim (legs_of relayer (trim_space job.amount)) [
  | none ↦ none
  | some (net_amount, fee_amount) ↦ elim (decimal_to_token_units net_amount decimals) [
    | none ↦ none
    | some net_units ↦
        if not (ltb_ℤ (pos 0) net_units) then none else elim (decimal_to_token_units job.amount 6) [
          | none ↦ none
          | some audit ↦ elim (fee_calls token decimals (fee_destination relayer) fee_amount) [
            | none ↦ none
            | some fees ↦ some (transfer_call token job.to (pos_part net_units) ∷ fees, audit)
          ]
        ]
  ]
]

pub build_calls : Option TokenRelayer → Text → ℕ → List RelayJob → Option (List Multicall3Call × ℤ)
build_calls relayer token decimals [] = some ([], pos 0)
build_calls relayer token decimals (job ∷ jobs) = elim (job_calls relayer token decimals job) [
  | none ↦ none
  | some (calls, audit) ↦ elim (build_calls relayer token decimals jobs) [
    | none ↦ none
    | some (more, total) ↦ some (calls ++ more, audit +ℤ total)
  ]
]

-- strings.Join(ids, "_")
pub join_ids : List RelayJob → Text
join_ids [] = []
join_ids (job ∷ []) = job.relay_id
join_ids (job ∷ next ∷ jobs) = job.relay_id ++ codes "_" ++ join_ids (next ∷ jobs)

-- The calldata stands as bytes here, and as hexadecimal digits behind "0x" in the request.
pub record SignerContractCallPayload : Type 0 where
  pub to : Text
  pub call_data : List ℕ
  pub network : Text
  pub idempotency_key : Text
  pub amount : Text
  pub token_contract : Text

pub build_multicall_payload :
    Option TokenRelayer → Text → List RelayJob → Option SignerContractCallPayload
build_multicall_payload relayer multicall [] = none
build_multicall_payload relayer multicall (job ∷ []) = none
build_multicall_payload relayer multicall (job ∷ next ∷ jobs) =
    let batch = job ∷ next ∷ jobs in
    let network = to_upper (trim_space job.network) in
    let token = trim_space job.token in
    elim (build_calls relayer token (token_decimals_for_network network) batch) [
      | none ↦ none
      | some (calls, total) ↦ some (record {
        to = to_lower (trim_space multicall);
        call_data = encode_multicall3 calls;
        network = network;
        idempotency_key = codes "multicall_" ++ join_ids batch;
        amount = token_units_to_decimal total 6;
        token_contract = token;
      })
    ]
