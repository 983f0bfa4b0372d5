-- ===== src/Transactions/Policy/Validator.antt =====
-- internal/transactions: NewSettlementPolicyValidator, BuildInstruction and the policy of BSC
-- (settlement_policy.go), SettlementOperationID (contracts.go). The validator's map is a list with
-- the latest entry first.
pub mod Sound
use chainfx_payment_core.Common.{
  ℕ, ◌≡◌, Bool, true, false, List, [], ◌∷◌, Option, none, some, Result, ok, err, ◌==◌, ◌&&◌, not,
  length, ◌||◌, if◌then◌else◌, ◌>>=◌, ◌^◌, ◌%◌,
}
use chainfx_payment_core.Common.Int.{ℤ, pos, ltb_ℤ}
use chainfx_payment_core.Common.Text.{
  Text, codes, text_eq, is_empty, trim_space, to_lower, has_prefix,
}
use chainfx_payment_core.Common.Int64.{from_bits}
use chainfx_payment_core.Transactions.{normalize_network}
use chainfx_payment_core.Transactions.Policy.{
  SettlementPolicy, SettlementValidationInput, SettlementInstruction, PolicyError, network_required,
  chain_id_required, vault_required, token_list_required, network_not_enabled,
  chain_id_not_positive, bad_vault_address, bad_token_address, bad_recipient_address, pack_failed,
  amount_not_positive, is_none_left, or_zero, not_positive, add_time, validate,
  normalize_risk_decision, normalize_source_channel, first_error,
}

-- What go-ethereum computes: the text of an address, whether a text is an address, the number that
-- it spells, the hash that a text spells, ABI packing of the six words, and Keccak-256.
pub record Evm : Type 0 where
  pub to_hex : ℕ → Text
  pub is_hex_address : Text → Bool
  pub hex_to_address : Text → ℕ
  pub hex_to_hash : Text → ℕ
  pub pack_operation : ℤ → ℕ → ℕ → ℕ → ℕ → ℤ → Option Text
  pub keccak256 : Text → ℕ

abbrev pub Policies : Type 0
Policies = List (Text × SettlementPolicy)

unfoldable pub find_policy : Policies → Text → Option SettlementPolicy
find_policy [] k = none
find_policy ((j, p) ∷ m) k = if text_eq j k then some p else find_policy m k

abbrev pub or_text : Text → Text → Text
or_text s d = if is_empty s then d else s

-- The defaults that the constructor fills in.
pub with_defaults : Text → SettlementPolicy → SettlementPolicy
with_defaults network p = record p {
  version = or_text p.version (codes "settlement-policy-v1.0.0");
  contract_version = or_text p.contract_version (codes "treasury-v1.1.0");
  instruction_ttl =
      if ltb_ℤ (pos 0) p.instruction_ttl then p.instruction_ttl else pos 600_000_000_000;
  network = network;
}

policy_error : SettlementPolicy → Option PolicyError
unfolding first_error
policy_error p = first_error (
    (is_empty (normalize_network p.network), network_required)
    ∷ (p.chain_id == 0, chain_id_required)
    ∷ (p.vault == 0, vault_required)
    ∷ (is_none_left p.allowed_tokens, token_list_required)
    ∷ [])

-- The loop over the policies, on the map so far.
add_policies : List SettlementPolicy → Policies → Result PolicyError Policies
unfolding policy_error with_defaults
add_policies [] out = ok out
add_policies (p ∷ ps) out = elim (policy_error p) [
  | some e ↦ err e
  | none ↦
      let network = normalize_network p.network in
      add_policies ps ((network, with_defaults network p) ∷ out)
]

unfoldable pub new_settlement_policy_validator : List SettlementPolicy → Result PolicyError Policies
unfolding add_policies
new_settlement_policy_validator policies = add_policies policies []

-- `int64(policy.ChainID)` wraps: the id is an unsigned word.
abbrev pub signed_chain_id : ℕ → ℤ
signed_chain_id n = from_bits (n % 2 ^ 64)

-- The instruction of a valid input.
pub instruction : SettlementPolicy → SettlementValidationInput → ℕ → ℕ → SettlementInstruction
instruction p i now operation_id = record {
  operation_id = operation_id;
  settlement_intent_id = trim_space i.settlement_intent_id;
  order_id = trim_space i.order_id;
  side = i.side;
  network = p.network;
  chain_id = p.chain_id;
  vault = p.vault;
  token = i.token;
  recipient = i.recipient;
  amount_raw = or_zero i.amount_raw;
  source_channel = normalize_source_channel i.source_channel;
  risk_decision = normalize_risk_decision i.risk_decision;
  policy_version = p.version;
  network_policy = p.network_policy;
  risk_policy = p.risk_policy;
  contract_version = p.contract_version;
  created_at = now;
  expires_at = add_time now p.instruction_ttl;
}

module _ (evm : Evm) where
  -- The 32 bytes of an identifier: as they are written, or hashed.
  pub settlement_intent_hash : Text → ℕ
  settlement_intent_hash id =
      let s = trim_space id in
      if length s == 66 && has_prefix (to_lower s) (codes "0x")
      then evm.hex_to_hash s
      else evm.keccak256 s

  pub settlement_operation_id : ℤ → Text → Text → Text → Text → Option ℤ → Result PolicyError ℕ
  unfolding settlement_intent_hash first_error
  settlement_operation_id chain_id vault intent_id token recipient amount =
      elim (first_error (
        (not (ltb_ℤ (pos 0) chain_id), chain_id_not_positive)
        ∷ (not (evm.is_hex_address vault), bad_vault_address)
        ∷ (not (evm.is_hex_address token), bad_token_address)
        ∷ (not (evm.is_hex_address recipient), bad_recipient_address)
        ∷ (not_positive amount, amount_not_positive)
        ∷ [])) [
          | some e ↦ err e
          | none ↦
              elim (evm.pack_operation chain_id (evm.hex_to_address vault)
                (settlement_intent_hash intent_id) (evm.hex_to_address token)
                (evm.hex_to_address recipient) (or_zero amount)) [
                  | none ↦ err pack_failed
                  | some encoded ↦ ok (evm.keccak256 encoded)
                ]
        ]

  -- BuildInstruction on a validator; `clock` is the time of day, read if the input has no time.
  unfoldable pub build_instruction :
      ℕ → Policies → SettlementValidationInput → Result PolicyError SettlementInstruction
  unfolding find_policy validate settlement_operation_id instruction
  build_instruction clock v i =
      let now = if i.now == 0 then clock else i.now in
      elim (find_policy v (normalize_network i.network)) [
        | none ↦ err network_not_enabled
        | some p ↦ elim (validate p i now) [
          | some e ↦ err e
          | none ↦
              settlement_operation_id (signed_chain_id p.chain_id) (evm.to_hex p.vault)
                i.settlement_intent_id (evm.to_hex i.token) (evm.to_hex i.recipient) i.amount_raw
              >>= λ id. ok (instruction p i now id)
        ]
      ]

  -- DefaultBSCUSDTSettlementPolicy; `cloneBig` copies a number that nothing here mutates.
  pub default_bsc_usdt_settlement_policy :
      Text → Text → Option ℤ → Option ℤ → Result PolicyError SettlementPolicy
  default_bsc_usdt_settlement_policy vault token max_transfer daily_limit =
      if not (evm.is_hex_address vault)
      then err bad_vault_address
      else if not (evm.is_hex_address token)
      then err bad_token_address
      else ok (record {
        version = codes "settlement-policy-v1.0.0";
        network_policy = codes "bsc-usdt-v1";
        risk_policy = codes "retail-buy-v2";
        contract_version = codes "treasury-v1.1.0";
        network = codes "BSC";
        chain_id = 56;
        vault = evm.hex_to_address vault;
        allowed_tokens = (evm.hex_to_address token, true) ∷ [];
        blocked_recipients = [];
        max_transfer_raw = max_transfer;
        daily_limit_raw = daily_limit;
        require_risk_approve = true;
        liquidatable_states =
            (codes "PAYMENT_CONFIRMED", true)
            ∷ (codes "COMPLIANCE_APPROVED", true)
            ∷ (codes "SETTLEMENT_PENDING", true)
            ∷ [];
        quote_max_age = pos 600_000_000_000;
        instruction_ttl = pos 600_000_000_000;
      })
