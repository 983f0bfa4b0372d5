-- ===== src/Transactions/Policy/Tests.antt =====
-- The BSC policy of the source on concrete inputs. The EVM functions are stand-ins: an address is
-- printed as one byte, and every packing hashes to 7.
use chainfx_payment_core.Common.{◌≡◌, ◌↔◌, refl, true, false, [], ◌∷◌, none, some, ok, arith}
use chainfx_payment_core.Common.Int.{pos, ◌+ℤ◌}
use chainfx_payment_core.Common.Text.{codes, text_eq, trim_space, to_upper}
use chainfx_payment_core.Transactions.{normalize_network, one_of}
use chainfx_payment_core.Transactions.Policy.{
  SettlementPolicy, SettlementValidationInput, SettlementInstruction, validate, above_max_transfer,
  quote_expired, member, text_member, normalize_risk_decision,
}
use chainfx_payment_core.Transactions.Policy.Admissible.{IsAdmissible, validate-IsAdmissible}
use chainfx_payment_core.Transactions.Policy.Validator.{
  Evm, Policies, find_policy, build_instruction,
}
use chainfx_payment_core.Transactions.Policy.Validator.Sound.{EvmLaws, build_instruction_complete}

abbrev evm : Evm
evm = record {
  to_hex = λ a. a ∷ [];
  is_hex_address = λ s. true;
  hex_to_address = λ s. 5;
  hex_to_hash = λ s. 6;
  pack_operation = λ a b c d e f. some [];
  keccak256 = λ s. 7;
}

evm-EvmLaws : EvmLaws evm
evm-EvmLaws = record { prints_addresses = λ a. refl; packs = λ a b c d e f. cc }

abbrev policy : SettlementPolicy
policy = record {
  version = [];
  network_policy = codes "bsc-usdt-v1";
  risk_policy = codes "retail-buy-v2";
  contract_version = codes "treasury-v1.1.0";
  network = codes " bep20";
  chain_id = 56;
  vault = 11;
  allowed_tokens = (12, true) ∷ [];
  blocked_recipients = (13, true) ∷ [];
  max_transfer_raw = some (pos 1000);
  daily_limit_raw = some (pos 1500);
  require_risk_approve = true;
  liquidatable_states = (codes "PAYMENT_CONFIRMED", true) ∷ [];
  quote_max_age = pos 600;
  instruction_ttl = pos 0;
}

abbrev input : SettlementValidationInput
input = record {
  settlement_intent_id = codes "intent-1";
  order_id = codes " order ";
  side = codes "BUY";
  network = codes "bnb";
  chain_id = 56;
  vault = 11;
  token = 12;
  recipient = 14;
  amount_raw = some (pos 900);
  source_channel = codes "mobile";
  risk_decision = codes "approved";
  intent_status = codes "PAYMENT_CONFIRMED";
  quote_created_at = 1000;
  now = 1600;
  operation_used = false;
  treasury_balance_raw = some (pos 900);
  daily_spent_raw = some (pos 600);
}

abbrev stored : Policies
stored =
    (
      codes "BSC",
      record policy {
        version = codes "settlement-policy-v1.0.0";
        network = codes "BSC";
        instruction_ttl = pos 600_000_000_000;
      },
    )
    ∷ []

abbrev stored_policy : SettlementPolicy
stored_policy = record policy {
  version = codes "settlement-policy-v1.0.0";
  network = codes "BSC";
  instruction_ttl = pos 600_000_000_000;
}

late_quote : validate stored_policy input 1601 ≡ some quote_expired
unfolding validate normalize_network normalize_risk_decision member text_member ◌+ℤ◌ text_eq
    trim_space to_upper one_of
late_quote = refl

too_much :
    validate stored_policy (record input { amount_raw = some (pos 1001) }) 1600
    ≡ some above_max_transfer
unfolding validate normalize_network normalize_risk_decision member text_member ◌+ℤ◌ text_eq
    trim_space to_upper one_of
too_much = refl

validate-IsAdmissible_example :
    (validate stored_policy input 1600 ≡ none) ↔ IsAdmissible stored_policy input 1600
validate-IsAdmissible_example = validate-IsAdmissible stored_policy input 1600

accepted : validate stored_policy input 1600 ≡ none
unfolding validate normalize_network normalize_risk_decision member text_member ◌+ℤ◌ text_eq
    trim_space to_upper one_of
accepted = refl

found : find_policy stored (normalize_network (codes "bnb")) ≡ some stored_policy
unfolding find_policy normalize_network text_eq trim_space to_upper one_of
found = refl

build_instruction_complete_example :
    (ins : SettlementInstruction) × (build_instruction evm 0 stored input ≡ ok ins)
build_instruction_complete_example =
    build_instruction_complete evm evm-EvmLaws 0 stored input stored_policy found (omega arith)
      (omega arith) ((validate-IsAdmissible stored_policy input 1600).0 accepted)
