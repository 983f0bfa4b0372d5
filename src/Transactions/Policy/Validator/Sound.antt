-- ===== src/Transactions/Policy/Validator/Sound.antt =====
-- What a validator holds, and which instructions it builds.
use chainfx_payment_core.Common.{
  ℕ, ◌<◌, ◌≡◌, ◌≢◌, inl, inr, refl, true, false, List, [], ◌∷◌, Option, none, some, ok, err, arith,
  ◌==◌, Option-cases, if◌then◌else◌, ◌^◌,
}
use mathlib.Core.Path.{subst}
use chainfx_payment_core.Common.Int.{ℤ, pos, ◌≤ℤ◌}
use chainfx_payment_core.Common.Text.{Text, All, is_empty}
use chainfx_payment_core.Transactions.{normalize_network, normalize_network-ne-nil}
use chainfx_payment_core.Transactions.Policy.{
  SettlementPolicy, SettlementValidationInput, SettlementInstruction, network_required,
}
use chainfx_payment_core.Transactions.Policy.Admissible.{
  IsAdmissible, IsPositive, validate-IsAdmissible,
}
use chainfx_payment_core.Transactions.Policy.Validator.{
  Evm, Policies, find_policy, with_defaults, policy_error, add_policies, or_text,
  new_settlement_policy_validator, settlement_operation_id, settlement_intent_hash, signed_chain_id,
  instruction, build_instruction,
}

-- What the constructor makes of a policy that it accepts.
pub record IsConfigured (network : Text) (p : SettlementPolicy) : Type 0 where
  pub named : is_empty network ≡ false
  pub under_its_name : p.network ≡ network
  pub has_chain : p.chain_id ≢ 0
  pub has_vault : p.vault ≢ 0
  pub has_tokens : p.allowed_tokens ≢ []
  pub has_version : is_empty p.version ≡ false
  pub has_contract_version : is_empty p.contract_version ≡ false
  pub lives : pos 1 ≤ℤ p.instruction_ttl

abbrev pub AllConfigured : Policies → Type 0
AllConfigured = All (λ e. IsConfigured e.0 e.1)

or_text-ne-nil : (s d : Text) → is_empty d ≡ false → is_empty (or_text s d) ≡ false
or_text-ne-nil [] d h = h
or_text-ne-nil (c ∷ s) d h = refl

with_defaults-IsConfigured :
    (p : SettlementPolicy)
    → policy_error p ≡ none
    → IsConfigured (normalize_network p.network) (with_defaults (normalize_network p.network) p)
unfolding policy_error with_defaults
with_defaults-IsConfigured p h = record {
  named = normalize_network-ne-nil p.network;
  under_its_name = refl;
  has_chain = ground arith;
  has_vault = ground arith;
  has_tokens = ground arith;
  has_version = or_text-ne-nil p.version _ refl;
  has_contract_version = or_text-ne-nil p.contract_version _ refl;
  lives = ground arith;
}

add_policies-AllConfigured :
    (ps : List SettlementPolicy) (out : Policies) {v : Policies}
    → AllConfigured out
    → add_policies ps out ≡ ok v
    → AllConfigured v
unfolding add_policies
add_policies-AllConfigured [] out h e = subst AllConfigured (cc) h
add_policies-AllConfigured (p ∷ ps) out h e = elim (Option-cases (policy_error p)) [
  | inl fine ↦
      add_policies-AllConfigured ps _ (with_defaults-IsConfigured p fine, h)
        (rw (fine, add_policies) at e)
  | inr (x, bad) ↦ ground (arith, bad)
]

-- Every policy of a validator is under the normalised name of its network, which is not empty, has a
-- chain, a vault, a token and both versions, and gives its instructions a positive life.
pub validator-AllConfigured :
    (policies : List SettlementPolicy) (v : Policies)
    → new_settlement_policy_validator policies ≡ ok v
    → AllConfigured v
unfolding new_settlement_policy_validator
validator-AllConfigured policies v e = add_policies-AllConfigured policies [] tt e

policy_error-ne : (p : SettlementPolicy) → policy_error p ≢ some network_required
unfolding policy_error
policy_error-ne p = ground (arith, normalize_network-ne-nil p.network)

add_policies-ne :
    (ps : List SettlementPolicy) (out : Policies) → add_policies ps out ≢ err network_required
unfolding add_policies
add_policies-ne [] out = cc
add_policies-ne (p ∷ ps) out = elim (Option-cases (policy_error p)) [
  | inl fine ↦ ground (
    arith,
    fine,
    add_policies-ne ps
        ((normalize_network p.network, with_defaults (normalize_network p.network) p) ∷ out),
  )
  | inr (x, bad) ↦ ground (arith, bad, policy_error-ne p)
]

-- No list of policies is refused for a missing network: the empty name stands for BSC.
pub network_required_unreachable :
    (policies : List SettlementPolicy)
    → new_settlement_policy_validator policies ≢ err network_required
unfolding new_settlement_policy_validator
network_required_unreachable policies = add_policies-ne policies []

abbrev pub instant : ℕ → SettlementValidationInput → ℕ
instant clock i = if i.now == 0 then clock else i.now

-- What go-ethereum documents: the text that it prints for an address is one, and the six words,
-- which have the Go types that their ABI types ask for, are packed.
pub record EvmLaws (evm : Evm) : Type 0 where
  pub prints_addresses : (a : ℕ) → evm.is_hex_address (evm.to_hex a) ≡ true
  pub packs :
      (chain : ℤ) (vault intent token recipient : ℕ) (amount : ℤ)
      → evm.pack_operation chain vault intent token recipient amount ≢ none

module _ (evm : Evm) (laws : EvmLaws evm) where
  settlement_operation_id-total :
      (chain : ℤ) (vault token recipient : ℕ) (intent : Text) (amount : Option ℤ)
      → pos 1 ≤ℤ chain
      → IsPositive amount
      → (id : ℕ) × (settlement_operation_id evm chain
            (evm.to_hex vault)
            intent
            (evm.to_hex token)
            (evm.to_hex recipient)
            amount
          ≡ ok id)
  unfolding settlement_operation_id
  settlement_operation_id-total chain vault token recipient intent none h p = absurd p
  settlement_operation_id-total chain vault token recipient intent (some a) h p =
      let packed =
        evm.pack_operation chain (evm.hex_to_address (evm.to_hex vault))
          (settlement_intent_hash evm intent) (evm.hex_to_address (evm.to_hex token))
          (evm.hex_to_address (evm.to_hex recipient)) a in
      elim (Option-cases packed) [
        | inl refused ↦ absurd (laws.packs _ _ _ _ _ _ refused)
        | inr (encoded, e) ↦ (
          evm.keccak256 encoded,
          ground (
            arith,
            e,
            laws.prints_addresses vault,
            laws.prints_addresses token,
            laws.prints_addresses recipient,
          ),
        )
      ]

  -- An input that is admissible for the policy of its network is given an instruction, if that
  -- policy's chain id is below 2^63.
  pub build_instruction_complete :
      (clock : ℕ) (v : Policies) (i : SettlementValidationInput) (p : SettlementPolicy)
      → find_policy v (normalize_network i.network) ≡ some p
      → p.chain_id ≢ 0
      → p.chain_id < 2 ^ 63
      → IsAdmissible p i (instant clock i)
      → (ins : SettlementInstruction) × (build_instruction evm clock v i ≡ ok ins)
  unfolding build_instruction
  build_instruction_complete clock v i p found nonzero small a =
      let fine = (validate-IsAdmissible p i (instant clock i)).1 a in
      let (id, made) =
        settlement_operation_id-total (signed_chain_id p.chain_id) p.vault i.token i.recipient
          i.settlement_intent_id i.amount_raw (ground arith) a.positive in
      (instruction p i (instant clock i) id, rw (found, fine, made, build_instruction) refl)
