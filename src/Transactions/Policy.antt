-- ===== src/Transactions/Policy.antt =====
-- internal/transactions/settlement_policy.go, with SettlementOperationID of contracts.go: which
-- settlement instructions are built. A `*big.Int` is an `Option ℤ`, an instant is a number of
-- nanoseconds with 0 the zero Time, and a duration is an integer. The go-ethereum calls (address
-- syntax, ABI packing, Keccak) are the fields of `Evm`. The trimming and the letter case of package
-- strings are those of ASCII.
pub mod Admissible
pub mod Validator
mod Tests
use chainfx_payment_core.Common.{
  ℕ, ◌+◌, ◌≡◌, Bool, true, false, List, [], ◌∷◌, Option, none, some, Result, ok, err, ltb, ◌==◌,
  ◌&&◌, ◌||◌, not, length, if◌then◌else◌, ◌>>=◌,
}
use chainfx_payment_core.Common.Int.{ℤ, pos, pos_part, ltb_ℤ, ◌+ℤ◌}
use chainfx_payment_core.Common.Text.{
  Text, codes, text_eq, is_empty, trim_space, to_upper, to_lower, contains,
}
use chainfx_payment_core.Transactions.{normalize_network, one_of}

-- A map keyed by addresses, or by texts; a missing key reads as false.
unfoldable pub member : List (ℕ × Bool) → ℕ → Bool
member [] a = false
member ((k, v) ∷ m) a = if k == a then v else member m a

unfoldable pub text_member : List (Text × Bool) → Text → Bool
text_member [] a = false
text_member ((k, v) ∷ m) a = if text_eq k a then v else text_member m a

abbrev pub is_none_left {ℓ} : {A : Type ℓ} → List A → Bool
is_none_left [] = true
is_none_left (x ∷ xs) = false

pub record SettlementPolicy : Type 0 where
  pub version : Text
  pub network_policy : Text
  pub risk_policy : Text
  pub contract_version : Text
  pub network : Text
  pub chain_id : ℕ
  pub vault : ℕ
  pub allowed_tokens : List (ℕ × Bool)
  pub blocked_recipients : List (ℕ × Bool)
  pub max_transfer_raw : Option ℤ
  pub daily_limit_raw : Option ℤ
  pub require_risk_approve : Bool
  pub liquidatable_states : List (Text × Bool)
  pub quote_max_age : ℤ
  pub instruction_ttl : ℤ

pub record SettlementValidationInput : Type 0 where
  pub settlement_intent_id : Text
  pub order_id : Text
  pub side : Text
  pub network : Text
  pub chain_id : ℕ
  pub vault : ℕ
  pub token : ℕ
  pub recipient : ℕ
  pub amount_raw : Option ℤ
  pub source_channel : Text
  pub risk_decision : Text
  pub intent_status : Text
  pub quote_created_at : ℕ
  pub now : ℕ
  pub operation_used : Bool
  pub treasury_balance_raw : Option ℤ
  pub daily_spent_raw : Option ℤ

pub record SettlementInstruction : Type 0 where
  pub operation_id : ℕ
  pub settlement_intent_id : Text
  pub order_id : Text
  pub side : Text
  pub network : Text
  pub chain_id : ℕ
  pub vault : ℕ
  pub token : ℕ
  pub recipient : ℕ
  pub amount_raw : ℤ
  pub source_channel : Text
  pub risk_decision : Text
  pub policy_version : Text
  pub network_policy : Text
  pub risk_policy : Text
  pub contract_version : Text
  pub created_at : ℕ
  pub expires_at : ℤ

-- The messages of the errors, in the order of the source.
pub data PolicyError : Type 0 where
  network_required chain_id_required vault_required token_list_required : PolicyError
  network_not_enabled : PolicyError
  intent_id_required order_id_required bad_side network_mismatch chain_id_mismatch : PolicyError
  vault_mismatch token_not_allowed recipient_required recipient_blocked : PolicyError
  amount_not_positive above_max_transfer daily_limit_unavailable risk_not_approved : PolicyError
  not_liquidatable quote_time_required quote_expired operation_used : PolicyError
  treasury_insufficient : PolicyError
  chain_id_not_positive bad_vault_address bad_token_address bad_recipient_address pack_failed :
      PolicyError

unfoldable pub normalize_risk_decision : Text → Text
normalize_risk_decision decision =
    let s = to_upper (trim_space decision) in if is_empty s then codes "PENDING" else s

unfoldable pub normalize_source_channel : Text → Text
normalize_source_channel channel =
    if one_of channel (
      codes "web"
      ∷ codes "mobile"
      ∷ codes "developer_api"
      ∷ codes "mcp"
      ∷ codes "a2a"
      ∷ codes "admin"
      ∷ codes "worker"
      ∷ [])
    then channel
    else codes "worker"

-- `x != nil && x.Sign() > 0 && y.Cmp(x) > 0`: a limit that is set and is exceeded by y.
abbrev pub exceeds_limit : ℤ → Option ℤ → Bool
exceeds_limit y none = false
exceeds_limit y (some limit) = ltb_ℤ (pos 0) limit && ltb_ℤ limit y

abbrev pub or_zero : Option ℤ → ℤ
or_zero none = pos 0
or_zero (some a) = a

-- The error of the first condition that holds.
unfoldable pub first_error {ℓ} : {E : Type ℓ} → List (Bool × E) → Option E
first_error [] = none
first_error ((bad, e) ∷ rest) = if bad then some e else first_error rest

-- `time.Time.Add`, for a duration of either sign; `a.After(b)` is `ltb_ℤ b a`.
abbrev pub add_time : ℕ → ℤ → ℤ
add_time t d = pos t +ℤ d

abbrev pub not_positive : Option ℤ → Bool
not_positive none = true
not_positive (some a) = not (ltb_ℤ (pos 0) a)

abbrev pub is_less : Option ℤ → ℤ → Bool
is_less none a = true
is_less (some b) a = ltb_ℤ b a

-- The conditions of `validate` in order. Behind the check of the amount, `or_zero` reads the amount
-- that is there.
checks : SettlementPolicy → SettlementValidationInput → ℕ → List (Bool × PolicyError)
checks p i now =
    let amount = or_zero i.amount_raw in
    (is_empty (trim_space i.settlement_intent_id), intent_id_required)
    ∷ (is_empty (trim_space i.order_id), order_id_required)
    ∷ (not (text_eq i.side (codes "BUY")) && not (text_eq i.side (codes "SELL")), bad_side)
    ∷ (not (text_eq (normalize_network i.network) p.network), network_mismatch)
    ∷ (not (i.chain_id == p.chain_id), chain_id_mismatch)
    ∷ (not (i.vault == p.vault), vault_mismatch)
    ∷ (not (member p.allowed_tokens i.token), token_not_allowed)
    ∷ (i.recipient == 0, recipient_required)
    ∷ (member p.blocked_recipients i.recipient, recipient_blocked)
    ∷ (not_positive i.amount_raw, amount_not_positive)
    ∷ (exceeds_limit amount p.max_transfer_raw, above_max_transfer)
    ∷ (
      exceeds_limit (or_zero i.daily_spent_raw +ℤ amount) p.daily_limit_raw,
      daily_limit_unavailable,
    )
    ∷ (
      p.require_risk_approve
          && not (text_eq (normalize_risk_decision i.risk_decision) (codes "APPROVED")),
      risk_not_approved,
    )
    ∷ (
      not (is_none_left p.liquidatable_states)
          && not (text_member p.liquidatable_states i.intent_status),
      not_liquidatable,
    )
    ∷ (ltb_ℤ (pos 0) p.quote_max_age && i.quote_created_at == 0, quote_time_required)
    ∷ (
      ltb_ℤ (pos 0) p.quote_max_age
          && ltb_ℤ (add_time i.quote_created_at p.quote_max_age) (pos now),
      quote_expired,
    )
    ∷ (i.operation_used, operation_used)
    ∷ (is_less i.treasury_balance_raw amount, treasury_insufficient)
    ∷ []

-- (p SettlementPolicy) validate; `none` is a nil error.
pub validate : SettlementPolicy → SettlementValidationInput → ℕ → Option PolicyError
unfolding first_error checks
validate p i now = first_error (checks p i now)
