-- ===== src/Transactions/Policy/Admissible.antt =====
-- What `validate` accepts.
use chainfx_payment_core.Common.{
  ℕ, ◌≡◌, ◌≢◌, ◌↔◌, ◌⊎◌, refl, Bool, true, false, List, [], ◌∷◌, Option, none, some, arith, ◌==◌,
  ◌&&◌, not,
}
use chainfx_payment_core.Common.Int.{ℤ, pos, ltb_ℤ, ◌+ℤ◌, ◌≤ℤ◌}
use chainfx_payment_core.Common.Text.{Text, All, codes, text_eq, text_eq_iff, is_empty, trim_space}
use chainfx_payment_core.Transactions.{normalize_network}
use chainfx_payment_core.Transactions.Policy.{
  SettlementPolicy, SettlementValidationInput, member, text_member, first_error, checks, validate,
  or_zero, add_time, normalize_risk_decision, is_none_left, exceeds_limit, not_positive, is_less,
}

-- A limit that is absent or not positive allows everything.
abbrev pub WithinLimit : ℤ → Option ℤ → Type 0
WithinLimit y none = Unit
WithinLimit y (some limit) = (limit ≤ℤ pos 0) ⊎ (y ≤ℤ limit)

abbrev pub Covers : Option ℤ → ℤ → Type 0
Covers none a = ⊥
Covers (some b) a = a ≤ℤ b

abbrev pub IsPositive : Option ℤ → Type 0
IsPositive none = ⊥
IsPositive (some a) = pos 1 ≤ℤ a

-- What the policy asks of an instruction that is to be built at the instant `now`.
pub record IsAdmissible (p : SettlementPolicy) (i : SettlementValidationInput) (now : ℕ)
    : Type 0 where
  pub has_intent : trim_space i.settlement_intent_id ≢ []
  pub has_order : trim_space i.order_id ≢ []
  pub has_side : (i.side ≡ codes "BUY") ⊎ (i.side ≡ codes "SELL")
  pub same_network : normalize_network i.network ≡ p.network
  pub same_chain : i.chain_id ≡ p.chain_id
  pub same_vault : i.vault ≡ p.vault
  pub token_allowed : member p.allowed_tokens i.token ≡ true
  pub has_recipient : i.recipient ≢ 0
  pub not_blocked : member p.blocked_recipients i.recipient ≡ false
  pub positive : IsPositive i.amount_raw
  pub within_transfer : WithinLimit (or_zero i.amount_raw) p.max_transfer_raw
  pub within_day : WithinLimit (or_zero i.daily_spent_raw +ℤ or_zero i.amount_raw) p.daily_limit_raw
  pub approved :
      (p.require_risk_approve ≡ false)
      ⊎ (normalize_risk_decision i.risk_decision ≡ codes "APPROVED")
  pub liquidatable :
      (p.liquidatable_states ≡ []) ⊎ (text_member p.liquidatable_states i.intent_status ≡ true)
  pub quoted : (p.quote_max_age ≤ℤ pos 0) ⊎ (i.quote_created_at ≢ 0)
  pub fresh : (p.quote_max_age ≤ℤ pos 0) ⊎ (pos now ≤ℤ add_time i.quote_created_at p.quote_max_age)
  pub unused : i.operation_used ≡ false
  pub funded : Covers i.treasury_balance_raw (or_zero i.amount_raw)

module _ {ℓ} {E : Type ℓ} where
  pub first_error-none : (l : List (Bool × E)) → (first_error l ≡ none) ↔ All (λ x. x.0 ≡ false) l
  unfolding first_error
  first_error-none [] = (λ _. tt, λ _. refl)
  first_error-none ((true, e) ∷ l) = (λ h. cc, λ h. cc)
  first_error-none ((false, e) ∷ l) =
      (λ h. (refl, (first_error-none l).0 h), λ h. (first_error-none l).1 h.1)

empty_iff : (s : Text) → (is_empty s ≡ false) ↔ (s ≢ [])
empty_iff [] = ground arith
empty_iff (c ∷ s) = ground arith

differs_iff : (s t : Text) → (not (text_eq s t) ≡ false) ↔ (s ≡ t)
differs_iff s t = ground (arith, text_eq_iff s t)

side_iff : (s b c : Text) → ((not (text_eq s b) && not (text_eq s c)) ≡ false) ↔ ((s ≡ b) ⊎ (s ≡ c))
side_iff s b c = ground (arith, text_eq_iff s b, text_eq_iff s c)

ne_iff : (a b : ℕ) → (not (a == b) ≡ false) ↔ (a ≡ b)
ne_iff a b = ground arith

eq_iff : (a b : ℕ) → ((a == b) ≡ false) ↔ (a ≢ b)
eq_iff a b = ground arith

not_iff : (b : Bool) → (not b ≡ false) ↔ (b ≡ true)
not_iff b = ground arith

limit_iff : (y : ℤ) (m : Option ℤ) → (exceeds_limit y m ≡ false) ↔ WithinLimit y m
limit_iff y none = (λ _. tt, λ _. refl)
limit_iff y (some limit) = ground arith

IsPositive-iff : (a : Option ℤ) → (not_positive a ≡ false) ↔ IsPositive a
IsPositive-iff none = ground arith
IsPositive-iff (some a) = ground arith

Covers-iff : (b : Option ℤ) (a : ℤ) → (is_less b a ≡ false) ↔ Covers b a
Covers-iff none a = ground arith
Covers-iff (some b) a = ground arith

approved_iff :
    (b : Bool) (s t : Text) → ((b && not (text_eq s t)) ≡ false) ↔ ((b ≡ false) ⊎ (s ≡ t))
approved_iff b s t = ground (arith, text_eq_iff s t)

states_iff :
    (l : List (Text × Bool)) (b : Bool)
    → ((not (is_none_left l) && not b) ≡ false) ↔ ((l ≡ []) ⊎ (b ≡ true))
states_iff [] b = ground arith
states_iff (x ∷ l) b = ground arith

quoted_iff :
    (age : ℤ) (t : ℕ) → ((ltb_ℤ (pos 0) age && t == 0) ≡ false) ↔ ((age ≤ℤ pos 0) ⊎ (t ≢ 0))
quoted_iff age t = ground arith

fresh_iff : (age a b : ℤ) → ((ltb_ℤ (pos 0) age && ltb_ℤ a b) ≡ false) ↔ ((age ≤ℤ pos 0) ⊎ (b ≤ℤ a))
fresh_iff age a b = ground arith

IsAdmissible-of_accepted :
    (p : SettlementPolicy) (i : SettlementValidationInput) (now : ℕ)
    → validate p i now ≡ none
    → IsAdmissible p i now
unfolding validate
IsAdmissible-of_accepted p i now h =
    let c = (first_error-none (checks p i now)).0 h in
    record {
      has_intent = (empty_iff _).0 c.0;
      has_order = (empty_iff _).0 c.1.0;
      has_side = (side_iff _ _ _).0 c.1.1.0;
      same_network = (differs_iff _ _).0 c.1.1.1.0;
      same_chain = (ne_iff _ _).0 c.1.1.1.1.0;
      same_vault = (ne_iff _ _).0 c.1.1.1.1.1.0;
      token_allowed = (not_iff _).0 c.1.1.1.1.1.1.0;
      has_recipient = (eq_iff _ _).0 c.1.1.1.1.1.1.1.0;
      not_blocked = c.1.1.1.1.1.1.1.1.0;
      positive = (IsPositive-iff i.amount_raw).0 c.1.1.1.1.1.1.1.1.1.0;
      within_transfer =
          (limit_iff (or_zero i.amount_raw) p.max_transfer_raw).0 c.1.1.1.1.1.1.1.1.1.1.0;
      within_day =
          (limit_iff (or_zero i.daily_spent_raw +ℤ or_zero i.amount_raw) p.daily_limit_raw).0
            c.1.1.1.1.1.1.1.1.1.1.1.0;
      approved = (approved_iff p.require_risk_approve _ _).0 c.1.1.1.1.1.1.1.1.1.1.1.1.0;
      liquidatable = (states_iff p.liquidatable_states _).0 c.1.1.1.1.1.1.1.1.1.1.1.1.1.0;
      quoted = (quoted_iff p.quote_max_age i.quote_created_at).0 c.1.1.1.1.1.1.1.1.1.1.1.1.1.1.0;
      fresh =
          (fresh_iff p.quote_max_age (add_time i.quote_created_at p.quote_max_age) (pos now)).0
            c.1.1.1.1.1.1.1.1.1.1.1.1.1.1.1.0;
      unused = c.1.1.1.1.1.1.1.1.1.1.1.1.1.1.1.1.0;
      funded =
          (Covers-iff i.treasury_balance_raw (or_zero i.amount_raw)).0
            c.1.1.1.1.1.1.1.1.1.1.1.1.1.1.1.1.1.0;
    }

accepted_of_admissible :
    (p : SettlementPolicy) (i : SettlementValidationInput) (now : ℕ)
    → IsAdmissible p i now
    → validate p i now ≡ none
unfolding validate
accepted_of_admissible p i now v = (first_error-none (checks p i now)).1 (
  (empty_iff _).1 v.has_intent,
  (
    (empty_iff _).1 v.has_order,
    (
      (side_iff _ _ _).1 v.has_side,
      (
        (differs_iff _ _).1 v.same_network,
        (
          (ne_iff _ _).1 v.same_chain,
          (
            (ne_iff _ _).1 v.same_vault,
            (
              (not_iff _).1 v.token_allowed,
              (
                (eq_iff _ _).1 v.has_recipient,
                (
                  v.not_blocked,
                  (
                    (IsPositive-iff i.amount_raw).1 v.positive,
                    (
                      (limit_iff (or_zero i.amount_raw) p.max_transfer_raw).1 v.within_transfer,
                      (
                        (limit_iff (or_zero i.daily_spent_raw +ℤ or_zero i.amount_raw)
                              p.daily_limit_raw).1
                            v.within_day,
                        (
                          (approved_iff p.require_risk_approve _ _).1 v.approved,
                          (
                            (states_iff p.liquidatable_states _).1 v.liquidatable,
                            (
                              (quoted_iff p.quote_max_age i.quote_created_at).1 v.quoted,
                              (
                                (fresh_iff p.quote_max_age
                                      (add_time i.quote_created_at p.quote_max_age) (pos now)).1
                                    v.fresh,
                                (
                                  v.unused,
                                  (
                                    (Covers-iff i.treasury_balance_raw (or_zero i.amount_raw)).1
                                        v.funded,
                                    tt,
                                  ),
                                ),
                              ),
                            ),
                          ),
                        ),
                      ),
                    ),
                  ),
                ),
              ),
            ),
          ),
        ),
      ),
    ),
  ),
)

-- `validate` returns nil for exactly the admissible inputs: those that name an intent, an order and
-- a side, agree with the policy on network, chain, vault and token, have a recipient that is not
-- blocked, a positive amount within both limits, the approval, the state and the quote that the
-- policy asks for, an operation not used before and a treasury balance that covers the amount.
pub validate-IsAdmissible :
    (p : SettlementPolicy) (i : SettlementValidationInput) (now : ℕ)
    → (validate p i now ≡ none) ↔ IsAdmissible p i now
validate-IsAdmissible p i now = (IsAdmissible-of_accepted p i now, accepted_of_admissible p i now)
