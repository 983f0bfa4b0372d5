-- ===== src/Signer/Custody/Inspect/Alarm.antt =====
-- Which transactions lock the guard of signer/custody_guard.go.
use chainfx_payment_core.Common.{
  ℕ, ◌≡◌, ◌≢◌, ◌↔◌, ◌⊎◌, refl, ◌∙◌, true, false, List, [], ◌∷◌, arith, inl, inr, Option-cases,
  Bool-cases,
}
use chainfx_payment_core.Common.Assoc.{nat_key}
use chainfx_payment_core.Common.Text.{Text, All}
use chainfx_payment_core.Signer.Custody.{
  CustodyGuard, SignerStore, record_event, lock, with_store, is_shadow,
}
use chainfx_payment_core.Signer.Custody.Inspect.{
  Authorization, SetCodeTransaction, Chain, calldata_selector, Verdict, pass, unknown_selector,
  unknown_delegate, changed, judge, alarm, inspect_authorizations, inspect_transaction,
}
use chainfx_payment_core.Signer.Custody.Inspect.Harmless.{
  IsHarmless, harmless_passes, pass-IsHarmless,
}

Verdict-cases : (v : Verdict) → (v ≡ pass) ⊎ (v ≢ pass)
Verdict-cases pass = inl refl
Verdict-cases (unknown_selector w) = inr (λ q. cc)
Verdict-cases (unknown_delegate w) = inr (λ q. cc)
Verdict-cases (changed e) = inr (λ q. cc)

-- What is written to the store leaves the lock and the mode.
with_store_same :
    (f : SignerStore → SignerStore) (g : CustodyGuard)
    → ((with_store f g).locked ≡ g.locked) × ((with_store f g).custody_mode ≡ g.custody_mode)
unfolding with_store
with_store_same f g = elim (Option-cases g.store) [
  | inl e ↦ rw (e, with_store) (refl, refl)
  | inr (s, e) ↦ rw (e, with_store) (refl, refl)
]

record_event_shadow :
    (kind reason tx_hash wallet : Text) (g : CustodyGuard)
    → is_shadow (record_event kind reason tx_hash wallet g) ≡ is_shadow g
unfolding record_event is_shadow
record_event_shadow kind reason tx_hash wallet g = rw ((with_store_same _ g).1) refl

lock_locked :
    (now : ℕ) (reason : Text) (g : CustodyGuard)
    → is_shadow g ≡ false
    → (lock now reason g).locked ≡ true
unfolding lock
lock_locked now reason g h = rw (h, lock) ((with_store_same _ _).0)

module _ (now : ℕ) (chain : Chain) (source : Text) (tx : SetCodeTransaction) where
  alarm_locked :
      (auth : Authorization) (v : Verdict) (g next : CustodyGuard)
      → is_shadow g ≡ false
      → v ≢ pass
      → (alarm now chain source tx auth v g next).locked ≡ true
  unfolding alarm
  alarm_locked auth pass g next h n = absurd (n refl)
  alarm_locked auth (unknown_selector w) g next h n =
      lock_locked now _ _ (record_event_shadow _ _ _ _ g ∙ h)
  alarm_locked auth (unknown_delegate w) g next h n =
      lock_locked now _ _ (record_event_shadow _ _ _ _ g ∙ h)
  alarm_locked auth (changed e) g next h n = lock_locked now _ g h

  module _ (g : CustodyGuard) where
    passes :
        (auths : List Authorization)
        → All (IsHarmless chain g (calldata_selector tx.calldata)) auths
        → inspect_authorizations now chain source tx auths g ≡ g
    unfolding inspect_authorizations alarm
    passes [] h = refl
    passes (auth ∷ rest) (h, hs) =
        rw (harmless_passes chain g (calldata_selector tx.calldata) auth h, inspect_authorizations)
          (passes rest hs)

    alarms :
        (auths : List Authorization)
        → is_shadow g ≡ false
        → (inspect_authorizations now chain source tx auths g).locked ≡ false
        → All (IsHarmless chain g (calldata_selector tx.calldata)) auths
    unfolding inspect_authorizations alarm
    alarms [] s h = tt
    alarms (auth ∷ rest) s h =
        elim (Verdict-cases (judge chain g (calldata_selector tx.calldata) auth)) [
          | inl e ↦ (
            pass-IsHarmless chain g (calldata_selector tx.calldata) auth e,
            alarms rest s (rw (e, inspect_authorizations) at h),
          )
          | inr n ↦ absurd (
              ground (
                arith,
                h,
                alarm_locked auth (judge chain g (calldata_selector tx.calldata) auth) g
                    (inspect_authorizations now chain source tx rest g) s n,
              ))
        ]

-- Outside the shadow mode, a guard that is not locked stays so exactly if the transaction
-- sets no code or each of its authorizations is harmless.
pub inspect_locks_iff :
    (now : ℕ) (chain : Chain) (source : Text) (tx : SetCodeTransaction) (g : CustodyGuard)
    → is_shadow g ≡ false
    → g.locked ≡ false
    → ((inspect_transaction now chain source tx g).locked ≡ false) ↔ (
        (tx.is_set_code ≡ false)
        ⊎ All (IsHarmless chain g (calldata_selector tx.calldata)) tx.authorizations)
unfolding inspect_transaction
inspect_locks_iff now chain source tx g s unlocked = elim (Bool-cases tx.is_set_code) [
  | inr b ↦ (λ h. inl b, λ h. rw (b, inspect_transaction) unlocked)
  | inl b ↦ (
    λ h. inr (alarms now chain source tx g tx.authorizations s (rw (b, inspect_transaction) at h)),
    λ h.
        rw (b, inspect_transaction)
          (elim h [
            | inl n ↦ absurd (ground arith)
            | inr all ↦ rw (passes now chain source tx g tx.authorizations all) unlocked
          ]),
  )
]
