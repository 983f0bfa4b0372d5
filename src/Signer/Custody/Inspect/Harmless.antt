-- ===== src/Signer/Custody/Inspect/Harmless.antt =====
-- Which authorizations the guard of signer/custody_guard.go lets pass.
use chainfx_payment_core.Common.{
  ℕ, ◌≡◌, ◌⊎◌, refl, true, false, not, ◌&&◌, ◌==◌, ==_iff, List, [], ◌∷◌, none, some, arith, inl,
  inr, Option-cases, Bool-cases, length,
}
use chainfx_payment_core.Common.Assoc.{lookup, nat_key}
use chainfx_payment_core.Common.Text.{Text}
use chainfx_payment_core.Transactions.{one_of}
use chainfx_payment_core.Signer.Custody.{CustodyGuard}
use chainfx_payment_core.Signer.Custody.Inspect.{
  Authorization, Chain, has_address, verify_delegate_hash, pass, judge_delegate, judge,
}

-- The first node that answers reports the expected code.
-- The first node that answers reports the expected code.
-- The first node that answers reports the expected code.
-- The first node that answers reports the expected code.
-- The first node that answers reports the expected code.
abbrev pub Confirmed : Chain → List Text → ℕ → ℕ → Type 0
Confirmed chain [] delegate expected = ⊥
Confirmed chain (url ∷ urls) delegate expected =
    ((code : Text) × (chain.code_at url delegate ≡ some code) × (chain.keccak256 code ≡ expected))
    ⊎ ((chain.code_at url delegate ≡ none) × Confirmed chain urls delegate expected)

-- The delegate is trusted, and its code is the one that was loaded, if one was.
pub IsTrusted : Chain → CustodyGuard → ℕ → Type 0
IsTrusted chain g delegate =
    (expected : ℕ) × (lookup delegate g.trusted ≡ some expected)
    × ((expected ≡ 0) ⊎ Confirmed chain g.rpc_urls delegate expected)

-- An authorization that the guard lets pass: of no protected wallet, or with an allowed selector and
-- a trusted delegate.
pub IsHarmless : Chain → CustodyGuard → Text → Authorization → Type 0
IsHarmless chain g selector auth =
    (chain.authority auth ≡ none)
    ⊎ ((wallet : ℕ) × (chain.authority auth ≡ some wallet)
        × ((has_address wallet g.protected ≡ false)
            ⊎ (((g.allowed_selector ≡ []) ⊎ (one_of selector g.allowed_selector ≡ true))
                × IsTrusted chain g auth.delegate)))

selector_passes :
    (allowed : List Text) (selector : Text)
    → (allowed ≡ []) ⊎ (one_of selector allowed ≡ true)
    → (not (length allowed == 0) && not (one_of selector allowed)) ≡ false
selector_passes allowed selector (inl e) = rw e refl
selector_passes allowed selector (inr h) = ground (arith, h)

selector_allowed :
    (allowed : List Text) (selector : Text)
    → (not (length allowed == 0) && not (one_of selector allowed)) ≡ false
    → (allowed ≡ []) ⊎ (one_of selector allowed ≡ true)
selector_allowed [] selector h = inl refl
selector_allowed (a ∷ rest) selector h = inr (ground arith)

module _ (chain : Chain) where
  confirmed :
      (urls : List Text) (delegate expected : ℕ)
      → Confirmed chain urls delegate expected
      → verify_delegate_hash chain urls delegate expected ≡ none
  unfolding verify_delegate_hash
  confirmed [] delegate expected c = absurd c
  confirmed (url ∷ urls) delegate expected (inl (code, e, h)) =
      rw (e, verify_delegate_hash) (ground (arith, ==_iff (chain.keccak256 code) expected))
  confirmed (url ∷ urls) delegate expected (inr (e, c)) =
      rw (e, verify_delegate_hash) (confirmed urls delegate expected c)

  verified :
      (urls : List Text) (delegate expected : ℕ)
      → verify_delegate_hash chain urls delegate expected ≡ none
      → Confirmed chain urls delegate expected
  unfolding verify_delegate_hash
  verified [] delegate expected h = absurd (ground arith)
  verified (url ∷ urls) delegate expected h = elim (Option-cases (chain.code_at url delegate)) [
    | inl e ↦ inr (e, verified urls delegate expected (rw (e, verify_delegate_hash) at h))
    | inr (code, e) ↦
        let d = rw (e, verify_delegate_hash) at h in
        inl (code, e, ground (arith, ==_iff (chain.keccak256 code) expected))
  ]

  module _ (g : CustodyGuard) where
    trusted_passes :
        (wallet delegate : ℕ)
        → IsTrusted chain g delegate
        → judge_delegate chain g wallet delegate ≡ pass
    unfolding judge_delegate IsTrusted
    trusted_passes wallet delegate (expected, e, h) = elim (Bool-cases (expected == 0)) [
      | inl b ↦ rw (e, b, judge_delegate) refl
      | inr b ↦ elim h [
        | inl z ↦ absurd (ground (arith, ==_iff expected 0))
        | inr c ↦ rw (e, b, confirmed g.rpc_urls delegate expected c, judge_delegate) refl
      ]
    ]

    pass-IsTrusted :
        (wallet delegate : ℕ)
        → judge_delegate chain g wallet delegate ≡ pass
        → IsTrusted chain g delegate
    unfolding judge_delegate IsTrusted
    pass-IsTrusted wallet delegate h = elim (Option-cases (lookup delegate g.trusted)) [
      | inl e ↦ absurd (let d = rw (e, judge_delegate) at h in ground arith)
      | inr (expected, e) ↦ elim (Bool-cases (expected == 0)) [
        | inl b ↦ (expected, e, inl ((==_iff expected 0).0 b))
        | inr b ↦ elim (Option-cases (verify_delegate_hash chain g.rpc_urls delegate expected)) [
          | inl v ↦ (expected, e, inr (verified g.rpc_urls delegate expected v))
          | inr (x, v) ↦ absurd (let d = rw (e, b, v, judge_delegate) at h in ground arith)
        ]
      ]
    ]

    pub harmless_passes :
        (selector : Text) (auth : Authorization)
        → IsHarmless chain g selector auth
        → judge chain g selector auth ≡ pass
    unfolding judge IsHarmless
    harmless_passes selector auth (inl e) = rw (e, judge) refl
    harmless_passes selector auth (inr (wallet, e, inl free)) = rw (e, free, judge) refl
    harmless_passes selector auth (inr (wallet, e, inr (allowed, trusted))) =
        elim (Bool-cases (has_address wallet g.protected)) [
          | inr free ↦ rw (e, free, judge) refl
          | inl own ↦
              rw (e, own, selector_passes g.allowed_selector selector allowed, judge)
                (trusted_passes wallet auth.delegate trusted)
        ]

    pub pass-IsHarmless :
        (selector : Text) (auth : Authorization)
        → judge chain g selector auth ≡ pass
        → IsHarmless chain g selector auth
    unfolding judge IsHarmless
    pass-IsHarmless selector auth h = elim (Option-cases (chain.authority auth)) [
      | inl e ↦ inl e
      | inr (wallet, e) ↦ elim (Bool-cases (has_address wallet g.protected)) [
        | inr free ↦ inr (wallet, e, inl free)
        | inl own ↦
            elim (Bool-cases
              (not (length g.allowed_selector == 0) && not (one_of selector g.allowed_selector))) [
                | inl b ↦ absurd (let d = rw (e, own, b, judge) at h in ground arith)
                | inr b ↦ inr (
                  wallet,
                  e,
                  inr (
                    selector_allowed g.allowed_selector selector b,
                    pass-IsTrusted wallet auth.delegate (rw (e, own, b, judge) at h),
                  ),
                )
              ]
      ]
    ]
