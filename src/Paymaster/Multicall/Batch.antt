-- ===== src/Paymaster/Multicall/Batch.antt =====
-- What the calls of a batch of internal/paymaster/batcher.go transfer.
use native.Mathlib.Nat.{add-mul}
use chainfx_payment_core.Common.{
  ℕ, ◌+◌, ◌*◌, ◌^◌, ◌≤◌, ◌<◌, ◌≡◌, ◌≢◌, refl, ◌∙◌, ap, sym, Bool, true, false, not, ◌&&◌, ◌||◌,
  List, [], ◌∷◌, ◌++◌, none, some, arith, Option-cases, inl, inr,
}
use chainfx_payment_core.Common.Int.{ℤ, pos, ◌+ℤ◌}
use chainfx_payment_core.Common.Text.{Text, codes, All, is_empty, text_eq, trim_space}
use chainfx_payment_core.Paymaster.Relay.{RelayJob}
use chainfx_payment_core.Paymaster.Amounts.{TokenRelayer}
use chainfx_payment_core.Paymaster.Multicall.{fits_batch, all_fit, job_calls, build_calls}
use chainfx_payment_core.Paymaster.Multicall.Encode.{Multicall3Call}
use chainfx_payment_core.Paymaster.Multicall.Conserves.{
  transferred, total_of, delivered, job_calls-transferred,
}

transferred-append :
    (cs ds : List Multicall3Call) → transferred (cs ++ ds) ≡ transferred cs + transferred ds
unfolding transferred
transferred-append [] ds = omega arith
transferred-append (c ∷ cs) ds = omega (arith, transferred-append cs ds)

unfoldable pub sum_of : (RelayJob → ℕ) → List RelayJob → ℕ
sum_of f [] = 0
sum_of f (job ∷ jobs) = f job + sum_of f jobs

last_of : (a b : Bool) → a && b ≡ true → b ≡ true
last_of true b h = h
last_of false b h = absurd (ground (arith, h))

first_of : (a b : Bool) → a && b ≡ true → a ≡ true
first_of true b h = refl
first_of false b h = h

has_amount :
    (network contract : Text) (job : RelayJob)
    → fits_batch network contract job ≡ true
    → not (is_empty (trim_space job.amount) || text_eq (trim_space job.amount) (codes "0")) ≡ true
unfolding fits_batch
has_amount network contract job h = last_of _ _ h

same_calls :
    (calls : List Multicall3Call) (a : ℤ) (r : List Multicall3Call × ℤ)
    → some (calls, a) ≡ some r
    → calls ≡ r.0
same_calls calls a r h = ground (arith, h)

-- Every amount fits in a word, for a token of 6 + k decimals.
abbrev pub InRange : TokenRelayer → ℕ → List RelayJob → Type 0
InRange tr k = All (λ job. total_of tr job * 10 ^ k < 256 ^ 32)

module _ (tr : TokenRelayer) (token : Text) (k : ℕ) (few : k ≤ 24)
    (spread : tr.spread_bps < 10_000) where
  not_first :
      (job : RelayJob) (jobs : List RelayJob) (r : List Multicall3Call × ℤ)
      → job_calls (some tr) token (6 + k) job ≡ none
      → build_calls (some tr) token (6 + k) (job ∷ jobs) ≢ some r
  unfolding build_calls
  not_first job jobs r e = rw (build_calls, e) (λ h. ground (arith, h))

  not_more :
      (job : RelayJob) (jobs : List RelayJob) (first r : List Multicall3Call × ℤ)
      → job_calls (some tr) token (6 + k) job ≡ some first
      → build_calls (some tr) token (6 + k) jobs ≡ none
      → build_calls (some tr) token (6 + k) (job ∷ jobs) ≢ some r
  unfolding build_calls
  not_more job jobs first r e f = rw (build_calls, e, f) (λ h. ground (arith, h))

  built :
      (job : RelayJob) (jobs : List RelayJob) (first more r : List Multicall3Call × ℤ)
      → job_calls (some tr) token (6 + k) job ≡ some first
      → build_calls (some tr) token (6 + k) jobs ≡ some more
      → build_calls (some tr) token (6 + k) (job ∷ jobs) ≡ some r
      → first.0 ++ more.0 ≡ r.0
  unfolding build_calls
  built job jobs first more r e f h =
      same_calls (first.0 ++ more.0) (first.1 +ℤ more.1) r (sym (rw (build_calls, e, f) refl) ∙ h)

  -- If the jobs pass the test of canMulticall and each amount fits in a word, the transfers of a batch
  -- that is built add up to the amounts of its jobs, for a relayer with a wallet for the fee; without
  -- one, to these amounts less the fees. The relayer's spread is below 10,000 basis points, and the
  -- token has 6 to 30 decimals.
  pub build_calls-transferred :
      (network contract : Text) (jobs : List RelayJob) (r : List Multicall3Call × ℤ)
      → all_fit network contract jobs ≡ true
      → InRange tr k jobs
      → build_calls (some tr) token (6 + k) jobs ≡ some r
      → transferred r.0 ≡ sum_of (delivered tr) jobs * 10 ^ k
  unfolding transferred sum_of all_fit build_calls
  build_calls-transferred network contract [] r fit range h =
      ap transferred (sym (same_calls [] (pos 0) r h)) ∙ omega arith
  build_calls-transferred network contract (job ∷ jobs) r fit range h =
      elim (Option-cases (job_calls (some tr) token (6 + k) job)) [
        | inl e ↦ absurd (not_first job jobs r e h)
        | inr (first, e) ↦ elim (Option-cases (build_calls (some tr) token (6 + k) jobs)) [
          | inl f ↦ absurd (not_more job jobs first r e f h)
          | inr (more, f) ↦
              let one =
                job_calls-transferred tr token k few spread job first range.0
                  (has_amount network contract job (first_of _ _ fit)) e in
              let others : transferred more.0 ≡ sum_of (delivered tr) jobs * 10 ^ k =
                build_calls-transferred network contract jobs more (last_of _ _ fit) range.1 f in
              ap transferred (sym (built job jobs first more r e f h))
              ∙ transferred-append first.0 more.0
              ∙ omega (
                arith,
                one,
                others,
                add-mul (delivered tr job) (sum_of (delivered tr) jobs) (10 ^ k),
              )
        ]
      ]
