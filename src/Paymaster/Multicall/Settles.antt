-- ===== src/Paymaster/Multicall/Settles.antt =====
-- What becomes of the relays of a batch in internal/paymaster/batcher.go.
use mathlib.Core.Path.{subst}
use chainfx_payment_core.Common.{
  ℕ, suc, ◌≡◌, ◌⊎◌, refl, ◌∙◌, ap, sym, Bool, not, ◌&&◌, ltb, length, List, [], ◌∷◌, ◌++◌,
  append_assoc, append-nil, Option, none, some, Bool-cases, Option-cases, inl, inr,
}
use chainfx_payment_core.Common.Int.{pos}
use chainfx_payment_core.Common.Text.{Text, is_empty}
use chainfx_payment_core.Resilience.Retry.{World, execute_with_retry}
use chainfx_payment_core.Resilience.Retry.Effects.{Effects, Done, execute_with_retry-Done}
use chainfx_payment_core.Paymaster.Relay.{RelayJob}
use chainfx_payment_core.Paymaster.Amounts.{TokenRelayer}
use chainfx_payment_core.Paymaster.Batcher.{Transfer, dispatch_each, dispatch_apart}
use chainfx_payment_core.Paymaster.Batcher.Legs.{
  Ledger, Settled, noted, rested, reports, dispatched, dispatch_one-Settled,
}
use chainfx_payment_core.Paymaster.Multicall.{
  SignerContractCallPayload, can_multicall, build_multicall_payload,
}
use chainfx_payment_core.Paymaster.Multicall.Dispatch.{
  Dispatched, together, apart, give_up, dispatch_multicall_batch, dispatch_batch,
}

-- The world, with the contract calls that the signer has accepted.
pub record Book (S : Type 0) : Type 0 where
  pub outside : S
  pub calls : List SignerContractCallPayload

pub ids_of : List RelayJob → List Text
ids_of [] = []
ids_of (job ∷ jobs) = job.relay_id ∷ ids_of jobs

module _ {E S : Type 0} (signer_transfer : Transfer → S → Option E × S)
    (signer_contract_call : SignerContractCallPayload → S → Option E × S)
    (wait : ℕ → S → Option E × S) (wraps_non_retryable : E → Bool) where
  abbrev transfer_on : Transfer → Book S → Option E × Book S
  transfer_on t b = let (e, s) = signer_transfer t b.outside in (e, record b { outside = s })

  abbrev wait_on : ℕ → Book S → Option E × Book S
  wait_on n b = let (e, s) = wait n b.outside in (e, record b { outside = s })

  abbrev call_on : SignerContractCallPayload → Ledger (Book S) → Option E × Ledger (Book S)
  call_on p l =
      let (e, s) = signer_contract_call p l.world.outside in
      (
        e,
        record l {
          world = record {
            outside = s;
            calls = elim e [ none ↦ l.world.calls ++ p ∷ [] | some _ ↦ l.world.calls ];
          };
        },
      )

  abbrev transfer_noted : Transfer → Ledger (Book S) → Option E × Ledger (Book S)
  transfer_noted = noted transfer_on wait_on wraps_non_retryable

  abbrev wait_noted : ℕ → Ledger (Book S) → Option E × Ledger (Book S)
  wait_noted = rested transfer_on wait_on wraps_non_retryable

  abbrev report_noted : Text → Ledger (Book S) → Ledger (Book S)
  report_noted = reports transfer_on wait_on wraps_non_retryable

  -- A batch goes out on the ledger.
  unfoldable pub batch_dispatched :
      Option TokenRelayer
      → Text
      → (ℕ → Ledger (Book S))
      → List RelayJob
      → Ledger (Book S)
      → Dispatched (Ledger (Book S))
  batch_dispatched =
      dispatch_batch transfer_noted call_on wait_noted wraps_non_retryable report_noted

  -- Each job settles, on the ledger that the jobs before it leave.
  pub SettledEach : Option TokenRelayer → List RelayJob → Ledger (Book S) → Ledger (Book S) → Type 0
  SettledEach relayer [] l l' = l ≡ l'
  SettledEach relayer (job ∷ jobs) l l' =
      (m : Ledger (Book S)) × Settled transfer_on wait_on wraps_non_retryable relayer job l m
      × SettledEach relayer jobs m l'

  each-SettledEach :
      (relayer : Option TokenRelayer) (jobs : List RelayJob) (l : Ledger (Book S))
      → SettledEach relayer jobs l
          (dispatch_each transfer_noted wait_noted wraps_non_retryable report_noted relayer jobs l)
  unfolding SettledEach dispatch_each dispatched
  each-SettledEach relayer [] l = refl
  each-SettledEach relayer (job ∷ jobs) l = (
    _,
    dispatch_one-Settled transfer_on wait_on wraps_non_retryable relayer job l,
    each-SettledEach relayer jobs _,
  )

  -- Each job settles, on the ledger of its own goroutine.
  pub SettledApart :
      Option TokenRelayer
      → (ℕ → Ledger (Book S))
      → ℕ
      → List RelayJob
      → List (Ledger (Book S))
      → Type 0
  SettledApart relayer view i [] [] = Unit
  SettledApart relayer view i [] (l ∷ ls) = ⊥
  SettledApart relayer view i (job ∷ jobs) [] = ⊥
  SettledApart relayer view i (job ∷ jobs) (l ∷ ls) =
      Settled transfer_on wait_on wraps_non_retryable relayer job (view i) l
      × SettledApart relayer view (suc i) jobs ls

  apart-SettledApart :
      (relayer : Option TokenRelayer) (view : ℕ → Ledger (Book S)) (i : ℕ) (jobs : List RelayJob)
      → SettledApart relayer view i jobs (
          dispatch_apart transfer_noted wait_noted wraps_non_retryable report_noted relayer view i
            jobs)
  unfolding SettledApart dispatch_apart dispatched
  apart-SettledApart relayer view i [] = tt
  apart-SettledApart relayer view i (job ∷ jobs) = (
    dispatch_one-Settled transfer_on wait_on wraps_non_retryable relayer job (view i),
    apart-SettledApart relayer view (suc i) jobs,
  )

  abbrev Holds :
      List SignerContractCallPayload → List Transfer → List Text → Ledger (Book S) → Type 0
  Holds ps ts ids l = (l.world.calls ≡ ps) × (l.accepted ≡ ts) × (l.reported ≡ ids)

  -- The call is accepted once and no job is given up, or it is not and every job is.
  pub Called :
      SignerContractCallPayload → List RelayJob → Ledger (Book S) → Ledger (Book S) → Type 0
  Called p jobs l l' =
      Holds (l.world.calls ++ p ∷ []) l.accepted l.reported l'
      ⊎ Holds l.world.calls l.accepted (l.reported ++ ids_of jobs) l'

  give_up-Holds :
      (ps : List SignerContractCallPayload) (ts : List Transfer) (ids : List Text)
      (jobs : List RelayJob) (l : Ledger (Book S))
      → Holds ps ts ids l
      → Holds ps ts
          (ids ++ ids_of jobs)
          (give_up transfer_noted call_on wait_noted wraps_non_retryable report_noted jobs l)
  unfolding give_up ids_of reports
  give_up-Holds ps ts ids [] l h = (h.0, h.1, h.2 ∙ sym (append-nil ids))
  give_up-Holds ps ts ids (job ∷ jobs) l h =
      let (c, a, r) =
        give_up-Holds ps ts (ids ++ job.relay_id ∷ []) jobs (report_noted job.relay_id l)
          (h.0, h.1, ap (λ xs. xs ++ job.relay_id ∷ []) h.2) in
      (c, a, r ∙ append_assoc ids (job.relay_id ∷ []) (ids_of jobs))

  call_effects :
      (p : SignerContractCallPayload) (ps : List SignerContractCallPayload) (ts : List Transfer)
      (ids : List Text)
      → Effects
          (record { operation = call_on p; context_error = λ _. none; wait = wait_noted })
          (Holds ps ts ids)
          (Holds (ps ++ p ∷ []) ts ids)
  unfolding rested
  call_effects p ps ts ids = record {
    by_success = λ l h e. rw e (ap (λ xs. xs ++ p ∷ []) h.0, h.1, h.2);
    by_failure = λ l x h e. rw e h;
    by_wait = λ n l h. h;
  }

  abbrev call_world : SignerContractCallPayload → World E (Ledger (Book S))
  call_world p = record { operation = call_on p; context_error = λ _. none; wait = wait_noted }

  -- What follows the call.
  after_call : List RelayJob → Option E × Ledger (Book S) → Ledger (Book S)
  after_call jobs (none, l) = l
  after_call jobs (some e, l) =
      give_up transfer_noted call_on wait_noted wraps_non_retryable report_noted jobs l

  by_call :
      (p : SignerContractCallPayload) (jobs : List RelayJob) (l : Ledger (Book S))
      (r : Option E × Ledger (Book S))
      → Done
          (call_world p)
          (Holds l.world.calls l.accepted l.reported)
          (Holds (l.world.calls ++ p ∷ []) l.accepted l.reported)
          r
      → Called p jobs l (after_call jobs r)
  unfolding Called after_call
  by_call p jobs l (none, m) d = inl d
  by_call p jobs l (some e, m) d = inr (give_up-Holds l.world.calls l.accepted l.reported jobs m d)

  called :
      (relayer : Option TokenRelayer) (multicall : Text) (jobs : List RelayJob)
      (l : Ledger (Book S)) (p : SignerContractCallPayload)
      → build_multicall_payload relayer multicall jobs ≡ some p
      → dispatch_multicall_batch transfer_noted call_on wait_noted wraps_non_retryable report_noted
          relayer multicall jobs l
        ≡ after_call jobs (execute_with_retry (pos 4) wraps_non_retryable (call_world p) l)
  unfolding dispatch_multicall_batch after_call
  called relayer multicall jobs l p e =
      elim (Option-cases (execute_with_retry (pos 4) wraps_non_retryable (call_world p) l).0) [
        | inl f ↦ rw (dispatch_multicall_batch, e, f, after_call) refl
        | inr (x, f) ↦ rw (dispatch_multicall_batch, e, f, after_call) refl
      ]

  not_called :
      (relayer : Option TokenRelayer) (multicall : Text) (jobs : List RelayJob)
      (l : Ledger (Book S))
      → build_multicall_payload relayer multicall jobs ≡ none
      → dispatch_multicall_batch transfer_noted call_on wait_noted wraps_non_retryable report_noted
          relayer multicall jobs l
        ≡ dispatch_each transfer_noted wait_noted wraps_non_retryable report_noted relayer jobs l
  unfolding dispatch_multicall_batch
  not_called relayer multicall jobs l e = rw (dispatch_multicall_batch, e) refl

  pub OneSettled :
      Option TokenRelayer → Text → List RelayJob → Ledger (Book S) → Ledger (Book S) → Type 0
  OneSettled relayer multicall jobs l l' =
      ((p : SignerContractCallPayload) × (build_multicall_payload relayer multicall jobs ≡ some p)
        × Called p jobs l l')
      ⊎ ((build_multicall_payload relayer multicall jobs ≡ none) × SettledEach relayer jobs l l')

  pub BatchSettled :
      Option TokenRelayer
      → Text
      → (ℕ → Ledger (Book S))
      → List RelayJob
      → Ledger (Book S)
      → Dispatched (Ledger (Book S))
      → Type 0
  BatchSettled relayer multicall view jobs l (together l') = OneSettled relayer multicall jobs l l'
  BatchSettled relayer multicall view jobs l (apart ls) = SettledApart relayer view 0 jobs ls

  as_one :
      (relayer : Option TokenRelayer) (multicall : Text) (jobs : List RelayJob)
      (l : Ledger (Book S))
      → OneSettled relayer multicall jobs l (
          dispatch_multicall_batch transfer_noted call_on wait_noted wraps_non_retryable
            report_noted relayer multicall jobs l)
  unfolding OneSettled
  as_one relayer multicall jobs l =
      elim (Option-cases (build_multicall_payload relayer multicall jobs)) [
        | inl e ↦ inr (
          e,
          subst (SettledEach relayer jobs l) (sym (not_called relayer multicall jobs l e))
              (each-SettledEach relayer jobs l),
        )
        | inr (p, e) ↦ inl (
          p,
          e,
          subst (Called p jobs l) (sym (called relayer multicall jobs l p e)) (
              by_call p jobs l (execute_with_retry (pos 4) wraps_non_retryable (call_world p) l) (
                execute_with_retry-Done (call_world p) (Holds l.world.calls l.accepted l.reported)
                  (Holds (l.world.calls ++ p ∷ []) l.accepted l.reported)
                  (call_effects p l.world.calls l.accepted l.reported) 3 wraps_non_retryable l
                  (refl, refl, refl))),
        )
      ]

  -- Whatever the signer answers to a batch, where something counts as accepted if a call for it returned
  -- no error. If the batch goes out as one contract call: this is accepted once and no job is given up,
  -- or it is not accepted and every job is given up once; where that call cannot be built, the jobs go
  -- out one after the other, and each has all its legs accepted or is given up once. Otherwise each job
  -- has all its legs accepted or is given up once in its own goroutine, whatever the others do.
  pub dispatch_batch-BatchSettled :
      (relayer : Option TokenRelayer) (multicall : Text) (view : ℕ → Ledger (Book S))
      (jobs : List RelayJob) (l : Ledger (Book S))
      → BatchSettled relayer multicall view jobs l (batch_dispatched relayer multicall view jobs l)
  unfolding batch_dispatched dispatch_batch BatchSettled
  dispatch_batch-BatchSettled relayer multicall view jobs l =
      elim (Bool-cases
        (not (ltb (length jobs) 2) && not (is_empty multicall) && can_multicall multicall jobs)) [
          | inl e ↦ rw e (as_one relayer multicall jobs l)
          | inr e ↦ rw e (apart-SettledApart relayer view 0 jobs)
        ]
