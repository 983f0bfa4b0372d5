-- ===== src/Paymaster/Batcher/Legs.antt =====
-- What becomes of a relay in internal/paymaster/batcher.go.
use mathlib.Core.Path.{subst}
use chainfx_payment_core.Common.{
  ℕ, ◌≡◌, ◌⊎◌, refl, ◌∙◌, ap, sym, Bool, false, List, [], ◌∷◌, ◌++◌, append_assoc, append-nil,
  Option, none, some, if◌then◌else◌, Bool-cases, inl, inr,
}
use chainfx_payment_core.Common.Text.{Text, is_empty}
use chainfx_payment_core.Resilience.Retry.{World}
use chainfx_payment_core.Resilience.Retry.Effects.{Effects, Done, execute_with_retry-Done}
use chainfx_payment_core.Paymaster.Relay.{RelayJob}
use chainfx_payment_core.Paymaster.Amounts.{TokenRelayer}
use chainfx_payment_core.Paymaster.Batcher.{
  Transfer, split, net_leg, fee_leg, send, dispatch_fee, dispatch_one,
}

-- The world, with what the signer has accepted and the relays that were given up.
pub record Ledger (S : Type 0) : Type 0 where
  pub world : S
  pub accepted : List Transfer
  pub reported : List Text

abbrev pub legs : Option TokenRelayer → RelayJob → List Transfer
legs relayer job =
    net_leg relayer job
    ∷ (if is_empty (split relayer job.amount).1 then [] else fee_leg relayer job ∷ [])

module _ {E S : Type 0} (signer_transfer : Transfer → S → Option E × S)
    (wait : ℕ → S → Option E × S) (wraps_non_retryable : E → Bool) where
  -- The signer's nil answer is noted.
  unfoldable pub noted : Transfer → Ledger S → Option E × Ledger S
  noted t l =
      let (e, s) = signer_transfer t l.world in
      (
        e,
        record {
          world = s;
          accepted = elim e [ none ↦ l.accepted ++ t ∷ [] | some _ ↦ l.accepted ];
          reported = l.reported;
        },
      )

  unfoldable pub rested : ℕ → Ledger S → Option E × Ledger S
  rested n l = let (e, s) = wait n l.world in (e, record l { world = s })

  unfoldable pub reports : Text → Ledger S → Ledger S
  reports id l = record l { reported = l.reported ++ id ∷ [] }

  unfoldable pub dispatched : Option TokenRelayer → RelayJob → Ledger S → Ledger S
  unfolding noted rested reports
  dispatched = dispatch_one noted rested wraps_non_retryable reports

  abbrev Holds : List Transfer → List Text → Ledger S → Type 0
  Holds ts ids l = (l.accepted ≡ ts) × (l.reported ≡ ids)

  abbrev step_world : Transfer → World E (Ledger S)
  step_world t = record { operation = noted t; context_error = λ _. none; wait = rested }

  send_effects :
      (t : Transfer) (ts : List Transfer) (ids : List Text)
      → Effects (step_world t) (Holds ts ids) (Holds (ts ++ t ∷ []) ids)
  unfolding noted rested
  send_effects t ts ids = record {
    by_success = λ l h e. rw e (ap (λ xs. xs ++ t ∷ []) h.0, h.1);
    by_failure = λ l x h e. rw e h;
    by_wait = λ n l h. h;
  }

  send-Done :
      (t : Transfer) (ts : List Transfer) (ids : List Text) (l : Ledger S)
      → Holds ts ids l
      → Done
          (step_world t)
          (Holds ts ids)
          (Holds (ts ++ t ∷ []) ids)
          (send noted rested wraps_non_retryable reports t l)
  unfolding send
  send-Done t ts ids l h =
      execute_with_retry-Done (step_world t) (Holds ts ids) (Holds (ts ++ t ∷ []) ids)
        (send_effects t ts ids) 3 wraps_non_retryable l h

  -- The relay is complete, or a part of its legs is accepted and it is given up once.
  abbrev pub Settled : Option TokenRelayer → RelayJob → Ledger S → Ledger S → Type 0
  Settled relayer job l l' =
      Holds (l.accepted ++ legs relayer job) l.reported l'
      ⊎ ((sent : List Transfer) × (rest : List Transfer) × (t : Transfer) × (legs relayer job
            ≡ sent ++ t ∷ rest)
          × Holds (l.accepted ++ sent) (l.reported ++ job.relay_id ∷ []) l')

  given_up :
      (id : Text) (ts : List Transfer) (ids : List Text) (l : Ledger S)
      → Holds ts ids l
      → Holds ts (ids ++ id ∷ []) (reports id l)
  unfolding reports
  given_up id ts ids l h = (h.0, ap (λ xs. xs ++ id ∷ []) h.1)

  by_fee :
      (relayer : Option TokenRelayer) (job : RelayJob) (l : Ledger S) (m : Ledger S)
      → Holds (l.accepted ++ net_leg relayer job ∷ []) l.reported m
      → (r : Option E × Ledger S)
      → Done
          (step_world (fee_leg relayer job))
          (Holds (l.accepted ++ net_leg relayer job ∷ []) l.reported)
          (Holds (l.accepted ++ net_leg relayer job ∷ [] ++ fee_leg relayer job ∷ []) l.reported)
          r
      → is_empty (split relayer job.amount).1 ≡ false
      → Settled relayer job l (elim r.0 [ none ↦ r.1 | some _ ↦ reports job.relay_id r.1 ])
  by_fee relayer job l m h (none, m') d e = inl (
      rw e
        (d.0 ∙ append_assoc l.accepted (net_leg relayer job ∷ []) (fee_leg relayer job ∷ []), d.1))
  by_fee relayer job l m h (some x, m') d e =
      inr (
        net_leg relayer job ∷ [],
        [],
        fee_leg relayer job,
        rw e refl,
        given_up job.relay_id _ _ m' d,
      )

  fee_sent :
      (relayer : Option TokenRelayer) (job : RelayJob) (m : Ledger S)
      → is_empty (split relayer job.amount).1 ≡ false
      → dispatch_fee noted rested wraps_non_retryable reports relayer job m
        ≡ elim (send noted rested wraps_non_retryable reports (fee_leg relayer job) m).0 [
          | none ↦ (send noted rested wraps_non_retryable reports (fee_leg relayer job) m).1
          | some _ ↦
              reports job.relay_id
                (send noted rested wraps_non_retryable reports (fee_leg relayer job) m).1
        ]
  unfolding dispatch_fee
  fee_sent relayer job m e = rw (dispatch_fee, e) refl

  dispatch_fee-Settled :
      (relayer : Option TokenRelayer) (job : RelayJob) (l m : Ledger S)
      → Holds (l.accepted ++ net_leg relayer job ∷ []) l.reported m
      → Settled relayer job l (dispatch_fee noted rested wraps_non_retryable reports relayer job m)
  unfolding dispatch_fee
  dispatch_fee-Settled relayer job l m h =
      elim (Bool-cases (is_empty (split relayer job.amount).1)) [
        | inl e ↦ rw (e, dispatch_fee) (inl h)
        | inr e ↦ subst (Settled relayer job l) (sym (fee_sent relayer job m e)) (
            by_fee relayer job l m h
              (send noted rested wraps_non_retryable reports (fee_leg relayer job) m)
              (send-Done (fee_leg relayer job) (l.accepted ++ net_leg relayer job ∷ []) l.reported m
                h)
              e)
      ]

  by_net :
      (relayer : Option TokenRelayer) (job : RelayJob) (l : Ledger S) (r : Option E × Ledger S)
      → Done
          (step_world (net_leg relayer job))
          (Holds l.accepted l.reported)
          (Holds (l.accepted ++ net_leg relayer job ∷ []) l.reported)
          r
      → Settled relayer job l (elim r.0 [
        | none ↦ dispatch_fee noted rested wraps_non_retryable reports relayer job r.1
        | some _ ↦ reports job.relay_id r.1
      ])
  by_net relayer job l (none, m) d = dispatch_fee-Settled relayer job l m d
  by_net relayer job l (some x, m) d = inr (
    [],
    _,
    net_leg relayer job,
    refl,
    given_up job.relay_id _ _ m (d.0 ∙ sym (append-nil l.accepted), d.1),
  )

  -- Whatever the signer answers, where a leg counts as accepted if a call for it returned no error: a
  -- dispatched relay has all its legs accepted, each once and the net leg before the fee leg, and is
  -- not given up; or it is given up once, also when only the fee leg is not accepted, and exactly the
  -- legs before the one that is not accepted are. A leg that the signer carried out with its answer
  -- lost does not count as accepted.
  pub dispatch_one-Settled :
      (relayer : Option TokenRelayer) (job : RelayJob) (l : Ledger S)
      → Settled relayer job l (dispatched relayer job l)
  unfolding dispatched dispatch_one
  dispatch_one-Settled relayer job l =
      by_net relayer job l (send noted rested wraps_non_retryable reports (net_leg relayer job) l)
        (send-Done (net_leg relayer job) l.accepted l.reported l (refl, refl))
