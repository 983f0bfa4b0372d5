-- ===== src/Mobile/Idempotency/Once.antt =====
-- What becomes of a key of internal/mobile/idempotency.go after its handler has ended.
use chainfx_payment_core.Common.{
  ℕ, ◌≤◌, ◌≡◌, refl, ◌∙◌, true, false, List, none, some, arith, Option-cases, inl, inr, ◌==◌,
}
use chainfx_payment_core.Common.Assoc.{
  lookup, count, remove_first, lookup-insert, count-remove_first, text_pair_key,
}
use chainfx_payment_core.Common.Text.{Text}
use chainfx_payment_core.Mobile.Idempotency.{
  Operations, Operation, processing, completed, Answer, run_idempotency_transaction, finish,
  mark_idempotency_complete, update_row, succeeded,
}
use chainfx_payment_core.Mobile.Idempotency.Steps.{Server, Event, ending, apply, run, status_in}
use chainfx_payment_core.Mobile.Idempotency.Tells.{key_refl}
use chainfx_payment_core.Mobile.Idempotency.Exclusive.{Exclusive, new_server, one_handler, at_key}
use chainfx_payment_core.Mobile.Idempotency.Settled.{
  Settled, status_answer, run-Settled, Settled-answer,
}

row_in :
    (k : Text × Text) (t : Operations)
    → status_in k t ≡ some processing
    → (row : Operation) × (lookup k t ≡ some row) × (row.status ≡ processing)
unfolding status_in
row_in k t h = elim (Option-cases (lookup k t)) [
  | inl e ↦ absurd (let d = rw (e, status_in) at h in ground arith)
  | inr (row, e) ↦ (row, e, let d = rw (e, status_in) at h in ground arith)
]

abbrev pub outcome : ℕ → Text → Operation
outcome now body = record { status = completed; result_ref = body; completed_at = some now }

module _ (k : Text × Text) (s : Server) (exclusive : Exclusive k s.running s.table)
    (busy : 1 ≤ count k s.running) where
  idle_after : count k (remove_first k s.running) ≡ 0
  idle_after = ground (arith, exclusive, count-remove_first k s.running k, key_refl k)

  marked-Settled :
      (now status : ℕ) (body : Text)
      → succeeded status ≡ true
      → Settled k (outcome now body) (apply (ending now status body true k) s)
  unfolding Settled apply finish mark_idempotency_complete update_row
  marked-Settled now status body ok =
      let (row, there, e) = row_in k s.table (exclusive.1 busy) in
      let b : (count k s.running == 0) ≡ false = ground arith in
      rw b (
        rw ok (
          rw (there, update_row)
            (
              ground (arith, lookup-insert k (outcome now body) s.table k, key_refl k),
              idle_after,
              inl refl,
            )))

  lost-Settled :
      (now status : ℕ) (body : Text)
      → (row : Operation) × (row.status ≡ processing)
        × Settled k row (apply (ending now status body false k) s)
  unfolding Settled apply finish
  lost-Settled now status body =
      let (row, there, e) = row_in k s.table (exclusive.1 busy) in
      let b : (count k s.running == 0) ≡ false = ground arith in
      (row, e, rw b (there, idle_after, inr e))

-- After a handler has ended well, and its row has been marked complete, no handler of its key runs
-- again, whatever else happens, and a request with the key gets the body that was written and the
-- time of the mark.
pub replayed_forever :
    (es es' : List Event) (k : Text × Text) (now status : ℕ) (body : Text)
    → let s = run es new_server in
      let s' = run es' (apply (ending now status body true k) s) in
      1 ≤ count k s.running
      → succeeded status ≡ true
      → (count k s'.running ≡ 0)
        × ((run_idempotency_transaction none k s'.table).0 ≡ Answer.replayed body (some now))
replayed_forever es es' k now status body busy ok =
    let s = run es new_server in
    let h =
      run-Settled k (outcome now body) es' (apply (ending now status body true k) s)
        (marked-Settled k s (at_key k s (one_handler es)) busy now status body ok) in
    (
      (unfold Settled in h.1),
      Settled-answer k (outcome now body) (run es' (apply (ending now status body true k) s)) h
          ∙ (unfold status_answer in refl),
    )

-- If the mark after a handler is lost, no handler of its key runs again, whatever else happens, and
-- every request with the key that meets no failure of the database is told that the operation is in
-- progress.
pub stuck_forever :
    (es es' : List Event) (k : Text × Text) (now status : ℕ) (body : Text)
    → let s = run es new_server in
      let s' = run es' (apply (ending now status body false k) s) in
      1 ≤ count k s.running
      → (count k s'.running ≡ 0)
        × ((run_idempotency_transaction none k s'.table).0 ≡ Answer.in_progress)
stuck_forever es es' k now status body busy =
    let s = run es new_server in
    let (row, e, settled) = lost-Settled k s (at_key k s (one_handler es)) busy now status body in
    let h = run-Settled k row es' (apply (ending now status body false k) s) settled in
    (
      (unfold Settled in h.1),
      Settled-answer k row (run es' (apply (ending now status body false k) s)) h
          ∙ rw e (unfold status_answer in refl),
    )
