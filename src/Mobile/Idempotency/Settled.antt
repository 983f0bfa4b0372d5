-- ===== src/Mobile/Idempotency/Settled.antt =====
-- The rows that no request of internal/mobile/idempotency.go changes.
use chainfx_payment_core.Common.{
  ◌≡◌, ◌≢◌, ◌⊎◌, refl, ap, ◌∙◌, false, List, [], ◌∷◌, Option, none, some, arith, Bool-cases, inl,
  inr, ◌==◌,
}
use chainfx_payment_core.Common.Assoc.{
  lookup, insert, count, lookup-insert, count-remove_first, text_pair_key,
}
use chainfx_payment_core.Common.Text.{Text}
use chainfx_payment_core.Mobile.Idempotency.{
  Operations, Operation, OperationStatus, pending, processing, completed, failed, Fault, Answer,
  proceed, run_idempotency_transaction, finish, row_of, decide, commit,
}
use chainfx_payment_core.Mobile.Idempotency.Steps.{
  Server, Event, arriving, ending, started, apply, run,
}
use chainfx_payment_core.Mobile.Idempotency.Tells.{commit-cases, key_refl}
use chainfx_payment_core.Mobile.Idempotency.Writes.{
  transaction-Writes, finish-Writes, Writes-others,
}
use chainfx_payment_core.Mobile.Idempotency.Exclusive.{by_key}

-- A row that no step changes: no handler of the key runs, and the row lets none start.
unfoldable pub Settled : Text × Text → Operation → Server → Type 0
Settled k row s =
    (lookup k s.table ≡ some row)
    × (count k s.running ≡ 0)
    × ((row.status ≡ completed) ⊎ (row.status ≡ processing))

unfoldable pub status_answer : Operation → OperationStatus → Answer
status_answer row pending = proceed
status_answer row failed = proceed
status_answer row processing = Answer.in_progress
status_answer row completed = Answer.replayed row.result_ref row.completed_at

commit_keeps :
    (fault : Option Fault) (answer : Answer) (k : Text × Text) (row : Operation) (t : Operations)
    → answer ≢ proceed
    → lookup k t ≡ some row
    → let p = commit fault answer t (insert k row t) in (lookup k p.1 ≡ some row) × (p.0 ≢ proceed)
commit_keeps fault answer k row t n e = elim (commit-cases fault answer t (insert k row t)) [
  | inl p ↦ rw p (e, λ q. cc)
  | inr p ↦ rw p (ground (arith, lookup-insert k row t k, key_refl k), n)
]

-- The transaction of a request whose key is taken writes nothing and does not let it proceed.
Refuses : Text × Text → Operation → Answer × Operations → Type 0
Refuses k row p = (lookup k p.1 ≡ some row) × (p.0 ≢ proceed)

module _ (k : Text × Text) (t : Operations) (row : Operation) (e : lookup k t ≡ some row) where
  decide-Refuses :
      (fault : Option Fault) (st : OperationStatus)
      → (st ≡ completed) ⊎ (st ≡ processing)
      → Refuses k row (decide fault k t row st)
  unfolding decide Refuses
  decide-Refuses fault completed h =
      commit_keeps fault (Answer.replayed row.result_ref row.completed_at) k row t (λ q. cc) e
  decide-Refuses fault processing h = commit_keeps fault Answer.in_progress k row t (λ q. cc) e
  decide-Refuses fault pending h = absurd (ground arith)
  decide-Refuses fault failed h = absurd (ground arith)

  transaction-Refuses :
      (fault : Option Fault)
      → (row.status ≡ completed) ⊎ (row.status ≡ processing)
      → Refuses k row (run_idempotency_transaction fault k t)
  unfolding run_idempotency_transaction row_of Refuses
  transaction-Refuses (some Fault.begin_fails) h = (e, λ q. cc)
  transaction-Refuses (some Fault.insert_fails) h = (e, λ q. cc)
  transaction-Refuses (some Fault.select_fails) h = (e, λ q. cc)
  transaction-Refuses (some Fault.update_fails) h =
      rw e (unfold Refuses in decide-Refuses (some Fault.update_fails) row.status h)
  transaction-Refuses (some Fault.commit_fails) h =
      rw e (unfold Refuses in decide-Refuses (some Fault.commit_fails) row.status h)
  transaction-Refuses none h = rw e (unfold Refuses in decide-Refuses none row.status h)

not_started :
    (k : Text × Text) (answer : Answer) (running : List (Text × Text))
    → answer ≢ proceed
    → started k answer running ≡ running
unfolding started
not_started k proceed running n = absurd (n refl)
not_started k Answer.unavailable running n = refl
not_started k Answer.internal_error running n = refl
not_started k Answer.in_progress running n = refl
not_started k (Answer.replayed ref at) running n = refl

count-started :
    (k j : Text × Text) (answer : Answer) (running : List (Text × Text))
    → text_pair_key.beq k j ≡ false
    → count j (started k answer running) ≡ count j running
unfolding started count
count-started k j proceed running other =
    ground (arith, text_pair_key.beq_iff k j, text_pair_key.beq_iff j k)
count-started k j Answer.unavailable running other = refl
count-started k j Answer.internal_error running other = refl
count-started k j Answer.in_progress running other = refl
count-started k j (Answer.replayed ref at) running other = refl

arriving-Settled :
    (fault : Option Fault) (k : Text × Text) (row : Operation) (s : Server)
    → Settled k row s
    → Settled k row (apply (arriving fault k) s)
unfolding apply Settled Refuses
arriving-Settled fault k row s (there, idle, h) =
    let p = run_idempotency_transaction fault k s.table in
    let r : Refuses k row p = transaction-Refuses k s.table row there fault h in
    (r.0, ap (count k) (not_started k p.0 s.running r.1) ∙ idle, h)

apply-Settled :
    (j : Text × Text) (row : Operation) (e : Event) (s : Server)
    → Settled j row s
    → Settled j row (apply e s)
unfolding apply Settled
apply-Settled j row (arriving fault k) s held =
    let p = run_idempotency_transaction fault k s.table in
    by_key k j (λ j. Settled j row s → Settled j row (apply (arriving fault k) s))
      (arriving-Settled fault k row s)
      (λ other held. (
        Writes-others k j s.table p.1 (transaction-Writes fault k s.table) other ∙ held.0,
        count-started k j p.0 s.running other ∙ held.1,
        held.2,
      ))
      held
apply-Settled j row (ending now status body marked k) s (there, idle, h) =
    elim (Bool-cases (count k s.running == 0)) [
      | inl e ↦ rw e (there, idle, h)
      | inr e ↦ rw e (
          let other : text_pair_key.beq k j ≡ false = ground (arith, text_pair_key.beq_iff k j) in
          (
            Writes-others k j s.table (finish now status body marked k s.table)
                  (finish-Writes now status body marked k s.table) other
                ∙ there,
            ground (arith, count-remove_first k s.running j),
            h,
          ))
    ]

pub run-Settled :
    (j : Text × Text) (row : Operation) (es : List Event) (s : Server)
    → Settled j row s
    → Settled j row (run es s)
unfolding run
run-Settled j row [] s h = h
run-Settled j row (e ∷ es) s h = run-Settled j row es (apply e s) (apply-Settled j row e s h)

decide-answer :
    (k : Text × Text) (row : Operation) (t : Operations) (st : OperationStatus)
    → (st ≡ completed) ⊎ (st ≡ processing)
    → (decide none k t row st).0 ≡ status_answer row st
unfolding decide commit status_answer
decide-answer k row t completed h = refl
decide-answer k row t processing h = refl
decide-answer k row t pending h = absurd (ground arith)
decide-answer k row t failed h = absurd (ground arith)

pub Settled-answer :
    (k : Text × Text) (row : Operation) (s : Server)
    → Settled k row s
    → (run_idempotency_transaction none k s.table).0 ≡ status_answer row row.status
unfolding Settled run_idempotency_transaction row_of
Settled-answer k row s (there, idle, h) = rw there (decide-answer k row s.table row.status h)
