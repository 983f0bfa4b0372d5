-- ===== src/Mobile/Idempotency/Writes.antt =====
-- Which rows the statements of internal/mobile/idempotency.go write.
use chainfx_payment_core.Common.{
  ℕ, ◌≡◌, ◌⊎◌, refl, ap, Bool, false, Option, none, some, arith, Option-cases, Bool-cases, inl, inr,
}
use chainfx_payment_core.Common.Assoc.{lookup, insert, lookup-insert, text_pair_key}
use chainfx_payment_core.Common.Text.{Text}
use chainfx_payment_core.Mobile.Idempotency.{
  Operations, Operation, OperationStatus, pending, processing, completed, failed, Fault, Answer,
  proceed, run_idempotency_transaction, finish, row_of, decide, take, commit,
  mark_idempotency_complete, mark_idempotency_failed, update_row, succeeded,
}
use chainfx_payment_core.Mobile.Idempotency.Tells.{commit-cases}

-- A step on one key writes the row of that key at most.
unfoldable pub Writes : Text × Text → Operations → Operations → Type 0
Writes k before after = (after ≡ before) ⊎ ((row : Operation) × (after ≡ insert k row before))

commit-Writes :
    (fault : Option Fault) (answer : Answer) (k : Text × Text) (row : Operation) (t : Operations)
    → Writes k t (commit fault answer t (insert k row t)).1
unfolding Writes
commit-Writes fault answer k row t = elim (commit-cases fault answer t (insert k row t)) [
  | inl p ↦ inl (ap (λ r. r.1) p)
  | inr p ↦ inr (row, ap (λ r. r.1) p)
]

take-Writes :
    (fault : Option Fault) (k : Text × Text) (t : Operations) (row : Operation)
    → Writes k t (take fault k t row).1
unfolding take Writes
take-Writes (some Fault.update_fails) k t row = inl refl
take-Writes none k t row = commit-Writes none proceed k (record row { status = processing }) t
take-Writes (some Fault.begin_fails) k t row =
    commit-Writes (some Fault.begin_fails) proceed k (record row { status = processing }) t
take-Writes (some Fault.insert_fails) k t row =
    commit-Writes (some Fault.insert_fails) proceed k (record row { status = processing }) t
take-Writes (some Fault.select_fails) k t row =
    commit-Writes (some Fault.select_fails) proceed k (record row { status = processing }) t
take-Writes (some Fault.commit_fails) k t row =
    commit-Writes (some Fault.commit_fails) proceed k (record row { status = processing }) t

decide-Writes :
    (fault : Option Fault) (k : Text × Text) (t : Operations) (row : Operation)
    (st : OperationStatus)
    → Writes k t (decide fault k t row st).1
unfolding decide
decide-Writes fault k t row completed =
    commit-Writes fault (Answer.replayed row.result_ref row.completed_at) k row t
decide-Writes fault k t row processing = commit-Writes fault Answer.in_progress k row t
decide-Writes fault k t row pending = take-Writes fault k t row
decide-Writes fault k t row failed = take-Writes fault k t row

pub transaction-Writes :
    (fault : Option Fault) (k : Text × Text) (t : Operations)
    → Writes k t (run_idempotency_transaction fault k t).1
unfolding run_idempotency_transaction Writes
transaction-Writes (some Fault.begin_fails) k t = inl refl
transaction-Writes (some Fault.insert_fails) k t = inl refl
transaction-Writes (some Fault.select_fails) k t = inl refl
transaction-Writes (some Fault.update_fails) k t =
    decide-Writes (some Fault.update_fails) k t (row_of (lookup k t)) (row_of (lookup k t)).status
transaction-Writes (some Fault.commit_fails) k t =
    decide-Writes (some Fault.commit_fails) k t (row_of (lookup k t)) (row_of (lookup k t)).status
transaction-Writes none k t =
    decide-Writes none k t (row_of (lookup k t)) (row_of (lookup k t)).status

update_row-Writes :
    (change : Operation → Operation) (k : Text × Text) (t : Operations)
    → Writes k t (update_row change k t)
unfolding update_row Writes
update_row-Writes change k t = elim (Option-cases (lookup k t)) [
  | inl e ↦ rw (e, update_row) (inl refl)
  | inr (row, e) ↦ rw (e, update_row) (inr (change row, refl))
]

pub finish-Writes :
    (now status : ℕ) (body : Text) (marked : Bool) (k : Text × Text) (t : Operations)
    → Writes k t (finish now status body marked k t)
unfolding finish mark_idempotency_complete mark_idempotency_failed
finish-Writes now status body marked k t = elim (Bool-cases marked) [
  | inr e ↦ rw e (unfold Writes in inl refl)
  | inl e ↦ rw e (elim (Bool-cases (succeeded status)) [
    | inl f ↦ rw f (
        update_row-Writes
          (λ row. record { status = completed; result_ref = body; completed_at = some now }) k t)
    | inr f ↦ rw f (
        update_row-Writes
          (λ row. record { status = failed; result_ref = body; completed_at = some now }) k t)
  ])
]

pub Writes-others :
    (k j : Text × Text) (before after : Operations)
    → Writes k before after
    → text_pair_key.beq k j ≡ false
    → lookup j after ≡ lookup j before
unfolding Writes
Writes-others k j before after (inl e) h = ap (lookup j) e
Writes-others k j before after (inr (row, e)) h = ground (arith, e, h, lookup-insert k row before j)
