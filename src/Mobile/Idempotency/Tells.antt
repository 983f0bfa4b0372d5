-- ===== src/Mobile/Idempotency/Tells.antt =====
-- What the transaction of internal/mobile/idempotency.go tells of the row of its key.
use chainfx_payment_core.Common.{
  ◌≡◌, ◌≢◌, ◌⊎◌, refl, true, Option, none, some, arith, Option-cases, inl, inr,
}
use chainfx_payment_core.Common.Assoc.{lookup, insert, lookup-insert, text_pair_key}
use chainfx_payment_core.Common.Text.{Text}
use chainfx_payment_core.Mobile.Idempotency.{
  Operations, Operation, OperationStatus, pending, processing, completed, failed, Fault, Answer,
  proceed, run_idempotency_transaction, row_of, decide, take, commit,
}
use chainfx_payment_core.Mobile.Idempotency.Steps.{status_in}

-- What an answer tells of the row.
unfoldable pub Tells : Text × Text → Operations → Answer × Operations → Type 0
Tells k before (proceed, after) =
    (status_in k before ≢ some processing) × (status_in k after ≡ some processing)
Tells k before (answer, after) = status_in k after ≡ status_in k before

pub key_refl : (k : Text × Text) → text_pair_key.beq k k ≡ true
key_refl k = (text_pair_key.beq_iff k k).1 refl

-- The status after a row is written.
status_in-insert :
    (k : Text × Text) (row : Operation) (t : Operations)
    → status_in k (insert k row t) ≡ some row.status
unfolding status_in
status_in-insert k row t = ground (arith, lookup-insert k row t k, key_refl k)

-- The status that the transaction reads: that of the row, or of the row it has just made.
Reads : Text × Text → Operations → OperationStatus → Type 0
Reads k t st = (status_in k t ≡ some st) ⊎ ((status_in k t ≡ none) × (st ≡ pending))

pub commit-cases :
    (fault : Option Fault) (answer : Answer) (before after : Operations)
    → (commit fault answer before after ≡ (Answer.internal_error, before))
      ⊎ (commit fault answer before after ≡ (answer, after))
unfolding commit
commit-cases none answer before after = inr refl
commit-cases (some Fault.commit_fails) answer before after = inl refl
commit-cases (some Fault.begin_fails) answer before after = inr refl
commit-cases (some Fault.insert_fails) answer before after = inr refl
commit-cases (some Fault.select_fails) answer before after = inr refl
commit-cases (some Fault.update_fails) answer before after = inr refl

module _ (k : Text × Text) (t : Operations) (row : Operation) where
  take-Tells :
      (fault : Option Fault) → status_in k t ≢ some processing → Tells k t (take fault k t row)
  unfolding take commit Tells
  take-Tells none h = (h, status_in-insert k (record row { status = processing }) t)
  take-Tells (some Fault.begin_fails) h =
      (h, status_in-insert k (record row { status = processing }) t)
  take-Tells (some Fault.insert_fails) h =
      (h, status_in-insert k (record row { status = processing }) t)
  take-Tells (some Fault.select_fails) h =
      (h, status_in-insert k (record row { status = processing }) t)
  take-Tells (some Fault.update_fails) h = refl
  take-Tells (some Fault.commit_fails) h = refl

  same_status :
      (st : OperationStatus)
      → row.status ≡ st
      → st ≢ pending
      → Reads k t st
      → status_in k (insert k row t) ≡ status_in k t
  unfolding Reads
  same_status st e n r = ground (arith, status_in-insert k row t)

  decide-Tells :
      (fault : Option Fault) (st : OperationStatus)
      → row.status ≡ st
      → Reads k t st
      → Tells k t (decide fault k t row st)
  unfolding decide commit Tells Reads
  decide-Tells fault pending e r = take-Tells fault (λ p. ground arith)
  decide-Tells fault failed e r = take-Tells fault (λ p. ground arith)
  decide-Tells fault processing e r =
      elim (commit-cases fault Answer.in_progress t (insert k row t)) [
        | inl p ↦ rw p refl
        | inr p ↦ rw p (same_status processing e (λ q. cc) r)
      ]
  decide-Tells fault completed e r =
      elim (commit-cases fault (Answer.replayed row.result_ref row.completed_at) t
        (insert k row t)) [ inl p ↦ rw p refl | inr p ↦ rw p (same_status completed e (λ q. cc) r) ]

row-Reads : (k : Text × Text) (t : Operations) → Reads k t (row_of (lookup k t)).status
unfolding Reads row_of status_in
row-Reads k t = elim (Option-cases (lookup k t)) [
  | inl e ↦ inr (rw (e, status_in), rw (e, row_of))
  | inr (row, e) ↦ inl (rw (e, status_in, row_of))
]

pub transaction-Tells :
    (fault : Option Fault) (k : Text × Text) (t : Operations)
    → Tells k t (run_idempotency_transaction fault k t)
unfolding Tells run_idempotency_transaction
transaction-Tells (some Fault.begin_fails) k t = refl
transaction-Tells (some Fault.insert_fails) k t = refl
transaction-Tells (some Fault.select_fails) k t = refl
transaction-Tells (some Fault.update_fails) k t =
    decide-Tells k t (row_of (lookup k t)) (some Fault.update_fails) (row_of (lookup k t)).status
      refl (row-Reads k t)
transaction-Tells (some Fault.commit_fails) k t =
    decide-Tells k t (row_of (lookup k t)) (some Fault.commit_fails) (row_of (lookup k t)).status
      refl (row-Reads k t)
transaction-Tells none k t =
    decide-Tells k t (row_of (lookup k t)) none (row_of (lookup k t)).status refl (row-Reads k t)
