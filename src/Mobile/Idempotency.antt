-- ===== src/Mobile/Idempotency.antt =====
-- internal/mobile/idempotency.go: the middleware that runs a protected handler once for each key and
-- user. A request is two atomic steps on the table, the transaction before the handler and the mark
-- after it, and other requests run in between. Instants are numbers.
pub mod Steps
mod Tells
mod Writes
pub mod Exclusive
mod Settled
pub mod Once
mod Tests
use chainfx_payment_core.Common.{
  ℕ, Bool, true, false, ◌&&◌, ◌||◌, ◌==◌, not, List, [], ◌∷◌, Option, none, some, ltb, leb, length,
  if◌then◌else◌,
}
use chainfx_payment_core.Common.Assoc.{lookup, insert, text_pair_key}
use chainfx_payment_core.Common.Text.{Text, codes, is_empty, trim_space}

pub data OperationStatus : Type 0 where
  pending processing completed failed : OperationStatus

-- A row of operation_ids; the columns that are only written are left out.
pub record Operation : Type 0 where
  pub status : OperationStatus
  pub result_ref : Text
  pub completed_at : Option ℕ

-- The primary key is the operation's id and the user's.
abbrev pub Operations : Type 0
Operations = List ((Text × Text) × Operation)

-- The statement of a transaction at which the database fails, if it does; the transaction is then
-- rolled back.
pub data Fault : Type 0 where
  begin_fails insert_fails select_fails update_fails commit_fails : Fault

-- What the transaction answers; `proceed` is the sentinel that lets the handler run.
pub data Answer : Type 0 where
  unavailable internal_error in_progress proceed : Answer
  replayed : Text → Option ℕ → Answer

pub anonymous_user_id : Text
anonymous_user_id = codes "00000000-0000-0000-0000-000000000000"

pub resolved_uid : Text → Text
unfolding anonymous_user_id
resolved_uid uid = if is_empty uid then anonymous_user_id else uid

-- The key of a request: of the first header, else of the second, else a new one.
pub request_key : Text → Text → Text → Text
unfolding trim_space
request_key header x_header generated =
    if is_empty (trim_space header)
    then if is_empty (trim_space x_header) then generated else trim_space x_header
    else trim_space header

-- A key of more than 128 bytes is refused with no call of the database.
pub accepts_key : Text → Bool
accepts_key key = leb (length key) 128

abbrev new_row : Operation
new_row = record { status = pending; result_ref = []; completed_at = none }

-- The row that SELECT … FOR UPDATE reads, after INSERT … ON CONFLICT DO NOTHING.
pub row_of : Option Operation → Operation
row_of none = new_row
row_of (some row) = row

-- COMMIT, after which the answer is given.
pub commit : Option Fault → Answer → Operations → Operations → Answer × Operations
commit (some commit_fails) answer before after = (internal_error, before)
commit _ answer before after = (answer, after)

-- The statements behind the lock on the row, of which the last takes the operation.
pub take : Option Fault → Text × Text → Operations → Operation → Answer × Operations
unfolding commit
take (some update_fails) k before row = (unavailable, before)
take fault k before row =
    commit fault proceed before (insert k (record row { status = processing }) before)

pub decide :
    Option Fault → Text × Text → Operations → Operation → OperationStatus → Answer × Operations
unfolding commit take
decide fault k before row completed =
    commit fault (replayed row.result_ref row.completed_at) before (insert k row before)
decide fault k before row processing = commit fault in_progress before (insert k row before)
decide fault k before row pending = take fault k before row
decide fault k before row failed = take fault k before row

pub run_idempotency_transaction : Option Fault → Text × Text → Operations → Answer × Operations
unfolding decide row_of
run_idempotency_transaction (some begin_fails) k before = (unavailable, before)
run_idempotency_transaction (some insert_fails) k before = (unavailable, before)
run_idempotency_transaction (some select_fails) k before = (unavailable, before)
run_idempotency_transaction fault k before =
    let row = row_of (lookup k before) in decide fault k before row row.status

-- What comes before the handler; `none` is the answer 400.
pub begin_request :
    Option Fault → Text → Text → Text → Text → Operations → Option (Answer × Operations)
unfolding request_key accepts_key resolved_uid run_idempotency_transaction
begin_request fault header x_header generated uid before =
    let key = request_key header x_header generated in
    if accepts_key key
    then some (run_idempotency_transaction fault (key, resolved_uid uid) before)
    else none

-- An UPDATE of the row with the key.
pub update_row : (Operation → Operation) → Text × Text → Operations → Operations
update_row change k table = elim (lookup k table) [
  | none ↦ table
  | some row ↦ insert k (change row) table
]

pub mark_idempotency_complete : ℕ → Text → Text × Text → Operations → Operations
unfolding update_row
mark_idempotency_complete now result_ref k table =
    update_row
      (λ row. record { status = completed; result_ref = result_ref; completed_at = some now }) k
      table

pub mark_idempotency_failed : ℕ → Text → Text × Text → Operations → Operations
unfolding update_row
mark_idempotency_failed now reason k table =
    update_row (λ row. record { status = failed; result_ref = reason; completed_at = some now }) k
      table

-- A handler that writes no status has written 200.
pub succeeded : ℕ → Bool
succeeded status = status == 0 || (leb 200 status && ltb status 300)

-- What follows the handler, by the status and the body that it wrote. The error of the statement is
-- dropped: `marked` says that it ran.
pub finish : ℕ → ℕ → Text → Bool → Text × Text → Operations → Operations
unfolding succeeded mark_idempotency_complete mark_idempotency_failed
finish now status body marked k table =
    if not marked
    then table
    else if succeeded status
    then mark_idempotency_complete now body k table
    else mark_idempotency_failed now body k table
