-- ===== src/Mobile/Idempotency/Steps.antt =====
-- The interleavings of requests of internal/mobile/idempotency.go.
use chainfx_payment_core.Common.{ℕ, Bool, List, [], ◌∷◌, Option, none, some, if◌then◌else◌, ◌==◌}
use chainfx_payment_core.Common.Assoc.{lookup, count, remove_first, text_pair_key}
use chainfx_payment_core.Common.Text.{Text}
use chainfx_payment_core.Mobile.Idempotency.{
  Operations, OperationStatus, Fault, Answer, proceed, run_idempotency_transaction, finish,
}

-- The table, and the keys of the handlers that are running.
pub record Server : Type 0 where
  pub table : Operations
  pub running : List (Text × Text)

-- A request arrives, or a handler that is running ends.
pub data Event : Type 0 where
  arriving : Option Fault → Text × Text → Event
  ending : ℕ → ℕ → Text → Bool → Text × Text → Event

-- The handler of a request runs if the transaction lets it proceed.
unfoldable pub started : Text × Text → Answer → List (Text × Text) → List (Text × Text)
started k proceed running = k ∷ running
started k _ running = running

unfoldable pub apply : Event → Server → Server
unfolding started
apply (arriving fault k) s =
    let (answer, table) = run_idempotency_transaction fault k s.table in
    record { table = table; running = started k answer s.running }
apply (ending now status body marked k) s = if count k s.running == 0 then s else record {
  table = finish now status body marked k s.table;
  running = remove_first k s.running;
}

unfoldable pub run : List Event → Server → Server
unfolding apply
run [] s = s
run (e ∷ es) s = run es (apply e s)

unfoldable pub status_in : Text × Text → Operations → Option OperationStatus
status_in k table = elim (lookup k table) [ none ↦ none | some row ↦ some row.status ]
