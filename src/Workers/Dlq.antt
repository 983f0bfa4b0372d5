-- ===== src/Workers/Dlq.antt =====
-- internal/workers/dlq.go: the queue of the events that were given up. A method under the lock is one
-- step. The goroutine that a push starts waits in the state until its step, and those that wait run in
-- any order. Instants are numbers.
pub mod Newest
mod Tests
use chainfx_payment_core.Common.{
  ℕ, suc, ◌+◌, Bool, true, false, List, [], ◌∷◌, ◌++◌, ltb, leb, length, drop, take, get_elem?,
  none, some, if◌then◌else◌,
}
use chainfx_payment_core.Common.Int.{ℤ, pos, pos_part, ltb_ℤ}
use chainfx_payment_core.Common.Text.{Text}
use chainfx_payment_core.Workers.Bus.{Event}

pub record DlqEntry : Type 0 where
  pub original_event : Event
  pub failed_at : ℕ
  pub reason : Text
  pub attempts : ℤ

-- `waiting` are the entries whose goroutine has been started and has not called the sink yet, `handed`
-- those that the sink has been called with.
pub record DeadLetterQueue : Type 0 where
  pub entries : List DlqEntry
  pub max_size : ℕ
  pub has_sink : Bool
  pub waiting : List DlqEntry
  pub handed : List DlqEntry

unfoldable pub new_dlq : ℤ → Bool → DeadLetterQueue
new_dlq max_size has_sink = record {
  entries = [];
  max_size = if ltb_ℤ (pos 0) max_size then pos_part max_size else 10_000;
  has_sink = has_sink;
  waiting = [];
  handed = [];
}

-- The oldest entry makes room for a new one.
abbrev make_room : DeadLetterQueue → List DlqEntry
make_room q = if leb q.max_size (length q.entries) then drop 1 q.entries else q.entries

unfoldable pub push : Event → ℕ → ℤ → Text → DeadLetterQueue → DeadLetterQueue
push event now attempts reason q =
    let entry : DlqEntry = record {
      original_event = event;
      failed_at = now;
      reason = reason;
      attempts = attempts;
    } in
    record q {
      entries = make_room q ++ entry ∷ [];
      waiting = if q.has_sink then entry ∷ q.waiting else q.waiting;
    }

-- `q.dbSink(entry)` in the goroutine at place `i` of those that wait, if there is one.
unfoldable pub call_sink : ℕ → DeadLetterQueue → DeadLetterQueue
call_sink i q = elim (get_elem? q.waiting i) [
  | none ↦ q
  | some entry ↦ record q {
    waiting = take i q.waiting ++ drop (suc i) q.waiting;
    handed = entry ∷ q.handed;
  }
]

unfoldable pub drain : DeadLetterQueue → List DlqEntry × DeadLetterQueue
drain q = (q.entries, record q { entries = [] })

unfoldable pub len : DeadLetterQueue → ℕ
len q = length q.entries
