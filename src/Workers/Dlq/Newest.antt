-- ===== src/Workers/Dlq/Newest.antt =====
-- What the queue of internal/workers/dlq.go holds.
use chainfx_payment_core.Common.{
  ℕ, ◌+◌, ◌-◌, ◌≤◌, ◌≡◌, Bool, List, [], ◌∷◌, ◌++◌, arith, length, drop, if◌then◌else◌,
}
use chainfx_payment_core.Workers.Dlq.{DlqEntry, DeadLetterQueue, push, drain, call_sink}

pub data DlqOperation : Type 0 where
  pushing : DlqEntry → DlqOperation
  draining : DlqOperation
  sinking : ℕ → DlqOperation

unfoldable pub apply : DlqOperation → DeadLetterQueue → DeadLetterQueue
unfolding push drain call_sink
apply (pushing e) q = push e.original_event e.failed_at e.attempts e.reason q
apply draining q = (drain q).1
apply (sinking i) q = call_sink i q

unfoldable pub run : List DlqOperation → DeadLetterQueue → DeadLetterQueue
unfolding apply
run [] q = q
run (o ∷ os) q = run os (apply o q)

-- The entries pushed since the last drain, behind those that came before.
unfoldable pub pending : List DlqEntry → List DlqOperation → List DlqEntry
pending es [] = es
pending es (pushing e ∷ os) = pending (es ++ e ∷ []) os
pending es (draining ∷ os) = pending [] os
pending es (sinking i ∷ os) = pending es os

unfoldable pub pushed : List DlqOperation → List DlqEntry
pushed [] = []
pushed (pushing e ∷ os) = e ∷ pushed os
pushed (draining ∷ os) = pushed os
pushed (sinking i ∷ os) = pushed os

-- The last `n` of a list.
unfoldable pub newest : ℕ → List DlqEntry → List DlqEntry
newest n es = drop (length es - n) es

-- The queue is made for `n` entries and holds the newest of some.
HoldsNewest : ℕ → List DlqEntry → DeadLetterQueue → Type 0
HoldsNewest n es q = (1 ≤ n) × (q.max_size ≡ n) × (q.entries ≡ newest n es)

-- How many of the entries pass a test.
unfoldable pub tally : (DlqEntry → Bool) → List DlqEntry → ℕ
tally p [] = 0
tally p (e ∷ es) = (if p e then 1 else 0) + tally p es

tally-append :
    (p : DlqEntry → Bool) (xs ys : List DlqEntry) → tally p (xs ++ ys) ≡ tally p xs + tally p ys
unfolding tally
tally-append p [] ys = omega arith
tally-append p (x ∷ xs) ys = omega (arith, tally-append p xs ys)

-- The entries that the sink has been, or is still to be, called with.
abbrev due : (DlqEntry → Bool) → DeadLetterQueue → ℕ
due p q = tally p q.handed + tally p q.waiting
