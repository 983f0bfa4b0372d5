-- ===== src/Workers/Dlq/Tests.antt =====
-- Runs of internal/workers/dlq.go.
use chainfx_payment_core.Common.{ℕ, Bool, ltb, ◌≡◌, refl, true, List, [], ◌∷◌}
use chainfx_payment_core.Common.Int.{pos}
use chainfx_payment_core.Common.Text.{codes}
use chainfx_payment_core.Workers.Dlq.{DlqEntry, new_dlq, push, drain, call_sink, len}
use chainfx_payment_core.Workers.Dlq.Newest.{DlqOperation, pushing, draining, sinking, apply, run}

abbrev failed : ℕ → DlqEntry
failed now = record {
  original_event = record { event_type = codes "buy.paid"; order_id = codes "ord_1"; payload = [] };
  failed_at = now;
  reason = codes "timeout";
  attempts = pos 3;
}

abbrev day : List DlqOperation
day =
    pushing (failed 1)
    ∷ draining
    ∷ sinking 5
    ∷ pushing (failed 2)
    ∷ pushing (failed 3)
    ∷ pushing (failed 4)
    ∷ sinking 1
    ∷ sinking 0
    ∷ []

day_lem : run day (new_dlq (pos 2) true) ≡ record {
  entries = failed 3 ∷ failed 4 ∷ [];
  max_size = 2;
  has_sink = true;
  waiting = failed 2 ∷ failed 1 ∷ [];
  handed = failed 4 ∷ failed 3 ∷ [];
}
unfolding run apply push drain call_sink new_dlq
day_lem = refl

len_lem : len (run day (new_dlq (pos 2) true)) ≡ 2
unfolding len run apply push drain new_dlq
len_lem = refl

-- The entries that failed late.
abbrev late : DlqEntry → Bool
late e = ltb 2 e.failed_at
