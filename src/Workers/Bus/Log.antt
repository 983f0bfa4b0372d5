-- ===== src/Workers/Bus/Log.antt =====
-- What the receivers of internal/workers/bus.go have been sent.
use chainfx_payment_core.Common.{
  ℕ, ◌+◌, Bool, false, ◌&&◌, ◌||◌, List, [], ◌∷◌, ◌++◌, Option, none, some, if◌then◌else◌,
  get_elem?,
}
use chainfx_payment_core.Workers.Bus.{
  Event, Channel, EventBus, has_room, is_critical_money_event, receive,
}

-- What the receiver has been sent: what it has taken, and what waits for it.
abbrev pub log : Channel → List Event
log c = c.taken ++ c.buffer

abbrev pub log_in : Option Channel → List Event
log_in none = []
log_in (some c) = log c

abbrev pub log_of : ℕ → EventBus → List Event
log_of i b = log_in (get_elem? b.channels i)

-- A channel takes an event at once, or in the wait that a critical event has.
unfoldable pub accepts : ℕ → Event → Channel → Bool
accepts takes e c =
    has_room c || (is_critical_money_event e.event_type && has_room (receive takes c))

unfoldable pub accepts_at : (ℕ → ℕ) → Event → List Channel → ℕ → Bool
accepts_at takes e chs i = elim (get_elem? chs i) [ none ↦ false | some c ↦ accepts (takes i) e c ]

-- How many of the channels do not take the event.
unfoldable pub missed : (ℕ → ℕ) → Event → List ℕ → List Channel → ℕ
missed takes e [] chs = 0
missed takes e (i ∷ is) chs = (if accepts_at takes e chs i then 0 else 1) + missed takes e is chs
