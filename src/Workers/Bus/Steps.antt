-- ===== src/Workers/Bus/Steps.antt =====
-- What happens to the bus of internal/workers/bus.go, one operation after another.
use chainfx_payment_core.Common.{ℕ, List, [], ◌∷◌, Option, none, some, get_elem?, set}
use chainfx_payment_core.Common.Text.{Text}
use chainfx_payment_core.Workers.Bus.{
  Event, EventBus, subscribe, unsubscribe, publish, close, receive,
}

-- What happens to the bus; a receiver takes what is in its channel.
pub data Operation : Type 0 where
  subscribing : Text → Operation
  unsubscribing : Text → ℕ → Operation
  publishing : (ℕ → ℕ) → Event → Operation
  receiving : ℕ → ℕ → Operation
  closing : Operation

unfoldable pub take_from : ℕ → ℕ → EventBus → EventBus
take_from i n b = elim (get_elem? b.channels i) [
  | none ↦ b
  | some c ↦ record b { channels = set b.channels i (receive n c) }
]

unfoldable pub apply : Operation → EventBus → Option EventBus
apply (subscribing t) b = some (subscribe t b).1
apply (unsubscribing t i) b = unsubscribe t i b
apply (publishing takes e) b = publish takes e b
apply (receiving i n) b = some (take_from i n b)
apply closing b = close b

unfoldable pub run : List Operation → EventBus → Option EventBus
run [] b = some b
run (o ∷ os) b = elim (apply o b) [ none ↦ none | some b' ↦ run os b' ]
