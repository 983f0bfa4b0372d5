-- ===== src/Workers/Bus/Tests.antt =====
-- Runs of internal/workers/bus.go.
use chainfx_payment_core.Common.{
  ℕ, ◌+◌, ◌≤◌, ◌≡◌, refl, true, false, not, ◌&&◌, ◌==◌, List, [], ◌∷◌, ◌++◌, some, if◌then◌else◌,
  arith,
}
use chainfx_payment_core.Common.Assoc.{
  count, nat_key, insert, remove, lookup, remove_first, text_key,
}
use chainfx_payment_core.Common.Text.{codes, text_eq}
use chainfx_payment_core.Workers.Bus.{
  Event, EventBus, new_event_bus, ids, subscribe, unsubscribe, tidy, close, close_channel,
  close_channels, publish, publish_all, publish_one, receive,
}
use chainfx_payment_core.Workers.Bus.Open.{is_open, IsOpen}
use chainfx_payment_core.Workers.Bus.Log.{log_of, accepts_at, missed}
use chainfx_payment_core.Workers.Bus.Steps.{
  Operation, subscribing, unsubscribing, publishing, receiving, closing, apply, take_from, run,
}
use chainfx_payment_core.Workers.Bus.Safe.{never_panics}
use chainfx_payment_core.Workers.Bus.Delivery.{publish-log}

abbrev paid : Event
paid = record { event_type = codes "buy.paid"; order_id = codes "ord_1"; payload = [] }

abbrev idle : ℕ → ℕ
idle i = 0

abbrev day : List Operation
day =
    subscribing (codes "buy.paid")
    ∷ subscribing (codes "buy.paid")
    ∷ publishing idle paid
    ∷ unsubscribing (codes "buy.paid") 0
    ∷ unsubscribing (codes "buy.paid") 0
    ∷ receiving 0 1
    ∷ closing
    ∷ publishing idle paid
    ∷ subscribing (codes "buy.paid")
    ∷ closing
    ∷ []

never_panics_example : (b : EventBus) × (run day new_event_bus ≡ some b) × IsOpen b
never_panics_example = never_panics day

abbrev ran : EventBus
ran = record {
  subscribers = [];
  channels =
      record { buffer = []; taken = paid ∷ []; is_closed = true }
      ∷ record { buffer = paid ∷ []; taken = []; is_closed = true }
      ∷ record { buffer = []; taken = []; is_closed = true }
      ∷ [];
  closed = true;
  published = 1;
  dropped = 1;
}

run_lem : run day new_event_bus ≡ some ran
unfolding run apply subscribe unsubscribe tidy close close_channel close_channels publish
    publish_all publish_one receive take_from insert lookup remove remove_first count ids text_eq
run_lem = refl

-- Two subscribers, one to another type.
abbrev watched : EventBus
watched = record {
  subscribers = (codes "buy.paid", 0 ∷ []) ∷ (codes "buy.sent", 1 ∷ []) ∷ [];
  channels =
      record { buffer = []; taken = []; is_closed = false }
      ∷ record { buffer = []; taken = []; is_closed = false }
      ∷ [];
  closed = false;
  published = 0;
  dropped = 0;
}

watched_open : (i : ℕ) → 1 ≤ count i (ids watched.subscribers) → is_open i watched.channels ≡ true
unfolding count ids is_open
watched_open ℕ.zero m = refl
watched_open (ℕ.suc ℕ.zero) m = refl
watched_open (ℕ.suc (ℕ.suc i)) m = absurd (ground (arith, m))

watched-IsOpen : IsOpen watched
unfolding count ids
watched-IsOpen = ((λ i. ground arith), watched_open)

publish-log_example :
    (b' : EventBus) × (publish idle paid watched ≡ some b')
    × ((i : ℕ)
        → log_of i b'
          ≡ log_of i watched
            ++ (if not (count i (0 ∷ []) == 0) && accepts_at idle paid watched.channels i
                then paid ∷ []
                else []))
    × (b'.dropped ≡ 0 + missed idle paid (0 ∷ []) watched.channels)
unfolding lookup text_eq
publish-log_example = publish-log idle paid watched watched-IsOpen refl
