-- ===== src/Workers/Bus.antt =====
-- internal/workers/bus.go. A channel is its index among all the channels that the bus has made. What
-- Go's run time does on a send to a closed channel, or on its second close, is a panic: `none`.
-- Subscribe, Unsubscribe and Close exclude every other method, so each is one step; publications,
-- which can overlap, are taken one after the other.
pub mod Ids
pub mod Log
pub mod Steps
pub mod Open
pub mod Safe
pub mod Delivery
mod Tests
use chainfx_payment_core.Common.{
  ℕ, ◌+◌, Bool, true, false, not, ◌&&◌, ◌||◌, ◌==◌, List, [], ◌∷◌, ◌++◌, Option, none, some,
  if◌then◌else◌, ltb, length, get_elem?, set, take, drop,
}
use chainfx_payment_core.Common.Assoc.{
  lookup, insert, remove, count, remove_first, text_key, nat_key,
}
use chainfx_payment_core.Common.Text.{Text, codes, text_eq}
use chainfx_payment_core.Transactions.{one_of}

pub record Event : Type 0 where
  pub event_type : Text
  pub order_id : Text
  pub payload : Text

-- `taken` is what the receiver has taken so far.
pub record Channel : Type 0 where
  pub buffer : List Event
  pub taken : List Event
  pub is_closed : Bool

abbrev pub Subscribers : Type 0
Subscribers = List (Text × List ℕ)

pub record EventBus : Type 0 where
  pub subscribers : Subscribers
  pub channels : List Channel
  pub closed : Bool
  pub published : ℕ
  pub dropped : ℕ

abbrev pub new_event_bus : EventBus
new_event_bus = record {
  subscribers = [];
  channels = [];
  closed = false;
  published = 0;
  dropped = 0;
}

abbrev pub default_subscriber_buffer : ℕ
default_subscriber_buffer = 100

abbrev pub or_nil : Option (List ℕ) → List ℕ
or_nil none = []
or_nil (some subs) = subs

-- `b.subscribers[eventType]`
abbrev pub subscribers_of : Text → EventBus → List ℕ
subscribers_of t b = or_nil (lookup t b.subscribers)

abbrev new_channel : Bool → Channel
new_channel closed = record { buffer = []; taken = []; is_closed = closed }

-- `close(ch)`
pub close_channel : ℕ → List Channel → Option (List Channel)
close_channel i chs = elim (get_elem? chs i) [
  | none ↦ none
  | some c ↦ if c.is_closed then none else some (set chs i (record c { is_closed = true }))
]

-- The new channel is returned.
pub subscribe : Text → EventBus → ℕ × EventBus
subscribe t b =
    let i = length b.channels in
    if b.closed then (i, record b { channels = b.channels ++ new_channel true ∷ [] }) else (
      i,
      record b {
        channels = b.channels ++ new_channel false ∷ [];
        subscribers = insert t (subscribers_of t b ++ i ∷ []) b.subscribers;
      },
    )

-- The entry of a type without subscribers is deleted.
pub tidy : Text → EventBus → EventBus
tidy t b =
    if length (subscribers_of t b) == 0
    then record b { subscribers = remove t b.subscribers }
    else b

pub unsubscribe : Text → ℕ → EventBus → Option EventBus
unfolding tidy close_channel
unsubscribe t ch b =
    let subs = subscribers_of t b in
    if count ch subs == 0 then some (tidy t b) else elim (close_channel ch b.channels) [
      | none ↦ none
      | some chs ↦ some (
          tidy t (record b {
            channels = chs;
            subscribers = insert t (remove_first ch subs) b.subscribers;
          }))
    ]

pub is_critical_money_event : Text → Bool
unfolding one_of
is_critical_money_event t = one_of t (
    codes "buy.paid"
    ∷ codes "buy.sent"
    ∷ codes "buy.failed"
    ∷ codes "payout.requested"
    ∷ codes "payout.settled"
    ∷ codes "payout.manual_required"
    ∷ codes "onchain.detected"
    ∷ codes "m2m.deposit.confirmed"
    ∷ codes "m2m.settlement.done"
    ∷ codes "m2m.settlement.failed"
    ∷ codes "nfc.capture.completed"
    ∷ codes "nfc.authorization.reversed"
    ∷ codes "nfc.authorization.expired"
    ∷ codes "nfc.settlement.manual_required"
    ∷ codes "nfc.settlement.submitted"
    ∷ codes "nfc.settlement.submission_unknown"
    ∷ codes "nfc.settlement.confirmed"
    ∷ codes "nfc.settlement.failed"
    ∷ codes "mobile.payout.requested"
    ∷ codes "sweep.sent"
    ∷ [])

pub receive : ℕ → Channel → Channel
receive n c = record c { buffer = drop n c.buffer; taken = c.taken ++ take n c.buffer }

abbrev pub has_room : Channel → Bool
has_room c = ltb (length c.buffer) default_subscriber_buffer

abbrev pub put : Event → Channel → Channel
put e c = record c { buffer = c.buffer ++ e ∷ [] }

-- `takes` is how many events the receiver takes during the wait, if there is one.
pub publish_one : ℕ → Event → Channel → Bool × Channel
unfolding receive
publish_one takes e c =
    let c' = receive takes c in
    if has_room c
    then (true, put e c)
    else if not (is_critical_money_event e.event_type)
    then (false, c)
    else if has_room c'
    then (true, put e c')
    else (false, c')

-- The loop over the subscribers, with the number of those that the event is dropped for.
pub publish_all : (ℕ → ℕ) → Event → List ℕ → List Channel → Option (ℕ × List Channel)
publish_all takes e [] chs = some (0, chs)
publish_all takes e (i ∷ is) chs = elim (get_elem? chs i) [
  | none ↦ none
  | some c ↦
      if c.is_closed
      then none
      else let (sent, c') = publish_one (takes i) e c in
        elim (publish_all takes e is (set chs i c')) [
          | none ↦ none
          | some r ↦ some ((if sent then 0 else 1) + r.0, r.1)
        ]
]

pub publish : (ℕ → ℕ) → Event → EventBus → Option EventBus
unfolding publish_all
publish takes e b =
    if b.closed
    then some (record b { dropped = b.dropped + 1 })
    else elim (publish_all takes e (subscribers_of e.event_type b) b.channels) [
      | none ↦ none
      | some r ↦
          some (record b { channels = r.1; published = b.published + 1; dropped = b.dropped + r.0 })
    ]

-- The channels of all subscribers.
pub ids : Subscribers → List ℕ
ids [] = []
ids ((t, subs) ∷ m) = subs ++ ids m

pub close_channels : List ℕ → List Channel → Option (List Channel)
unfolding close_channel
close_channels [] chs = some chs
close_channels (i ∷ is) chs = elim (close_channel i chs) [
  | none ↦ none
  | some chs' ↦ close_channels is chs'
]

pub close : EventBus → Option EventBus
unfolding close_channels ids
close b = if b.closed then some b else elim (close_channels (ids b.subscribers) b.channels) [
  | none ↦ none
  | some chs ↦ some (record b { closed = true; channels = chs; subscribers = [] })
]

-- The sum of the lengths of the channels' buffers.
queued : List ℕ → List Channel → ℕ
queued [] chs = 0
queued (i ∷ is) chs = elim (get_elem? chs i) [ none ↦ 0 | some c ↦ length c.buffer ] + queued is chs

pub record EventBusMetrics : Type 0 where
  pub subscribers : ℕ
  pub queue_size : ℕ
  pub published : ℕ
  pub dropped : ℕ
  pub closed : Bool

pub metrics : EventBus → EventBusMetrics
unfolding queued ids
metrics b = record {
  subscribers = length (ids b.subscribers);
  queue_size = queued (ids b.subscribers) b.channels;
  published = b.published;
  dropped = b.dropped;
  closed = b.closed;
}
