-- ===== src/Workers/Bus/Safe.antt =====
-- No operation of internal/workers/bus.go sends to a closed channel, or closes one twice.
use chainfx_payment_core.Common.{
  ℕ, ◌+◌, ◌≤◌, ◌≡◌, refl, ap, ◌∙◌, true, false, List, [], ◌∷◌, ◌++◌, Option, some, arith,
  if◌then◌else◌, ◌==◌, ==_iff, Bool-cases, Option-cases, inl, inr, length, get_elem?,
}
use chainfx_payment_core.Common.Assoc.{
  insert, count, remove_first, count-append, count-remove_first, text_key, nat_key,
}
use chainfx_payment_core.Common.Text.{Text}
use chainfx_payment_core.Workers.Bus.{
  Event, Channel, EventBus, new_event_bus, subscribers_of, ids, subscribe, unsubscribe, tidy, close,
  publish, publish_all, receive,
}
use chainfx_payment_core.Workers.Bus.Steps.{
  Operation, subscribing, unsubscribing, publishing, receiving, closing, apply, take_from, run,
}
use chainfx_payment_core.Workers.Bus.Ids.{ids-insert, ids-remove, subscribers-ids}
use chainfx_payment_core.Workers.Bus.Open.{
  is_open, IsOpen, same-is_open, is_open-append, is_open-new, is_open-length, close_channel-is_open,
  publish_all-is_open, close_channels-is_open,
}

-- The operation returns, and keeps the invariant.
Safely : Option EventBus → Type 0
Safely r = (b : EventBus) × (r ≡ some b) × IsOpen b

fewer :
    (b b' : EventBus)
    → IsOpen b
    → ((i : ℕ) → count i (ids b'.subscribers) ≤ count i (ids b.subscribers))
    → ((i : ℕ) → is_open i b'.channels ≡ is_open i b.channels)
    → IsOpen b'
fewer b b' h k l = (λ i. omega (arith, h.0 i, k i), λ i m. l i ∙ h.1 i (omega (arith, m, k i)))

tidy-ids :
    (t : Text) (b : EventBus) (i : ℕ)
    → count i (ids (tidy t b).subscribers) ≤ count i (ids b.subscribers)
unfolding tidy
tidy-ids t b i = elim (Bool-cases (length (subscribers_of t b) == 0)) [
  | inl e ↦ rw (e) (ids-remove i t b.subscribers)
  | inr e ↦ rw (e) (omega arith)
]

tidy-channels : (t : Text) (b : EventBus) → (tidy t b).channels ≡ b.channels
unfolding tidy
tidy-channels t b = ground arith

tidy-IsOpen : (t : Text) (b : EventBus) → IsOpen b → IsOpen (tidy t b)
tidy-IsOpen t b h = fewer b (tidy t b) h (tidy-ids t b) (λ i. ap (is_open i) (tidy-channels t b))

-- The channel that a new subscription makes does not stand among the subscribers yet.
not_yet : (b : EventBus) → IsOpen b → count (length b.channels) (ids b.subscribers) ≡ 0
not_yet b h = ground (arith, h.1 (length b.channels), is_open-length b.channels)

subscribed :
    (t : Text) (b : EventBus)
    → IsOpen b
    → (i : ℕ)
    → count i (ids (insert t (subscribers_of t b ++ length b.channels ∷ []) b.subscribers))
      ≡ (if i == length b.channels then 1 else 0) + count i (ids b.subscribers)
unfolding count
subscribed t b h i = ground (
  arith,
  ids-insert i t (subscribers_of t b ++ length b.channels ∷ []) b.subscribers,
  count-append i (subscribers_of t b) (length b.channels ∷ []),
)

subscribe-IsOpen : (t : Text) (b : EventBus) → IsOpen b → IsOpen (subscribe t b).1
unfolding subscribe
subscribe-IsOpen t b h = elim (Bool-cases b.closed) [
  | inl e ↦ rw (e) (
    h.0,
    λ i m.
        is_open-append b.channels (record { buffer = []; taken = []; is_closed = true }) i
          (h.1 i m),
  )
  | inr e ↦ rw (e) (
    λ i. ground (arith, subscribed t b h i, not_yet b h, h.0 i, ==_iff i (length b.channels)),
    λ i m. elim (Bool-cases (i == length b.channels)) [
      | inl f ↦
          ap
            (λ (k : ℕ).
              is_open k (b.channels ++ record { buffer = []; taken = []; is_closed = false } ∷ []))
            (ground (arith, f, ==_iff i (length b.channels)))
          ∙ is_open-new b.channels (record { buffer = []; taken = []; is_closed = false })
      | inr f ↦
          is_open-append b.channels (record { buffer = []; taken = []; is_closed = false }) i
            (h.1 i (ground (arith, m, f, subscribed t b h i)))
    ],
  )
]

take_from-IsOpen : (i n : ℕ) (b : EventBus) → IsOpen b → IsOpen (take_from i n b)
unfolding take_from receive
take_from-IsOpen i n b h = elim (Option-cases (get_elem? b.channels i)) [
  | inl e ↦ rw (take_from, e) h
  | inr (c, e) ↦
      rw (take_from, e) (h.0, λ j m. same-is_open b.channels i j c (receive n c) e refl ∙ h.1 j m)
]

removed :
    (t : Text) (i : ℕ) (b : EventBus) (j : ℕ)
    → 1 ≤ count i (subscribers_of t b)
    → count j (ids (insert t (remove_first i (subscribers_of t b)) b.subscribers))
        + (if i == j then 1 else 0)
      ≡ count j (ids b.subscribers)
removed t i b j h = ground (
  arith,
  ids-insert j t (remove_first i (subscribers_of t b)) b.subscribers,
  count-remove_first i (subscribers_of t b) j,
  subscribers-ids j t b.subscribers,
  h,
  ==_iff i j,
)

-- The bus when the channel is closed, before the entry is looked at once more.
unsubscribed : Text → ℕ → EventBus → List Channel → EventBus
unsubscribed t i b chs = record b {
  channels = chs;
  subscribers = insert t (remove_first i (subscribers_of t b)) b.subscribers;
}

unsubscribed-IsOpen :
    (t : Text) (i : ℕ) (b : EventBus) (chs : List Channel)
    → IsOpen b
    → 1 ≤ count i (subscribers_of t b)
    → ((j : ℕ) → is_open j chs ≡ (if i == j then false else is_open j b.channels))
    → IsOpen (unsubscribed t i b chs)
unfolding unsubscribed
unsubscribed-IsOpen t i b chs h m k = (
  λ j. ground (arith, h.0 j, removed t i b j m),
  λ j n. ground (arith, n, k j, h.0 j, h.1 j, removed t i b j m),
)

unsubscribe-Safely : (t : Text) (i : ℕ) (b : EventBus) → IsOpen b → Safely (unsubscribe t i b)
unfolding Safely unsubscribe tidy unsubscribed
unsubscribe-Safely t i b h = elim (Bool-cases (count i (subscribers_of t b) == 0)) [
  | inl e ↦ (tidy t b, rw (unsubscribe, e), tidy-IsOpen t b h)
  | inr e ↦
      let m : 1 ≤ count i (subscribers_of t b) =
        ground (arith, e, ==_iff (count i (subscribers_of t b)) 0) in
      let (chs, f, k) =
        close_channel-is_open b.channels i
          (h.1 i (omega (arith, m, subscribers-ids i t b.subscribers))) in
      (
        tidy t (unsubscribed t i b chs),
        rw (unsubscribe, e, f),
        tidy-IsOpen t (unsubscribed t i b chs) (unsubscribed-IsOpen t i b chs h m k),
      )
]

pub publish_open :
    (takes : ℕ → ℕ) (e : Event) (b : EventBus) (r : ℕ × List Channel)
    → b.closed ≡ false
    → publish_all takes e (subscribers_of e.event_type b) b.channels ≡ some r
    → publish takes e b
      ≡ some (record b { channels = r.1; published = b.published + 1; dropped = b.dropped + r.0 })
unfolding publish
publish_open takes e b r f g = simp (publish, f, g)

publish-Safely : (takes : ℕ → ℕ) (e : Event) (b : EventBus) → IsOpen b → Safely (publish takes e b)
unfolding Safely publish
publish-Safely takes e b h = elim (Bool-cases b.closed) [
  | inl f ↦ (record b { dropped = b.dropped + 1 }, rw (publish, f), h)
  | inr f ↦
      let (r, g, k) =
        publish_all-is_open takes e (subscribers_of e.event_type b) b.channels
          (λ i m. h.1 i (omega (arith, m, subscribers-ids i e.event_type b.subscribers))) in
      (
        record b { channels = r.1; published = b.published + 1; dropped = b.dropped + r.0 },
        publish_open takes e b r f g,
        (h.0, λ i m. k i ∙ h.1 i m),
      )
]

close-Safely : (b : EventBus) → IsOpen b → Safely (close b)
unfolding Safely ids count close
close-Safely b h = elim (Bool-cases b.closed) [
  | inl f ↦ (b, rw (close, f), h)
  | inr f ↦
      let (chs, g) = close_channels-is_open (ids b.subscribers) b.channels h.0 h.1 in
      (
        record b { closed = true; channels = chs; subscribers = [] },
        rw (close, f, g),
        ((λ i. omega arith), λ i m. absurd (omega (arith, m))),
      )
]

apply-Safely : (o : Operation) (b : EventBus) → IsOpen b → Safely (apply o b)
unfolding apply Safely
apply-Safely (subscribing t) b h = (_, refl, subscribe-IsOpen t b h)
apply-Safely (unsubscribing t i) b h = unsubscribe-Safely t i b h
apply-Safely (publishing takes e) b h = publish-Safely takes e b h
apply-Safely (receiving i n) b h = (_, refl, take_from-IsOpen i n b h)
apply-Safely closing b h = close-Safely b h

run-Safely : (os : List Operation) (b : EventBus) → IsOpen b → Safely (run os b)
unfolding run Safely
run-Safely [] b h = (b, refl, h)
run-Safely (o ∷ os) b h =
    let (b', e, k) = apply-Safely o b h in
    let (c, f, l) = run-Safely os b' k in (c, rw (run, e, f), l)

-- Whatever happens to a new bus, in any order, no operation panics: none sends to a closed channel
-- or closes a channel twice. Afterwards no channel stands twice among the subscribers, and those
-- that do are open.
pub never_panics :
    (os : List Operation) → (b : EventBus) × (run os new_event_bus ≡ some b) × IsOpen b
unfolding Safely ids count
never_panics os =
    run-Safely os new_event_bus ((λ i. omega arith), (λ i m. absurd (omega (arith, m))))
