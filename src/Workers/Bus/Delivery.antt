-- ===== src/Workers/Bus/Delivery.antt =====
-- Which subscribers of internal/workers/bus.go get an event, and in what order.
use chainfx_payment_core.Common.{
  ℕ, ◌+◌, ◌≤◌, ◌≡◌, refl, ap, ◌∙◌, sym, false, not, ◌&&◌, List, [], ◌∷◌, ◌++◌, Option, none, some,
  arith, if◌then◌else◌, ◌==◌, ==_iff, Bool-cases, Option-cases, inl, inr, get_elem?, set, take,
  drop, take-append-drop, append-nil, append_assoc,
}
use chainfx_payment_core.Common.Assoc.{count, nat_key}
use chainfx_payment_core.Workers.Bus.{
  Event, Channel, EventBus, subscribers_of, has_room, is_critical_money_event, publish, publish_all,
  publish_one, receive,
}
use chainfx_payment_core.Workers.Bus.Log.{log, log_in, log_of, accepts, accepts_at, missed}
use chainfx_payment_core.Workers.Bus.Ids.{subscribers-ids}
use chainfx_payment_core.Workers.Bus.Safe.{publish_open}
use chainfx_payment_core.Workers.Bus.Open.{
  is_open, AllOpen, AllOnce, IsOpen, found, publish_first, first, rest, same-is_open,
  publish_one-is_closed,
}

receive-log : (n : ℕ) (c : Channel) → log (receive n c) ≡ log c
unfolding receive
receive-log n c =
    append_assoc c.taken (take n c.buffer) (drop n c.buffer)
    ∙ ap (λ es. c.taken ++ es) (take-append-drop n c.buffer)

put-log :
    (e : Event) (c c' : Channel)
    → log c' ≡ log c
    → c'.taken ++ (c'.buffer ++ e ∷ []) ≡ log c ++ e ∷ []
put-log e c c' h = sym (append_assoc c'.taken c'.buffer (e ∷ [])) ∙ ap (λ es. es ++ e ∷ []) h

publish_one-log :
    (takes : ℕ) (e : Event) (c : Channel)
    → log (publish_one takes e c).1 ≡ log c ++ (if accepts takes e c then e ∷ [] else [])
unfolding publish_one accepts
publish_one-log takes e c = elim (Bool-cases (has_room c)) [
  | inl h ↦ rw (publish_one, accepts, h) (put-log e c c refl)
  | inr h ↦ elim (Bool-cases (is_critical_money_event e.event_type)) [
    | inl k ↦ elim (Bool-cases (has_room (receive takes c))) [
      | inl l ↦
          rw (publish_one, accepts, h, k, l) (put-log e c (receive takes c) (receive-log takes c))
      | inr l ↦ rw (publish_one, accepts, h, k, l) (receive-log takes c ∙ sym (append-nil (log c)))
    ]
    | inr k ↦ rw (publish_one, accepts, h, k) (sym (append-nil (log c)))
  ]
]

publish_one-accepts :
    (takes : ℕ) (e : Event) (c : Channel) → (publish_one takes e c).0 ≡ accepts takes e c
unfolding publish_one accepts
publish_one-accepts takes e c = ground arith

sent : (ℕ → ℕ) → Event → List Channel → ℕ → Option Channel
sent takes e chs j = elim (get_elem? chs j) [
  | none ↦ none
  | some c ↦ some (publish_one (takes j) e c).1
]

get_elem?-set :
    (chs : List Channel) (i j : ℕ) (c c' : Channel)
    → get_elem? chs i ≡ some c
    → get_elem? (set chs i c') j ≡ (if i == j then some c' else get_elem? chs j)
get_elem?-set [] i j c c' e = absurd (ground (arith, e))
get_elem?-set (x ∷ xs) ℕ.zero ℕ.zero c c' e = refl
get_elem?-set (x ∷ xs) ℕ.zero (ℕ.suc j) c c' e = ground arith
get_elem?-set (x ∷ xs) (ℕ.suc i) ℕ.zero c c' e = ground arith
get_elem?-set (x ∷ xs) (ℕ.suc i) (ℕ.suc j) c c' e = ground (arith, get_elem?-set xs i j c c' e)

alone : (i : ℕ) (is : List ℕ) → count i (i ∷ is) ≤ 1 → count i is ≡ 0
unfolding count
alone i is h = ground (arith, h, ==_iff i i)

module _ (takes : ℕ → ℕ) (e : Event) where
  sent-same :
      (chs chs' : List Channel) (i : ℕ)
      → get_elem? chs i ≡ get_elem? chs' i
      → sent takes e chs i ≡ sent takes e chs' i
  unfolding sent
  sent-same chs chs' i h = rw (sent, h) refl

  accepts_at-same :
      (chs chs' : List Channel) (i : ℕ)
      → get_elem? chs i ≡ get_elem? chs' i
      → accepts_at takes e chs i ≡ accepts_at takes e chs' i
  unfolding accepts_at
  accepts_at-same chs chs' i h = rw (accepts_at, h) refl

  sent_found :
      (chs : List Channel) (i : ℕ) (c : Channel)
      → get_elem? chs i ≡ some c
      → sent takes e chs i ≡ some (publish_one (takes i) e c).1
  unfolding sent
  sent_found chs i c h = rw (sent, h) refl

  accepts_at-found :
      (chs : List Channel) (i : ℕ) (c : Channel)
      → get_elem? chs i ≡ some c
      → accepts_at takes e chs i ≡ accepts (takes i) e c
  unfolding accepts_at
  accepts_at-found chs i c h = rw (accepts_at, h) refl

  sent_step :
      (chs : List Channel) (i j : ℕ) (is : List ℕ) (c c' : Channel) (x : Option Channel)
      → get_elem? chs i ≡ some c
      → c' ≡ (publish_one (takes i) e c).1
      → count j (i ∷ is) ≤ 1
      → x ≡ (if count j is == 0 then get_elem? (set chs i c') j else sent takes e (set chs i c') j)
      → x ≡ (if count j (i ∷ is) == 0 then get_elem? chs j else sent takes e chs j)
  unfolding count
  sent_step chs i j is c c' x f q u h = elim (Bool-cases (i == j)) [
    | inl m ↦
        let n : i ≡ j = ground (arith, m, ==_iff i j) in
        let v : sent takes e chs j ≡ some c' =
          ap (λ (k : ℕ). sent takes e chs k) (sym n) ∙ sent_found chs i c f ∙ ap some (sym q) in
        ground (arith, u, m, h, get_elem?-set chs i j c c' f, v, ==_iff j i, ==_iff i j)
    | inr m ↦ ground (
      arith,
      m,
      h,
      get_elem?-set chs i j c c' f,
      sent-same (set chs i c') chs j (ground (arith, m, get_elem?-set chs i j c c' f)),
      ==_iff i j,
      ==_iff j i,
    )
  ]

  elsewhere :
      (is : List ℕ) (chs : List Channel) (i : ℕ) (c c' : Channel)
      → get_elem? chs i ≡ some c
      → count i is ≡ 0
      → missed takes e is (set chs i c') ≡ missed takes e is chs
  unfolding missed count accepts_at
  elsewhere [] chs i c c' f h = refl
  elsewhere (k ∷ is) chs i c c' f h = ground (
    arith,
    h,
    elsewhere is chs i c c' f (ground (arith, h)),
    accepts_at-same (set chs i c') chs k
        (ground (arith, h, get_elem?-set chs i k c c' f, ==_iff i k)),
  )

  -- The channels after a publication, and the number of those that it misses.
  publish_all-sent :
      (is : List ℕ) (chs : List Channel)
      → AllOnce is
      → AllOpen is chs
      → (r : ℕ × List Channel) × (publish_all takes e is chs ≡ some r)
        × ((j : ℕ)
            → get_elem? r.1 j ≡ (if count j is == 0 then get_elem? chs j else sent takes e chs j))
        × (r.0 ≡ missed takes e is chs)
  unfolding publish_all missed count
  publish_all-sent [] chs u h = ((0, chs), refl, (λ j. refl), refl)
  publish_all-sent (i ∷ is) chs u h =
      let (c, f, o) = found chs i (h i (first i is)) in
      let c' = (publish_one (takes i) e c).1 in
      let k : (j : ℕ) → is_open j (set chs i c') ≡ is_open j chs =
        λ j. same-is_open chs i j c c' f (publish_one-is_closed (takes i) e c) in
      let (r, g, l, n) =
        publish_all-sent is (set chs i c') (λ j. omega (arith, u j, rest i j is))
          (λ j m. k j ∙ h j (omega (arith, rest i j is, m))) in
      (
        ((if (publish_one (takes i) e c).0 then 0 else 1) + r.0, r.1),
        publish_first takes e i is chs c r f o g,
        (λ j. sent_step chs i j is c c' (get_elem? r.1 j) f refl (u j) (l j)),
        ground (
          arith,
          n,
          accepts_at-found chs i c f,
          publish_one-accepts (takes i) e c,
          elsewhere is chs i c c' f (alone i is (u i)),
        ),
      )

  missing :
      (b b' : EventBus) (i n : ℕ)
      → get_elem? b.channels i ≡ none
      → get_elem? b'.channels i
        ≡ (if n == 0 then get_elem? b.channels i else sent takes e b.channels i)
      → get_elem? b'.channels i ≡ none
  unfolding sent
  missing b b' i n f h = elim (Bool-cases (n == 0)) [
    | inl m ↦ ground (arith, m, f, h)
    | inr m ↦ ground (arith, m, h, sent-same b.channels [] i f)
  ]

  -- What is in the log of a channel after a publication, by what the channel has become.
  log-sent :
      (b b' : EventBus) (i n : ℕ)
      → get_elem? b'.channels i
        ≡ (if n == 0 then get_elem? b.channels i else sent takes e b.channels i)
      → log_of i b'
        ≡ log_of i b ++ (if not (n == 0) && accepts_at takes e b.channels i then e ∷ [] else [])
  unfolding sent accepts_at
  log-sent b b' i n h = elim (Option-cases (get_elem? b.channels i)) [
    | inl f ↦ rw (missing b b' i n f h, f, accepts_at-same b.channels [] i f) (ground arith)
    | inr (c, f) ↦ elim (Bool-cases (n == 0)) [
      | inl m ↦
          ap log_in {x = get_elem? b'.channels i} {y = some c} (ground (arith, m, h, f))
          ∙ rw (f, m) (sym (append-nil (log c)))
      | inr m ↦
          ap log_in {x = get_elem? b'.channels i} {y = some (publish_one (takes i) e c).1}
            (ground (arith, m, h, sent_found b.channels i c f))
          ∙ publish_one-log (takes i) e c
          ∙ rw (f, m, accepts_at-found b.channels i c f) refl
    ]
  ]

  -- A publication on a bus that is not closed returns. It appends the event to what each receiver
  -- has been sent if the channel subscribes to the event's type and takes the event, in the wait of a
  -- critical event at the latest, and to nothing else; it counts as dropped the subscribers that do
  -- not take it.
  pub publish-log :
      (b : EventBus)
      → IsOpen b
      → b.closed ≡ false
      → (b' : EventBus) × (publish takes e b ≡ some b')
        × ((i : ℕ)
            → log_of i b'
              ≡ log_of i b
                ++ (if not (count i (subscribers_of e.event_type b) == 0)
                      && accepts_at takes e b.channels i
                    then e ∷ []
                    else []))
        × (b'.dropped ≡ b.dropped + missed takes e (subscribers_of e.event_type b) b.channels)
  publish-log b h o =
      let subs = subscribers_of e.event_type b in
      let (r, f, k, n) =
        publish_all-sent subs b.channels
          (λ i. omega (arith, h.0 i, subscribers-ids i e.event_type b.subscribers))
          (λ i m. h.1 i (omega (arith, m, subscribers-ids i e.event_type b.subscribers))) in
      let b' = record b {
        channels = r.1;
        published = b.published + 1;
        dropped = b.dropped + r.0;
      } in
      (
        b',
        publish_open takes e b r o f,
        (λ i. log-sent b b' i (count i subs) (k i)),
        ap (λ d. b.dropped + d) n,
      )
