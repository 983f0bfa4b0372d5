-- ===== src/Workers/Bus/Open.antt =====
-- No operation of internal/workers/bus.go sends to a closed channel, or closes one twice: the
-- channels that are open.
use chainfx_payment_core.Common.{
  ℕ, ◌+◌, ◌≤◌, ◌≡◌, refl, ◌∙◌, Bool, true, false, not, List, [], ◌∷◌, ◌++◌, none, some, arith,
  if◌then◌else◌, ◌==◌, ==_iff, length, get_elem?, set,
}
use chainfx_payment_core.Common.Assoc.{count, text_key, nat_key}
use chainfx_payment_core.Workers.Bus.{
  Event, Channel, EventBus, ids, close_channel, close_channels, publish_all, publish_one, receive,
}

-- The channel is there, and is not closed.
unfoldable pub is_open : ℕ → List Channel → Bool
is_open i chs = elim (get_elem? chs i) [ none ↦ false | some c ↦ not c.is_closed ]

-- The channels of a list are open.
abbrev pub AllOpen : List ℕ → List Channel → Type 0
AllOpen is chs = (i : ℕ) → 1 ≤ count i is → is_open i chs ≡ true

-- None stands in the list twice.
abbrev pub AllOnce : List ℕ → Type 0
AllOnce is = (i : ℕ) → count i is ≤ 1

-- A channel stands at most once among the subscribers, and if it does it is open.
abbrev pub IsOpen : EventBus → Type 0
IsOpen b = AllOnce (ids b.subscribers) × AllOpen (ids b.subscribers) b.channels

pub found :
    (chs : List Channel) (i : ℕ)
    → is_open i chs ≡ true
    → (c : Channel) × (get_elem? chs i ≡ some c) × (c.is_closed ≡ false)
unfolding is_open
found [] i h = absurd (ground (arith, h))
found (x ∷ xs) ℕ.zero h = (x, refl, ground (arith, h))
found (x ∷ xs) (ℕ.suc i) h = found xs i h

is_open-set :
    (chs : List Channel) (i j : ℕ) (c c' : Channel)
    → get_elem? chs i ≡ some c
    → is_open j (set chs i c') ≡ (if i == j then not c'.is_closed else is_open j chs)
unfolding is_open
is_open-set [] i j c c' e = absurd (ground arith)
is_open-set (x ∷ xs) ℕ.zero ℕ.zero c c' e = refl
is_open-set (x ∷ xs) ℕ.zero (ℕ.suc j) c c' e = ground arith
is_open-set (x ∷ xs) (ℕ.suc i) ℕ.zero c c' e = ground arith
is_open-set (x ∷ xs) (ℕ.suc i) (ℕ.suc j) c c' e = ground (arith, is_open-set xs i j c c' e)

pub is_open-append :
    (chs : List Channel) (c : Channel) (j : ℕ)
    → is_open j chs ≡ true
    → is_open j (chs ++ c ∷ []) ≡ true
unfolding is_open
is_open-append [] c j h = absurd (ground (arith, h))
is_open-append (x ∷ xs) c ℕ.zero h = h
is_open-append (x ∷ xs) c (ℕ.suc j) h = is_open-append xs c j h

pub is_open-new :
    (chs : List Channel) (c : Channel) → is_open (length chs) (chs ++ c ∷ []) ≡ not c.is_closed
unfolding is_open
is_open-new [] c = refl
is_open-new (x ∷ xs) c = is_open-new xs c

pub is_open-length : (chs : List Channel) → is_open (length chs) chs ≡ false
unfolding is_open
is_open-length [] = refl
is_open-length (x ∷ xs) = is_open-length xs

close_found :
    (chs : List Channel) (i : ℕ) (c : Channel)
    → get_elem? chs i ≡ some c
    → c.is_closed ≡ false
    → close_channel i chs ≡ some (set chs i (record c { is_closed = true }))
unfolding close_channel
close_found chs i c e o = rw (close_channel, e, o)

pub close_channel-is_open :
    (chs : List Channel) (i : ℕ)
    → is_open i chs ≡ true
    → (chs' : List Channel) × (close_channel i chs ≡ some chs')
      × ((j : ℕ) → is_open j chs' ≡ (if i == j then false else is_open j chs))
unfolding close_channel
close_channel-is_open chs i h =
    let (c, e, o) = found chs i h in
    let c' = record c { is_closed = true } in
    (set chs i c', close_found chs i c e o, λ j. is_open-set chs i j c c' e)

-- A publication leaves every channel as open as it was.
pub publish_one-is_closed :
    (takes : ℕ) (e : Event) (c : Channel) → (publish_one takes e c).1.is_closed ≡ c.is_closed
unfolding publish_one receive
publish_one-is_closed takes e c = ground arith

is_open-found :
    (chs : List Channel) (i : ℕ) (c : Channel)
    → get_elem? chs i ≡ some c
    → is_open i chs ≡ not c.is_closed
unfolding is_open
is_open-found chs i c e = rw (is_open, e)

pub same-is_open :
    (chs : List Channel) (i j : ℕ) (c c' : Channel)
    → get_elem? chs i ≡ some c
    → c'.is_closed ≡ c.is_closed
    → is_open j (set chs i c') ≡ is_open j chs
same-is_open chs i j c c' e h =
    ground (arith, is_open-set chs i j c c' e, is_open-found chs i c e, ==_iff i j)

pub first : (i : ℕ) (is : List ℕ) → 1 ≤ count i (i ∷ is)
unfolding count
first i is = ground (arith, ==_iff i i)

pub rest : (i j : ℕ) (is : List ℕ) → count j is ≤ count j (i ∷ is)
unfolding count
rest i j is = ground arith

close_first :
    (i : ℕ) (is : List ℕ) (chs chs' r : List Channel)
    → close_channel i chs ≡ some chs'
    → close_channels is chs' ≡ some r
    → close_channels (i ∷ is) chs ≡ some r
unfolding close_channels
close_first i is chs chs' r e f = rw (close_channels, e, f)

pub publish_first :
    (takes : ℕ → ℕ) (e : Event) (i : ℕ) (is : List ℕ) (chs : List Channel) (c : Channel)
    (r : ℕ × List Channel)
    → get_elem? chs i ≡ some c
    → c.is_closed ≡ false
    → publish_all takes e is (set chs i (publish_one (takes i) e c).1) ≡ some r
    → publish_all takes e (i ∷ is) chs
      ≡ some ((if (publish_one (takes i) e c).0 then 0 else 1) + r.0, r.1)
unfolding publish_all
publish_first takes e i is chs c r f o g = simp (publish_all, f, o, g)

pub publish_all-is_open :
    (takes : ℕ → ℕ) (e : Event) (is : List ℕ) (chs : List Channel)
    → AllOpen is chs
    → (r : ℕ × List Channel) × (publish_all takes e is chs ≡ some r)
      × ((j : ℕ) → is_open j r.1 ≡ is_open j chs)
unfolding publish_all
publish_all-is_open takes e [] chs h = ((0, chs), refl, λ j. refl)
publish_all-is_open takes e (i ∷ is) chs h =
    let (c, f, o) = found chs i (h i (first i is)) in
    let c' = (publish_one (takes i) e c).1 in
    let k : (j : ℕ) → is_open j (set chs i c') ≡ is_open j chs =
      λ j. same-is_open chs i j c c' f (publish_one-is_closed (takes i) e c) in
    let (r, g, l) =
      publish_all-is_open takes e is (set chs i c')
        (λ j m. k j ∙ h j (omega (arith, rest i j is, m))) in
    (
      ((if (publish_one (takes i) e c).0 then 0 else 1) + r.0, r.1),
      publish_first takes e i is chs c r f o g,
      λ j. l j ∙ k j,
    )

pub close_channels-is_open :
    (is : List ℕ) (chs : List Channel)
    → AllOnce is
    → AllOpen is chs
    → (chs' : List Channel) × (close_channels is chs ≡ some chs')
unfolding close_channels count
close_channels-is_open [] chs h o = (chs, refl)
close_channels-is_open (i ∷ is) chs h o =
    let (chs', e, k) = close_channel-is_open chs i (o i (first i is)) in
    let (r, f) =
      close_channels-is_open is chs' (λ j. ground (arith, h j))
        (λ j l. ground (arith, h j, o j, k j, ==_iff i j)) in
    (r, close_first i is chs chs' r e f)
