-- ===== src/Mobile/Idempotency/Exclusive.antt =====
-- The invariant of the interleaved requests of internal/mobile/idempotency.go.
use chainfx_payment_core.Common.{
  ◌≤◌, ◌≡◌, ap, ◌∙◌, false, List, [], ◌∷◌, none, some, arith, Bool-cases, inl, inr, ◌==◌,
}
use chainfx_payment_core.Common.Assoc.{count, remove_first, count-remove_first, text_pair_key}
use mathlib.Core.Path.{subst}
use chainfx_payment_core.Common.Text.{Text}
use chainfx_payment_core.Mobile.Idempotency.{
  Operations, processing, Answer, proceed, run_idempotency_transaction, finish,
}
use chainfx_payment_core.Mobile.Idempotency.Steps.{
  Server, Event, arriving, ending, started, apply, run, status_in,
}
use chainfx_payment_core.Mobile.Idempotency.Tells.{Tells, transaction-Tells, key_refl}
use chainfx_payment_core.Mobile.Idempotency.Writes.{
  Writes, transaction-Writes, finish-Writes, Writes-others,
}

status_others :
    (k j : Text × Text) (before after : Operations)
    → Writes k before after
    → text_pair_key.beq k j ≡ false
    → status_in j after ≡ status_in j before
unfolding status_in
status_others k j before after w h =
    ap (λ r. elim r [ none ↦ none | some row ↦ some row.status ])
      (Writes-others k j before after w h)

-- What the invariant says of one key.
abbrev pub Exclusive : Text × Text → List (Text × Text) → Operations → Type 0
Exclusive j running table =
    (count j running ≤ 1) × (1 ≤ count j running → status_in j table ≡ some processing)

-- At most one handler runs for a key, and while it runs the row is being processed.
unfoldable pub IsExclusive : Server → Type 0
IsExclusive s = (j : Text × Text) → Exclusive j s.running s.table

module _ (k : Text × Text) (t : Operations) (running : List (Text × Text)) where
  started_own :
      (p : Answer × Operations)
      → Tells k t p
      → Exclusive k running t
      → Exclusive k (started k p.0 running) p.1
  unfolding started Tells count
  started_own (proceed, after) (fresh, taken) (one, busy) = ground (arith, key_refl k)
  started_own (Answer.unavailable, after) same h = (h.0, λ l. same ∙ h.1 l)
  started_own (Answer.internal_error, after) same h = (h.0, λ l. same ∙ h.1 l)
  started_own (Answer.in_progress, after) same h = (h.0, λ l. same ∙ h.1 l)
  started_own (Answer.replayed ref at, after) same h = (h.0, λ l. same ∙ h.1 l)

  started_other :
      (j : Text × Text) (p : Answer × Operations)
      → text_pair_key.beq k j ≡ false
      → status_in j p.1 ≡ status_in j t
      → Exclusive j running t
      → Exclusive j (started k p.0 running) p.1
  unfolding started count
  started_other j (proceed, after) other same h =
      ground (arith, text_pair_key.beq_iff k j, text_pair_key.beq_iff j k)
  started_other j (Answer.unavailable, after) other same h = (h.0, λ l. same ∙ h.1 l)
  started_other j (Answer.internal_error, after) other same h = (h.0, λ l. same ∙ h.1 l)
  started_other j (Answer.in_progress, after) other same h = (h.0, λ l. same ∙ h.1 l)
  started_other j (Answer.replayed ref at, after) other same h = (h.0, λ l. same ∙ h.1 l)

  ended_own :
      (after : Operations) → Exclusive k running t → Exclusive k (remove_first k running) after
  ended_own after h = ground (arith, h, count-remove_first k running k, key_refl k)

  ended_other :
      (j : Text × Text) (after : Operations)
      → text_pair_key.beq k j ≡ false
      → status_in j after ≡ status_in j t
      → Exclusive j running t
      → Exclusive j (remove_first k running) after
  ended_other j after other same h = ground (arith, h, count-remove_first k running j)

-- A case for the key of a step, and one for every other key.
pub by_key {ℓ} :
    (k j : Text × Text) (P : Text × Text → Type ℓ)
    → P k
    → (text_pair_key.beq k j ≡ false → P j)
    → P j
by_key k j P own other = elim (Bool-cases (text_pair_key.beq k j)) [
  | inl e ↦ subst P ((text_pair_key.beq_iff k j).0 e) own
  | inr e ↦ other e
]

pub apply-IsExclusive : (e : Event) (s : Server) → IsExclusive s → IsExclusive (apply e s)
unfolding apply IsExclusive
apply-IsExclusive (arriving fault k) s h = λ j.
    let p = run_idempotency_transaction fault k s.table in
    by_key k j (λ j. Exclusive j (started k p.0 s.running) p.1)
      (started_own k s.table s.running p (transaction-Tells fault k s.table) (h k))
      (λ other.
        started_other k s.table s.running j p other
          (status_others k j s.table p.1 (transaction-Writes fault k s.table) other) (h j))
apply-IsExclusive (ending now status body marked k) s h =
    elim (Bool-cases (count k s.running == 0)) [
      | inl e ↦ rw e h
      | inr e ↦ rw e (λ j.
          let after = finish now status body marked k s.table in
          by_key k j (λ j. Exclusive j (remove_first k s.running) after)
            (ended_own k s.table s.running after (h k))
            (λ other.
              ended_other k s.table s.running j after other
                (status_others k j s.table after (finish-Writes now status body marked k s.table)
                  other)
                (h j)))
    ]

pub run-IsExclusive : (es : List Event) (s : Server) → IsExclusive s → IsExclusive (run es s)
unfolding run
run-IsExclusive [] s h = h
run-IsExclusive (e ∷ es) s h = run-IsExclusive es (apply e s) (apply-IsExclusive e s h)

abbrev pub new_server : Server
new_server = record { table = []; running = [] }

-- Whatever the requests, the faults of the database and the lost marks, at most one handler runs for
-- a key of a user at a time, and while one runs the row of the key is being processed.
pub one_handler : (es : List Event) → IsExclusive (run es new_server)
unfolding IsExclusive count
one_handler es = run-IsExclusive es new_server (λ j. (omega arith, λ l. absurd (omega arith)))

pub at_key : (j : Text × Text) (s : Server) → IsExclusive s → Exclusive j s.running s.table
unfolding IsExclusive
at_key j s h = h j
