-- ===== src/Signer/Custody/Cooldown.antt =====
-- How long a lock of signer/custody_guard.go lasts.
use chainfx_payment_core.Common.{
  ℕ, zero, suc, ◌+◌, ◌≤◌, ◌<◌, ◌≡◌, refl, Bool, true, false, List, [], ◌∷◌, Option, none, some,
  Result, ok, err, arith, inl, inr, Bool-cases,
}
use chainfx_payment_core.Common.Int.{pos_part}
use chainfx_payment_core.Common.Text.{Text, All, codes}
use chainfx_payment_core.Signer.Custody.{
  CustodyGuard, CustodyIncident, SignerStore, lock, active_custody_incident, open_custody_incident,
  record_custody_event, record_event, with_store, next_call, cooldown_of, is_cooling, is_shadow,
  check_cooldown, resolve_incident, open_guard, UnlockError, store_failed, cooldown_active,
}

-- A lock, an event of the scanner, or one of the three parts of somebody's attempt to unlock.
pub data Event : Type 0 where
  locking : ℕ → Text → Event
  noting : Text → Text → Text → Text → Event
  checking : ℕ → Event
  resolving : Event
  opening : Text → Event

-- The guard, how many attempts have to resolve an incident next, and how many have only to open it.
pub record Watch : Type 0 where
  pub guard : CustodyGuard
  pub checked : ℕ
  pub cleared : ℕ

-- What the first part of an attempt leaves.
abbrev pub checked_with : Watch → Result UnlockError Bool × CustodyGuard → Watch
checked_with r (err e, g) = record r { guard = g }
checked_with r (ok true, g) = record r { guard = g; checked = r.checked + 1 }
checked_with r (ok false, g) = record r { guard = g; cleared = r.cleared + 1 }

-- What the second part leaves, where `n` other attempts are still to come to it.
abbrev pub resolved_with : Watch → ℕ → Option UnlockError × CustodyGuard → Watch
resolved_with r n (some e, g) = record r { guard = g; checked = n }
resolved_with r n (none, g) = record { guard = g; checked = n; cleared = r.cleared + 1 }

unfoldable pub apply : Event → Watch → Watch
apply (locking now reason) r = record r { guard = lock now reason r.guard }
apply (noting kind reason tx_hash wallet) r = record r {
  guard = record_event kind reason tx_hash wallet r.guard;
}
apply (checking now) r = checked_with r (check_cooldown now r.guard)
apply resolving r = elim r.checked [
  | zero ↦ r
  | suc n ↦ resolved_with r n (resolve_incident r.guard)
]
apply (opening note) r = elim r.cleared [
  | zero ↦ r
  | suc n ↦ record r { guard = open_guard note r.guard; cleared = n }
]

unfoldable pub run : List Event → Watch → Watch
unfolding apply
run [] r = r
run (e ∷ es) r = run es (apply e r)

-- Somebody who asks for the incident does so in this time.
abbrev pub Within : ℕ → ℕ → Event → Type 0
Within from until (locking now reason) = Unit
Within from until (noting kind reason tx_hash wallet) = Unit
Within from until (checking now) = (from ≤ now) × (now < until)
Within from until resolving = Unit
Within from until (opening note) = Unit

-- The guard is locked, and its store has this incident.
Held : ℕ → CustodyIncident → CustodyGuard → Type 0
Held d incident g =
    (g.locked ≡ true)
    × ((s : SignerStore) × (g.store ≡ some s) × (s.incident ≡ some incident))
    × (pos_part (cooldown_of g) ≡ d)

-- The guard is held, and no attempt to unlock has been past the cooldown.
HeldWatch : ℕ → CustodyIncident → Watch → Type 0
HeldWatch d incident r = Held d incident r.guard × (r.checked ≡ 0) × (r.cleared ≡ 0)

module _ (d : ℕ) (incident : CustodyIncident) where
  -- A call of the store that keeps the incident keeps the lock.
  with_store-Held :
      (f : SignerStore → SignerStore) (g : CustodyGuard)
      → ((s : SignerStore) → s.incident ≡ some incident → (f s).incident ≡ some incident)
      → Held d incident g
      → Held d incident (with_store f g)
  unfolding Held with_store
  with_store-Held f g keeps (locked, (s, e, i), c) =
      rw (e, with_store) (locked, (f s, refl, keeps s i), c)

  recorded :
      (e : _) (s : SignerStore)
      → s.incident ≡ some incident
      → (record_custody_event e s).incident ≡ some incident
  unfolding record_custody_event next_call
  recorded e s h = ground arith

  reopened :
      (now : ℕ) (reason mode : Text) (s : SignerStore)
      → s.incident ≡ some incident
      → (open_custody_incident now reason mode s).incident ≡ some incident
  unfolding open_custody_incident next_call
  reopened now reason mode s h = ground (arith, h)

  record_event-Held :
      (kind reason tx wallet : Text) (g : CustodyGuard)
      → Held d incident g
      → Held d incident (record_event kind reason tx wallet g)
  unfolding record_event
  record_event-Held kind reason tx wallet g h =
      with_store-Held (record_custody_event _) g (recorded _) h

  lock-Held :
      (now : ℕ) (reason : Text) (g : CustodyGuard)
      → Held d incident g
      → Held d incident (lock now reason g)
  unfolding lock
  lock-Held now reason g h =
      let g' = record_event (codes "signer_locked") reason [] [] g in
      let h' = record_event-Held (codes "signer_locked") reason [] [] g h in
      elim (Bool-cases (is_shadow g)) [
        | inl b ↦ rw (b, lock) h'
        | inr b ↦
            rw (b, lock)
              (with_store-Held (open_custody_incident now reason _)
                (record g' { locked = true; reason = reason }) (reopened now reason _)
                (unfold Held in (refl, h'.1, h'.2)))
      ]

  still_cooling :
      (now : ℕ) (g : CustodyGuard)
      → pos_part (cooldown_of g) ≡ d
      → incident.created_at ≤ now
      → now < incident.created_at + d
      → is_cooling now g incident ≡ true
  unfolding is_cooling
  still_cooling now g c l u = rw c (ground arith)

  -- An attempt that asks for the incident is refused.
  Refused : Result UnlockError Bool × CustodyGuard → Type 0
  Refused r = ((e : UnlockError) × (r.0 ≡ err e)) × Held d incident r.1

  check_cooldown-Refused :
      (now : ℕ) (g : CustodyGuard)
      → incident.created_at ≤ now
      → now < incident.created_at + d
      → Held d incident g
      → Refused (check_cooldown now g)
  unfolding check_cooldown active_custody_incident next_call Refused Held
  check_cooldown-Refused now g l u (locked, (s, e, i), c) = elim (Bool-cases (next_call s).0) [
    | inl b ↦
        rw (e, b, check_cooldown, active_custody_incident)
          ((store_failed, refl), (locked, ((next_call s).1, refl, i), c))
    | inr b ↦
        let cooling = still_cooling now g c l u in
        rw (e, check_cooldown)
          (rw (b, i, check_cooldown, active_custody_incident)
            (rw cooling ((cooldown_active, refl), (locked, ((next_call s).1, refl, i), c))))
  ]

  checked-HeldWatch :
      (r : Watch) (p : Result UnlockError Bool × CustodyGuard)
      → Refused p
      → HeldWatch d incident r
      → HeldWatch d incident (checked_with r p)
  unfolding Refused HeldWatch
  checked-HeldWatch r (err x, g) (refused, held) h = (held, h.1, h.2)
  checked-HeldWatch r (ok b, g) ((e, q), held) h = absurd (ground arith)

  apply-HeldWatch :
      (e : Event) (r : Watch)
      → Within incident.created_at (incident.created_at + d) e
      → HeldWatch d incident r
      → HeldWatch d incident (apply e r)
  unfolding apply HeldWatch
  apply-HeldWatch (locking now reason) r w h = (lock-Held now reason r.guard h.0, h.1, h.2)
  apply-HeldWatch (noting kind reason tx wallet) r w h =
      (record_event-Held kind reason tx wallet r.guard h.0, h.1, h.2)
  apply-HeldWatch (checking now) r w h =
      checked-HeldWatch r (check_cooldown now r.guard)
        (check_cooldown-Refused now r.guard w.0 w.1 h.0) h
  apply-HeldWatch resolving r w h = rw h.1 (h.0, refl, h.2)
  apply-HeldWatch (opening note) r w h = rw h.2 (h.0, h.1, refl)

  run-HeldWatch :
      (es : List Event) (r : Watch)
      → All (Within incident.created_at (incident.created_at + d)) es
      → HeldWatch d incident r
      → HeldWatch d incident (run es r)
  unfolding run
  run-HeldWatch [] r w h = h
  run-HeldWatch (e ∷ es) r w h = run-HeldWatch es (apply e r) w.1 (apply-HeldWatch e r w.0 h)

-- A guard that is locked, with an open incident and no attempt to unlock that has been past the check
-- of the cooldown, stays locked while the cooldown after the start of the incident lasts: in no order
-- of locks, events and parts of attempts to unlock, whichever calls of the database fail, is it
-- unlocked, as long as every attempt asks for the incident in this time.
pub cooldown_holds :
    (es : List Event) (r : Watch) (s : SignerStore) (incident : CustodyIncident)
    → r.guard.locked ≡ true
    → r.guard.store ≡ some s
    → s.incident ≡ some incident
    → r.checked ≡ 0
    → r.cleared ≡ 0
    → All (Within incident.created_at (incident.created_at + pos_part (cooldown_of r.guard))) es
    → (run es r).guard.locked ≡ true
cooldown_holds es r s incident locked e i c d w =
    let h : HeldWatch (pos_part (cooldown_of r.guard)) incident (run es r) =
      run-HeldWatch (pos_part (cooldown_of r.guard)) incident es r w
        (unfold HeldWatch in ((unfold Held in (locked, (s, e, i), refl)), c, d)) in
    let held : Held (pos_part (cooldown_of r.guard)) incident (run es r).guard =
      (unfold HeldWatch in h.0) in
    unfold Held in held.0
