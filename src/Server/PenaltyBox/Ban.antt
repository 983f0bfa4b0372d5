-- ===== src/Server/PenaltyBox/Ban.antt =====
-- How long a ban of internal/server/penaltybox.go lasts.
use chainfx_payment_core.Common.{
  ℕ, ◌+◌, ◌≤◌, ◌<◌, ◌≡◌, inl, inr, true, false, not, ◌||◌, List, [], ◌∷◌, some, arith, Option-cases,
  Bool-cases, sym, ap,
}
use mathlib.Core.Path.{subst}
use chainfx_payment_core.Common.Assoc.{lookup, insert, lookup-insert, lookup-keep, text_key}
use chainfx_payment_core.Common.Text.{Text, All, text_eq, text_eq_iff, text_eq_refl, is_empty}
use chainfx_payment_core.Server.PenaltyBox.{
  PenaltyEntry, PenaltyBox, ban_duration, is_kept, cleanup_locked, banned, entry_of, aged, counted,
  record_violation,
}
use chainfx_payment_core.Server.PenaltyBox.Entry.{
  Escalates, EntryHeld, Rules, aged-EntryHeld, counted-EntryHeld, counted-bans, cleanup-open,
}

-- A request is checked, or a violation is recorded.
pub data Event : Type 0 where
  checking : Text → ℕ → Event
  violating : Text → ℕ → Event

pub apply : Event → PenaltyBox → PenaltyBox
apply (checking key now) p = (banned key now p).1
apply (violating key now) p = (record_violation key now p).1

unfoldable pub run : List Event → PenaltyBox → PenaltyBox
unfolding apply
run [] p = p
run (e ∷ es) p = run es (apply e p)

abbrev pub Within : ℕ → ℕ → Event → Type 0
Within from until (checking key now) = (from ≤ now) × (now < until)
Within from until (violating key now) = (from ≤ now) × (now < until)

Held : Text → ℕ → ℕ → ℕ → PenaltyBox → Type 0
Held key from until o p =
    Rules from until o p
    × ((e : PenaltyEntry) × (lookup key p.entries ≡ some e) × EntryHeld until o e)

module _ (key : Text) (from until o : ℕ) where
  cleanup-Rules :
      (now : ℕ) (p : PenaltyBox) → Rules from until o p → Rules from until o (cleanup_locked now p)
  unfolding cleanup_locked Rules Escalates ban_duration
  cleanup-Rules now p r = ground arith

  cleanup-Held :
      (now : ℕ) (p : PenaltyBox)
      → now < until
      → Held key from until o p
      → Held key from until o (cleanup_locked now p)
  unfolding Held cleanup_locked EntryHeld
  cleanup-Held now p u (r, (e, there, h)) = (
    unfold cleanup_locked in cleanup-Rules now p r,
    (e, ground (arith, there, lookup-keep (is_kept now p) p.entries key), h),
  )

  -- The box with the entry of a client written.
  written_own :
      (p : PenaltyBox) (e : PenaltyEntry)
      → Rules from until o p
      → EntryHeld until o e
      → Held key from until o (record p { entries = insert key e p.entries })
  unfolding Held Rules Escalates ban_duration
  written_own p e r h =
      (r, (e, ground (arith, lookup-insert key e p.entries key, text_eq_refl key), h))

  written_other :
      (p : PenaltyBox) (k : Text) (e : PenaltyEntry)
      → text_eq k key ≡ false
      → Held key from until o p
      → Held key from until o (record p { entries = insert k e p.entries })
  unfolding Held Rules Escalates ban_duration
  written_other p k e other (r, (e', there, h)) =
      (r, (e', ground (arith, lookup-insert k e p.entries key), h))

  written :
      (p : PenaltyBox) (k : Text) (e : PenaltyEntry)
      → Held key from until o p
      → (k ≡ key → EntryHeld until o e)
      → Held key from until o (record p { entries = insert k e p.entries })
  written p k e held h = elim (Bool-cases (text_eq k key)) [
    | inr other ↦ written_other p k e other held
    | inl own ↦
        let q = (text_eq_iff k key).0 own in
        subst (λ y. Held key from until o (record p { entries = insert y e p.entries })) (sym q)
          (written_own p e (unfold Held in held.0) (h q))
  ]

  Held-entry_of :
      (now : ℕ) (p : PenaltyBox) (k : Text)
      → Held key from until o p
      → k ≡ key
      → EntryHeld until o (entry_of now (lookup k p.entries))
  unfolding Held
  Held-entry_of now p k (r, (e, there, h)) q =
      subst (λ y. EntryHeld until o (entry_of now (lookup y p.entries))) (sym q)
        (subst (λ x. EntryHeld until o (entry_of now x)) (sym there) h)

  banned-Held :
      (k : Text) (now : ℕ) (p : PenaltyBox)
      → now < until
      → Held key from until o p
      → Held key from until o (banned k now p).1
  unfolding banned
  banned-Held k now p u held =
      let p' = cleanup_locked now p in
      let held' = cleanup-Held now p u held in
      elim (Bool-cases (not p.enabled || is_empty k)) [
        | inl b ↦ rw (b, banned) held
        | inr b ↦ elim (Option-cases (lookup k p'.entries)) [
          | inl e ↦ rw (b, e, banned) held'
          | inr (e, there) ↦
              rw (b, there, banned)
                (written p' k (record e { last_activity = now }) held'
                  (λ q.
                    unfold EntryHeld in
                    subst (λ x. EntryHeld until o (entry_of now x)) there
                      (Held-entry_of now p' k held' q)))
        ]
      ]

  record_violation-Held :
      (k : Text) (now : ℕ) (p : PenaltyBox)
      → from ≤ now
      → now < until
      → Held key from until o p
      → Held key from until o (record_violation k now p).1
  unfolding record_violation
  record_violation-Held k now p l u held =
      let p' = cleanup_locked now p in
      let held' = cleanup-Held now p u held in
      elim (Bool-cases (not p.enabled || is_empty k)) [
        | inl b ↦ rw (b, record_violation) held
        | inr b ↦
            rw (b, record_violation)
              (written p' k (counted now p' (aged now p' (entry_of now (lookup k p'.entries)))).1
                held'
                (λ q.
                  counted-EntryHeld p' from until o now _ (unfold Held in held'.0) l
                    (aged-EntryHeld p' until o now _ u (Held-entry_of now p' k held' q))))
      ]

  apply-Held :
      (e : Event) (p : PenaltyBox)
      → Within from until e
      → Held key from until o p
      → Held key from until o (apply e p)
  unfolding apply
  apply-Held (checking k now) p w held = banned-Held k now p w.1 held
  apply-Held (violating k now) p w held = record_violation-Held k now p w.0 w.1 held

  run-Held :
      (es : List Event) (p : PenaltyBox)
      → All (Within from until) es
      → Held key from until o p
      → Held key from until o (run es p)
  unfolding run
  run-Held [] p w held = held
  run-Held (e ∷ es) p w held = run-Held es (apply e p) w.1 (apply-Held e p w.0 held)

  banned-answer :
      (now : ℕ) (p : PenaltyBox)
      → is_empty key ≡ false
      → now < until
      → Held key from until o p
      → (banned key now p).0.0 ≡ true
  unfolding banned Held Rules EntryHeld
  banned-answer now p named u held =
      let c : Held key from until o (cleanup_locked now p) = cleanup-Held now p u held in
      let (r, (e, there, h)) = c in
      let open_box : (not p.enabled || is_empty key) ≡ false = ground (arith, held.0.2) in
      rw (open_box, there, banned) (ground arith)

starts :
    (key : Text) (from until : ℕ) (p : PenaltyBox)
    → Escalates p
    → (record_violation key from p).0 ≡ (true, until)
    → (is_empty key ≡ false) × ((o : ℕ) × Held key from until o (record_violation key from p).1)
unfolding record_violation Held
starts key from until p s answer = elim (Bool-cases (not p.enabled || is_empty key)) [
  | inl b ↦ absurd (let d = rw (b, record_violation) at answer in ground (arith, ap (λ x. x.0) d))
  | inr b ↦
      let d = rw (b, record_violation) at answer in
      let p' = cleanup_locked from p in
      let e = aged from p' (entry_of from (lookup key p'.entries)) in
      let (last, h) = counted-bans from until p' e d in
      let (s', enabled) = cleanup-open from p s (ground arith) in
      (
        ground arith,
        (
          e.offenses + 1,
          rw (b, record_violation)
              (written_own key from until (e.offenses + 1) p' (counted from p' e).1
                (unfold Rules in (s', last, enabled)) h),
        ),
      )
]

-- A client whose violation is answered by a ban is told by every check before its end that it is
-- banned, whatever checks, violations and cleanups there are meanwhile, provided that the configured
-- lengths grow with the offences.
pub ban_lasts :
    (key : Text) (from until now : ℕ) (es : List Event) (p : PenaltyBox)
    → Escalates p
    → (record_violation key from p).0 ≡ (true, until)
    → All (Within from until) es
    → now < until
    → (banned key now (run es (record_violation key from p).1)).0.0 ≡ true
ban_lasts key from until now es p s b w u =
    let (named, (o, held)) = starts key from until p s b in
    banned-answer key from until o now (run es (record_violation key from p).1) named u
      (run-Held key from until o es (record_violation key from p).1 w held)
