-- ===== src/Paymaster/Relay/Once.antt =====
-- The lock of a signature in internal/paymaster/paymaster.go, while submissions run in any order.
use chainfx_payment_core.Common.{
  ℕ, ◌+◌, ◌≤◌, ◌<◌, ◌≡◌, ◌≢◌, refl, sym, Bool, true, false, not, ◌||◌, List, [], ◌∷◌, Option, none,
  some, ok, arith, Option-cases, Bool-cases, inl, inr,
}
use mathlib.Core.Path.{subst}
use chainfx_payment_core.Common.Text.{Text, All}
use chainfx_payment_core.Paymaster.SigLock.{sig_lock_ttl, SigLockStore, Hashing, permit_sig_hash}
use chainfx_payment_core.Paymaster.Relay.{Submission, start_relay, finish_relay}

-- One of the two parts of a submission, the second with the hash that the first has returned, or a
-- round of what runs in the background.
pub data Event : Type 0 where
  starting : Submission → Event
  finishing : Submission → Text → Event
  ticking : ℕ → Event

-- The estimate or the database fails, and the lock is released.
unfoldable pub fails : Submission → Bool
fails c = not c.estimated || elim c.created [ none ↦ true | some _ ↦ false ]

-- What happens by the instant `x`; no submission with the hash `h` fails.
abbrev pub Until : ℕ → Text → Event → Type 0
Until x h (starting c) = c.now ≤ x
Until x h (finishing c j) = fails c ≡ true → h ≢ j
Until x h (ticking now) = now ≤ x

abbrev pub sig_hash : Hashing → Submission → Option Text
sig_hash hashing c = permit_sig_hash hashing c.request.sig_r c.request.sig_s

module _ {S : Type 0} (locks : SigLockStore S) (enabled : Bool) (hashing : Hashing) where
  open locks use {
    acquire, release, tick, holds, acquire-holds, holds-refused, acquire-keeps, release-keeps,
    tick-keeps,
  }

  unfoldable pub run : List Event → S → S
  run [] s = s
  run (starting c ∷ es) s = run es (start_relay locks enabled hashing c s).1
  run (finishing c j ∷ es) s = run es (finish_relay locks c j s).1
  run (ticking now ∷ es) s = run es (tick now s)

  start_relay-keeps :
      (c : Submission) (h : Text) (x : ℕ) (s : S)
      → holds x h s ≡ true
      → c.now ≤ x
      → holds x h (start_relay locks enabled hashing c s).1 ≡ true
  unfolding start_relay
  start_relay-keeps c h x s e l = elim (Option-cases (sig_hash hashing c)) [
    | inl q ↦ ground (arith, e, q)
    | inr (j, q) ↦ ground (arith, e, q, acquire-keeps c.now x h j s e l)
  ]

  finish_relay-keeps :
      (c : Submission) (h j : Text) (x : ℕ) (s : S)
      → holds x h s ≡ true
      → (fails c ≡ true → h ≢ j)
      → holds x h (finish_relay locks c j s).1 ≡ true
  unfolding finish_relay fails
  finish_relay-keeps c h j x s e other = elim (Bool-cases c.estimated) [
    | inr f ↦ rw (f, finish_relay) (release-keeps x h j s e (other (rw f refl)))
    | inl f ↦ elim (Option-cases c.created) [
      | inl g ↦ rw (f, g, finish_relay) (release-keeps x h j s e (other (rw (f, g) refl)))
      | inr (id, g) ↦ rw (f, g, finish_relay) e
    ]
  ]

  run-keeps :
      (es : List Event) (h : Text) (x : ℕ) (s : S)
      → holds x h s ≡ true
      → All (Until x h) es
      → holds x h (run es s) ≡ true
  unfolding run
  run-keeps [] h x s e u = e
  run-keeps (starting c ∷ es) h x s e u =
      run-keeps es h x (start_relay locks enabled hashing c s).1 (start_relay-keeps c h x s e u.0)
        u.1
  run-keeps (finishing c j ∷ es) h x s e u =
      run-keeps es h x (finish_relay locks c j s).1 (finish_relay-keeps c h j x s e u.0) u.1
  run-keeps (ticking now ∷ es) h x s e u =
      run-keeps es h x (tick now s) (tick-keeps now x h s e u.0) u.1

  -- A submission that goes on has acquired the lock of its hash.
  start_relay-ok :
      (c : Submission) (h : Text) (s : S)
      → (start_relay locks enabled hashing c s).0 ≡ ok h
      → (sig_hash hashing c ≡ some h)
        × ((acquire c.now h s).0 ≡ none)
        × ((start_relay locks enabled hashing c s).1 ≡ (acquire c.now h s).1)
  unfolding start_relay
  start_relay-ok c h s e = elim (Option-cases (sig_hash hashing c)) [
    | inl q ↦ absurd (ground (arith, q))
    | inr (j, q) ↦ elim (Option-cases (acquire c.now j s).0) [
      | inr (x, r) ↦ absurd (ground (arith, q, r))
      | inl r ↦
          let p : j ≡ h = ground (arith, q, r) in
          subst
            (λ t.
              (sig_hash hashing c ≡ some t)
              × ((acquire c.now t s).0 ≡ none)
              × ((start_relay locks enabled hashing c s).1 ≡ (acquire c.now t s).1))
            p (q, r, ground (arith, q, e))
    ]
  ]

  -- Once a submission has the lock of its signature, no submission whose signature has the same hash
  -- gets past the lock within two minutes, over any store that meets the interface, in whatever order
  -- other submissions start, go on and end and the collector runs; provided that no submission of that
  -- hash fails in the meantime, be it the first one or one that had the lock before.
  pub relayed_once :
      (first second : Submission) (h h' : Text) (es : List Event) (s : S)
      → (start_relay locks enabled hashing first s).0 ≡ ok h
      → sig_hash hashing first ≡ sig_hash hashing second
      → second.now < first.now + sig_lock_ttl
      → All (Until second.now h) es
      → (start_relay locks enabled hashing second
          (run es (start_relay locks enabled hashing first s).1)).0
        ≢ ok h'
  relayed_once first second h h' es s e q l u e' =
      let (found, got, same) = start_relay-ok first h s e in
      let s' = (start_relay locks enabled hashing first s).1 in
      let (found', got', same') = start_relay-ok second h' (run es s') e' in
      let p : h ≡ h' = ground (arith, q, found, found') in
      let held : holds second.now h s' ≡ true =
        rw same (acquire-holds first.now second.now h s got l) in
      let still = run-keeps es h second.now s' held u in
      holds-refused second.now second.now h (run es s') still (omega arith)
        (subst (λ t. (acquire second.now t (run es s')).0 ≡ none) (sym p) got')
