-- ===== src/Paymaster/SigLock/Memory.antt =====
-- InMemorySigLock of internal/paymaster/idempotency.go meets the interface of its client.
use chainfx_payment_core.Common.{
  ℕ, ◌+◌, ◌-◌, ◌≤◌, ◌<◌, ◌≡◌, ◌≢◌, Bool, true, false, not, Option, none, some, arith, ltb, leb,
}
use chainfx_payment_core.Common.Assoc.{lookup, lookup-insert, lookup-remove, lookup-keep, text_key}
use chainfx_payment_core.Common.Text.{Text, text_eq_iff, text_eq_refl}
use chainfx_payment_core.Paymaster.SigLock.{
  sig_lock_ttl, SigLockStore, SigLocks, acquire_lock, release_lock, gc,
}

-- An entry is left alone until it is older than its life.
lasts : ℕ → Option ℕ → Bool
lasts t none = false
lasts t (some acquired_at) = leb t (acquired_at + sig_lock_ttl)

pub memory_holds : ℕ → Text → SigLocks → Bool
unfolding lasts
memory_holds t h s = lasts t (lookup h s)

acquire-holds :
    (now later : ℕ) (h : Text) (s : SigLocks)
    → (acquire_lock now h s).0 ≡ none
    → later < now + sig_lock_ttl
    → memory_holds later h (acquire_lock now h s).1 ≡ true
unfolding acquire_lock memory_holds
acquire-holds now later h s e l = ground (arith, lookup-insert h now s h, text_eq_refl h)

holds-refused :
    (now later : ℕ) (h : Text) (s : SigLocks)
    → memory_holds later h s ≡ true
    → now ≤ later
    → (acquire_lock now h s).0 ≢ none
unfolding acquire_lock memory_holds
holds-refused now later h s e l a = ground arith

acquire-keeps :
    (now later : ℕ) (h j : Text) (s : SigLocks)
    → memory_holds later h s ≡ true
    → now ≤ later
    → memory_holds later h (acquire_lock now j s).1 ≡ true
unfolding acquire_lock memory_holds
acquire-keeps now later h j s e l = ground (arith, lookup-insert j now s h, text_eq_iff j h)

release-keeps :
    (later : ℕ) (h j : Text) (s : SigLocks)
    → memory_holds later h s ≡ true
    → h ≢ j
    → memory_holds later h (release_lock j s) ≡ true
unfolding release_lock memory_holds
release-keeps later h j s e l = ground (arith, lookup-remove j s h, text_eq_iff j h)

tick-keeps :
    (now later : ℕ) (h : Text) (s : SigLocks)
    → memory_holds later h s ≡ true
    → now ≤ later
    → memory_holds later h (gc now s) ≡ true
unfolding gc memory_holds
tick-keeps now later h s e l =
    ground (arith, lookup-keep (λ (t : ℕ). not (ltb sig_lock_ttl (now - t))) s h)

pub memory_store : SigLockStore SigLocks
memory_store = record {
  acquire = acquire_lock;
  release = release_lock;
  tick = gc;
  holds = memory_holds;
  acquire-holds = acquire-holds;
  holds-refused = holds-refused;
  acquire-keeps = acquire-keeps;
  release-keeps = release-keeps;
  tick-keeps = tick-keeps;
}
