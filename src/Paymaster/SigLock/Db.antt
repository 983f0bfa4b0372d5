-- ===== src/Paymaster/SigLock/Db.antt =====
-- DBSigLock of internal/paymaster/idempotency.go meets the interface of its client, through outages.
use chainfx_payment_core.Common.{
  ℕ, ◌+◌, ◌≤◌, ◌<◌, ◌≡◌, ◌≢◌, Bool, true, false, Option, none, some, arith, ltb,
}
use chainfx_payment_core.Common.Assoc.{
  lookup, keep, lookup-insert, lookup-remove, lookup-keep, text_key,
}
use chainfx_payment_core.Common.Text.{Text, text_eq_iff, text_eq_refl}
use chainfx_payment_core.Paymaster.SigLock.{
  sig_lock_ttl, SigLockStore, DbLocks, next_outage, db_acquire_lock, db_release_lock,
}

lasts : ℕ → Option ℕ → Bool
lasts t none = false
lasts t (some expires_at) = ltb t expires_at

pub db_holds : ℕ → Text → DbLocks → Bool
unfolding lasts
db_holds t h s = lasts t (lookup h s.rows)

pub acquire-holds :
    (now later : ℕ) (h : Text) (s : DbLocks)
    → (db_acquire_lock now h s).0 ≡ none
    → later < now + sig_lock_ttl
    → db_holds later h (db_acquire_lock now h s).1 ≡ true
unfolding db_acquire_lock next_outage db_holds
acquire-holds now later h s e l = ground (
  arith,
  lookup-insert h (now + sig_lock_ttl) (keep (λ (x : ℕ). ltb now x) s.rows) h,
  text_eq_refl h,
)

pub holds-refused :
    (now later : ℕ) (h : Text) (s : DbLocks)
    → db_holds later h s ≡ true
    → now ≤ later
    → (db_acquire_lock now h s).0 ≢ none
unfolding db_acquire_lock next_outage db_holds
holds-refused now later h s e l a = ground (arith, lookup-keep (λ (x : ℕ). ltb now x) s.rows h)

pub acquire-keeps :
    (now later : ℕ) (h j : Text) (s : DbLocks)
    → db_holds later h s ≡ true
    → now ≤ later
    → db_holds later h (db_acquire_lock now j s).1 ≡ true
unfolding db_acquire_lock next_outage db_holds
acquire-keeps now later h j s e l = ground (
  arith,
  lookup-insert j (now + sig_lock_ttl) (keep (λ (x : ℕ). ltb now x) s.rows) h,
  lookup-keep (λ (x : ℕ). ltb now x) s.rows h,
  text_eq_iff j h,
)

pub release-keeps :
    (later : ℕ) (h j : Text) (s : DbLocks)
    → db_holds later h s ≡ true
    → h ≢ j
    → db_holds later h (db_release_lock j s) ≡ true
unfolding db_release_lock next_outage db_holds
release-keeps later h j s e l = ground (arith, lookup-remove j s.rows h, text_eq_iff j h)

unfoldable pub db_store : SigLockStore DbLocks
db_store = record {
  acquire = db_acquire_lock;
  release = db_release_lock;
  tick = λ now s. s;
  holds = db_holds;
  acquire-holds = acquire-holds;
  holds-refused = holds-refused;
  acquire-keeps = acquire-keeps;
  release-keeps = release-keeps;
  tick-keeps = λ now later h s e l. e;
}
