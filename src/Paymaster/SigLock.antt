-- ===== src/Paymaster/SigLock.antt =====
-- internal/paymaster/idempotency.go: the locks that let one relay of a signature through. An instant
-- is a number of nanoseconds.
pub mod Memory
pub mod Db
mod Tests
use chainfx_payment_core.Common.{
  ℕ, ◌+◌, ◌-◌, ◌≤◌, ◌<◌, ◌≡◌, ◌≢◌, Bool, true, false, not, ◌&&◌, List, [], ◌∷◌, ◌++◌, Option, none,
  some, ltb, drop, if◌then◌else◌,
}
use chainfx_payment_core.Common.Assoc.{lookup, insert, remove, keep, text_key}
use chainfx_payment_core.Common.Outages.{first_of, rest_of}
use chainfx_payment_core.Common.Text.{Text, codes, has_prefix}

abbrev pub sig_lock_ttl : ℕ
sig_lock_ttl = 120_000_000_000

-- ErrDuplicateSig, and every other error.
pub data LockError : Type 0 where
  duplicate_sig unavailable : LockError

-- SigLockStore, and what the relay needs of it, over the state `S` of a store. `acquire` returns
-- `none` for (true, nil); `tick` is what runs in the background. `holds t h s` says that until `t`
-- nobody else can acquire `h`.
pub record SigLockStore (S : Type 0) : Type 0 where
  pub acquire : ℕ → Text → S → Option LockError × S
  pub release : Text → S → S
  pub tick : ℕ → S → S
  pub holds : ℕ → Text → S → Bool
  pub acquire-holds :
      (now later : ℕ) (h : Text) (s : S)
      → (acquire now h s).0 ≡ none
      → later < now + sig_lock_ttl
      → holds later h (acquire now h s).1 ≡ true
  pub holds-refused :
      (now later : ℕ) (h : Text) (s : S)
      → holds later h s ≡ true
      → now ≤ later
      → (acquire now h s).0 ≢ none
  pub acquire-keeps :
      (now later : ℕ) (h j : Text) (s : S)
      → holds later h s ≡ true
      → now ≤ later
      → holds later h (acquire now j s).1 ≡ true
  pub release-keeps :
      (later : ℕ) (h j : Text) (s : S)
      → holds later h s ≡ true
      → h ≢ j
      → holds later h (release j s) ≡ true
  pub tick-keeps :
      (now later : ℕ) (h : Text) (s : S)
      → holds later h s ≡ true
      → now ≤ later
      → holds later h (tick now s) ≡ true

-- InMemorySigLock: the instant at which each hash was acquired.
abbrev pub SigLocks : Type 0
SigLocks = List (Text × ℕ)

pub acquire_lock : ℕ → Text → SigLocks → Option LockError × SigLocks
acquire_lock now hash s = elim (lookup hash s) [
  | some _ ↦ (some duplicate_sig, s)
  | none ↦ (none, insert hash now s)
]

pub release_lock : Text → SigLocks → SigLocks
release_lock hash s = remove hash s

-- One round of the collector.
pub gc : ℕ → SigLocks → SigLocks
gc now s = keep (λ acquired_at. not (ltb sig_lock_ttl (now - acquired_at))) s

-- DBSigLock: the table paymaster_sig_locks with the instant at which each row expires, and for each
-- coming call whether the database fails. A call that fails is rolled back, or its error is dropped.
pub record DbLocks : Type 0 where
  pub rows : List (Text × ℕ)
  pub outages : List Bool

unfoldable pub next_outage : DbLocks → Bool × DbLocks
unfolding first_of rest_of
next_outage s = (first_of s.outages, record s { outages = rest_of s.outages })

-- INSERT … ON CONFLICT DO NOTHING, on the rows that have not expired.
pub insert_lock : ℕ → Text → List (Text × ℕ) → Option LockError × List (Text × ℕ)
insert_lock now hash rows = elim (lookup hash rows) [
  | some _ ↦ (some duplicate_sig, rows)
  | none ↦ (none, insert hash (now + sig_lock_ttl) rows)
]

-- ErrDuplicateSig leaves before Commit, so that transaction is rolled back too.
unfoldable pub db_acquire_lock : ℕ → Text → DbLocks → Option LockError × DbLocks
unfolding insert_lock next_outage
db_acquire_lock now hash s =
    let s' = (next_outage s).1 in
    let (result, rows) = insert_lock now hash (keep (λ expires_at. ltb now expires_at) s'.rows) in
    if (next_outage s).0
    then (some unavailable, s')
    else elim result [ none ↦ (none, record s' { rows = rows }) | some e ↦ (some e, s') ]

unfoldable pub db_release_lock : Text → DbLocks → DbLocks
db_release_lock hash s =
    let s' = (next_outage s).1 in
    if (next_outage s).0 then s' else record s' { rows = remove hash s'.rows }

-- What a signature's hash is computed with: hex.DecodeString and sha256.Sum256.
pub record Hashing : Type 0 where
  pub decode_hex : Text → Option Text
  pub encode_hex : Text → Text
  pub sha256 : Text → Text

pub strip_hex : Text → Text
unfolding has_prefix
strip_hex s = if has_prefix s (codes "0x") then drop 2 s else s

unfoldable pub permit_sig_hash : Hashing → Text → Text → Option Text
unfolding strip_hex
permit_sig_hash h r s = elim (h.decode_hex (strip_hex r)) [
  | none ↦ none
  | some r_bytes ↦ elim (h.decode_hex (strip_hex s)) [
    | none ↦ none
    | some s_bytes ↦ some (h.encode_hex (h.sha256 (r_bytes ++ s_bytes)))
  ]
]
