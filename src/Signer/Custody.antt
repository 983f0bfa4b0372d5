-- ===== src/Signer/Custody.antt =====
-- signer/custody_guard.go: the guard that locks the signer, over the store of signer/store.go.
-- Instants and lengths are numbers of nanoseconds. A guard is not nil, and log lines are left out.
pub mod Inspect
pub mod Cooldown
mod Tests
use chainfx_payment_core.Common.{
  ℕ, ◌+◌, ◌-◌, ◌*◌, Bool, true, false, not, ◌&&◌, ◌||◌, ◌==◌, List, [], ◌∷◌, ◌++◌, Option, none,
  some, Result, ok, err, if◌then◌else◌, ltb,
}
use chainfx_payment_core.Common.Assoc.{lookup, nat_key}
use chainfx_payment_core.Common.Int.{ℤ, pos, pos_part, ltb_ℤ, ◌*ℤ◌}
use chainfx_payment_core.Common.Int64.{wrap64}
use chainfx_payment_core.Common.Outages.{first_of, rest_of}
use chainfx_payment_core.Common.Text.{Text, codes, to_lower, trim_space, text_eq}
use chainfx_payment_core.Transactions.{one_of}

pub record CustodyIncident : Type 0 where
  pub reason : Text
  pub mode : Text
  pub created_at : ℕ

pub record CustodyEvent : Type 0 where
  pub kind : Text
  pub reason : Text
  pub mode : Text
  pub tx_hash : Text
  pub wallet : Text

-- The incident that is not resolved, the events, and for each coming call whether the database fails.
-- The store in memory is the one whose calls never fail.
pub record SignerStore : Type 0 where
  pub incident : Option CustodyIncident
  pub events : List CustodyEvent
  pub outages : List Bool

-- Whether a call fails, and the store for the next one.
next_call : SignerStore → Bool × SignerStore
unfolding first_of rest_of
next_call s = (first_of s.outages, record s { outages = rest_of s.outages })

pub record_custody_event : CustodyEvent → SignerStore → SignerStore
unfolding next_call
record_custody_event e s =
    let (fails, s') = next_call s in if fails then s' else record s' { events = e ∷ s'.events }

-- INSERT … ON CONFLICT DO NOTHING: an open incident is left as it is.
pub open_custody_incident : ℕ → Text → Text → SignerStore → SignerStore
unfolding next_call
open_custody_incident now reason mode s =
    let (fails, s') = next_call s in
    let opened : CustodyIncident = record { reason = reason; mode = mode; created_at = now } in
    if fails
    then s'
    else elim s'.incident [ none ↦ record s' { incident = some opened } | some _ ↦ s' ]

-- The first component says whether the call fails.
pub resolve_custody_incident : SignerStore → Bool × SignerStore
unfolding next_call
resolve_custody_incident s =
    let (fails, s') = next_call s in
    if fails then (true, s') else (false, record s' { incident = none })

pub normalize_custody_mode : Text → Text
unfolding one_of to_lower trim_space text_eq
normalize_custody_mode value =
    let mode = to_lower (trim_space value) in
    if one_of mode (codes "shadow" ∷ codes "paper" ∷ codes "live" ∷ []) then mode else codes "paper"

-- Addresses and hashes are numbers; the hash 0 is one that has not been loaded.
pub record CustodyGuard : Type 0 where
  pub custody_mode : Text
  pub unlock_cooldown : ℤ
  pub rpc_urls : List Text
  pub store : Option SignerStore
  pub protected : List ℕ
  pub trusted : List (ℕ × ℕ)
  pub allowed_selector : List Text
  pub locked : Bool
  pub reason : Text

pub with_store : (SignerStore → SignerStore) → CustodyGuard → CustodyGuard
with_store f g = elim g.store [ none ↦ g | some s ↦ record g { store = some (f s) } ]

pub record_event : Text → Text → Text → Text → CustodyGuard → CustodyGuard
unfolding with_store
record_event kind reason tx_hash wallet g =
    with_store
      (record_custody_event (record {
        kind = kind;
        reason = reason;
        mode = normalize_custody_mode g.custody_mode;
        tx_hash = tx_hash;
        wallet = wallet;
      }))
      g

pub is_shadow : CustodyGuard → Bool
is_shadow g = text_eq (normalize_custody_mode g.custody_mode) (codes "shadow")

-- The error of the store is logged only.
pub lock : ℕ → Text → CustodyGuard → CustodyGuard
unfolding with_store
lock now reason g =
    let g' = record_event (codes "signer_locked") reason [] [] g in
    if is_shadow g
    then g'
    else with_store (open_custody_incident now reason (normalize_custody_mode g.custody_mode))
        (record g' { locked = true; reason = reason })

pub data UnlockError : Type 0 where
  store_failed cooldown_active : UnlockError

-- `ActiveCustodyIncident`; none is an error.
pub active_custody_incident : SignerStore → Option (Option CustodyIncident) × SignerStore
unfolding next_call
active_custody_incident s =
    let (fails, s') = next_call s in (if fails then none else some s'.incident, s')

-- `time.Duration(cooldownSeconds) * time.Second`
abbrev pub cooldown_of : CustodyGuard → ℤ
cooldown_of g = wrap64 (g.unlock_cooldown *ℤ pos 1_000_000_000)

-- Whether the incident is too young to be resolved.
pub is_cooling : ℕ → CustodyGuard → CustodyIncident → Bool
is_cooling now g incident =
    ltb_ℤ (pos 0) (cooldown_of g) && ltb (now - incident.created_at) (pos_part (cooldown_of g))

-- Unlock has three parts, between which others can run, since no lock is held. The first one asks for
-- the incident: an error, or whether there is one to resolve.
pub check_cooldown : ℕ → CustodyGuard → Result UnlockError Bool × CustodyGuard
unfolding active_custody_incident is_cooling
check_cooldown now g = elim g.store [
  | none ↦ (ok false, g)
  | some s ↦
      let (found, s') = active_custody_incident s in
      let g' = record g { store = some s' } in
      elim found [
        | none ↦ (err store_failed, g')
        | some active ↦ elim active [
          | none ↦ (ok false, g')
          | some incident ↦ (if is_cooling now g incident then err cooldown_active else ok true, g')
        ]
      ]
]

-- The second part resolves whatever incident is there by then; `none` is a nil error.
pub resolve_incident : CustodyGuard → Option UnlockError × CustodyGuard
unfolding resolve_custody_incident
resolve_incident g = elim g.store [
  | none ↦ (none, g)
  | some s ↦
      let (fails, s') = resolve_custody_incident s in
      (if fails then some store_failed else none, record g { store = some s' })
]

-- The third part.
pub open_guard : Text → CustodyGuard → CustodyGuard
unfolding record_event
open_guard note g =
    record_event (codes "signer_unlocked") note [] [] (record g { locked = false; reason = [] })
