-- ===== src/Signer/Custody/Tests.antt =====
-- Runs of signer/custody_guard.go.
use chainfx_payment_core.Common.{
  ◌+◌, err, ◌≡◌, ◌↔◌, ◌⊎◌, refl, true, false, List, [], ◌∷◌, none, some, arith, if◌then◌else◌,
}
use chainfx_payment_core.Common.Assoc.{lookup}
use chainfx_payment_core.Common.Int.{pos, pos_part, ◌*ℤ◌}
use chainfx_payment_core.Common.Int64.{wrap64}
use chainfx_payment_core.Common.Text.{All, codes, trim_space, to_lower, text_eq}
use chainfx_payment_core.Transactions.{one_of}
use chainfx_payment_core.Signer.Custody.{
  CustodyGuard, CustodyIncident, SignerStore, is_shadow, normalize_custody_mode, check_cooldown,
  resolve_incident, open_guard, lock, cooldown_of, record_event, cooldown_active,
}
use chainfx_payment_core.Signer.Custody.Cooldown.{
  Event, Watch, Within, locking, checking, resolving, opening, apply, run, cooldown_holds,
}
use chainfx_payment_core.Signer.Custody.Inspect.{
  SetCodeTransaction, Chain, calldata_selector, inspect_transaction,
}
use chainfx_payment_core.Signer.Custody.Inspect.Harmless.{IsHarmless}
use chainfx_payment_core.Signer.Custody.Inspect.Alarm.{inspect_locks_iff}

abbrev incident : CustodyIncident
incident = record { reason = codes "risk"; mode = codes "paper"; created_at = 100 }

-- The second call of the database fails.
abbrev store : SignerStore
store = record { incident = some incident; events = []; outages = false ∷ true ∷ [] }

abbrev guard : CustodyGuard
guard = record {
  custody_mode = codes " Live";
  unlock_cooldown = pos 900;
  rpc_urls = codes "a" ∷ codes "b" ∷ [];
  store = some store;
  protected = 7 ∷ [];
  trusted = (8, 42) ∷ [];
  allowed_selector = [];
  locked = true;
  reason = codes "risk";
}

-- Nobody has been past the cooldown yet.
abbrev watch : Watch
watch = record { guard = guard; checked = 0; cleared = 0 }

abbrev attempts : List Event
attempts =
    checking 200
    ∷ resolving
    ∷ opening []
    ∷ locking 210 (codes "again")
    ∷ checking 300
    ∷ resolving
    ∷ []

in_time :
    All
      (Within incident.created_at (incident.created_at + pos_part (cooldown_of watch.guard)))
      attempts
unfolding wrap64 ◌*ℤ◌
in_time = ((omega arith, omega arith), (tt, (tt, (tt, ((omega arith, omega arith), (tt, tt))))))

cooldown_holds_example : (run attempts watch).guard.locked ≡ true
cooldown_holds_example =
    cooldown_holds attempts watch store incident refl refl refl refl refl in_time

refused_lem : (check_cooldown 200 guard).0 ≡ err cooldown_active
unfolding check_cooldown wrap64 ◌*ℤ◌
refused_lem = refl

-- The guard is locked again between the second and the third part of an unlock, and opened at once.
abbrev undone : List Event
undone =
    checking 901_000_000_000
    ∷ resolving
    ∷ locking 901_000_000_001 (codes "delegate")
    ∷ opening []
    ∷ []

abbrev steady : Watch
steady = record watch { guard = record guard { store = some (record store { outages = [] }) } }

undone_lem : (run undone steady).guard.locked ≡ false
unfolding run apply check_cooldown resolve_incident open_guard lock record_event is_shadow
    normalize_custody_mode one_of trim_space to_lower text_eq wrap64 ◌*ℤ◌
undone_lem = refl

abbrev unlocked : CustodyGuard
unlocked = record guard { locked = false }

-- The first node is down, the second one has the code whose hash was loaded.
abbrev chain : Chain
chain = record {
  authority = λ auth. some 7;
  code_at = λ url delegate. if text_eq url (codes "b") then some (codes "code") else none;
  keccak256 = λ code. 42;
  address_text = λ a. [];
}

abbrev tx : SetCodeTransaction
tx = record {
  is_set_code = true;
  hash = codes "0x1";
  calldata = [];
  authorizations = record { delegate = 8; signature = [] } ∷ [];
}

live_lem : is_shadow unlocked ≡ false
unfolding is_shadow normalize_custody_mode one_of trim_space to_lower text_eq
live_lem = refl

inspect_locks_iff_example :
    ((inspect_transaction 5 chain (codes "latest") tx unlocked).locked ≡ false)
    ↔ ((true ≡ false) ⊎ All (IsHarmless chain unlocked (calldata_selector [])) tx.authorizations)
inspect_locks_iff_example = inspect_locks_iff 5 chain (codes "latest") tx unlocked live_lem refl

passed_lem : (inspect_transaction 5 chain (codes "latest") tx unlocked).locked ≡ false
unfolding inspect_transaction lookup text_eq
passed_lem = refl

locked_lem :
    (inspect_transaction 5 chain (codes "latest") tx (record unlocked { trusted = [] })).locked
    ≡ true
unfolding inspect_transaction lock record_event lookup is_shadow normalize_custody_mode one_of
    trim_space to_lower text_eq
locked_lem = refl
