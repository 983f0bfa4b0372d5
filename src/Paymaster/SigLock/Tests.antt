-- ===== src/Paymaster/SigLock/Tests.antt =====
-- Runs of internal/paymaster/idempotency.go.
use chainfx_payment_core.Common.{◌≡◌, refl, true, [], ◌∷◌, some, none}
use chainfx_payment_core.Common.Assoc.{lookup, insert, remove, keep}
use chainfx_payment_core.Common.Text.{codes, text_eq}
use chainfx_payment_core.Paymaster.SigLock.{
  db_acquire_lock, acquire_lock, duplicate_sig, unavailable, strip_hex,
}

-- A row that has expired is no obstacle, and an outage is.
expired :
    (db_acquire_lock 200_000_000_000
      (codes "ab")
      (record { rows = (codes "ab", 150_000_000_000) ∷ []; outages = [] })).0
    ≡ none
unfolding db_acquire_lock lookup insert remove keep text_eq
expired = refl

outage :
    (db_acquire_lock 5 (codes "ab") (record { rows = []; outages = true ∷ [] })).0
    ≡ some unavailable
unfolding db_acquire_lock lookup insert remove keep text_eq
outage = refl

second : (acquire_lock 7 (codes "ab") ((codes "ab", 5) ∷ [])).0 ≡ some duplicate_sig
unfolding acquire_lock lookup text_eq
second = refl

stripped : strip_hex (codes "0xab") ≡ codes "ab"
unfolding strip_hex
stripped = refl
