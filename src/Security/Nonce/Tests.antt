-- ===== src/Security/Nonce/Tests.antt =====
-- Runs of internal/security/nonce.go.
use chainfx_payment_core.Common.{ℕ, ◌≡◌, refl, true, false, List, [], ◌∷◌, some, none, arith}
use chainfx_payment_core.Common.Assoc.{lookup, insert, remove, text_key}
use chainfx_payment_core.Common.Text.{Text, codes, text_eq}
use chainfx_payment_core.Security.Nonce.{
  InMemoryNonceStore, memory_store, memory_exists, validate_nonce, in_memory, already_exists,
  already_used, missing,
}
use chainfx_payment_core.Security.Nonce.Replay.{
  Event, storing, checking, deleting, run, waits, no_replay,
}

abbrev n : Text
n = codes "n1"

abbrev fresh : InMemoryNonceStore
fresh = record { entries = []; deleting = [] }

abbrev used : InMemoryNonceStore
used = record { entries = (n, 60) ∷ []; deleting = [] }

accepted : validate_nonce in_memory 10 10 n 50 fresh ≡ (none, used)
unfolding validate_nonce in_memory lookup insert text_eq
accepted = refl

refused : (validate_nonce in_memory 20 20 n 50 used).0 ≡ some already_used
unfolding validate_nonce in_memory lookup insert text_eq
refused = refl

nameless : (validate_nonce in_memory 20 20 [] 50 used).0 ≡ some missing
unfolding validate_nonce in_memory
nameless = refl

-- Two checks of an expired nonce start two goroutines; the second one is still waiting when the
-- nonce is free again.
reached :
    run (storing 10 n 50 ∷ checking 100 n ∷ checking 100 n ∷ deleting n ∷ []) fresh
    ≡ record { entries = []; deleting = n ∷ [] }
unfolding run lookup insert remove text_eq
reached = refl

abbrev calm_step : List Event
calm_step = checking 30 n ∷ []

stored_lem : memory_store 10 n 50 fresh ≡ (none, used)
unfolding memory_store lookup insert
stored_lem = refl

none_waits : waits n [] ≡ false
unfolding waits
none_waits = refl

no_replay_example :
    ((memory_exists 40 n (run calm_step used)).0 ≡ true)
    × ((memory_store 40 n 50 (run [] (memory_exists 40 n (run calm_step used)).1)).0
        ≡ some already_exists)
no_replay_example =
    no_replay n 10 50 40 40 50 fresh used calm_step [] stored_lem none_waits (omega arith)
      (omega arith) tt

nowhere : lookup {V = ℕ} n [] ≡ none
unfolding lookup
nowhere = refl

one_waits : waits n (n ∷ []) ≡ true
unfolding waits text_eq
one_waits = refl
