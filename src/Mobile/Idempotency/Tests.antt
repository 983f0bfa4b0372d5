-- ===== src/Mobile/Idempotency/Tests.antt =====
-- Requests of internal/mobile/idempotency.go.
use chainfx_payment_core.Common.{◌≤◌, ◌≡◌, refl, true, false, List, [], ◌∷◌, some, none, arith}
use chainfx_payment_core.Common.Assoc.{
  lookup, insert, count, remove_first, text_pair_key, text_pair_eq,
}
use chainfx_payment_core.Common.Text.{Text, codes, text_eq, trim_space}
use chainfx_payment_core.Mobile.Idempotency.{
  Fault, Answer, begin_request, run_idempotency_transaction, succeeded, finish,
}
use chainfx_payment_core.Mobile.Idempotency.Steps.{Event, arriving, ending, run, started, apply}
use chainfx_payment_core.Mobile.Idempotency.Exclusive.{IsExclusive, new_server, one_handler}
use chainfx_payment_core.Mobile.Idempotency.Once.{replayed_forever, stuck_forever}

abbrev k : Text × Text
k = (codes "op-1", codes "u-1")

abbrev other : Text × Text
other = (codes "op-2", codes "u-1")

-- A request that proceeds, and one that finds it running.
abbrev started_once : List Event
started_once = arriving none k ∷ arriving none k ∷ []

abbrev later : List Event
later = arriving (some Fault.insert_fails) k ∷ arriving none other ∷ arriving none k ∷ []

one_handler_example : IsExclusive (run started_once new_server)
one_handler_example = one_handler started_once

one_runs : count k (run started_once new_server).running ≡ 1
unfolding count run lookup insert text_eq run_idempotency_transaction text_pair_eq started
one_runs = refl

one_runs_bound : 1 ≤ count k (run started_once new_server).running
one_runs_bound = ground (arith, one_runs)

created_lem : succeeded 201 ≡ true
unfolding succeeded
created_lem = refl

replayed_forever_example :
    let s = run started_once new_server in
    let s' = run later (apply (ending 50 201 (codes "{\"ok\":1}") true k) s) in
    (count k s'.running ≡ 0)
    × ((run_idempotency_transaction none k s'.table).0
        ≡ Answer.replayed (codes "{\"ok\":1}") (some 50))
replayed_forever_example =
    replayed_forever started_once later k 50 201 (codes "{\"ok\":1}") one_runs_bound created_lem

stuck_forever_example :
    let s = run started_once new_server in
    let s' = run later (apply (ending 50 201 (codes "{\"ok\":1}") false k) s) in
    (count k s'.running ≡ 0)
    × ((run_idempotency_transaction none k s'.table).0 ≡ Answer.in_progress)
stuck_forever_example =
    stuck_forever started_once later k 50 201 (codes "{\"ok\":1}") one_runs_bound

-- A handler that answers an error frees its key.
retried :
    (run_idempotency_transaction none k
      (run (ending 50 500 [] true k ∷ []) (run started_once new_server)).table).0
    ≡ Answer.proceed
unfolding run_idempotency_transaction text_pair_eq started run count remove_first lookup insert
    text_eq finish succeeded
retried = refl

-- The header wins, and a caller without a user is the anonymous one.
begun :
    begin_request none (codes " op-1 ") (codes "op-2") [] [] []
    ≡ some (
        run_idempotency_transaction none
          (codes "op-1", codes "00000000-0000-0000-0000-000000000000")
          [])
unfolding begin_request trim_space
begun = refl
