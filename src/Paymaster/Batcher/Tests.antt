-- ===== src/Paymaster/Batcher/Tests.antt =====
-- Runs of the dispatch of internal/paymaster/batcher.go.
use chainfx_payment_core.Common.{
  ℕ, ◌+◌, ◌≡◌, refl, Bool, true, false, [], ◌∷◌, Option, none, some, if◌then◌else◌, ◌==◌,
}
use chainfx_payment_core.Common.Text.{codes, text_eq}
use chainfx_payment_core.Resilience.Retry.{execute_with_retry}
use chainfx_payment_core.Paymaster.Relay.{RelayJob}
use chainfx_payment_core.Paymaster.Amounts.{
  TokenRelayer, plan, has_fee_destination, micro_usdt_to_string,
}
use chainfx_payment_core.Paymaster.Batcher.{
  Transfer, split, net_leg, fee_leg, send, dispatch_fee, dispatch_one,
}
use chainfx_payment_core.Paymaster.Batcher.Legs.{
  Ledger, noted, rested, reports, dispatched, Settled, dispatch_one-Settled,
}

abbrev job : RelayJob
job = record {
  relay_id = codes "rl_1";
  to = codes "0x1111111111111111111111111111111111111111";
  amount = codes "100";
  token = codes "0x55d398326f99059ff775485246999027b3197955";
  network = codes "BSC";
}

abbrev relayer : Option TokenRelayer
relayer =
    some
      (record { spread_bps = 100; hot_wallet = codes "0x2222222222222222222222222222222222222222" })

-- A signer that fails twice at first; the state counts its calls.
abbrev signer : Transfer → ℕ → Option Bool × ℕ
signer t n = (if n == 0 then some true else if n == 1 then some true else none, n + 1)

abbrev no_wait : ℕ → ℕ → Option Bool × ℕ
no_wait attempt n = (none, n)

abbrev never : Bool → Bool
never e = false

abbrev before : Ledger ℕ
before = record { world = 0; accepted = []; reported = [] }

dispatched_lem :
    dispatched signer no_wait never relayer job before
    ≡ record { world = 4; accepted = net_leg relayer job ∷ fee_leg relayer job ∷ []; reported = [] }
unfolding dispatched dispatch_one dispatch_fee send execute_with_retry noted rested reports split
    plan has_fee_destination micro_usdt_to_string text_eq
dispatched_lem = refl

dispatch_one-Settled_example :
    Settled signer no_wait never relayer job before
      (dispatched signer no_wait never relayer job before)
dispatch_one-Settled_example = dispatch_one-Settled signer no_wait never relayer job before
