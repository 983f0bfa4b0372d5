-- ===== src/Server/PenaltyBox/Tests.antt =====
-- Runs of internal/server/penaltybox.go.
use chainfx_payment_core.Common.{◌≡◌, refl, true, List, [], ◌∷◌, arith}
use chainfx_payment_core.Common.Assoc.{lookup, insert, keep, text_key}
use chainfx_payment_core.Common.Int.{pos}
use chainfx_payment_core.Common.Text.{Text, codes, text_eq}
use chainfx_payment_core.Server.PenaltyBox.{PenaltyBox, new_penalty_box, banned, record_violation}
use chainfx_payment_core.Server.PenaltyBox.Entry.{Escalates}
use chainfx_payment_core.Server.PenaltyBox.Ban.{Event, checking, violating, run, ban_lasts}

abbrev key : Text
key = codes "ip:10.0.0.1"

abbrev other : Text
other = codes "ip:10.0.0.2"

-- Two violations in 100 ns ban for 50 ns, then for 70, then for 90.
abbrev empty_box : PenaltyBox
empty_box = record {
  enabled = true;
  threshold = 2;
  window = 100;
  base_ban = 50;
  escalated_ban = 70;
  max_ban = 90;
  offense_reset = 86_400_000_000_000;
  max_entries = 100_000;
  entries = [];
  cleanup_deadline = 0;
}

made_lem : new_penalty_box true (pos 2) (pos 100) (pos 50) (pos 70) (pos 90) ≡ empty_box
unfolding new_penalty_box
made_lem = refl

abbrev warned : PenaltyBox
warned = run (violating key 10 ∷ []) empty_box

escalates : Escalates warned
unfolding Escalates run record_violation
escalates = (omega arith, omega arith)

second_violation : (record_violation key 20 warned).0 ≡ (true, 70)
unfolding record_violation run lookup insert keep text_eq
second_violation = refl

abbrev meanwhile : List Event
meanwhile = checking key 30 ∷ violating other 40 ∷ violating key 45 ∷ []

ban_lasts_example : (banned key 60 (run meanwhile (record_violation key 20 warned).1)).0.0 ≡ true
ban_lasts_example =
    ban_lasts key 20 70 60 meanwhile warned escalates second_violation
      ((omega arith, omega arith), ((omega arith, omega arith), ((omega arith, omega arith), tt)))
      (omega arith)
