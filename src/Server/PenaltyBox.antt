-- ===== src/Server/PenaltyBox.antt =====
-- internal/server/penaltybox.go: the bans of the clients that break the limits. Instants and lengths
-- are numbers of nanoseconds, and the zero time is 0; a difference of instants that the code would
-- find negative is 0, which passes the same tests. A method runs under the mutex, so it is one step.
pub mod Entry
pub mod Ban
mod Tests
use chainfx_payment_core.Common.{
  ℕ, ◌+◌, ◌-◌, Bool, true, false, not, ◌&&◌, ◌||◌, ◌==◌, List, [], ◌∷◌, Option, none, some,
  if◌then◌else◌, ltb, leb, length,
}
use chainfx_payment_core.Common.Assoc.{lookup, insert, keep, text_key}
use chainfx_payment_core.Common.Int.{ℤ}
use chainfx_payment_core.Common.Text.{Text, is_empty}
use chainfx_payment_core.Resilience.Breaker.{or_default}

pub record PenaltyEntry : Type 0 where
  pub window_start : ℕ
  pub violations : ℕ
  pub banned_until : ℕ
  pub offenses : ℕ
  pub last_activity : ℕ

-- Once made, the threshold and the lengths are positive.
pub record PenaltyBox : Type 0 where
  pub enabled : Bool
  pub threshold : ℕ
  pub window : ℕ
  pub base_ban : ℕ
  pub escalated_ban : ℕ
  pub max_ban : ℕ
  pub offense_reset : ℕ
  pub max_entries : ℕ
  pub entries : List (Text × PenaltyEntry)
  pub cleanup_deadline : ℕ

pub new_penalty_box : Bool → ℤ → ℤ → ℤ → ℤ → ℤ → PenaltyBox
new_penalty_box enabled threshold window base_ban escalated_ban max_ban = record {
  enabled = enabled;
  threshold = or_default threshold 10;
  window = or_default window 120_000_000_000;
  base_ban = or_default base_ban 900_000_000_000;
  escalated_ban = or_default escalated_ban 3_600_000_000_000;
  max_ban = or_default max_ban 86_400_000_000_000;
  offense_reset = 86_400_000_000_000;
  max_entries = 100_000;
  entries = [];
  cleanup_deadline = 0;
}

pub ban_duration : PenaltyBox → ℕ → ℕ
ban_duration p offenses =
    if leb offenses 1 then p.base_ban else if offenses == 2 then p.escalated_ban else p.max_ban

-- The entries that a cleanup leaves.
abbrev pub is_kept : ℕ → PenaltyBox → PenaltyEntry → Bool
is_kept now p e = not (ltb e.banned_until now && ltb p.offense_reset (now - e.last_activity))

pub cleanup_locked : ℕ → PenaltyBox → PenaltyBox
cleanup_locked now p =
    if ltb now p.cleanup_deadline && leb (length p.entries) p.max_entries then p else record p {
      cleanup_deadline = now + 60_000_000_000;
      entries = keep (is_kept now p) p.entries;
    }

-- Whether the client is banned, and until when.
pub banned : Text → ℕ → PenaltyBox → (Bool × ℕ) × PenaltyBox
unfolding cleanup_locked
banned key now p =
    let p' = cleanup_locked now p in
    if not p.enabled || is_empty key then ((false, 0), p) else elim (lookup key p'.entries) [
      | none ↦ ((false, 0), p')
      | some e ↦ (
        if ltb now e.banned_until then (true, e.banned_until) else (false, 0),
        record p' { entries = insert key (record e { last_activity = now }) p'.entries },
      )
    ]

abbrev pub entry_of : ℕ → Option PenaltyEntry → PenaltyEntry
entry_of now none = record {
  window_start = now;
  violations = 0;
  banned_until = 0;
  offenses = 0;
  last_activity = now;
}
entry_of now (some e) = e

-- The entry with what has expired set back.
pub aged : ℕ → PenaltyBox → PenaltyEntry → PenaltyEntry
aged now p e =
    let expired = ltb p.window (now - e.window_start) in
    record {
      window_start = if expired then now else e.window_start;
      violations = if expired then 0 else e.violations;
      banned_until = e.banned_until;
      offenses =
          if not (e.banned_until == 0) && ltb p.offense_reset (now - e.banned_until)
          then 0
          else e.offenses;
      last_activity = now;
    }

-- The entry after a violation, which bans the client when it reaches the threshold.
pub counted : ℕ → PenaltyBox → PenaltyEntry → (Bool × ℕ) × PenaltyEntry
unfolding ban_duration
counted now p e =
    let until = now + ban_duration p (e.offenses + 1) in
    if ltb (e.violations + 1) p.threshold
    then ((false, 0), record e { violations = e.violations + 1 })
    else (
      (true, until),
      record e {
        offenses = e.offenses + 1;
        violations = 0;
        window_start = now;
        banned_until = until;
      },
    )

pub record_violation : Text → ℕ → PenaltyBox → (Bool × ℕ) × PenaltyBox
unfolding cleanup_locked aged counted
record_violation key now p =
    let p' = cleanup_locked now p in
    let (answer, e) = counted now p' (aged now p' (entry_of now (lookup key p'.entries))) in
    if not p.enabled || is_empty key
    then ((false, 0), p)
    else (answer, record p' { entries = insert key e p'.entries })
