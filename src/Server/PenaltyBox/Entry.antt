-- ===== src/Server/PenaltyBox/Entry.antt =====
-- What the steps of internal/server/penaltybox.go do to one entry.
use chainfx_payment_core.Common.{ℕ, ◌+◌, ◌≤◌, ◌<◌, ◌≡◌, inl, inr, true, ltb, arith, Bool-cases, ap}
use chainfx_payment_core.Common.Assoc.{text_key}
use chainfx_payment_core.Server.PenaltyBox.{
  PenaltyEntry, PenaltyBox, ban_duration, cleanup_locked, aged, counted,
}

-- A later offence is punished no less than an earlier one.
unfoldable pub Escalates : PenaltyBox → Type 0
Escalates p = (p.base_ban ≤ p.escalated_ban) × (p.escalated_ban ≤ p.max_ban)

-- The entry of a client that is banned until `until` at least, by its offence number `o`.
unfoldable pub EntryHeld : ℕ → ℕ → PenaltyEntry → Type 0
EntryHeld until o e = (until ≤ e.banned_until) × (o ≤ e.offenses)

-- What no method changes: the box works, and a ban by that offence lasts from `from` to `until`.
unfoldable pub Rules : ℕ → ℕ → ℕ → PenaltyBox → Type 0
Rules from until o p = Escalates p × (until ≤ from + ban_duration p o) × (p.enabled ≡ true)

pub ban_duration-grows :
    (p : PenaltyBox) (o n : ℕ) → Escalates p → o ≤ n → ban_duration p o ≤ ban_duration p n
unfolding ban_duration Escalates
ban_duration-grows p o n h l = ground arith

pub aged-EntryHeld :
    (p : PenaltyBox) (until o now : ℕ) (e : PenaltyEntry)
    → now < until
    → EntryHeld until o e
    → EntryHeld until o (aged now p e)
unfolding EntryHeld aged
aged-EntryHeld p until o now e u h = ground arith

pub counted-EntryHeld :
    (p : PenaltyBox) (from until o now : ℕ) (e : PenaltyEntry)
    → Rules from until o p
    → from ≤ now
    → EntryHeld until o e
    → EntryHeld until o (counted now p e).1
unfolding EntryHeld counted Rules
counted-EntryHeld p from until o now e r u h =
    ground (arith, ban_duration-grows p o (e.offenses + 1) r.0)

pub counted-bans :
    (from until : ℕ) (p : PenaltyBox) (e : PenaltyEntry)
    → (counted from p e).0 ≡ (true, until)
    → (until ≤ from + ban_duration p (e.offenses + 1))
      × EntryHeld until (e.offenses + 1) (counted from p e).1
unfolding counted EntryHeld
counted-bans from until p e h = elim (Bool-cases (ltb (e.violations + 1) p.threshold)) [
  | inl b ↦ absurd (let d = rw (b, counted) at h in ground (arith, ap (λ x. x.0) d))
  | inr b ↦
      let d = rw (b, counted) at h in
      let q : from + ban_duration p (e.offenses + 1) ≡ until = ap (λ x. x.1) d in
      (omega (arith, q), rw (b, counted) (omega (arith, q), omega arith))
]

pub cleanup-open :
    (now : ℕ) (p : PenaltyBox)
    → Escalates p
    → p.enabled ≡ true
    → Escalates (cleanup_locked now p) × ((cleanup_locked now p).enabled ≡ true)
unfolding cleanup_locked Escalates
cleanup-open now p s h = ground arith
