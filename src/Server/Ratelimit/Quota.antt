-- ===== src/Server/Ratelimit/Quota.antt =====
-- How many requests of one window the limiter of internal/server/ratelimit.go lets pass.
use Prim.Native.Nat.{min}
use chainfx_payment_core.Common.{
  ℕ, ◌+◌, ◌-◌, ◌≤◌, ◌<◌, ◌≡◌, inl, inr, refl, true, false, List, [], ◌∷◌, some, if◌then◌else◌, ltb,
  arith, Bool-cases, sym, ap, ◌∙◌, ltb→lt,
}
use mathlib.Core.Path.{subst}
use chainfx_payment_core.Common.Int.{pos}
use chainfx_payment_core.Common.Assoc.{lookup, lookup-insert, text_key}
use chainfx_payment_core.Common.Text.{Text, All, text_eq, text_eq_iff, text_eq_refl}
use chainfx_payment_core.Server.Ratelimit.{
  RateBucket, RateLimiter, bucket_of, current, allow_n, allow,
}

-- The requests of all clients, each with its instant and its key.
abbrev pub Requests : Type 0
Requests = List (ℕ × Text)

pub requested : Text → Requests → ℕ
requested key [] = 0
requested key ((now, k) ∷ rs) = (if text_eq k key then 1 else 0) + requested key rs

-- The requests of one key that are allowed.
unfoldable pub granted : Text → Requests → RateLimiter → ℕ
unfolding allow
granted key [] l = 0
granted key ((now, k) ∷ rs) l =
    let (allowed, l') = allow now k l in
    (if text_eq k key then if allowed then 1 else 0 else 0) + granted key rs l'

-- The window of the key is open, and so many of its requests have been counted.
Open : Text → ℕ → ℕ → ℕ → RateLimiter → Type 0
Open key x c m l =
    (lookup key l.counters ≡ some record { reset_at = x; count = c })
    × (0 < x)
    × (0 < l.max)
    × (l.max ≡ m)

current-Open :
    (now : ℕ) (key : Text) (x c m : ℕ) (l : RateLimiter)
    → now ≤ x
    → Open key x c m l
    → current now (bucket_of (lookup key l.counters)) l ≡ record { reset_at = x; count = c }
unfolding current Open
current-Open now key x c m l u (e, p, q, r) = rw (e, current) (ground arith)

allow-Open-own :
    (now : ℕ) (key : Text) (x c m : ℕ) (l : RateLimiter)
    → now ≤ x
    → Open key x c m l
    → ((allow now key l).0 ≡ ltb c m) × Open key x (c + 1) m (allow now key l).1
unfolding allow allow_n Open
allow-Open-own now key x c m l u h =
    let e = current-Open now key x c m l u (unfold Open in h) in
    (
      rw e (ground (arith, h.1, h.2, h.3)),
      (
        rw e (
            ground (
              arith,
              lookup-insert key (record { reset_at = x; count = c + 1 }) l.counters key,
              text_eq_refl key,
            )),
        h.1,
        h.2,
        h.3,
      ),
    )

allow-Open-other :
    (now : ℕ) (k key : Text) (x c m : ℕ) (l : RateLimiter)
    → text_eq k key ≡ false
    → Open key x c m l
    → Open key x c m (allow now k l).1
unfolding allow allow_n Open
allow-Open-other now k key x c m l other h =
    let b = current now (bucket_of (lookup k l.counters)) l in
    (
      ground (arith, h.0, other, lookup-insert k (record b { count = b.count + 1 }) l.counters key),
      h.1,
      h.2,
      h.3,
    )

-- Every request comes before the end of the window.
abbrev pub Before : ℕ → Requests → Type 0
Before x = All (λ r. r.0 ≤ x)

granted-Open :
    (key : Text) (x c m : ℕ) (rs : Requests) (l : RateLimiter)
    → Before x rs
    → Open key x c m l
    → granted key rs l ≡ min (requested key rs) (m - c)
unfolding granted requested
granted-Open key x c m [] l u h = omega arith
granted-Open key x c m ((now, k) ∷ rs) l (u, us) h = elim (Bool-cases (text_eq k key)) [
  | inl e ↦
      let q : k ≡ key = (text_eq_iff k key).0 e in
      let (passed, counted) = allow-Open-own now key x c m l u h in
      let rest =
        granted-Open key x (c + 1) m rs (allow now k l).1 us
          (subst (λ y. Open key x (c + 1) m (allow now y l).1) (sym q) counted) in
      let now_passed : (allow now k l).0 ≡ ltb c m = ap (λ y. (allow now y l).0) q ∙ passed in
      rw (e, now_passed, granted, requested)
        (elim (Bool-cases (ltb c m)) [
          | inl b ↦ rw b (omega (arith, rest, ltb→lt c m b))
          | inr b ↦ rw b (let g : m ≤ c = ground arith in omega (arith, rest))
        ])
  | inr e ↦
      rw (e, granted, requested)
        (omega (
          arith,
          granted-Open key x c m rs (allow now k l).1 us (allow-Open-other now k key x c m l e h),
        ))
]

allow-opens :
    (now : ℕ) (key : Text) (l : RateLimiter)
    → 0 < l.window
    → 0 < l.max
    → (bucket_of (lookup key l.counters)).reset_at < now
    → ((allow now key l).0 ≡ true) × Open key (now + l.window) 1 l.max (allow now key l).1
unfolding allow allow_n Open current
allow-opens now key l w m over =
    let b : RateBucket = record { reset_at = now + l.window; count = 0 } in
    let e : current now (bucket_of (lookup key l.counters)) l ≡ b = ground arith in
    (
      rw e (ground arith),
      (
        rw e (
            ground (
              arith,
              lookup-insert key (record { reset_at = now + l.window; count = 1 }) l.counters key,
              text_eq_refl key,
            )),
        ground arith,
        m,
        refl,
      ),
    )

-- The end of the window that a request opens.
opened_until :
    (now : ℕ) (key : Text) (l : RateLimiter)
    → 0 < l.window
    → (bucket_of (lookup key l.counters)).reset_at < now
    → (allow_n now key (pos l.max) l).0.1 ≡ now + l.window
unfolding allow_n current
opened_until now key l w over = ground arith

-- For a limiter with a positive window and a positive limit: a request that comes after the end of its
-- key's window, or is the first one of its key, is told that the window ends a window's length after
-- it. Of the requests of its key until then, this one included, exactly the first ones up to the limit
-- are let pass, whatever the other clients do in between.
pub window_quota :
    (key : Text) (start : ℕ) (rs : Requests) (l : RateLimiter)
    → 0 < l.window
    → 0 < l.max
    → (bucket_of (lookup key l.counters)).reset_at < start
    → Before (start + l.window) rs
    → ((allow_n start key (pos l.max) l).0.1 ≡ start + l.window)
      × (granted key ((start, key) ∷ rs) l ≡ min (requested key ((start, key) ∷ rs)) l.max)
unfolding granted requested
window_quota key start rs l w m over us =
    let (passed, counted) = allow-opens start key l w m over in
    let rest = granted-Open key (start + l.window) 1 l.max rs (allow start key l).1 us counted in
    (
      opened_until start key l w over,
      rw (text_eq_refl key, passed, granted, requested) (omega (arith, rest)),
    )
