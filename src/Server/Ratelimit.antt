-- ===== src/Server/Ratelimit.antt =====
-- internal/server/ratelimit.go: the limiter in memory. Instants and lengths are numbers of
-- nanoseconds, and the zero time is 0. A method runs under the mutex, so it is one step.
pub mod Quota
mod Tests
use chainfx_payment_core.Common.{
  ℕ, ◌+◌, ◌-◌, ◌*◌, Bool, ◌||◌, ◌==◌, List, [], ◌∷◌, Option, none, some, if◌then◌else◌, ltb, leb,
}
use chainfx_payment_core.Common.Assoc.{lookup, insert, text_key}
use chainfx_payment_core.Common.Int.{ℤ, pos, pos_part, ltb_ℤ}
use chainfx_payment_core.Common.Text.{Text}
use chainfx_payment_core.Resilience.Breaker.{or_default}

pub record RateBucket : Type 0 where
  pub reset_at : ℕ
  pub count : ℕ

-- Once made, a limiter has a positive window and a positive limit.
pub record RateLimiter : Type 0 where
  pub window : ℕ
  pub max : ℕ
  pub counters : List (Text × RateBucket)

pub new_rate_limiter : ℤ → ℤ → RateLimiter
new_rate_limiter window_ms max = record {
  window = or_default window_ms 60_000 * 1_000_000;
  max = or_default max 20;
  counters = [];
}

-- The zero bucket of a key that is not in the map.
abbrev pub bucket_of : Option RateBucket → RateBucket
bucket_of none = record { reset_at = 0; count = 0 }
bucket_of (some b) = b

-- The bucket that the request counts in, before it is counted.
pub current : ℕ → RateBucket → RateLimiter → RateBucket
current now b l =
    if b.reset_at == 0 || ltb b.reset_at now
    then record { reset_at = now + l.window; count = 0 }
    else b

-- Whether the request is allowed, the end of the window, and what remains of the limit.
pub allow_n : ℕ → Text → ℤ → RateLimiter → (Bool × ℕ × ℕ) × RateLimiter
unfolding current
allow_n now key max l =
    let limit = if ltb_ℤ (pos 0) max then pos_part max else l.max in
    let b = current now (bucket_of (lookup key l.counters)) l in
    let b' = record b { count = b.count + 1 } in
    (
      (leb b'.count limit, b'.reset_at, limit - b'.count),
      record l { counters = insert key b' l.counters },
    )

pub allow : ℕ → Text → RateLimiter → Bool × RateLimiter
unfolding allow_n
allow now key l =
    let ((allowed, reset_at, remaining), l') = allow_n now key (pos l.max) l in (allowed, l')
