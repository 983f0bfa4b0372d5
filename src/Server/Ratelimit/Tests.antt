-- ===== src/Server/Ratelimit/Tests.antt =====
-- Runs of internal/server/ratelimit.go.
use Prim.Native.Nat.{min}
use chainfx_payment_core.Common.{◌+◌, ◌<◌, ◌≡◌, refl, [], ◌∷◌, arith}
use chainfx_payment_core.Common.Assoc.{lookup, insert, text_key}
use chainfx_payment_core.Common.Int.{pos, negsuc}
use chainfx_payment_core.Common.Text.{Text, codes, text_eq}
use chainfx_payment_core.Server.Ratelimit.{RateLimiter, new_rate_limiter, bucket_of, allow_n}
use chainfx_payment_core.Server.Ratelimit.Quota.{Requests, requested, granted, window_quota}

abbrev key : Text
key = codes "agents:10.0.0.1"

abbrev other : Text
other = codes "agents:10.0.0.2"

-- One request for each second.
abbrev strict : RateLimiter
strict = record { window = 1_000_000_000; max = 2; counters = [] }

made_lem : new_rate_limiter (pos 1_000) (pos 2) ≡ strict
unfolding new_rate_limiter
made_lem = refl

default_lem :
    new_rate_limiter (negsuc 0) (pos 0)
    ≡ record { window = 60_000_000_000; max = 20; counters = [] }
unfolding new_rate_limiter
default_lem = refl

abbrev burst : Requests
burst = (6, other) ∷ (7, key) ∷ (8, key) ∷ []

no_bucket : (bucket_of (lookup key strict.counters)).reset_at < 5
unfolding lookup
no_bucket = omega arith

window_quota_example :
    ((allow_n 5 key (pos 2) strict).0.1 ≡ 5 + 1_000_000_000)
    × (granted key ((5, key) ∷ burst) strict ≡ min (requested key ((5, key) ∷ burst)) 2)
window_quota_example =
    window_quota key 5 burst strict (omega arith) (omega arith) no_bucket
      (omega arith, (omega arith, (omega arith, tt)))

third_refused : granted key ((5, key) ∷ burst) strict ≡ 2
unfolding granted allow_n lookup insert text_eq
third_refused = refl
