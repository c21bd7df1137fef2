-- ===== src/RateLimit.antt =====
-- internal/ratelimit/limiter.go and `rateLimitMiddleware` of internal/api/server.go. The token bucket
-- of golang.org/x/time/rate is a parameter: a new bucket for the limiter's rate and burst, and
-- `Allow` at a time. The limiter's mutex makes each method one step.
pub mod Fairness
pub mod Eviction
use decentralized_messenger.Common.{
  ℕ, ◌+◌, Bool, true, false, List, [], ◌∷◌, Option, none, some, ltb, if◌then◌else◌, Bytes, codes,
  bytes_eq, Dict, lookup, insert, string_eq,
}
use decentralized_messenger.Codec.Time.{Time}

-- `rate.NewLimiter(l.rps, l.burst)` and `(*rate.Limiter).Allow`, on the state `R` of a bucket.
pub record Rate (R : Type 0) : Type 0 where
  pub new_bucket : R
  pub allow_at : R → Time → Bool × R

pub record Bucket (R : Type 0) : Type 0 where
  pub limiter : R
  pub last_seen : Time

pub record Limiter (R : Type 0) : Type 0 where
  pub idle : ℕ
  pub buckets : Dict Bytes (Bucket R)

-- `b.lastSeen.Before(cutoff)` with the cutoff `now - idle`.
abbrev pub is_idle : {R : Type 0} → ℕ → Time → Bucket R → Bool
is_idle idle now b = ltb (b.last_seen + idle) now

-- The loop of `evictIdle` over the map.
unfoldable pub evict : {R : Type 0} → ℕ → Time → Dict Bytes (Bucket R) → Dict Bytes (Bucket R)
evict idle now [] = []
evict idle now ((k, b) ∷ m) =
    let rest = evict idle now m in if is_idle idle now b then rest else (k, b) ∷ rest

unfoldable pub evict_idle : {R : Type 0} → Limiter R → Time → Limiter R
evict_idle l now = record l { buckets = evict l.idle now l.buckets }

module _ {R : Type 0} (rate : Rate R) where
  -- The bucket of a key, or a new one.
  abbrev pub bucket_of : Option (Bucket R) → R
  bucket_of none = rate.new_bucket
  bucket_of (some b) = b.limiter

  unfoldable pub allow : Limiter R → Bytes → Time → Bool × Limiter R
  allow l key now =
      let (allowed, limiter) = rate.allow_at (bucket_of (lookup key l.buckets)) now in
      (
        allowed,
        record l { buckets = insert key (record { limiter = limiter; last_seen = now }) l.buckets },
      )

  -- Whether the middleware passes a request on, from the path and the address of the client.
  unfoldable pub admit : Limiter R → Bytes → Bytes → Time → Bool × Limiter R
  admit l path client_ip now =
      if bytes_eq path (codes "/healthz") then (true, l) else allow l client_ip now
