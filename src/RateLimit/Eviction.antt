-- ===== src/RateLimit/Eviction.antt =====
-- `New`, `Close` and `evictLoop` of internal/ratelimit/limiter.go: the limiter while its loop evicts
-- idle buckets between the requests.
pub mod Buckets
pub mod Unseen
use decentralized_messenger.Common.{
  ℕ, ◌+◌, ◌≤◌, ◌<◌, ◌≡◌, Bool, true, false, List, [], ◌∷◌, none, some, Bytes, All, Dict, lookup,
  string_eq,
}
use decentralized_messenger.Codec.Time.{Time}
use decentralized_messenger.RateLimit.{Rate, Bucket, Limiter, evict_idle, allow}
use decentralized_messenger.RateLimit.Fairness.{drain}

-- `New` with its idle timeout: no buckets, and the loop runs.
pub record Running (R : Type 0) : Type 0 where
  pub limiter : Limiter R
  pub looping : Bool

unfoldable pub new_limiter : {R : Type 0} → ℕ → Running R
new_limiter idle = record { limiter = record { idle = idle; buckets = [] }; looping = true }

-- A request of a key, a tick of the loop's ticker, and `Close`.
pub data Signal : Type 0 where
  asks : Bytes → Signal
  ticks closes : Signal

-- A round of `evictLoop` at a tick; behind `Close` it has returned.
unfoldable pub evict_loop : {R : Type 0} → Running R → Time → Running R
evict_loop s now = elim s.looping [
  | true ↦ record s { limiter = evict_idle s.limiter now }
  | false ↦ s
]

unfoldable pub close : {R : Type 0} → Running R → Running R
close s = record s { looping = false }

module _ {R : Type 0} (rate : Rate R) where
  -- The answers to the requests among some signals, each at its time.
  unfoldable pub serve_all : Running R → List (Signal × Time) → List (Bytes × Bool)
  serve_all s [] = []
  serve_all s ((asks key, now) ∷ signals) =
      (key, (allow rate s.limiter key now).0)
      ∷ serve_all (record s { limiter = (allow rate s.limiter key now).1 }) signals
  serve_all s ((ticks, now) ∷ signals) = serve_all (evict_loop s now) signals
  serve_all s ((closes, now) ∷ signals) = serve_all (close s) signals

-- The requests among some signals.
abbrev pub requests_of : List (Signal × Time) → List (Bytes × Time)
requests_of [] = []
requests_of ((asks key, now) ∷ signals) = (key, now) ∷ requests_of signals
requests_of ((ticks, now) ∷ signals) = requests_of signals
requests_of ((closes, now) ∷ signals) = requests_of signals

-- Times do not go back from a time on.
abbrev pub AreOrdered : Time → List (Signal × Time) → Type 0
AreOrdered t [] = Unit
AreOrdered t ((signal, now) ∷ signals) = (t ≤ now) × AreOrdered now signals

-- A bucket that was new at some time and was used from then on, up to a time.
pub data Reached {R : Type 0} (rate : Rate R) : R → Time → Type 0 where
  unused : (t : Time) → Reached rate rate.new_bucket t
  used :
      (r : R) (t now : Time) → Reached rate r t → t ≤ now → Reached rate (rate.allow_at r t).1 now

-- What a token bucket documents, with an idle timeout in which it fills up again: after a longer pause
-- it answers as a new one.
pub record Refills {R : Type 0} (rate : Rate R) (idle : ℕ) : Type 0 where
  pub as_new :
      (r : R) (t : Time) (times : List Time)
      → Reached rate r t
      → All (λ now. t + idle < now) times
      → drain rate (rate.allow_at r t).1 times ≡ drain rate rate.new_bucket times
