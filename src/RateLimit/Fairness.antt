-- ===== src/RateLimit/Fairness.antt =====
-- What one client of internal/ratelimit/limiter.go sees of the others.
use decentralized_messenger.Common.{
  ◌≡◌, refl, Bool, List, [], ◌∷◌, inl, inr, Bool-cases, if◌then◌else◌, Bytes, bytes_eq, lookup,
  lookup-insert, string_eq,
}
use decentralized_messenger.Codec.Time.{Time}
use decentralized_messenger.RateLimit.{Rate, Limiter, allow, bucket_of}

module _ {R : Type 0} (rate : Rate R) where
  -- The bucket of one client by itself.
  unfoldable pub drain : R → List Time → List Bool
  drain r [] = []
  drain r (now ∷ times) = (rate.allow_at r now).0 ∷ drain (rate.allow_at r now).1 times

-- What belongs to one key.
unfoldable pub of_key : {A : Type 0} → Bytes → List (Bytes × A) → List A
of_key k [] = []
of_key k ((j, a) ∷ xs) = let rest = of_key k xs in if bytes_eq j k then a ∷ rest else rest

pub cons_cong : {a b : Bool} {xs ys : List Bool} → a ≡ b → xs ≡ ys → a ∷ xs ≡ b ∷ ys
cons_cong p q = cc

module _ {R : Type 0} (rate : Rate R) where
  pub bucket-allow :
      (l : Limiter R) (key : Bytes) (now : Time) (k : Bytes)
      → bucket_of rate (lookup k (allow rate l key now).1.buckets) ≡ (
          if bytes_eq key k
          then (rate.allow_at (bucket_of rate (lookup key l.buckets)) now).1
          else bucket_of rate (lookup k l.buckets))
  unfolding allow
  bucket-allow l key now k = elim (Bool-cases (bytes_eq key k)) [
    | inl same ↦ rw (lookup-insert key k _ l.buckets, same) refl
    | inr other ↦ rw (lookup-insert key k _ l.buckets, other) refl
  ]

  pub allow-answer :
      (l : Limiter R) (key : Bytes) (now : Time)
      → (allow rate l key now).0 ≡ (rate.allow_at (bucket_of rate (lookup key l.buckets)) now).0
  unfolding allow
  allow-answer l key now = refl
