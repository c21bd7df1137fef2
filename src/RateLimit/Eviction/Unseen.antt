-- ===== src/RateLimit/Eviction/Unseen.antt =====
-- That nobody sees the eviction of idle buckets of internal/ratelimit/limiter.go.
use decentralized_messenger.Common.{
  ℕ, ◌+◌, ◌≤◌, ◌<◌, ◌≡◌, refl, sym, ap, ◌∙◌, inl, inr, Bool-cases, List, [], ◌∷◌, some,
  Option-cases, arith, Bytes, bytes_eq, bytes_eq_iff, All, lookup, string_eq,
}
use mathlib.Core.Path.{subst}
use decentralized_messenger.Codec.Time.{Time}
use decentralized_messenger.RateLimit.{Rate, Bucket, Limiter, evict_idle, bucket_of, allow}
use decentralized_messenger.RateLimit.Fairness.{
  drain, of_key, cons_cong, bucket-allow, allow-answer,
}
use decentralized_messenger.RateLimit.Eviction.{
  Running, new_limiter, Signal, asks, ticks, closes, evict_loop, close, serve_all, requests_of,
  AreOrdered, Reached, unused, used, Refills,
}
use decentralized_messenger.RateLimit.Eviction.Buckets.{
  AreDistinct, AreDistinct-insert, AreDistinct-evict, lookup-evict, insert-cases, none-some,
}

-- Requests in order are behind the time from which they are.
requests_later :
    (k : Bytes) (bound t : Time) (signals : List (Signal × Time))
    → bound ≤ t
    → AreOrdered t signals
    → All (λ now. bound ≤ now) (of_key k (requests_of signals))
unfolding of_key
requests_later k bound t [] h order = tt
requests_later k bound t ((asks key, now) ∷ signals) h (le, order) =
    elim (Bool-cases (bytes_eq key k)) [
      | inl same ↦
          rw (same, of_key) (omega arith, requests_later k bound now signals (omega arith) order)
      | inr other ↦ rw (other, of_key) (requests_later k bound now signals (omega arith) order)
    ]
requests_later k bound t ((ticks, now) ∷ signals) h (le, order) =
    requests_later k bound now signals (omega arith) order
requests_later k bound t ((closes, now) ∷ signals) h (le, order) =
    requests_later k bound now signals (omega arith) order

All-later :
    (bound now : Time) (times : List Time)
    → bound < now
    → All (λ later. now ≤ later) times
    → All (λ later. bound < later) times
All-later bound now [] h after = tt
All-later bound now (later ∷ times) h (first, after) =
    (omega arith, All-later bound now times h after)

module _ {R : Type 0} (rate : Rate R) where
  -- The bucket of a client, up to a time: it was left by a request that is not later.
  record IsUsed (t : Time) (l : Limiter R) (k : Bytes) : Type 0 where
    distinct : AreDistinct l.buckets
    left_by :
        (b : Bucket R)
        → lookup k l.buckets ≡ some b
        → (r : R) × Reached rate r b.last_seen
          × (b.limiter ≡ (rate.allow_at r b.last_seen).1)
          × (b.last_seen ≤ t)

  bucket-Reached :
      (t now : Time) (l : Limiter R) (k : Bytes)
      → t ≤ now
      → IsUsed t l k
      → Reached rate (bucket_of rate (lookup k l.buckets)) now
  bucket-Reached t now l k le used_before = elim (Option-cases (lookup k l.buckets)) [
    | inl absent ↦ rw absent (unused now)
    | inr (b, present) ↦
        let (r, before, left, seen) = used_before.left_by b present in
        rw (present, left) (used r b.last_seen now before (omega (arith, seen)))
  ]

  IsUsed-allow :
      (t now : Time) (l : Limiter R) (key k : Bytes)
      → t ≤ now
      → IsUsed t l k
      → IsUsed now (allow rate l key now).1 k
  unfolding allow
  IsUsed-allow t now l key k le used_before =
      let r = bucket_of rate (lookup key l.buckets) in
      let new : Bucket R = record { limiter = (rate.allow_at r now).1; last_seen = now } in
      record {
        distinct = AreDistinct-insert key new l.buckets used_before.distinct;
        left_by = λ b at. elim (insert-cases key k new b l.buckets at) [
          | inl (own, same) ↦ (
            r,
            subst (Reached rate r) (ap (λ (c : Bucket R). c.last_seen) same)
                (rw own (bucket-Reached t now l k le used_before)),
            sym (ap (λ (c : Bucket R). c.limiter) same)
                ∙ ap (λ (c : Bucket R). (rate.allow_at r c.last_seen).1) same,
            omega (arith, ap (λ (c : Bucket R). c.last_seen) same),
          )
          | inr old ↦
              let (q, reached, left, before) = used_before.left_by b old in
              (q, reached, left, omega (arith, before))
        ];
      }

  IsUsed-later :
      (t now : Time) (l : Limiter R) (k : Bytes) → t ≤ now → IsUsed t l k → IsUsed now l k
  IsUsed-later t now l k le used_before = record {
    distinct = used_before.distinct;
    left_by = λ b at.
        let (q, reached, left, before) = used_before.left_by b at in
        (q, reached, left, omega (arith, before));
  }

  -- What the clients see of an eviction at a time: the bucket is the same, or its next answers are.
  evicted-drain :
      (t now : Time) (l : Limiter R) (k : Bytes) (times : List Time)
      → Refills rate l.idle
      → All (λ later. now ≤ later) times
      → IsUsed t l k
      → drain rate (bucket_of rate (lookup k (evict_idle l now).buckets)) times
        ≡ drain rate (bucket_of rate (lookup k l.buckets)) times
  unfolding evict_idle
  evicted-drain t now l k times refills after used_before =
      elim (lookup-evict l.idle now k l.buckets used_before.distinct) [
        | inl same ↦ rw same refl
        | inr (b, present, old, gone) ↦
            let (q, reached, left, before) = used_before.left_by b present in
            let idle : b.last_seen + l.idle < now = ground arith in
            rw (gone, present, left)
              (sym (refills.as_new q b.last_seen times reached (All-later _ now times idle after)))
      ]

  IsUsed-evict :
      (t now : Time) (l : Limiter R) (k : Bytes)
      → t ≤ now
      → IsUsed t l k
      → IsUsed now (evict_idle l now) k
  unfolding evict_idle
  IsUsed-evict t now l k le used_before = record {
    distinct = AreDistinct-evict l.idle now l.buckets used_before.distinct;
    left_by = λ b at. elim (lookup-evict l.idle now k l.buckets used_before.distinct) [
      | inl same ↦ (IsUsed-later t now l k le used_before).left_by b (sym same ∙ at)
      | inr (_, _, _, gone) ↦ absurd (none-some b (sym gone ∙ at))
    ];
  }

  -- A request is answered from the bucket of its client.
  asks_next :
      (signals : List (Signal × Time)) (s : Running R) (key : Bytes) (now : Time) (k : Bytes)
      → (let next = record s { limiter = (allow rate s.limiter key now).1 } in
          of_key k (serve_all rate next signals)
          ≡ drain rate
              (bucket_of rate (lookup k next.limiter.buckets))
              (of_key k (requests_of signals)))
      → of_key k (serve_all rate s ((asks key, now) ∷ signals))
        ≡ drain rate
            (bucket_of rate (lookup k s.limiter.buckets))
            (of_key k ((key, now) ∷ requests_of signals))
  unfolding serve_all drain of_key
  asks_next signals s key now k rest = elim (Bool-cases (bytes_eq key k)) [
    | inl same ↦
        let own : key ≡ k = (bytes_eq_iff key k).0 same in
        let after : bucket_of rate (lookup k (allow rate s.limiter key now).1.buckets)
            ≡ (rate.allow_at (bucket_of rate (lookup k s.limiter.buckets)) now).1 =
          bucket-allow rate s.limiter key now k ∙ rw (same, own) refl in
        let answer : (allow rate s.limiter key now).0
            ≡ (rate.allow_at (bucket_of rate (lookup k s.limiter.buckets)) now).0 =
          allow-answer rate s.limiter key now ∙ rw own refl in
        rw (of_key, same)
          (cons_cong answer (rest ∙ ap (λ r. drain rate r (of_key k (requests_of signals))) after))
    | inr other ↦
        let after : bucket_of rate (lookup k (allow rate s.limiter key now).1.buckets)
            ≡ bucket_of rate (lookup k s.limiter.buckets) =
          bucket-allow rate s.limiter key now k ∙ rw other refl in
        rw (of_key, other) (rest ∙ ap (λ r. drain rate r (of_key k (requests_of signals))) after)
  ]

  serve_all_from :
      (signals : List (Signal × Time)) (s : Running R) (k : Bytes) (t : Time)
      → Refills rate s.limiter.idle
      → AreOrdered t signals
      → IsUsed t s.limiter k
      → of_key k (serve_all rate s signals)
        ≡ drain rate (bucket_of rate (lookup k s.limiter.buckets)) (of_key k (requests_of signals))
  unfolding serve_all drain of_key allow evict_loop evict_idle close
  serve_all_from [] s k t refills order used_before = refl
  serve_all_from ((asks key, now) ∷ signals) s k t refills (le, order) used_before =
      let next = record s { limiter = (allow rate s.limiter key now).1 } in
      let rest =
        serve_all_from signals next k now refills order
          (IsUsed-allow t now s.limiter key k le used_before) in
      asks_next signals s key now k rest
  serve_all_from ((closes, now) ∷ signals) s k t refills (le, order) used_before =
      serve_all_from signals (close s) k now refills order
        (IsUsed-later t now s.limiter k le used_before)
  serve_all_from ((ticks, now) ∷ signals) s k t refills (le, order) used_before =
      elim (Bool-cases s.looping) [
        | inr stopped ↦
            rw (stopped, evict_loop)
              (serve_all_from signals s k now refills order
                (IsUsed-later t now s.limiter k le used_before))
        | inl running ↦
            let next = record s { limiter = evict_idle s.limiter now } in
            rw (running, evict_loop)
              (serve_all_from signals next k now refills order
                  (IsUsed-evict t now s.limiter k le used_before)
                ∙ evicted-drain t now s.limiter k (of_key k (requests_of signals)) refills
                    (requests_later k now now signals (omega arith) order) used_before)
      ]

  -- From New, whatever the clients ask for, while the loop evicts idle buckets at its ticks until
  -- Close, the answers of the limiter to one client are those of one bucket that only this client
  -- uses and that is never evicted. Times do not go back, and a bucket that was not used for
  -- longer than the idle timeout answers as a new one.
  pub serve_all_lem :
      (signals : List (Signal × Time)) (idle : ℕ) (k : Bytes)
      → Refills rate idle
      → AreOrdered 0 signals
      → of_key k (serve_all rate (new_limiter idle) signals)
        ≡ drain rate rate.new_bucket (of_key k (requests_of signals))
  unfolding new_limiter lookup
  serve_all_lem signals idle k refills order =
      serve_all_from signals (new_limiter idle) k 0 refills order
        (record { distinct = tt; left_by = λ b at. absurd (none-some b at) })
