-- ===== src/Examples/Limits.antt =====
-- The theorem about the rate limiter at a bucket that wants a pause of 10 between two requests.
use decentralized_messenger.Common.{
  ◌+◌, ◌≡◌, refl, Bool, true, List, [], ◌∷◌, Option, none, some, arith, leb, bytes_eq, codes, ◌<◌,
  All,
}
use decentralized_messenger.Codec.Time.{Time}
use decentralized_messenger.RateLimit.{Rate}
use decentralized_messenger.RateLimit.Fairness.{drain, of_key}
use decentralized_messenger.RateLimit.Eviction.{
  Signal, asks, ticks, closes, new_limiter, serve_all, Refills,
}
use decentralized_messenger.RateLimit.Eviction.Unseen.{serve_all_lem}

abbrev paused : Option Time → Time → Bool × Option Time
paused none now = (true, some now)
paused (some t) now = (leb (t + 10) now, some now)

abbrev pauses : Rate (Option Time)
pauses = record { new_bucket = none; allow_at = paused }

paused-some : (r : Option Time) (t : Time) → (paused r t).1 ≡ some t
paused-some none t = refl
paused-some (some u) t = refl

-- Behind a long pause the first request is allowed.
drain_paused :
    (t : Time) (times : List Time)
    → All (λ now. t + 10 < now) times
    → drain pauses (some t) times ≡ drain pauses none times
unfolding drain
drain_paused t [] h = refl
drain_paused t (now ∷ times) (first, h) =
    let enough : leb (t + 10) now ≡ true = ground arith in rw enough refl

pauses-Refills : Refills pauses 10
pauses-Refills = record {
  as_new = λ r t times reached after. rw (paused-some r t) (drain_paused t times after);
}

-- A client comes three times, the last time behind a tick that has evicted its bucket.
abbrev signals : List (Signal × Time)
signals =
    (asks (codes "a"), 1)
    ∷ (asks (codes "b"), 2)
    ∷ (asks (codes "a"), 5)
    ∷ (ticks, 20)
    ∷ (asks (codes "a"), 21)
    ∷ (closes, 22)
    ∷ []

serve_all_lem_example :
    of_key (codes "a") (serve_all pauses (new_limiter 10) signals)
    ≡ drain pauses none (1 ∷ 5 ∷ 21 ∷ [])
unfolding of_key bytes_eq
serve_all_lem_example =
    serve_all_lem pauses signals 10 (codes "a") pauses-Refills
      (omega arith, (omega arith, (omega arith, (omega arith, (omega arith, (omega arith, tt))))))
