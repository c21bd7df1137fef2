-- ===== src/RateLimit/Eviction/Buckets.antt =====
-- The map of buckets of internal/ratelimit/limiter.go across insertions and evictions.
use decentralized_messenger.Common.{
  ℕ, ◌≡◌, refl, ◌⊎◌, inl, inr, true, Bool-cases, [], ◌∷◌, none, some, arith, Bytes, bytes_eq,
  bytes_eq_iff, Dict, lookup, insert, lookup-insert, string_eq,
}
use mathlib.Core.Path.{subst}
use decentralized_messenger.RateLimit.{Bucket, is_idle, evict}

-- Each key stands once in a map.
abbrev pub AreDistinct : {R : Type 0} → Dict Bytes (Bucket R) → Type 0
AreDistinct [] = Unit
AreDistinct ((k, b) ∷ m) = (lookup k m ≡ none) × AreDistinct m

pub AreDistinct-insert :
    {R : Type 0} (k : Bytes) (b : Bucket R) (m : Dict Bytes (Bucket R))
    → AreDistinct m
    → AreDistinct (insert k b m)
unfolding insert lookup
AreDistinct-insert k b [] h = (refl, tt)
AreDistinct-insert k b ((j, c) ∷ m) (first, h) = elim (Bool-cases (bytes_eq j k)) [
  | inl same ↦
      let own : j ≡ k = (bytes_eq_iff j k).0 same in
      rw same (subst (λ i. lookup i m ≡ none) own first, h)
  | inr other ↦
      let still : lookup j (insert k b m) ≡ none =
        ground (arith, lookup-insert k j b m, bytes_eq_iff j k, bytes_eq_iff k j) in
      rw other (still, AreDistinct-insert k b m h)
]

-- An absent key stays absent.
evict-absent :
    {R : Type 0} (idle now : ℕ) (k : Bytes) (m : Dict Bytes (Bucket R))
    → lookup k m ≡ none
    → lookup k (evict idle now m) ≡ none
unfolding evict lookup
evict-absent idle now k [] h = refl
evict-absent idle now k ((j, c) ∷ m) h = ground (arith, evict-absent idle now k m)

pub AreDistinct-evict :
    {R : Type 0} (idle now : ℕ) (m : Dict Bytes (Bucket R))
    → AreDistinct m
    → AreDistinct (evict idle now m)
unfolding evict lookup
AreDistinct-evict idle now [] h = tt
AreDistinct-evict idle now ((j, c) ∷ m) (first, h) = elim (Bool-cases (is_idle idle now c)) [
  | inl old ↦ rw old (AreDistinct-evict idle now m h)
  | inr young ↦ rw young (evict-absent idle now j m first, AreDistinct-evict idle now m h)
]

-- A bucket that is not idle stays, and an idle one goes.
pub lookup-evict :
    {R : Type 0} (idle now : ℕ) (k : Bytes) (m : Dict Bytes (Bucket R))
    → AreDistinct m
    → (lookup k (evict idle now m) ≡ lookup k m)
      ⊎ ((b : Bucket R) × (lookup k m ≡ some b)
          × (is_idle idle now b ≡ true)
          × (lookup k (evict idle now m) ≡ none))
unfolding evict lookup
lookup-evict idle now k [] h = inl refl
lookup-evict idle now k ((j, c) ∷ m) (first, h) = elim (Bool-cases (bytes_eq j k)) [
  | inl same ↦
      let own : j ≡ k = (bytes_eq_iff j k).0 same in
      let gone = evict-absent idle now k m (subst (λ i. lookup i m ≡ none) own first) in
      elim (Bool-cases (is_idle idle now c)) [
        | inl old ↦ inr (c, rw same refl, old, rw old gone)
        | inr young ↦ inl (rw (young, same) refl)
      ]
  | inr other ↦ elim (Bool-cases (is_idle idle now c)) [
    | inl old ↦ rw (old, other) (lookup-evict idle now k m h)
    | inr young ↦ rw (young, other) (lookup-evict idle now k m h)
  ]
]

pub none-some : {R : Type 0} (b : Bucket R) → none ≡ some b → ⊥
none-some b e = cc

pub insert-cases :
    {R : Type 0} (key k : Bytes) (v b : Bucket R) (m : Dict Bytes (Bucket R))
    → lookup k (insert key v m) ≡ some b
    → ((key ≡ k) × (v ≡ b)) ⊎ (lookup k m ≡ some b)
insert-cases key k v b m h = elim (Bool-cases (bytes_eq key k)) [
  | inl same ↦ inl ((bytes_eq_iff key k).0 same, ground (arith, lookup-insert key k v m))
  | inr other ↦ inr (ground (arith, lookup-insert key k v m))
]
