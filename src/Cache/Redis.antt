-- ===== src/Cache/Redis.antt =====
-- internal/cache/redis.go: the cache adapter for Redis. The client of go-redis is a parameter: `Set`,
-- whose error the adapter drops, and `Get`, on the state `D` of the server. The contexts' deadlines show
-- in the answers of the client.
use decentralized_messenger.Common.{
  ℕ, ◌≡◌, refl, Bool, true, false, [], ◌∷◌, ◌++◌, Option, none, some, if◌then◌else◌, arith, Bytes,
  codes, bytes_eq,
}
use decentralized_messenger.Result.{Result, ok, err}
use decentralized_messenger.Cache.{CacheOps, IsCache}

-- `(*redis.Client).Set` with a time to live in nanoseconds, and `Get`.
pub record Client (D : Type 0) : Type 0 where
  pub set : D → Bytes → Bytes → ℕ → D
  pub get : D → Bytes → Result Bytes

unfoldable pub root_key : Bytes → Bytes
root_key chat_id = codes "merkle_root:" ++ chat_id

unfoldable pub key_key : Bytes → Bytes
key_key user_id = codes "pubkey:" ++ user_id

-- An error of `Get` is a miss.
abbrev pub hit : Result Bytes → Option Bytes
hit (ok v) = some v
hit (err e) = none

-- A time to live of 0 stands for each that is not positive.
module _ {D : Type 0} (client : Client D) (ttl : ℕ) where
  unfoldable pub redis_set_merkle_root : D → Bytes → Bytes → D
  redis_set_merkle_root d chat_id root = client.set d (root_key chat_id) root ttl

  unfoldable pub redis_get_merkle_root : D → Bytes → Option Bytes
  redis_get_merkle_root d chat_id = hit (client.get d (root_key chat_id))

  unfoldable pub redis_set_public_key : D → Bytes → Bytes → D
  redis_set_public_key d user_id public_key = client.set d (key_key user_id) public_key ttl

  unfoldable pub redis_get_public_key : D → Bytes → Option Bytes
  redis_get_public_key d user_id = hit (client.get d (key_key user_id))

  abbrev pub redis : CacheOps D
  redis = record {
    set_merkle_root = redis_set_merkle_root;
    get_merkle_root = redis_get_merkle_root;
    set_public_key = redis_set_public_key;
    get_public_key = redis_get_public_key;
  }

-- A server that answers, and between whose calls no key expires: a key that is set is read back, and
-- the other keys are as they were.
pub record IsRedis {D : Type 0} (client : Client D) : Type 0 where
  pub get-set :
      (d : D) (j v : Bytes) (ttl : ℕ) (k : Bytes)
      → client.get (client.set d j v ttl) k ≡ (if bytes_eq j k then ok v else client.get d k)

bytes_eq-append : (p a b : Bytes) → bytes_eq (p ++ a) (p ++ b) ≡ bytes_eq a b
unfolding bytes_eq
bytes_eq-append [] a b = refl
bytes_eq-append (c ∷ p) a b = ground (arith, bytes_eq-append p a b)

root_key-eq : (a b : Bytes) → bytes_eq (root_key a) (root_key b) ≡ bytes_eq a b
unfolding root_key
root_key-eq a b = bytes_eq-append (codes "merkle_root:") a b

key_key-eq : (a b : Bytes) → bytes_eq (key_key a) (key_key b) ≡ bytes_eq a b
unfolding key_key
key_key-eq a b = bytes_eq-append (codes "pubkey:") a b

root_key-ne-key_key :
    (a b : Bytes)
    → (bytes_eq (root_key a) (key_key b) ≡ false) × (bytes_eq (key_key b) (root_key a) ≡ false)
unfolding root_key key_key bytes_eq
root_key-ne-key_key a b = (refl, refl)

hit-if :
    (t : Bool) (v : Bytes) (r : Result Bytes)
    → hit (if t then ok v else r) ≡ (if t then some v else hit r)
hit-if true v r = refl
hit-if false v r = refl

-- For a server that answers and drops no key, the Redis adapter keeps the contract of the Cache
-- port, over the view that takes the roots and the keys from the server under their prefixes:
-- setting a root of one chat changes no other root and no key, and setting a key changes no root.
pub redis-IsCache :
    {D : Type 0} (client : Client D) (ttl : ℕ)
    → IsRedis client
    → (laws : IsCache (redis client ttl)) × ((d : D) (k : Bytes)
        → laws.roots d k ≡ hit (client.get d (root_key k)))
      × ((d : D) (k : Bytes) → laws.keys d k ≡ hit (client.get d (key_key k)))
unfolding redis_set_merkle_root redis_get_merkle_root redis_set_public_key redis_get_public_key
redis-IsCache client ttl server = (
  record {
    roots = λ d k. hit (client.get d (root_key k));
    keys = λ d k. hit (client.get d (key_key k));
    get_merkle_root_lem = λ d k. refl;
    get_public_key_lem = λ d k. refl;
    roots-set_merkle_root = λ d j v k.
        rw (server.get-set d (root_key j) v ttl (root_key k), root_key-eq j k)
          (hit-if (bytes_eq j k) v (client.get d (root_key k)));
    keys-set_merkle_root = λ d j v k.
        rw (server.get-set d (root_key j) v ttl (key_key k), (root_key-ne-key_key j k).0) refl;
    keys-set_public_key = λ d j v k.
        rw (server.get-set d (key_key j) v ttl (key_key k), key_key-eq j k)
          (hit-if (bytes_eq j k) v (client.get d (key_key k)));
    roots-set_public_key = λ d j v k.
        rw (server.get-set d (key_key j) v ttl (root_key k), (root_key-ne-key_key k j).1) refl;
  },
  λ d k. refl,
  λ d k. refl,
)
