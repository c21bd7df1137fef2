-- ===== src/Cache.antt =====
-- internal/cache/cache.go: the cache port, and its no-op and in-memory implementations. Each method
-- of the in-memory cache is one step, under its mutex.
pub mod Redis
use decentralized_messenger.Common.{
  ◌≡◌, refl, [], Option, none, some, if◌then◌else◌, Bytes, bytes_eq, Dict, lookup, insert,
  lookup-insert, string_eq,
}

-- The interface `Cache`, on the state `C` of an implementation; a miss is `none`.
pub record CacheOps (C : Type 0) : Type 0 where
  pub set_merkle_root : C → Bytes → Bytes → C
  pub get_merkle_root : C → Bytes → Option Bytes
  pub set_public_key : C → Bytes → Bytes → C
  pub get_public_key : C → Bytes → Option Bytes

abbrev pub noop : CacheOps (Unit {0})
noop = record {
  set_merkle_root = λ c _ _. c;
  get_merkle_root = λ _ _. none;
  set_public_key = λ c _ _. c;
  get_public_key = λ _ _. none;
}

pub record InMemory : Type 0 where
  pub roots : Dict Bytes Bytes
  pub keys : Dict Bytes Bytes

unfoldable pub new_in_memory : InMemory
new_in_memory = record { roots = []; keys = [] }

unfoldable pub set_merkle_root : InMemory → Bytes → Bytes → InMemory
set_merkle_root c chat_id root = record c { roots = insert chat_id root c.roots }

unfoldable pub get_merkle_root : InMemory → Bytes → Option Bytes
get_merkle_root c chat_id = lookup chat_id c.roots

-- The copy of the key's bytes is a value here.
unfoldable pub set_public_key : InMemory → Bytes → Bytes → InMemory
set_public_key c user_id public_key = record c { keys = insert user_id public_key c.keys }

unfoldable pub get_public_key : InMemory → Bytes → Option Bytes
get_public_key c user_id = lookup user_id c.keys

abbrev pub in_memory : CacheOps InMemory
in_memory = record {
  set_merkle_root = set_merkle_root;
  get_merkle_root = get_merkle_root;
  set_public_key = set_public_key;
  get_public_key = get_public_key;
}

-- The contract of the port: `roots c` and `keys c` are what a cache holds.
pub record IsCache {C : Type 0} (ops : CacheOps C) : Type 0 where
  pub roots : C → Bytes → Option Bytes
  pub keys : C → Bytes → Option Bytes
  pub get_merkle_root_lem : (c : C) (k : Bytes) → ops.get_merkle_root c k ≡ roots c k
  pub get_public_key_lem : (c : C) (k : Bytes) → ops.get_public_key c k ≡ keys c k
  pub roots-set_merkle_root :
      (c : C) (j v k : Bytes)
      → roots (ops.set_merkle_root c j v) k ≡ (if bytes_eq j k then some v else roots c k)
  pub keys-set_merkle_root : (c : C) (j v k : Bytes) → keys (ops.set_merkle_root c j v) k ≡ keys c k
  pub keys-set_public_key :
      (c : C) (j v k : Bytes)
      → keys (ops.set_public_key c j v) k ≡ (if bytes_eq j k then some v else keys c k)
  pub roots-set_public_key :
      (c : C) (j v k : Bytes) → roots (ops.set_public_key c j v) k ≡ roots c k

cache_laws : IsCache in_memory
unfolding set_merkle_root get_merkle_root set_public_key get_public_key
cache_laws = record {
  roots = λ c k. lookup k c.roots;
  keys = λ c k. lookup k c.keys;
  get_merkle_root_lem = λ c k. refl;
  get_public_key_lem = λ c k. refl;
  roots-set_merkle_root = λ c j v k. lookup-insert j k v c.roots;
  keys-set_merkle_root = λ c j v k. refl;
  keys-set_public_key = λ c j v k. lookup-insert j k v c.keys;
  roots-set_public_key = λ c j v k. refl;
}

-- The in-memory cache keeps the contract of the Cache port, over the view that takes its two maps:
-- what is set is read back for its chat or user, and all else stays.
pub in_memory-IsCache :
    (laws : IsCache in_memory) × ((c : InMemory) (k : Bytes) → laws.roots c k ≡ lookup k c.roots)
    × ((c : InMemory) (k : Bytes) → laws.keys c k ≡ lookup k c.keys)
unfolding cache_laws
in_memory-IsCache = (cache_laws, λ c k. refl, λ c k. refl)
