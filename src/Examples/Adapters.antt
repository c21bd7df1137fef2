-- ===== src/Examples/Adapters.antt =====
-- The theorems about the cache and the broker at concrete inputs.
use decentralized_messenger.Common.{
  ◌≡◌, refl, [], ◌∷◌, List, some, none, if◌then◌else◌, codes, bytes_eq, replicate, lookup, ℕ,
  nat_eq, insert, Bytes, Bool, true, false, Dict, lookup-insert, string_eq, Option,
}
use decentralized_messenger.Result.{Result, ok, err, not_found}
use decentralized_messenger.Cache.{IsCache}
use decentralized_messenger.Cache.Redis.{
  Client, IsRedis, redis, redis-IsCache, hit, root_key, key_key,
}
use decentralized_messenger.Broker.{Event, InMemory, entry_appended, new_in_memory, subscribe}
use decentralized_messenger.Broker.Receive.{
  Action, cancelling, receiving, publishing, watch_all, begun,
}
use decentralized_messenger.Broker.Receive.Order.{IsInOrder, watch_all-IsInOrder}

abbrev event : Event
event = record { kind = entry_appended; chat_id = codes "demo"; sequence = 3; entry_hash = [] }

abbrev one_subscriber : InMemory
one_subscriber = (subscribe new_in_memory).1

abbrev stuck_subscriber : InMemory
stuck_subscriber = record { next_id = 1; subscribers = (0, replicate 64 event) ∷ []; closed = [] }

-- A server of Redis that keeps its keys.
unfoldable keep : Dict Bytes Bytes → Bytes → Bytes → ℕ → Dict Bytes Bytes
keep d k v ttl = insert k v d

unfoldable found : Option Bytes → Result Bytes
found none = err not_found
found (some v) = ok v

abbrev server : Client (Dict Bytes Bytes)
server = record { set = keep; get = λ d k. found (lookup k d) }

found-if :
    (t : Bool) (v : Bytes) (o : Option Bytes)
    → found (if t then some v else o) ≡ (if t then ok v else found o)
unfolding found
found-if true v o = refl
found-if false v o = refl

server-IsRedis : IsRedis server
unfolding keep
server-IsRedis = record {
  get-set = λ d j v ttl k. rw (lookup-insert j k v d) (found-if (bytes_eq j k) v (lookup k d));
}

redis-IsCache_example :
    (laws : IsCache (redis server 3600)) × ((d : Dict Bytes Bytes) (k : Bytes)
      → laws.roots d k ≡ hit (server.get d (root_key k)))
    × ((d : Dict Bytes Bytes) (k : Bytes) → laws.keys d k ≡ hit (server.get d (key_key k)))
redis-IsCache_example = redis-IsCache server 3600 server-IsRedis

-- A client subscribes beside the first one, which is cancelled; one event arrives before the client
-- reads, and one behind its own cancellation does not.
abbrev actions : List Action
actions =
    publishing event
    ∷ cancelling 0
    ∷ receiving 1
    ∷ publishing event
    ∷ cancelling 1
    ∷ publishing event
    ∷ receiving 1
    ∷ []

watch_all-IsInOrder_example : IsInOrder 1 (watch_all 1 (begun one_subscriber) actions)
unfolding subscribe new_in_memory
watch_all-IsInOrder_example = watch_all-IsInOrder one_subscriber actions
