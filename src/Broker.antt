-- ===== src/Broker.antt =====
-- internal/broker/broker.go: log events, the broker port, and its no-op and in-memory
-- implementations. Each method of the in-memory broker is one step, under its mutex.
pub mod Delivery
pub mod Receive
pub mod RabbitMq
use decentralized_messenger.Common.{
  ℕ, ◌+◌, ◌≡◌, Bool, List, [], ◌∷◌, ◌++◌, map, Option, none, some, ltb, if◌then◌else◌, Bytes, codes,
  length, Dict, lookup, insert, delete, nat_eq,
}
use decentralized_messenger.Result.{Result, ok}

pub data EventKind : Type 0 where
  entry_appended snapshot_created : EventKind

-- The text of a kind in JSON.
unfoldable pub kind_text : EventKind → Bytes
kind_text entry_appended = codes "entry_appended"
kind_text snapshot_created = codes "snapshot_created"

pub record Event : Type 0 where
  pub kind : EventKind
  pub chat_id : Bytes
  pub sequence : ℕ
  pub entry_hash : Bytes

-- The part of the interface `Broker` that a log calls, on the state `B` of an implementation.
pub record BrokerOps (B : Type 0) : Type 0 where
  pub publish : B → Event → Result (Unit {0}) × B

abbrev pub noop : BrokerOps (Unit {0})
noop = record { publish = λ b _. (ok tt, b) }

abbrev pub buffer_size : ℕ
buffer_size = 64

-- A channel is its buffer, oldest event first. A channel that was cancelled is closed, and what is
-- still in its buffer can be received.
pub record InMemory : Type 0 where
  pub next_id : ℕ
  pub subscribers : Dict ℕ (List Event)
  pub closed : Dict ℕ (List Event)

unfoldable pub new_in_memory : InMemory
new_in_memory = record { next_id = 0; subscribers = []; closed = [] }

-- The subscriber's identifier names its channel. (`nextID` counts subscriptions in an `int`, which
-- is taken not to overflow.)
unfoldable pub subscribe : InMemory → ℕ × InMemory
subscribe b = (
  b.next_id,
  record b { next_id = b.next_id + 1; subscribers = insert b.next_id [] b.subscribers },
)

-- The function `cancel` of a subscription.
unfoldable pub cancel : ℕ → InMemory → InMemory
cancel id b = elim (lookup id b.subscribers) [
  | none ↦ b
  | some buffer ↦ record b {
    subscribers = delete id b.subscribers;
    closed = insert id buffer b.closed;
  }
]

-- `select { case ch <- event: default: }`
unfoldable pub offer : Event → List Event → List Event
offer event buffer = if ltb (length buffer) buffer_size then buffer ++ event ∷ [] else buffer

-- The loop over the subscribers, each of which is served by itself.
unfoldable pub offer_all : Event → Dict ℕ (List Event) → Dict ℕ (List Event)
offer_all event [] = []
offer_all event ((id, buffer) ∷ m) = (id, offer event buffer) ∷ offer_all event m

unfoldable pub publish : InMemory → Event → Result (Unit {0}) × InMemory
publish b event = (ok tt, record b { subscribers = offer_all event b.subscribers })

abbrev pub in_memory : BrokerOps InMemory
in_memory = record { publish = publish }
