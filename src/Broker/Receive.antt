-- ===== src/Broker/Receive.antt =====
-- Receiving from the in-memory broker of internal/broker/broker.go while others publish, subscribe and
-- cancel: the methods and the receives from channels as steps, in any order.
pub mod Channels
pub mod Order
use decentralized_messenger.Common.{
  ℕ, ◌+◌, ◌≡◌, Bool, List, [], ◌∷◌, ◌++◌, Option, none, some, ltb, ◌==◌, if◌then◌else◌, length,
  Dict, lookup, insert, nat_eq,
}
use decentralized_messenger.Broker.{Event, InMemory, buffer_size, subscribe, cancel, publish}

-- The first event of a buffer, and the rest.
abbrev pub pop : List Event → Option Event × List Event
pop [] = (none, [])
pop (event ∷ events) = (some event, events)

-- A receive from the channel of a subscription, if it need not wait: from a cancelled one what is left
-- is received too.
unfoldable pub receive : ℕ → InMemory → Option Event × InMemory
receive id b = elim (lookup id b.subscribers) [
  | some buffer ↦
      ((pop buffer).0, record b { subscribers = insert id (pop buffer).1 b.subscribers })
  | none ↦ elim (lookup id b.closed) [
    | some buffer ↦ ((pop buffer).0, record b { closed = insert id (pop buffer).1 b.closed })
    | none ↦ (none, b)
  ]
]

pub data Action : Type 0 where
  subscribing : Action
  cancelling receiving : ℕ → Action
  publishing : Event → Action

-- The broker, with what one subscription has received, what was published while it lasted, and how
-- many of these events its buffer had no room for.
pub record Watch : Type 0 where
  pub broker : InMemory
  pub got : List Event
  pub sent : List Event
  pub dropped : ℕ

abbrev option_list : Option Event → List Event
option_list none = []
option_list (some event) = event ∷ []

-- An event is published: the subscription is offered it unless it was cancelled.
abbrev pub noted : Event → Option (List Event) → Watch → Watch
noted event none w = w
noted event (some buffer) w = record w {
  sent = w.sent ++ event ∷ [];
  dropped = if ltb (length buffer) buffer_size then w.dropped else w.dropped + 1;
}

unfoldable pub watch : ℕ → Watch → Action → Watch
watch id w subscribing = record w { broker = (subscribe w.broker).1 }
watch id w (cancelling j) = record w { broker = cancel j w.broker }
watch id w (publishing event) =
    let noticed = noted event (lookup id w.broker.subscribers) w in
    record noticed { broker = (publish w.broker event).1 }
watch id w (receiving j) =
    let (event, b) = receive j w.broker in
    record w { broker = b; got = if j == id then w.got ++ option_list event else w.got }

unfoldable pub watch_all : ℕ → Watch → List Action → Watch
watch_all id w [] = w
watch_all id w (action ∷ actions) = watch_all id (watch id w action) actions

-- A subscription that has just begun.
abbrev pub begun : InMemory → Watch
begun b = record { broker = (subscribe b).1; got = []; sent = []; dropped = 0 }
