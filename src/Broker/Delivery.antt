-- ===== src/Broker/Delivery.antt =====
-- Delivery by the in-memory broker of internal/broker/broker.go.
use decentralized_messenger.Common.{
  ℕ, ◌+◌, ◌≤◌, ◌≡◌, refl, List, [], ◌∷◌, ◌++◌, some, arith, length, length-append, Dict, lookup,
  nat_eq, append_assoc, append-nil, ◌∙◌, ap,
}
use mathlib.Core.Option
use decentralized_messenger.Broker.{Event, InMemory, buffer_size, offer, offer_all, publish}

pub lookup-offer_all :
    (event : Event) (id : ℕ) (m : Dict ℕ (List Event))
    → lookup id (offer_all event m) ≡ Option.map (offer event) (lookup id m)
unfolding offer_all lookup
lookup-offer_all event id [] = refl
lookup-offer_all event id ((i, b) ∷ m) = ground (arith, lookup-offer_all event id m)

-- Publishing some events one after another.
abbrev pub publish_all : InMemory → List Event → InMemory
publish_all b [] = b
publish_all b (event ∷ events) = publish_all (publish b event).1 events

-- A subscriber with room for them in its buffer of 64 receives all events that are published, in
-- order.
pub publish_all-delivers :
    (events : List Event) (b : InMemory) (id : ℕ) (buffer : List Event)
    → lookup id b.subscribers ≡ some buffer
    → length buffer + length events ≤ buffer_size
    → lookup id (publish_all b events).subscribers ≡ some (buffer ++ events)
unfolding publish offer
publish_all-delivers [] b id buffer h room = rw append-nil h
publish_all-delivers (event ∷ events) b id buffer h room =
    publish_all-delivers events (publish b event).1 id (buffer ++ event ∷ [])
      (ground (arith, lookup-offer_all event id b.subscribers))
      (omega (arith, length-append buffer (event ∷ [])))
    ∙ ap some (append_assoc buffer (event ∷ []) events)
