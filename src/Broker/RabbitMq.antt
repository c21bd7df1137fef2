-- ===== src/Broker/RabbitMq.antt =====
-- internal/broker/rabbitmq.go: the broker adapter for RabbitMQ. A channel of amqp091-go is a parameter,
-- and so is what `json.Unmarshal` reads from the body of a delivery.
pub mod Connection
pub mod Bodies
pub mod Forwarding
use decentralized_messenger.Common.{
  ℕ, ◌≡◌, refl, sym, ap, ◌∙◌, Bool, true, false, List, [], ◌∷◌, ◌++◌, map, append_assoc, Option,
  none, some, Bytes, codes, lookup, nat_eq, All, if◌then◌else◌, append-nil,
}
use mathlib.Core.Option
use decentralized_messenger.Codec.Decimal.{format_uint}
use decentralized_messenger.Codec.Json.{marshal_string}
use decentralized_messenger.Result.{Result, ok}
use decentralized_messenger.Broker.{Event, kind_text, BrokerOps, InMemory, offer, publish}
use decentralized_messenger.Broker.Delivery.{publish_all, lookup-offer_all}

abbrev pub exchange_name : Bytes
exchange_name = codes "messenger.log.events"

-- `PublishWithContext`, with the exchange, the routing key and the body of a persistent message.
pub record Channel (X : Type 0) : Type 0 where
  pub publish_with_context : X → Bytes → Bytes → Bytes → Result (Unit {0}) × X

-- `json.Marshal` of an event, its fields in the order of the struct.
unfoldable pub marshal_event : Event → Bytes
marshal_event event =
    codes "{\"kind\":"
    ++ (marshal_string (kind_text event.kind)
        ++ (codes ",\"chat_id\":"
            ++ (marshal_string event.chat_id
                ++ (codes ",\"sequence\":"
                    ++ (format_uint event.sequence
                        ++ (codes ",\"entry_hash\":"
                            ++ (marshal_string event.entry_hash ++ b'}' ∷ [])))))))

unfoldable pub routing_key : Event → Bytes
routing_key event = kind_text event.kind ++ b'.' ∷ event.chat_id

module _ {X : Type 0} (channel : Channel X) where
  unfoldable pub rabbitmq_publish : X → Event → Result (Unit {0}) × X
  rabbitmq_publish x event =
      channel.publish_with_context x exchange_name (routing_key event) (marshal_event event)

  abbrev pub rabbitmq : BrokerOps X
  rabbitmq = record { publish = rabbitmq_publish }

-- The channel that a subscription hands out, and whether its goroutine has returned, which closes it.
pub record Subscription : Type 0 where
  pub buffer : List Event
  pub closed : Bool

abbrev pub subscribed : Subscription
subscribed = record { buffer = []; closed = false }

-- The case that the goroutine's `select` takes: a delivery with its body, the end of the deliveries, or
-- a cancelled subscription.
pub data Signal : Type 0 where
  delivery : (body : Bytes) → Signal
  deliveries_closed : Signal
  cancelled : Signal

-- The inner `select`: an event for which there is no room is dropped.
abbrev pub forward_event : Subscription → Option Event → Subscription
forward_event s none = s
forward_event s (some event) = record s { buffer = offer event s.buffer }

module _ (unmarshal : Bytes → Option Event) where
  unfoldable pub forward : Subscription → Signal → Subscription
  forward s (delivery body) = if s.closed then s else forward_event s (unmarshal body)
  forward s deliveries_closed = record s { closed = true }
  forward s cancelled = record s { closed = true }

  unfoldable pub forward_all : Subscription → List Signal → Subscription
  forward_all s [] = s
  forward_all s (signal ∷ signals) = forward_all (forward s signal) signals
