-- ===== src/Broker/RabbitMq/Connection.antt =====
-- Connecting and closing of internal/broker/rabbitmq.go, and the queue of a subscription. What
-- amqp091-go does with its connection and its channel is a parameter.
use decentralized_messenger.Common.{
  ◌≡◌, refl, ◌∙◌, ◌⊎◌, inl, inr, Bool, true, false, ◌++◌, Bytes, codes,
}
use decentralized_messenger.Result.{Error, Result, ok, err, Result-cases}
use decentralized_messenger.Broker.RabbitMq.{exchange_name, Subscription, subscribed}

-- A connection and its channel, on the state `X` of client and server.
pub record Amqp (X : Type 0) : Type 0 where
  pub dial : X → Bytes → Result (Unit {0}) × X
  pub open_channel : X → Result (Unit {0}) × X
  -- the name and the kind of a durable exchange
  pub exchange_declare : X → Bytes → Bytes → Result (Unit {0}) × X
  pub close_channel : X → Result (Unit {0}) × X
  pub close_connection : X → Result (Unit {0}) × X
  -- an exclusive queue that the server names
  pub queue_declare : X → Result Bytes × X
  -- queue, routing key, exchange
  pub queue_bind : X → Bytes → Bytes → Bytes → Result (Unit {0}) × X
  -- queue, consumer
  pub consume : X → Bytes → Bytes → Result (Unit {0}) × X
  pub cancel_consumer : X → Bytes → Result (Unit {0}) × X

module _ {X : Type 0} (amqp : Amqp X) where
  -- `NewRabbitMQ` behind `ExchangeDeclare`.
  unfoldable pub declared : Result (Unit {0}) × X → Result (Unit {0}) × X
  declared (ok _, x) = (ok tt, x)
  declared (err e, x) = (err e, (amqp.close_connection (amqp.close_channel x).1).1)

  -- `NewRabbitMQ` behind `Channel`.
  unfoldable pub channelled : Result (Unit {0}) × X → Result (Unit {0}) × X
  channelled (ok _, x) = declared (amqp.exchange_declare x exchange_name (codes "topic"))
  channelled (err e, x) = (err e, (amqp.close_connection x).1)

  -- `NewRabbitMQ` behind `Dial`.
  unfoldable pub dialled : Result (Unit {0}) × X → Result (Unit {0}) × X
  dialled (ok _, x) = channelled (amqp.open_channel x)
  dialled (err e, x) = (err e, x)

  unfoldable pub new_rabbitmq : X → Bytes → Result (Unit {0}) × X
  new_rabbitmq x url = dialled (amqp.dial x url)

  -- `Close` of an adapter that `NewRabbitMQ` made, whose connection and channel are set.
  unfoldable pub close : X → Result (Unit {0}) × X
  close x = amqp.close_connection (amqp.close_channel x).1

  abbrev pub consumer_tag : Bytes → Bytes
  consumer_tag queue = codes "messenger-sub-" ++ queue

  -- `Subscribe` behind `Consume`: the subscription with its consumer.
  unfoldable pub consumed : Bytes → Result (Unit {0}) × X → Result (Subscription × Bytes) × X
  consumed queue (ok _, x) = (ok (subscribed, consumer_tag queue), x)
  consumed queue (err e, x) = (err e, x)

  -- `Subscribe` behind `QueueBind`.
  unfoldable pub bound : Bytes → Result (Unit {0}) × X → Result (Subscription × Bytes) × X
  bound queue (ok _, x) = consumed queue (amqp.consume x queue (consumer_tag queue))
  bound queue (err e, x) = (err e, x)

  -- `Subscribe` behind `QueueDeclare`.
  unfoldable pub queued : Result Bytes × X → Result (Subscription × Bytes) × X
  queued (ok queue, x) = bound queue (amqp.queue_bind x queue (codes "#") exchange_name)
  queued (err e, x) = (err e, x)

  unfoldable pub subscribe : X → Result (Subscription × Bytes) × X
  subscribe x = queued (amqp.queue_declare x)

  -- The function `cancel` of a subscription: its goroutine ends, and so does its consumer.
  unfoldable pub cancel : Bytes → Subscription → X → Subscription × X
  cancel tag s x = (record s { closed = true }, (amqp.cancel_consumer x tag).1)

-- What amqp091-go documents of what is open: a call that fails opens nothing, and closing closes,
-- whatever it returns.
pub record IsAmqp {X : Type 0} (amqp : Amqp X) : Type 0 where
  pub connection_open : X → Bool
  pub channel_open : X → Bool
  pub dial-ok :
      (x : X) (url : Bytes)
      → (amqp.dial x url).0 ≡ ok tt
      → connection_open (amqp.dial x url).1 ≡ true
  pub dial-err :
      (x : X) (url : Bytes) (e : Error)
      → (amqp.dial x url).0 ≡ err e
      → connection_open (amqp.dial x url).1 ≡ connection_open x
  pub channel-dial : (x : X) (url : Bytes) → channel_open (amqp.dial x url).1 ≡ channel_open x
  pub open_channel-ok :
      (x : X) → (amqp.open_channel x).0 ≡ ok tt → channel_open (amqp.open_channel x).1 ≡ true
  pub open_channel-err :
      (x : X) (e : Error)
      → (amqp.open_channel x).0 ≡ err e
      → channel_open (amqp.open_channel x).1 ≡ channel_open x
  pub connection-open_channel :
      (x : X) → connection_open (amqp.open_channel x).1 ≡ connection_open x
  pub exchange_declare-ok :
      (x : X) (name kind : Bytes)
      → (amqp.exchange_declare x name kind).0 ≡ ok tt
      → (connection_open (amqp.exchange_declare x name kind).1 ≡ connection_open x)
        × (channel_open (amqp.exchange_declare x name kind).1 ≡ channel_open x)
  pub close_channel-closes : (x : X) → channel_open (amqp.close_channel x).1 ≡ false
  pub close_connection-closes : (x : X) → connection_open (amqp.close_connection x).1 ≡ false
  pub channel-close_connection :
      (x : X) → channel_open x ≡ false → channel_open (amqp.close_connection x).1 ≡ false

module _ {X : Type 0} (amqp : Amqp X) (laws : IsAmqp amqp) where
  abbrev pub IsClosed : X → Type 0
  IsClosed x = (laws.connection_open x ≡ false) × (laws.channel_open x ≡ false)

  abbrev pub IsOpen : X → Type 0
  IsOpen x = (laws.connection_open x ≡ true) × (laws.channel_open x ≡ true)

  -- A new adapter with both open, or an error and nothing left open.
  abbrev pub Connects : Result (Unit {0}) × X → Type 0
  Connects (r, x) = ((r ≡ ok tt) × IsOpen x) ⊎ ((e : Error) × (r ≡ err e) × IsClosed x)

  pub close-IsClosed : (x : X) → IsClosed (close amqp x).1
  unfolding close
  close-IsClosed x =
      let y = (amqp.close_channel x).1 in
      (
        laws.close_connection-closes y,
        laws.channel-close_connection y (laws.close_channel-closes x),
      )

  -- What the declaration of the exchange leaves.
  declared-Connects :
      (x : X)
      → IsOpen x
      → Connects (declared amqp (amqp.exchange_declare x exchange_name (codes "topic")))
  unfolding declared close
  declared-Connects x (c, d) =
      let (r, y) = amqp.exchange_declare x exchange_name (codes "topic") in
      elim (Result-cases r) [
        | inl (_, p) ↦
            let (same, same') = laws.exchange_declare-ok x exchange_name (codes "topic") p in
            rw (p, declared) (inl (refl, (same ∙ c, same' ∙ d)))
        | inr (e, p) ↦ rw (p, declared) (inr (e, refl, close-IsClosed y))
      ]

  channelled-Connects :
      (x : X)
      → laws.connection_open x ≡ true
      → laws.channel_open x ≡ false
      → Connects (channelled amqp (amqp.open_channel x))
  unfolding channelled
  channelled-Connects x c d =
      let (r, y) = amqp.open_channel x in
      elim (Result-cases r) [
        | inl (_, p) ↦
            rw (p, channelled)
              (declared-Connects y (laws.connection-open_channel x ∙ c, laws.open_channel-ok x p))
        | inr (e, p) ↦
            let shut = laws.channel-close_connection y (laws.open_channel-err x e p ∙ d) in
            rw (p, channelled) (inr (e, refl, (laws.close_connection-closes y, shut)))
      ]

  -- With nothing open, NewRabbitMQ returns an adapter whose connection and channel are open, or an
  -- error with nothing left open, whichever of its calls fails; and behind Close nothing is open.
  -- The client of RabbitMQ opens nothing when a call fails, and closes what it is told to close.
  pub new_rabbitmq-Connects :
      (x : X) (url : Bytes)
      → IsClosed x
      → Connects (new_rabbitmq amqp x url) × IsClosed (close amqp (new_rabbitmq amqp x url).1).1
  unfolding new_rabbitmq dialled
  new_rabbitmq-Connects x url (c, d) =
      let (r, y) = amqp.dial x url in
      let none_yet = laws.channel-dial x url ∙ d in
      (
        elim (Result-cases r) [
          | inl (_, p) ↦ rw (p, dialled) (channelled-Connects y (laws.dial-ok x url p) none_yet)
          | inr (e, p) ↦ rw (p, dialled) (inr (e, refl, (laws.dial-err x url e p ∙ c, none_yet)))
        ],
        close-IsClosed (new_rabbitmq amqp x url).1,
      )
