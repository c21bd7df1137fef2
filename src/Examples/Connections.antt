-- ===== src/Examples/Connections.antt =====
-- The theorems about RabbitMQ and about the shutdown of a node at concrete values.
use decentralized_messenger.Common.{
  ◌≡◌, refl, inl, Bool, true, false, [], ◌∷◌, List, some, codes, arith, Bytes, Option, none,
}
use decentralized_messenger.Result.{Error, Result, ok, err, external}
use decentralized_messenger.Broker.RabbitMq.Connection.{
  Amqp, IsAmqp, Connects, IsClosed, close, new_rabbitmq, new_rabbitmq-Connects,
}
use decentralized_messenger.Broker.{Event, entry_appended}
use decentralized_messenger.Broker.RabbitMq.Bodies.{IsReadableEvent, marshal_event_inj}
use decentralized_messenger.Broker.RabbitMq.{Signal, delivery, cancelled, subscribed, forward_all}
use decentralized_messenger.Broker.RabbitMq.Forwarding.{forward_all_lem}
use decentralized_messenger.Codec.Json.Utf8.{valid_utf8_from}
use decentralized_messenger.Models.{LogEntry}
use decentralized_messenger.Chatlog.{entry_event}
use decentralized_messenger.Examples.Node.{hello}
use decentralized_messenger.Startup.Process.{
  Happening, served, interrupted, run_until_shutdown, Ends, run_until_shutdown_lem,
}

ok-err : {r : Result (Unit {0})} {e : Error} → r ≡ ok tt → r ≡ err e → ⊥
ok-err h k = cc

-- A server that has another exchange of the name: whether the connection and its channel are open.
abbrev conflicting : Amqp (Bool × Bool)
conflicting = record {
  dial = λ x url. (ok tt, (true, x.1));
  open_channel = λ x. (ok tt, (x.0, true));
  exchange_declare = λ x name kind. (err (external (codes "406")), x);
  close_channel = λ x. (ok tt, (x.0, false));
  close_connection = λ x. (ok tt, (false, false));
  queue_declare = λ x. (ok (codes "q"), x);
  queue_bind = λ x queue key exchange. (ok tt, x);
  consume = λ x queue tag. (ok tt, x);
  cancel_consumer = λ x tag. (ok tt, x);
}

abbrev conflicting_laws : IsAmqp conflicting
conflicting_laws = record {
  connection_open = λ x. x.0;
  channel_open = λ x. x.1;
  dial-ok = λ x url h. refl;
  dial-err = λ x url e h. absurd (ok-err refl h);
  channel-dial = λ x url. refl;
  open_channel-ok = λ x h. refl;
  open_channel-err = λ x e h. absurd (ok-err refl h);
  connection-open_channel = λ x. refl;
  exchange_declare-ok = λ x name kind h. absurd (ok-err h refl);
  close_channel-closes = λ x. refl;
  close_connection-closes = λ x. refl;
  channel-close_connection = λ x h. refl;
}

new_rabbitmq-Connects_example :
    Connects conflicting conflicting_laws (new_rabbitmq conflicting (false, false) (codes "amqp"))
    × IsClosed conflicting conflicting_laws
        (close conflicting (new_rabbitmq conflicting (false, false) (codes "amqp")).1).1
new_rabbitmq-Connects_example =
    new_rabbitmq-Connects conflicting conflicting_laws (false, false) (codes "amqp") (refl, refl)

abbrev is_server_closed : Error → Bool
is_server_closed e = false

abbrev happenings : List Happening
happenings = interrupted ∷ served (err (external (codes "closed"))) ∷ []

run_until_shutdown_lem_example :
    (result : Result (Unit {0})) × (run_until_shutdown is_server_closed (ok tt) happenings
      ≡ some result)
    × Ends is_server_closed (ok tt) happenings result
run_until_shutdown_lem_example =
    run_until_shutdown_lem is_server_closed (ok tt) happenings (inl refl)

-- An entry and its event.
abbrev third : LogEntry
third = record { sequence = 3; message = hello; prev_hash = []; entry_hash = codes "ab" }

abbrev event : Event
event = record {
  kind = entry_appended;
  chat_id = codes "demo";
  sequence = 3;
  entry_hash = codes "ab";
}

event-IsReadableEvent : IsReadableEvent event
unfolding valid_utf8_from
event-IsReadableEvent = record { chat_id = refl; sequence = omega arith; entry_hash = refl }

marshal_event_inj_example : event ≡ entry_event third
marshal_event_inj_example =
    marshal_event_inj event (entry_event third) event-IsReadableEvent event-IsReadableEvent refl

-- A decoder that fails on an empty body, and a subscription that is cancelled.
abbrev reader : Bytes → Option Event
reader [] = none
reader (c ∷ s) = some event

abbrev signals : List Signal
signals = delivery [] ∷ delivery (codes "x") ∷ cancelled ∷ delivery (codes "y") ∷ []

forward_all_lem_example :
    ((forward_all reader subscribed signals).buffer ≡ event ∷ [])
    × ((forward_all reader subscribed signals).closed ≡ true)
forward_all_lem_example = forward_all_lem reader signals
