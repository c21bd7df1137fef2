-- ===== src/Api/Stream/Handler.antt =====
-- `handleStream` of internal/api/server.go from its subscription to its end, on a broker whose methods
-- Subscribe and cancel are given, with the methods Subscribe that pass it on in
-- internal/chatlog/log.go and internal/service/messenger.go.
use decentralized_messenger.Common.{
  ℕ, arith, ◌≡◌, Bool, true, false, List, none, Option-cases, inl, inr, ◌==◌, if◌then◌else◌, Bytes,
  lookup, lookup-delete, nat_eq,
}
use decentralized_messenger.Result.{Result, ok, err}
use decentralized_messenger.Broker
use decentralized_messenger.Broker.{Event, cancel}
use decentralized_messenger.Chatlog.{Log}
use decentralized_messenger.Api.Stream.{Arrival, Frame, stream}

-- `Subscribe` and the function that it returns, on the state `B` of a broker. `Sub` names a
-- subscription.
pub record Subscribing (B Sub : Type 0) : Type 0 where
  pub subscribe : B → Result Sub × B
  pub cancel : Sub → B → B

-- The no-op broker: a channel on which nothing comes, and nothing to cancel.
abbrev pub noop : Subscribing (Unit {0}) (Unit {0})
noop = record { subscribe = λ b. (ok tt, b); cancel = λ _ b. b }

abbrev pub in_memory : Subscribing Broker.InMemory ℕ
in_memory = record {
  subscribe = λ b. (ok (Broker.subscribe b).0, (Broker.subscribe b).1);
  cancel = Broker.cancel;
}

-- How a stream ends: with an error of status 500, with the answer of the upgrader, or behind what it
-- has written.
pub data Ending : Type 0 where
  refused not_upgraded : Ending
  written : List Frame → Ending

module _ {S C B Sub : Type 0} (subs : Subscribing B Sub) where
  -- `Subscribe` of the log.
  unfoldable pub subscribe_log : Log S C B → Result Sub × Log S C B
  subscribe_log l = let (r, b) = subs.subscribe l.broker in (r, record l { broker = b })

  -- `Subscribe` of the service.
  abbrev pub subscribe_service : Log S C B → Result Sub × Log S C B
  subscribe_service = subscribe_log

  -- The deferred calls behind a subscription.
  unfoldable pub released : Sub → Ending × Log S C B → Ending × Log S C B
  released sub (ending, l) = (ending, record l { broker = subs.cancel sub l.broker })

  -- `handleStream` behind `Subscribe`. `meanwhile` is what happens to the log until the stream ends.
  unfoldable pub streaming :
      Bytes
      → Bool
      → List Arrival
      → (Log S C B → Log S C B)
      → Result Sub × Log S C B
      → Ending × Log S C B
  streaming chat_id upgraded arrivals meanwhile (err e, l) = (refused, l)
  streaming chat_id upgraded arrivals meanwhile (ok sub, l) =
      released sub
        (if upgraded then (written (stream chat_id arrivals), meanwhile l) else (not_upgraded, l))

  unfoldable pub handle_stream :
      Bytes → Bool → List Arrival → (Log S C B → Log S C B) → Log S C B → Ending × Log S C B
  handle_stream chat_id upgraded arrivals meanwhile l =
      streaming chat_id upgraded arrivals meanwhile (subscribe_service l)

if-absent :
    (b : Broker.InMemory) (id j : ℕ)
    → lookup id b.subscribers ≡ none
    → lookup j b.subscribers ≡ (if id == j then none else lookup j b.subscribers)
if-absent b id j absent = ground (arith, absent)

lookup-cancel :
    (b : Broker.InMemory) (id j : ℕ)
    → lookup j (cancel id b).subscribers ≡ (if id == j then none else lookup j b.subscribers)
unfolding cancel
lookup-cancel b id j = elim (Option-cases (lookup id b.subscribers)) [
  | inl absent ↦ rw (absent, cancel) (if-absent b id j absent)
  | inr (buffer, present) ↦ rw (present, cancel) (lookup-delete id j b.subscribers)
]

module _ {S C : Type 0} where
  -- However handleStream ends on a node with the in-memory broker, with an upgrade that fails or
  -- with a stream, and whatever others do to the log until then, its subscription is gone behind
  -- it, and each other subscriber has what it had just before the end.
  pub handle_stream-releases :
      (l : Log S C Broker.InMemory) (chat_id : Bytes) (upgraded : Bool) (arrivals : List Arrival)
      (meanwhile : Log S C Broker.InMemory → Log S C Broker.InMemory) (j : ℕ)
      → (let opened = (subscribe_log in_memory l).1 in
          let before = if upgraded then meanwhile opened else opened in
          let (ending, after) = handle_stream in_memory chat_id upgraded arrivals meanwhile l in
          lookup j after.broker.subscribers
          ≡ (if l.broker.next_id == j then none else lookup j before.broker.subscribers))
  unfolding handle_stream streaming released subscribe_log Broker.subscribe
  handle_stream-releases l chat_id true arrivals meanwhile j =
      lookup-cancel (meanwhile (subscribe_log in_memory l).1).broker l.broker.next_id j
  handle_stream-releases l chat_id false arrivals meanwhile j =
      lookup-cancel (subscribe_log in_memory l).1.broker l.broker.next_id j
