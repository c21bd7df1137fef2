-- ===== src/Api/Stream.antt =====
-- `handleStream` of internal/api/server.go: the event stream of a chat. The WebSocket connection is a
-- parameter: what arrives says whether the write behind it succeeds.
pub mod Handler
use decentralized_messenger.Common.{
  ℕ, ◌+◌, ◌%◌, ◌==◌, ◌^◌, ◌<◌, ◌≤◌, ◌≡◌, refl, inl, inr, Bool-cases, ap, ◌∙◌, true, Bool, not, List,
  [], ◌∷◌, ◌++◌, map, some, arith, if◌then◌else◌, Bytes, bytes_eq, length, lookup, lookup-insert,
  nat_eq, ==-refl,
}
use decentralized_messenger.Codec.Decimal.{u64}
use decentralized_messenger.Codec.Time.{Time}
use decentralized_messenger.Models.{SignedMessage, LogEntry}
use decentralized_messenger.Storage.{IsStorage, StorageOps}
use decentralized_messenger.Cache.{CacheOps}
use decentralized_messenger.Broker
use decentralized_messenger.Broker.{Event, entry_appended, snapshot_created, subscribe}
use decentralized_messenger.Broker.Delivery.{publish_all, publish_all-delivers}
use decentralized_messenger.Crypto.Keys.{Ed25519}
use decentralized_messenger.Chatlog.{Ports, Log, next_u64}
use decentralized_messenger.Chatlog.Invariant.{IsWellFormed}
use decentralized_messenger.Chatlog.Reach.{run}
use decentralized_messenger.Chatlog.Events.{
  of_chat, all_announcements, publish_each, Publishes, run-Publishes,
}

-- The case that `select` takes in a round of the loop, and whether a write then succeeds.
pub data Arrival : Type 0 where
  client_gone : Arrival
  channel_closed : Arrival
  received : (evt : Event) (written : Bool) → Arrival
  tick : (written : Bool) → Arrival

-- What is written to the connection.
pub data Frame : Type 0 where
  json : Event → Frame
  ping : Frame

-- The loop: what it has written when it ends or waits.
unfoldable pub stream : Bytes → List Arrival → List Frame
stream chat_id [] = []
stream chat_id (client_gone ∷ rest) = []
stream chat_id (channel_closed ∷ rest) = []
stream chat_id (received evt written ∷ rest) =
    let more = stream chat_id rest in
    if not (bytes_eq evt.chat_id chat_id) then more else if written then json evt ∷ more else []
stream chat_id (tick written ∷ rest) =
    let more = stream chat_id rest in if written then ping ∷ more else []

-- The events of a channel arrive one after another, and each write succeeds.
abbrev pub arrivals : List Event → List Arrival
arrivals = map (λ event. received event true)

stream-arrivals :
    (c : Bytes) (events : List Event) → stream c (arrivals events) ≡ map json (of_chat c events)
unfolding stream
stream-arrivals c [] = refl
stream-arrivals c (event ∷ events) = ground (arith, stream-arrivals c events)

-- The frames that tell of entries: one for each entry, and one for the snapshot behind an entry that
-- makes the number of entries a multiple of 100.
abbrev pub told : List LogEntry → List Frame
told [] = []
told (e ∷ es) =
    let rest = told es in
    json (record {
      kind = entry_appended;
      chat_id = e.message.chat_id;
      sequence = e.sequence;
      entry_hash = e.entry_hash;
    })
    ∷ (if (e.sequence + 1) % u64 % 100 == 0
        then json (record {
          kind = snapshot_created;
          chat_id = e.message.chat_id;
          sequence = e.sequence;
          entry_hash = e.entry_hash;
        })
          ∷ rest
        else rest)

told-announcements : (es : List LogEntry) → map json (all_announcements es) ≡ told es
unfolding next_u64
told-announcements [] = refl
told-announcements (e ∷ es) =
    let rest = told-announcements es in
    elim (Bool-cases ((e.sequence + 1) % u64 % 100 == 0)) [
      | inl full ↦ rw full (cc (rest))
      | inr plain ↦ rw plain (cc (rest))
    ]

module _ {S C : Type 0} (storage : StorageOps S) (cache : CacheOps C) (sha256 : Bytes → Bytes)
    (ed25519 : Ed25519) (laws : IsStorage storage) where
  -- A node with the in-memory broker.
  abbrev pub node : Ports S C Broker.InMemory
  node = record {
    storage = storage;
    cache = cache;
    broker = Broker.in_memory;
    sha256 = sha256;
    ed25519 = ed25519;
  }

  -- A node to which a client has opened a stream.
  abbrev pub opened : Log S C Broker.InMemory → Log S C Broker.InMemory
  opened l = record l { broker = (subscribe l.broker).1 }

  publish_each-in_memory :
      (b : Broker.InMemory) (events : List Event)
      → publish_each node laws b events ≡ publish_all b events
  publish_each-in_memory b [] = refl
  publish_each-in_memory b (event ∷ events) =
      publish_each-in_memory (Broker.publish b event).1 events

  opened-buffer :
      (b : Broker.InMemory) → lookup (subscribe b).0 (subscribe b).1.subscribers ≡ some []
  unfolding subscribe
  opened-buffer b =
      lookup-insert b.next_id b.next_id [] b.subscribers
      ∙ ap (λ t. if t then some [] else lookup b.next_id b.subscribers) (==-refl b.next_id)

  -- A client opens the event stream of a chat on a node with the in-memory broker whose log keeps
  -- the invariant. After at most 32 calls of Append, for any chats and messages, the channel of
  -- the client holds some events, and with successful writes handleStream sends of them exactly,
  -- for the entries that its chat has gained, in order: the chat, the sequence number and the hash
  -- of the entry as an appended entry, and behind one that makes the number of entries a multiple
  -- of 100 the same of it as a snapshot. The lengths stay below 2^63. The store keeps the contract
  -- of its port.
  pub stream-run :
      (l : Log S C Broker.InMemory) (calls : List (SignedMessage × Time)) (c : Bytes) (k : ℕ)
      → IsWellFormed node laws l
      → ((d : Bytes) → length (laws.entries l.store d) ≤ k)
      → k + length calls < 2 ^ 63
      → length calls ≤ 32
      → (buffer : List Event) × (added : List LogEntry) × (lookup
            (subscribe l.broker).0
            (run node (opened l) calls).broker.subscribers
          ≡ some buffer)
        × (laws.entries (run node (opened l) calls).store c ≡ laws.entries l.store c ++ added)
        × (stream c (arrivals buffer) ≡ told added)
  stream-run l calls c k wf bound h few =
      let p : Publishes node laws (length calls) (opened l) c (run node (opened l) calls) =
        run-Publishes node laws calls (opened l) c k
          (record { chain = wf.chain; own = wf.own; sealed = wf.sealed }) bound h in
      (
        p.events,
        p.added,
        ap (λ b. lookup (subscribe l.broker).0 b.subscribers)
              (p.published ∙ publish_each-in_memory (subscribe l.broker).1 p.events)
            ∙ publish_all-delivers p.events (subscribe l.broker).1 (subscribe l.broker).0 []
                (opened-buffer l.broker) (omega (arith, p.most)),
        p.gained,
        stream-arrivals c p.events ∙ ap (map json) p.told ∙ told-announcements p.added,
      )
