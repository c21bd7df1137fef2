-- ===== src/Examples/Streams.antt =====
-- The theorems about the event stream and the demonstration at concrete inputs.
use decentralized_messenger.Common.{
  ◌≡◌, refl, false, ap, [], ◌∷◌, ◌++◌, List, some, arith, Bytes, replicate, codes, lookup, length,
  nat_eq,
}
use decentralized_messenger.Result.{ok}
use decentralized_messenger.Models.{LogEntry}
use decentralized_messenger.Storage.Memory.{InMemoryStorage, in_memory_storage, memory_laws}
use decentralized_messenger.Cache
use decentralized_messenger.Broker
use decentralized_messenger.Broker.{Event, entry_appended, subscribe}
use decentralized_messenger.Chatlog.Reach.{run}
use decentralized_messenger.Api.Stream.{opened, stream, arrivals, told, stream-run}
use decentralized_messenger.Chatlog.{Log}
use decentralized_messenger.Api.Stream.Handler.{
  in_memory, subscribe_log, handle_stream, handle_stream-releases,
}
use decentralized_messenger.Startup.{Reading, DemoReport, run_demo, demo_chat}
use decentralized_messenger.Startup.Demo.{IsSuccess, run_demo_lem}
use decentralized_messenger.Examples.Node.{
  toy_sha256, toy_sha256-IsSized, toy_ed25519, toy_ed25519-IsEd25519, toy_key-IsKey, ports, demo,
  fresh, fresh-IsEmpty, fresh-IsWellFormed, calls, length-calls,
}

abbrev reading : Reading
reading = record { random = 1 ∷ 2 ∷ []; created = 0; appended = 5 }

abbrev private_key : Bytes
private_key = replicate 64 7

private_key-IsKey : toy_ed25519-IsEd25519.IsKey private_key
private_key-IsKey = toy_key-IsKey private_key refl

run_demo_lem_example :
    (report : DemoReport) × ((run_demo ports (ok private_key) reading reading reading fresh).0
      ≡ ok report)
    × IsSuccess report
run_demo_lem_example =
    run_demo_lem ports memory_laws toy_sha256-IsSized toy_ed25519-IsEd25519 private_key
      private_key-IsKey fresh reading reading reading fresh-IsWellFormed
      (fresh-IsEmpty.entries demo_chat)

stream-run_example :
    (buffer : List Event) × (added : List LogEntry) × (lookup
        (subscribe fresh.broker).0
        (run ports
          (opened in_memory_storage Cache.in_memory toy_sha256 toy_ed25519 memory_laws fresh)
          (calls 5)).broker.subscribers
      ≡ some buffer)
    × (memory_laws.entries
          (run ports
            (opened in_memory_storage Cache.in_memory toy_sha256 toy_ed25519 memory_laws fresh)
            (calls 5)).store
          demo
        ≡ memory_laws.entries fresh.store demo ++ added)
    × (stream demo (arrivals buffer) ≡ told added)
stream-run_example =
    stream-run in_memory_storage Cache.in_memory toy_sha256 toy_ed25519 memory_laws fresh (calls 5)
      demo 0 fresh-IsWellFormed (λ d. omega (arith, ap length (fresh-IsEmpty.entries d)))
      (omega (arith, length-calls 5)) (omega (arith, length-calls 5))

abbrev event : Event
event = record { kind = entry_appended; chat_id = codes "demo"; sequence = 3; entry_hash = [] }

-- A node with a client.
abbrev watched : Log InMemoryStorage Cache.InMemory Broker.InMemory
watched = opened in_memory_storage Cache.in_memory toy_sha256 toy_ed25519 memory_laws fresh

-- Another client comes, whose connection is not upgraded.
handle_stream-releases_example :
    lookup 0 (handle_stream in_memory demo false [] (λ l. l) watched).1.broker.subscribers
    ≡ lookup 0 (subscribe_log in_memory watched).1.broker.subscribers
unfolding subscribe Broker.new_in_memory
handle_stream-releases_example = handle_stream-releases watched demo false [] (λ l. l) 0
