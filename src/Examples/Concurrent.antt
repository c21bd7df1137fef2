-- ===== src/Examples/Concurrent.antt =====
-- The theorems about concurrent calls at two chats whose calls interleave.
use decentralized_messenger.Common.{
  ◌≡◌, refl, true, [], ◌∷◌, List, arith, Bytes, codes, bytes_eq, length, lookup, insert,
}
use decentralized_messenger.Result.{ok, is_not_found}
use decentralized_messenger.Crypto.Keys.{verify_message, verify}
use decentralized_messenger.Storage.Memory
use decentralized_messenger.Storage.Memory.{InMemoryStorage, memory_laws}
use decentralized_messenger.Cache
use decentralized_messenger.Broker
use decentralized_messenger.Chatlog.{
  VerifyResult, append_message, supported_version, next_position, next_u64, make_entry,
}
use decentralized_messenger.Chatlog.Queries
use decentralized_messenger.Chatlog.Locks.{
  Node, Action, enter, proceed, idle, checked, act, act_all, advance, finish,
}
use decentralized_messenger.Chatlog.Locks.Whole.{finish-append_message}
use decentralized_messenger.Chatlog.Locks.Stages.{IsSound}
use decentralized_messenger.Chatlog.Locks.Schedule.{verify-act_all, act_all-IsSound}
use decentralized_messenger.Examples.Node.{
  ports, hello, demo, fresh, fresh-IsEmpty, hello_supported, hello_signed,
}

finish-append_message_example :
    finish ports demo 8 (fresh, checked hello 5) ≡ ((append_message ports fresh hello 5).1, idle)
finish-append_message_example =
    finish-append_message ports fresh hello 5 hello_supported hello_signed

abbrev start : Node InMemoryStorage Cache.InMemory Broker.InMemory
start = record { log = fresh; stage = λ c. idle }

abbrev other : Bytes
other = codes "other"

abbrev interleaved : List Action
interleaved =
    enter hello 5
    ∷ enter (record hello { chat_id = other }) 6
    ∷ proceed demo
    ∷ proceed other
    ∷ proceed other
    ∷ proceed demo
    ∷ proceed demo
    ∷ proceed demo
    ∷ []

verify-act_all_example :
    (r : VerifyResult) × (Queries.verify ports (act_all ports start interleaved).log other ≡ ok r)
    × (r.valid ≡ true)
    × (r.entries ≡ length (memory_laws.entries (act_all ports start interleaved).log.store other))
verify-act_all_example =
    verify-act_all ports memory_laws start interleaved other fresh-IsEmpty (λ d. refl) (omega arith)

demo_idle : (act_all ports start interleaved).stage demo ≡ idle
unfolding act_all act advance supported_version verify_message verify bytes_eq next_position
    Memory.last_entry lookup Memory.new_in_memory_storage is_not_found Memory.append_entry
    make_entry insert next_u64
demo_idle = refl

act_all-IsSound_example :
    IsSound ports demo
      (memory_laws.entries (act_all ports start interleaved).log.store demo)
      (memory_laws.snapshots (act_all ports start interleaved).log.store demo)
act_all-IsSound_example =
    act_all-IsSound ports memory_laws start interleaved demo fresh-IsEmpty (λ d. refl) (omega arith)
      demo_idle
