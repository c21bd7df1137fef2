-- ===== src/Examples/Failing.antt =====
-- The theorems about failing stores at an in-memory store that saves no snapshots.
use decentralized_messenger.Common.{◌≡◌, ◌⊎◌, refl, true, inl, arith, codes, length}
use decentralized_messenger.Result.{ok, err, external}
use decentralized_messenger.Storage.{StorageOps}
use decentralized_messenger.Storage.Memory.{InMemoryStorage, in_memory_storage, memory_laws}
use decentralized_messenger.Cache
use decentralized_messenger.Broker
use decentralized_messenger.Chatlog.{Ports, Log, VerifyResult}
use decentralized_messenger.Chatlog.Queries
use decentralized_messenger.Chatlog.Queries.{prove_inclusion}
use decentralized_messenger.Chatlog.Reach.{run}
use decentralized_messenger.Chatlog.Failures.{Fails, KeepsEntries}
use decentralized_messenger.Chatlog.Failures.Run.{verify-run_fallible}
use decentralized_messenger.Examples.Node.{ports, demo, fresh, fresh-IsEmpty, calls, length-calls}

-- The in-memory store behind a disk on which no snapshot can be written.
abbrev sealless : StorageOps InMemoryStorage
sealless = record in_memory_storage { save_snapshot = λ s p. (err (external (codes "disk")), s) }

abbrev sealless_laws : KeepsEntries sealless
sealless_laws = record {
  entries = memory_laws.entries;
  append_entry-cases =
      λ s c e. inl (memory_laws.append_entry-result s c e, memory_laws.entries-append_entry s c e);
  last_entry_lem = λ s c. inl (memory_laws.last_entry_lem s c);
  entries_since_lem = λ s c i. inl (memory_laws.entries_since_lem s c i);
  entries-save_snapshot = λ s p d. refl;
}

abbrev failing : Ports InMemoryStorage Cache.InMemory Broker.InMemory
failing = record ports { storage = sealless }

verify-run_fallible_example :
    ((r : VerifyResult) × (Queries.verify failing (run failing fresh (calls 100)) demo ≡ ok r)
      × (r.valid ≡ true)
      × (r.entries ≡ length (memory_laws.entries (run failing fresh (calls 100)).store demo)))
    ⊎ Fails (Queries.verify failing (run failing fresh (calls 100)) demo)
verify-run_fallible_example =
    verify-run_fallible failing sealless_laws fresh (calls 100) demo fresh-IsEmpty.entries
      (omega (arith, length-calls 100))

-- Its chat with 99 messages: the next one fills the window.
abbrev nearly : Log InMemoryStorage Cache.InMemory Broker.InMemory
nearly = run failing fresh (calls 99)
