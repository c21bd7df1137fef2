-- ===== src/Storage.antt =====
-- internal/storage/storage.go: the persistence port of a node, and the contract that the log relies
-- on, over an abstract view of the store: a list of entries and a list of snapshots for each chat.
pub mod Memory
pub mod Scylla
use decentralized_messenger.Common.{
  ℕ, ◌≡◌, Bool, ◌&&◌, List, [], ◌∷◌, ◌++◌, Option, none, some, ◌==◌, if◌then◌else◌, Bytes, bytes_eq,
  length, get_elem?, last?, drop,
}
use decentralized_messenger.Result.{Result, ok, err, not_found, sequence_gap}
use decentralized_messenger.Models.{LogEntry, MerkleSnapshot}

-- The interface `Storage`: operations on the state `S` of an implementation.
pub record StorageOps (S : Type 0) : Type 0 where
  pub append_entry : S → Bytes → LogEntry → Result (Unit {0}) × S
  pub last_entry : S → Bytes → Result LogEntry
  pub entry : S → Bytes → ℕ → Result LogEntry
  pub entries_since : S → Bytes → ℕ → Result (List LogEntry)
  pub save_snapshot : S → MerkleSnapshot → Result (Unit {0}) × S
  pub latest_snapshot : S → Bytes → Result MerkleSnapshot
  pub snapshot_at : S → Bytes → ℕ → Result MerkleSnapshot

-- A missing value is `ErrNotFound`.
abbrev pub or_not_found : {A : Type 0} → Option A → Result A
or_not_found none = err not_found
or_not_found (some a) = ok a

-- The contract. `entries s c` and `snapshots s c` are what a store holds for a chat.
pub record IsStorage {S : Type 0} (ops : StorageOps S) : Type 0 where
  pub entries : S → Bytes → List LogEntry
  pub snapshots : S → Bytes → List MerkleSnapshot
  pub append_entry-result :
      (s : S) (c : Bytes) (e : LogEntry)
      → (ops.append_entry s c e).0
        ≡ (if length (entries s c) == e.sequence then ok tt else err sequence_gap)
  pub entries-append_entry :
      (s : S) (c : Bytes) (e : LogEntry) (d : Bytes)
      → entries (ops.append_entry s c e).1 d ≡ (
          if length (entries s c) == e.sequence && bytes_eq c d
          then entries s c ++ e ∷ []
          else entries s d)
  pub snapshots-append_entry :
      (s : S) (c : Bytes) (e : LogEntry) (d : Bytes)
      → snapshots (ops.append_entry s c e).1 d ≡ snapshots s d
  pub last_entry_lem : (s : S) (c : Bytes) → ops.last_entry s c ≡ or_not_found (last? (entries s c))
  pub entry_lem :
      (s : S) (c : Bytes) (i : ℕ) → ops.entry s c i ≡ or_not_found (get_elem? (entries s c) i)
  pub entries_since_lem :
      (s : S) (c : Bytes) (i : ℕ) → ops.entries_since s c i ≡ ok (drop i (entries s c))
  pub save_snapshot-result : (s : S) (p : MerkleSnapshot) → (ops.save_snapshot s p).0 ≡ ok tt
  pub entries-save_snapshot :
      (s : S) (p : MerkleSnapshot) (d : Bytes) → entries (ops.save_snapshot s p).1 d ≡ entries s d
  pub snapshots-save_snapshot :
      (s : S) (p : MerkleSnapshot) (d : Bytes)
      → snapshots (ops.save_snapshot s p).1 d
        ≡ (if bytes_eq p.chat_id d then snapshots s d ++ p ∷ [] else snapshots s d)
  pub latest_snapshot_lem :
      (s : S) (c : Bytes) → ops.latest_snapshot s c ≡ or_not_found (last? (snapshots s c))
  pub snapshot_at_lem :
      (s : S) (c : Bytes) (i : ℕ)
      → ops.snapshot_at s c i ≡ or_not_found (get_elem? (snapshots s c) i)
