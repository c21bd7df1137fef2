-- ===== src/Chatlog/Invariant.antt =====
-- The invariant of a log of internal/chatlog/log.go: each chat's entries are a chain of the chat's
-- own messages, and its snapshots seal its full windows of 100 entries.
pub mod Windows
pub mod Effect
pub mod Appended
pub mod Preserved
pub mod Errors
use decentralized_messenger.Common.{
  ℕ, ◌+◌, ◌*◌, ◌/◌, ◌≡◌, List, some, Bytes, length, get_elem?, take, drop, All,
}
use decentralized_messenger.Models.{LogEntry, MerkleSnapshot, genesis_hash}
use decentralized_messenger.Merkle
use decentralized_messenger.Storage.{IsStorage}
use decentralized_messenger.Chatlog.{Ports, Log, hashes}
use decentralized_messenger.Chatlog.Chain.{IsChain}

-- The window of 100 entries at an index.
abbrev pub window : ℕ → List LogEntry → List LogEntry
window k es = take 100 (drop (100 * k) es)

-- A snapshot that seals the window at an index.
pub record IsSnapshotOf (sha256 : Bytes → Bytes) (c : Bytes) (es : List LogEntry) (k : ℕ)
    (s : MerkleSnapshot) : Type 0 where
  pub chat : s.chat_id ≡ c
  pub index : s.snapshot_index ≡ k
  pub first : s.from_sequence ≡ 100 * k
  pub last : s.to_sequence ≡ 100 * k + 99
  pub root : s.merkle_root ≡ Merkle.root sha256 (hashes (window k es))
  pub tip : get_elem? (hashes es) (100 * k + 99) ≡ some s.last_entry_hash

-- One snapshot for each full window, in order.
pub record AreSnapshots (sha256 : Bytes → Bytes) (c : Bytes) (es : List LogEntry)
    (snaps : List MerkleSnapshot) : Type 0 where
  pub count : length snaps ≡ length es / 100
  pub each :
      (k : ℕ) (s : MerkleSnapshot) → get_elem? snaps k ≡ some s → IsSnapshotOf sha256 c es k s

pub record IsWellFormed {S C B : Type 0} (ports : Ports S C B) (laws : IsStorage ports.storage)
    (l : Log S C B) : Type 0 where
  pub chain : (c : Bytes) → IsChain ports 0 genesis_hash (laws.entries l.store c)
  pub own : (c : Bytes) → All (λ e. e.message.chat_id ≡ c) (laws.entries l.store c)
  pub sealed :
      (c : Bytes) → AreSnapshots ports.sha256 c (laws.entries l.store c) (laws.snapshots l.store c)
