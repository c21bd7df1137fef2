-- ===== src/Chatlog/Durable.antt =====
-- A log of internal/chatlog/log.go on the ScyllaDB adapter, next to the log of the same calls on a store
-- that keeps the contract of the storage port.
pub mod Texts
pub mod Step
pub mod Run
pub mod Precision
pub mod Answers
use decentralized_messenger.Common.{
  ℕ, suc, ◌+◌, ◌*◌, ◌%◌, ◌^◌, ◌<◌, ◌≡◌, refl, sym, ap, ◌∙◌, ◌⊎◌, true, false, List, [], ◌∷◌, ◌++◌,
  inl, inr, arith, Bool-cases, Bytes, length, drop, last?, if◌then◌else◌,
}
use decentralized_messenger.Codec.Decimal.{u64}
use decentralized_messenger.Codec.Time.{Time}
use decentralized_messenger.Result.{Result, ok, err}
use decentralized_messenger.Models.{SignedMessage, LogEntry, MerkleSnapshot, genesis_hash}
use decentralized_messenger.Crypto.Keys.{verify_message}
use decentralized_messenger.Storage.{StorageOps, IsStorage, or_not_found}
use decentralized_messenger.Storage.Scylla.{
  Session, scylla, entry_row, snapshot_row, append_entry, save_snapshot,
}
use decentralized_messenger.Storage.Scylla.Table.{IsTable}
use decentralized_messenger.Storage.Scylla.Holds.{Holds, IsPrecise}
use decentralized_messenger.Storage.Scylla.Ops.{
  read_back, last_entry-Holds, entries_since-Holds, latest_snapshot-Holds,
}
use decentralized_messenger.Storage.Scylla.Writes.{append_entry-ok, append_entry-Holds}
use decentralized_messenger.Storage.Scylla.Seals.{save_snapshot-ok, save_snapshot-Holds}
use decentralized_messenger.Chatlog.{
  Ports, Log, supported_version, fills_window, next_position, next_window, make_entry,
  make_snapshot, publish, announce_snapshot, snapshot_window, take_snapshot, after_snapshot,
  announce_entry, store_entry, append_at, entry_event, append_message,
}
use decentralized_messenger.Chatlog
use decentralized_messenger.Chatlog.Chain.{tip_hash, next_position_lem}
use decentralized_messenger.Chatlog.Append.{
  entries_of, snapshots_of, saved, appended, next_entry, append_message-refused,
  append_message-store, take_snapshot-ok,
}
use decentralized_messenger.Merkle.Ascii.{IsAsciiText}
use decentralized_messenger.Chatlog.Invariant.{IsWellFormed}
use decentralized_messenger.Chatlog.Invariant.Windows.{next_window_lem}

-- The ports of a node that keeps its log in ScyllaDB.
abbrev pub durable : {D S C B : Type 0} → Session D → Ports S C B → Ports D C B
durable session ports = record {
  storage = scylla session;
  cache = ports.cache;
  broker = ports.broker;
  sha256 = ports.sha256;
  ed25519 = ports.ed25519;
}

-- The latest snapshot as it is read back gives the same next window.
next_window-read_back : (r : Result MerkleSnapshot) → next_window (read_back r) ≡ next_window r
unfolding next_window
next_window-read_back (ok p) = refl
next_window-read_back (err e) = refl

module _ {D S C B : Type 0} {session : Session D} (ports : Ports S C B) (table : IsTable session)
    (laws : IsStorage ports.storage) where
  -- The two logs hold the same, and have the same cache and broker.
  pub record IsSame (ld : Log D C B) (l : Log S C B) : Type 0 where
    pub holds : Holds table laws ld.store l.store
    pub cache : ld.cache ≡ l.cache
    pub broker : ld.broker ≡ l.broker

  -- A message whose entry and snapshots the tables accept, with any hashes that are ASCII, and at any
  -- position.
  pub record IsStorable (msg : SignedMessage) : Type 0 where
    pub row :
        (prev : Bytes) (i : ℕ)
        → IsAsciiText prev
        → IsAsciiText (make_entry ports msg prev i).entry_hash
        → table.Accepted (entry_row msg.chat_id (make_entry ports msg prev i))
    pub snapshot :
        (p : MerkleSnapshot)
        → p.chat_id ≡ msg.chat_id
        → IsAsciiText p.merkle_root
        → IsAsciiText p.last_entry_hash
        → table.AcceptedSnapshot (snapshot_row p)

  pub publish-IsSame :
      (ld : Log D C B) (l : Log S C B) (event : _)
      → IsSame ld l
      → IsSame (publish (durable session ports) ld event) (publish ports l event)
  unfolding publish
  publish-IsSame ld l event same = record {
    holds = same.holds;
    cache = same.cache;
    broker = ap (λ b. (ports.broker.publish b event).1) same.broker;
  }

  announce_snapshot-IsSame :
      (ld : Log D C B) (l : Log S C B) (c : Bytes) (tip : LogEntry) (root : Bytes)
      → IsSame ld l
      → IsSame
          (announce_snapshot (durable session ports) ld c tip root (ok tt)).1
          (announce_snapshot ports l c tip root (ok tt)).1
  unfolding announce_snapshot publish
  announce_snapshot-IsSame ld l c tip root same = record {
    holds = same.holds;
    cache = ap (λ x. ports.cache.set_merkle_root x c root) same.cache;
    broker = ap (λ b. (ports.broker.publish b (Chatlog.snapshot_event c tip)).1) same.broker;
  }

  module _ (ld : Log D C B) (l : Log S C B) (same : IsSame ld l) (c : Bytes) (tip : LogEntry)
      (now : Time) (from index : ℕ)
      (at : next_window (or_not_found (last? (snapshots_of ports laws l c))) ≡ ok (from, index))
      (low : from < 2 ^ 63) (count : index ≡ length (snapshots_of ports laws l c))
      (room : suc (length (snapshots_of ports laws l c)) < 2 ^ 63) (high : tip.sequence < u64)
      (accepted : table.AcceptedSnapshot (
        snapshot_row
          (make_snapshot ports c tip now from index (drop from (entries_of ports laws l c))))) where
    abbrev snap : MerkleSnapshot
    snap = make_snapshot ports c tip now from index (drop from (entries_of ports laws l c))

    taken : Log D C B
    taken = record ld { store = (save_snapshot session ld.store snap).1 }

    snap-fields :
        (snap.chat_id ≡ c)
        × (snap.snapshot_index ≡ index)
        × (snap.from_sequence ≡ from)
        × (snap.to_sequence ≡ tip.sequence)
    unfolding make_snapshot
    snap-fields = (refl, refl, refl, refl)

    take_snapshot-durable :
        take_snapshot (durable session ports) ld c tip now
        ≡ announce_snapshot (durable session ports) taken c tip snap.merkle_root (ok tt)
    unfolding take_snapshot snapshot_window Chatlog.save_snapshot make_snapshot taken
    take_snapshot-durable =
        rw
          (
            latest_snapshot-Holds table laws ld.store l.store same.holds c,
            next_window-read_back (ports.storage.latest_snapshot l.store c),
            laws.latest_snapshot_lem l.store c,
            at,
          )
          (rw
            (
              entries_since-Holds table laws ld.store l.store same.holds c from low,
              laws.entries_since_lem l.store c from,
              snapshot_window,
            )
            (rw
              (save_snapshot-ok table laws ld.store l.store same.holds snap count (omega arith) high
                accepted room)
              refl))

    pub take_snapshot-IsSame :
        ((take_snapshot (durable session ports) ld c tip now).0 ≡ ok tt)
        × ((take_snapshot ports l c tip now).0 ≡ ok tt)
        × IsSame
            (take_snapshot (durable session ports) ld c tip now).1
            (take_snapshot ports l c tip now).1
    unfolding make_snapshot announce_snapshot taken
    take_snapshot-IsSame =
        let left = take_snapshot-durable in
        let right = take_snapshot-ok ports laws l c tip now from index at in
        (
          ap (λ r. r.0) left,
          ap (λ r. r.0) right,
          rw (left, right)
              (announce_snapshot-IsSame taken (saved ports laws l snap) c tip snap.merkle_root
                (record {
                  holds =
                      save_snapshot-Holds table laws ld.store l.store same.holds snap count
                        (omega arith) high accepted room;
                  cache = same.cache;
                  broker = same.broker;
                })),
        )
