-- ===== src/Storage/Scylla.antt =====
-- internal/storage/scylla.go: the storage adapter for ScyllaDB. A session of gocql is a parameter: one
-- operation for each CQL statement of the adapter, on the state `D` of the database. The schema's
-- `bigint` columns are signed numbers of 64 bits.
pub mod Table
pub mod Dense
pub mod Holds
pub mod Ops
pub mod Writes
pub mod Seals
use decentralized_messenger.Common.{
  ℕ, ◌-◌, ◌^◌, Bool, true, false, List, [], ◌∷◌, map, Option, none, some, ltb, if◌then◌else◌, Bytes,
}
use decentralized_messenger.Codec.Decimal.{ℤ, pos, negsuc, u64}
use decentralized_messenger.Codec.Time.{Time}
use decentralized_messenger.Result.{Error, Result, ok, err, not_found, sequence_gap}
use decentralized_messenger.Models.{LogEntry, MerkleSnapshot}
use decentralized_messenger.Storage.{StorageOps}

-- `int64(v)` of a `uint64` and `uint64(z)` of an `int64`.
unfoldable pub int64 : ℕ → ℤ
int64 v = if ltb v (2 ^ 63) then pos v else negsuc (u64 - 1 - v)

unfoldable pub uint64 : ℤ → ℕ
uint64 (pos n) = n
uint64 (negsuc n) = u64 - 1 - n

-- A row of `log_entries` and of `snapshots`, with the schema's columns.
pub record EntryRow : Type 0 where
  pub chat_id : Bytes
  pub sequence : ℤ
  pub schema_version : ℤ
  pub message_id : Bytes
  pub sender_id : Bytes
  pub content : Bytes
  pub content_type : Bytes
  pub filename : Bytes
  pub encrypted : Bool
  pub ts : Time
  pub public_key : Bytes
  pub signature : Bytes
  pub prev_hash : Bytes
  pub entry_hash : Bytes

pub record SnapshotRow : Type 0 where
  pub chat_id : Bytes
  pub snapshot_index : ℤ
  pub from_sequence : ℤ
  pub to_sequence : ℤ
  pub merkle_root : Bytes
  pub last_entry_hash : Bytes
  pub created_at : Time

-- What `Iter` gives: the rows that `Scan` reads in turn, and the error of `Close`.
pub record Iter : Type 0 where
  pub rows : List EntryRow
  pub closing : Option Error

-- What `Query.Scan` of one row returns: the row, `gocql.ErrNotFound`, or another error.
pub data Scanned : Type 0 where
  row : SnapshotRow → Scanned
  no_row : Scanned
  failed : Error → Scanned

-- The statements of the adapter. `insert_entry` says whether the row was applied.
pub record Session (D : Type 0) : Type 0 where
  pub insert_entry : D → EntryRow → Result Bool × D
  pub select_last : D → Bytes → Iter
  pub select_entry : D → Bytes → ℤ → Iter
  pub select_since : D → Bytes → ℤ → Iter
  pub insert_snapshot : D → SnapshotRow → Result (Unit {0}) × D
  pub select_snapshot : D → Bytes → ℤ → Scanned
  pub select_latest : D → Bytes → Scanned

-- The values that `AppendEntry` binds.
unfoldable pub entry_row : Bytes → LogEntry → EntryRow
entry_row chat_id entry = record {
  chat_id = chat_id;
  sequence = int64 entry.sequence;
  schema_version = entry.message.schema_version;
  message_id = entry.message.message_id;
  sender_id = entry.message.sender_id;
  content = entry.message.content;
  content_type = entry.message.content_type;
  filename = entry.message.filename;
  encrypted = entry.message.encrypted;
  ts = entry.message.timestamp;
  public_key = entry.message.public_key;
  signature = entry.message.signature;
  prev_hash = entry.prev_hash;
  entry_hash = entry.entry_hash;
}

-- `scanEntry` at a row. A time is in UTC here.
unfoldable pub scan_entry : Bytes → EntryRow → LogEntry
scan_entry chat_id r = record {
  sequence = uint64 r.sequence;
  message = record {
    schema_version = r.schema_version;
    message_id = r.message_id;
    chat_id = chat_id;
    sender_id = r.sender_id;
    content = r.content;
    content_type = r.content_type;
    filename = r.filename;
    encrypted = r.encrypted;
    timestamp = r.ts;
    public_key = r.public_key;
    signature = r.signature;
  };
  prev_hash = r.prev_hash;
  entry_hash = r.entry_hash;
}

-- The values that `SaveSnapshot` binds.
unfoldable pub snapshot_row : MerkleSnapshot → SnapshotRow
snapshot_row snap = record {
  chat_id = snap.chat_id;
  snapshot_index = int64 snap.snapshot_index;
  from_sequence = int64 snap.from_sequence;
  to_sequence = int64 snap.to_sequence;
  merkle_root = snap.merkle_root;
  last_entry_hash = snap.last_entry_hash;
  created_at = snap.created_at;
}

-- The snapshot of a row, at the chat and the index that it is returned with.
unfoldable pub scan_snapshot : Bytes → ℕ → SnapshotRow → MerkleSnapshot
scan_snapshot chat_id index r = record {
  chat_id = chat_id;
  snapshot_index = index;
  from_sequence = uint64 r.from_sequence;
  to_sequence = uint64 r.to_sequence;
  merkle_root = r.merkle_root;
  last_entry_hash = r.last_entry_hash;
  created_at = r.created_at;
}

-- The end of `AppendEntry`.
unfoldable pub applied : Result Bool → Result (Unit {0})
applied (err e) = err e
applied (ok false) = err sequence_gap
applied (ok true) = ok tt

-- One call of `scanEntry`, then `Close`.
unfoldable pub first_entry : Bytes → Iter → Result LogEntry
first_entry chat_id iter = elim iter.closing [
  | some e ↦ err e
  | none ↦ elim iter.rows [ [] ↦ err not_found | r ∷ _ ↦ ok (scan_entry chat_id r) ]
]

-- The loop of `EntriesSince`, then `Close`.
unfoldable pub all_entries : Bytes → Iter → Result (List LogEntry)
all_entries chat_id iter = elim iter.closing [
  | some e ↦ err e
  | none ↦ ok (map (scan_entry chat_id) iter.rows)
]

-- `SnapshotAt` behind its query: the index is the one that was asked for.
unfoldable pub scanned_at : Bytes → ℕ → Scanned → Result MerkleSnapshot
scanned_at chat_id index no_row = err not_found
scanned_at chat_id index (failed e) = err e
scanned_at chat_id index (row r) = ok (scan_snapshot chat_id index r)

-- `LatestSnapshot` behind its query: the index is the row's.
unfoldable pub scanned_latest : Bytes → Scanned → Result MerkleSnapshot
scanned_latest chat_id no_row = err not_found
scanned_latest chat_id (failed e) = err e
scanned_latest chat_id (row r) = ok (scan_snapshot chat_id (uint64 r.snapshot_index) r)

module _ {D : Type 0} (session : Session D) where
  unfoldable pub append_entry : D → Bytes → LogEntry → Result (Unit {0}) × D
  append_entry d chat_id entry =
      let (r, d') = session.insert_entry d (entry_row chat_id entry) in (applied r, d')

  unfoldable pub last_entry : D → Bytes → Result LogEntry
  last_entry d chat_id = first_entry chat_id (session.select_last d chat_id)

  unfoldable pub entry : D → Bytes → ℕ → Result LogEntry
  entry d chat_id sequence = first_entry chat_id (session.select_entry d chat_id (int64 sequence))

  unfoldable pub entries_since : D → Bytes → ℕ → Result (List LogEntry)
  entries_since d chat_id from_sequence =
      all_entries chat_id (session.select_since d chat_id (int64 from_sequence))

  unfoldable pub save_snapshot : D → MerkleSnapshot → Result (Unit {0}) × D
  save_snapshot d snap = session.insert_snapshot d (snapshot_row snap)

  unfoldable pub latest_snapshot : D → Bytes → Result MerkleSnapshot
  latest_snapshot d chat_id = scanned_latest chat_id (session.select_latest d chat_id)

  unfoldable pub snapshot_at : D → Bytes → ℕ → Result MerkleSnapshot
  snapshot_at d chat_id index =
      scanned_at chat_id index (session.select_snapshot d chat_id (int64 index))

  abbrev pub scylla : StorageOps D
  scylla = record {
    append_entry = append_entry;
    last_entry = last_entry;
    entry = entry;
    entries_since = entries_since;
    save_snapshot = save_snapshot;
    latest_snapshot = latest_snapshot;
    snapshot_at = snapshot_at;
  }
