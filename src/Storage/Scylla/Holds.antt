-- ===== src/Storage/Scylla/Holds.antt =====
-- When the tables of internal/storage/scylla.go hold what a store holds that keeps the contract of the
-- storage port.
use decentralized_messenger.Common.{
  ℕ, suc, ◌+◌, ◌^◌, ◌<◌, ◌≡◌, refl, ap, ◌∙◌, List, [], ◌∷◌, map, arith, Bytes, length,
}
use decentralized_messenger.Codec.Decimal.{pos, u64}
use decentralized_messenger.Models.{
  LogEntry, MerkleSnapshot, SignedMessage, truncate_to_millisecond,
}
use decentralized_messenger.Storage.{StorageOps, IsStorage}
use decentralized_messenger.Storage.Scylla.{
  int64, uint64, EntryRow, SnapshotRow, Session, entry_row, scan_entry, snapshot_row, scan_snapshot,
}
use decentralized_messenger.Storage.Scylla.Table.{IsTable, stored_entry, stored_snapshot}
use decentralized_messenger.Storage.Scylla.Dense.{IsDense}

pub uint64-int64 : (v : ℕ) → v < u64 → uint64 (int64 v) ≡ v
unfolding uint64 int64
uint64-int64 v h = ground arith

pub int64-small : (v : ℕ) → v < 2 ^ 63 → int64 v ≡ pos v
unfolding int64
int64-small v h = ground arith

-- A time that a `timestamp` column keeps as it is.
abbrev pub IsPrecise : SignedMessage → Type 0
IsPrecise msg = truncate_to_millisecond msg.timestamp ≡ msg.timestamp

-- Entries of a chat, numbered from a position on, that the columns keep as they are.
abbrev pub AreKept : Bytes → ℕ → List LogEntry → Type 0
AreKept c i [] = Unit
AreKept c i (e ∷ es) =
    (e.sequence ≡ i) × (e.message.chat_id ≡ c) × IsPrecise e.message × AreKept c (suc i) es

-- Snapshots of a chat, numbered from an index on, with numbers of 64 bits.
abbrev pub AreNumbered : Bytes → ℕ → List MerkleSnapshot → Type 0
AreNumbered c k [] = Unit
AreNumbered c k (p ∷ ps) =
    (p.snapshot_index ≡ k)
    × (p.chat_id ≡ c)
    × (p.from_sequence < u64)
    × (p.to_sequence < u64)
    × AreNumbered c (suc k) ps

-- A snapshot as it is read back.
abbrev pub at_millisecond : MerkleSnapshot → MerkleSnapshot
at_millisecond p = record p { created_at = truncate_to_millisecond p.created_at }

abbrev pub kept_row : MerkleSnapshot → SnapshotRow
kept_row p = stored_snapshot (snapshot_row p)

-- The tables hold the entries and the snapshots of a store, up to the precision of the times at which
-- snapshots were made.
pub record Holds {D S : Type 0} {session : Session D} {ops : StorageOps S} (table : IsTable session)
    (laws : IsStorage ops) (d : D) (s : S) : Type 0 where
  pub entries : (c : Bytes) → table.entries d c ≡ map (entry_row c) (laws.entries s c)
  pub snapshots : (c : Bytes) → table.snapshots d c ≡ map kept_row (laws.snapshots s c)
  pub kept : (c : Bytes) → AreKept c 0 (laws.entries s c)
  pub numbered : (c : Bytes) → AreNumbered c 0 (laws.snapshots s c)
  pub room : (c : Bytes) → length (laws.entries s c) < 2 ^ 63
  pub snapshot_room : (c : Bytes) → length (laws.snapshots s c) < 2 ^ 63

-- What is written is read back.
pub scan_entry-entry_row :
    (c : Bytes) (e : LogEntry)
    → e.sequence < u64
    → e.message.chat_id ≡ c
    → scan_entry c (entry_row c e) ≡ e
unfolding scan_entry entry_row
scan_entry-entry_row c e h own = rw (← own, uint64-int64 e.sequence h) refl

pub stored_entry-entry_row :
    (c : Bytes) (e : LogEntry) → IsPrecise e.message → stored_entry (entry_row c e) ≡ entry_row c e
unfolding entry_row
stored_entry-entry_row c e precise = ap (λ t. record (entry_row c e) { ts = t }) precise

pub scan_snapshot-kept_row :
    (c : Bytes) (p : MerkleSnapshot)
    → p.chat_id ≡ c
    → p.from_sequence < u64
    → p.to_sequence < u64
    → scan_snapshot c p.snapshot_index (kept_row p) ≡ at_millisecond p
unfolding scan_snapshot snapshot_row
scan_snapshot-kept_row c p own from to =
    rw (← own, uint64-int64 p.from_sequence from, uint64-int64 p.to_sequence to) refl

pub scan_all :
    (c : Bytes) (i : ℕ) (es : List LogEntry)
    → AreKept c i es
    → i + length es < u64
    → map (scan_entry c) (map (entry_row c) es) ≡ es
scan_all c i [] kept h = refl
scan_all c i (e ∷ es) (at, own, _, kept) h =
    let here = scan_entry-entry_row c e (omega (arith, at)) own in
    let rest = scan_all c (suc i) es kept (omega arith) in cc (here, rest)

pub entries-IsDense :
    (c : Bytes) (i : ℕ) (es : List LogEntry)
    → AreKept c i es
    → i + length es < 2 ^ 63
    → IsDense (λ (r : EntryRow). r.sequence) i (map (entry_row c) es)
unfolding entry_row
entries-IsDense c i [] kept h = tt
entries-IsDense c i (e ∷ es) (at, _, _, kept) h =
    (ap int64 at ∙ int64-small i (omega arith), entries-IsDense c (suc i) es kept (omega arith))

pub snapshots-IsDense :
    (c : Bytes) (k : ℕ) (ps : List MerkleSnapshot)
    → AreNumbered c k ps
    → k + length ps < 2 ^ 63
    → IsDense (λ (r : SnapshotRow). r.snapshot_index) k (map kept_row ps)
unfolding snapshot_row
snapshots-IsDense c k [] numbered h = tt
snapshots-IsDense c k (p ∷ ps) (at, _, _, _, numbered) h = (
  ap int64 at ∙ int64-small k (omega arith),
  snapshots-IsDense c (suc k) ps numbered (omega arith),
)
