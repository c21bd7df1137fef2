-- ===== src/Examples/Tables.antt =====
-- Tables that keep the rows of the ScyllaDB adapter, and a node on them.
use decentralized_messenger.Common.{
  ℕ, zero, suc, ◌<◌, ◌^◌, ◌≡◌, refl, ap, ◌∙◌, Bool, true, false, List, [], Option, none, some,
  arith, if◌then◌else◌, Bytes, bytes_eq, last?, Dict, lookup, insert, lookup-insert, string_eq,
  Bool-cases, inl, inr,
}
use decentralized_messenger.Codec.Decimal.{ℤ, pos, negsuc}
use decentralized_messenger.Codec.Json.Utf8.{valid_utf8, valid_utf8_from, valid_utf8-ascii}
use decentralized_messenger.Result.{Result, ok}
use decentralized_messenger.Models.{SignedMessage, truncate_to_millisecond}
use decentralized_messenger.Storage.Memory.{slice_at, memory_laws}
use decentralized_messenger.Storage.Scylla.{EntryRow, SnapshotRow, Session, entry_row, snapshot_row}
use decentralized_messenger.Storage.Scylla.Table.{
  IsTable, rows_at, rows_from, write_row, one_row, first?, listed, stored_entry, stored_snapshot,
  answer,
}
use decentralized_messenger.Storage.Scylla.Holds.{IsPrecise}
use decentralized_messenger.Cache
use decentralized_messenger.Broker
use decentralized_messenger.Chatlog.{Log, make_entry}
use decentralized_messenger.Chatlog.Durable.{IsSame, IsStorable}
use decentralized_messenger.Chatlog.Durable.Run.{AreStorable}
use decentralized_messenger.Examples.Node.{ports, hello, fresh, fresh-IsEmpty, calls}

pub record Db : Type 0 where
  pub log_entries : Dict Bytes (List EntryRow)
  pub snapshots : Dict Bytes (List SnapshotRow)

abbrev same_sequence : Db → EntryRow → Option EntryRow
same_sequence d r =
    first? (rows_at (λ (x : EntryRow). x.sequence) r.sequence (slice_at r.chat_id d.log_entries))

-- A row is written if no row has its key.
unfoldable pub place_row : Db → EntryRow → Option EntryRow → Result Bool × Db
place_row d r (some _) = (ok false, d)
place_row d r none = (
  ok true,
  record d {
    log_entries =
        insert r.chat_id
          (write_row (λ (x : EntryRow). x.sequence) (stored_entry r)
            (slice_at r.chat_id d.log_entries))
          d.log_entries;
  },
)

unfoldable pub insert_entry : Db → EntryRow → Result Bool × Db
unfolding place_row
insert_entry d r = place_row d r (same_sequence d r)

unfoldable pub insert_snapshot : Db → SnapshotRow → Result (Unit {0}) × Db
insert_snapshot d r = (
  ok tt,
  record d {
    snapshots =
        insert r.chat_id
          (write_row (λ (x : SnapshotRow). x.snapshot_index) (stored_snapshot r)
            (slice_at r.chat_id d.snapshots))
          d.snapshots;
  },
)

abbrev pub tables : Session Db
tables = record {
  insert_entry = insert_entry;
  select_last = λ d c. answer (listed (last? (slice_at c d.log_entries)));
  select_entry =
      λ d c k. answer (rows_at (λ (x : EntryRow). x.sequence) k (slice_at c d.log_entries));
  select_since =
      λ d c k. answer (rows_from (λ (x : EntryRow). x.sequence) k (slice_at c d.log_entries));
  insert_snapshot = insert_snapshot;
  select_snapshot = λ d c k.
      one_row (first? (rows_at (λ (x : SnapshotRow). x.snapshot_index) k (slice_at c d.snapshots)));
  select_latest = λ d c. one_row (last? (slice_at c d.snapshots));
}

slice_at-insert :
    {A : Type 0} (k j : Bytes) (l : List A) (m : Dict Bytes (List A))
    → slice_at j (insert k l m) ≡ (if bytes_eq k j then l else slice_at j m)
slice_at-insert k j l m = ground (arith, lookup-insert k j l m)

place_row-result :
    (d : Db) (r : EntryRow) (o : Option EntryRow)
    → (place_row d r o).0 ≡ ok (elim o [ none ↦ true | some _ ↦ false ])
unfolding place_row
place_row-result d r none = refl
place_row-result d r (some x) = refl

entries-place_row :
    (d : Db) (r : EntryRow) (c : Bytes) (o : Option EntryRow)
    → slice_at c (place_row d r o).1.log_entries ≡ (
        if bytes_eq r.chat_id c
        then elim o [
          | none ↦
              write_row
                (λ (x : EntryRow). x.sequence)
                (stored_entry r)
                (slice_at r.chat_id d.log_entries)
          | some _ ↦ slice_at c d.log_entries
        ]
        else slice_at c d.log_entries)
unfolding place_row
entries-place_row d r c none =
    slice_at-insert r.chat_id c
      (write_row (λ (x : EntryRow). x.sequence) (stored_entry r) (slice_at r.chat_id d.log_entries))
      d.log_entries
entries-place_row d r c (some x) = elim (Bool-cases (bytes_eq r.chat_id c)) [
  | inl same ↦ rw same refl
  | inr other ↦ rw other refl
]

snapshots-place_row :
    (d : Db) (r : EntryRow) (c : Bytes) (o : Option EntryRow)
    → slice_at c (place_row d r o).1.snapshots ≡ slice_at c d.snapshots
unfolding place_row
snapshots-place_row d r c none = refl
snapshots-place_row d r c (some x) = refl

abbrev IsInt32 : ℤ → Type 0
IsInt32 (pos n) = n < 2 ^ 31
IsInt32 (negsuc n) = n < 2 ^ 31

-- The `text` columns of a row hold UTF-8, and its `int` column an integer of 32 bits.
abbrev pub HasTexts : EntryRow → Type 0
HasTexts r =
    (valid_utf8 r.chat_id ≡ true)
    × (valid_utf8 r.message_id ≡ true)
    × (valid_utf8 r.sender_id ≡ true)
    × (valid_utf8 r.content_type ≡ true)
    × (valid_utf8 r.filename ≡ true)
    × (valid_utf8 r.prev_hash ≡ true)
    × (valid_utf8 r.entry_hash ≡ true)
    × IsInt32 r.schema_version

abbrev pub SnapshotHasTexts : SnapshotRow → Type 0
SnapshotHasTexts r =
    (valid_utf8 r.chat_id ≡ true)
    × (valid_utf8 r.merkle_root ≡ true)
    × (valid_utf8 r.last_entry_hash ≡ true)

pub tables-IsTable : IsTable tables
unfolding insert_entry insert_snapshot
tables-IsTable = record {
  entries = λ d c. slice_at c d.log_entries;
  snapshots = λ d c. slice_at c d.snapshots;
  Accepted = HasTexts;
  AcceptedSnapshot = SnapshotHasTexts;
  insert_entry-result = λ d r a. place_row-result d r (same_sequence d r);
  entries-insert_entry = λ d r c a. entries-place_row d r c (same_sequence d r);
  snapshots-insert_entry = λ d r c. snapshots-place_row d r c (same_sequence d r);
  select_last_lem = λ d c. refl;
  select_entry_lem = λ d c k. refl;
  select_since_lem = λ d c k. refl;
  insert_snapshot-result = λ d r a. refl;
  entries-insert_snapshot = λ d r c. refl;
  snapshots-insert_snapshot = λ d r c a.
      slice_at-insert r.chat_id c
        (write_row (λ (x : SnapshotRow). x.snapshot_index) (stored_snapshot r)
          (slice_at r.chat_id d.snapshots))
        d.snapshots;
  select_snapshot_lem = λ d c k. refl;
  select_latest_lem = λ d c. refl;
}

abbrev pub empty_tables : Db
empty_tables = record { log_entries = []; snapshots = [] }

-- The node of the examples on empty tables.
abbrev pub durable_fresh : Log Db Cache.InMemory Broker.InMemory
durable_fresh = record { store = empty_tables; cache = fresh.cache; broker = fresh.broker }

pub durable_fresh-IsSame : IsSame ports tables-IsTable memory_laws durable_fresh fresh
unfolding tables-IsTable lookup
durable_fresh-IsSame = record {
  holds = record {
    entries = λ c. rw (fresh-IsEmpty.entries c) refl;
    snapshots = λ c. rw (fresh-IsEmpty.snapshots c) refl;
    kept = λ c. rw (fresh-IsEmpty.entries c) tt;
    numbered = λ c. rw (fresh-IsEmpty.snapshots c) tt;
    room = λ c. rw (fresh-IsEmpty.entries c) (omega arith);
    snapshot_room = λ c. rw (fresh-IsEmpty.snapshots c) (omega arith);
  };
  cache = refl;
  broker = refl;
}

-- The tables take a message of one version whose texts are UTF-8.
pub utf8-IsStorable :
    (msg : SignedMessage)
    → msg.schema_version ≡ pos 1
    → valid_utf8 msg.chat_id ≡ true
    → valid_utf8 msg.message_id ≡ true
    → valid_utf8 msg.sender_id ≡ true
    → valid_utf8 msg.content_type ≡ true
    → valid_utf8 msg.filename ≡ true
    → IsStorable ports tables-IsTable memory_laws msg
unfolding tables-IsTable entry_row make_entry snapshot_row
utf8-IsStorable msg version chat message sender content file = record {
  row = λ prev i p e. (
    chat,
    message,
    sender,
    content,
    file,
    valid_utf8-ascii prev p,
    valid_utf8-ascii _ e,
    rw version (omega arith),
  );
  snapshot = λ p own root last. (
    ap valid_utf8 own ∙ chat,
    valid_utf8-ascii p.merkle_root root,
    valid_utf8-ascii p.last_entry_hash last,
  );
}

pub hello-IsStorable : IsStorable ports tables-IsTable memory_laws hello
unfolding valid_utf8_from
hello-IsStorable = utf8-IsStorable hello refl refl refl refl refl refl

pub hello-IsPrecise : IsPrecise hello
unfolding truncate_to_millisecond
hello-IsPrecise = refl

pub calls-AreStorable : (n : ℕ) → AreStorable ports tables-IsTable memory_laws (calls n)
calls-AreStorable zero = tt
calls-AreStorable (suc n) = ((hello-IsStorable, hello-IsPrecise), calls-AreStorable n)
