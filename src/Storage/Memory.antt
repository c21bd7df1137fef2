-- ===== src/Storage/Memory.antt =====
-- `InMemoryStorage` of internal/storage/storage.go. Its mutex makes each method one step. A slice's length is an `int`, so `uint64(len(…))` is the length.
use decentralized_messenger.Common.{
  ℕ, suc, ◌-◌, ◌≡◌, refl, List, [], ◌∷◌, ◌++◌, none, some, arith, leb, ◌==◌, if◌then◌else◌, Bytes,
  bytes_eq, bytes_eq_iff, length, get_elem?, last?, drop, drop_all, get_elem?-none, get_elem?-last,
  Dict, lookup, insert, lookup-insert, string_eq,
}
use decentralized_messenger.Result.{Result, ok, err, not_found, sequence_gap}
use decentralized_messenger.Models.{LogEntry, MerkleSnapshot}
use decentralized_messenger.Storage.{StorageOps, IsStorage, or_not_found}

pub record InMemoryStorage : Type 0 where
  pub entries : Dict Bytes (List LogEntry)
  pub snapshots : Dict Bytes (List MerkleSnapshot)

unfoldable pub new_in_memory_storage : InMemoryStorage
new_in_memory_storage = record { entries = []; snapshots = [] }

-- A missing key of a map of slices reads as the empty slice.
abbrev pub slice_at : {A : Type 0} → Bytes → Dict Bytes (List A) → List A
slice_at k m = elim (lookup k m) [ none ↦ [] | some l ↦ l ]

unfoldable pub append_entry :
    InMemoryStorage → Bytes → LogEntry → Result (Unit {0}) × InMemoryStorage
append_entry s chat_id e =
    let existing = slice_at chat_id s.entries in
    if length existing == e.sequence
    then (ok tt, record s { entries = insert chat_id (existing ++ e ∷ []) s.entries })
    else (err sequence_gap, s)

-- `existing[len(existing)-1]`, or `ErrNotFound` if there is none.
unfoldable pub last_entry : InMemoryStorage → Bytes → Result LogEntry
last_entry s chat_id =
    let existing = slice_at chat_id s.entries in
    if length existing == 0
    then err not_found
    else or_not_found (get_elem? existing (length existing - 1))

unfoldable pub entry : InMemoryStorage → Bytes → ℕ → Result LogEntry
entry s chat_id sequence =
    let existing = slice_at chat_id s.entries in
    if leb (length existing) sequence
    then err not_found
    else or_not_found (get_elem? existing sequence)

unfoldable pub entries_since : InMemoryStorage → Bytes → ℕ → Result (List LogEntry)
entries_since s chat_id from_sequence =
    let existing = slice_at chat_id s.entries in
    if leb (length existing) from_sequence then ok [] else ok (drop from_sequence existing)

unfoldable pub save_snapshot :
    InMemoryStorage → MerkleSnapshot → Result (Unit {0}) × InMemoryStorage
save_snapshot s snap = (
  ok tt,
  record s {
    snapshots = insert snap.chat_id (slice_at snap.chat_id s.snapshots ++ snap ∷ []) s.snapshots;
  },
)

unfoldable pub latest_snapshot : InMemoryStorage → Bytes → Result MerkleSnapshot
latest_snapshot s chat_id =
    let snaps = slice_at chat_id s.snapshots in
    if length snaps == 0 then err not_found else or_not_found (get_elem? snaps (length snaps - 1))

unfoldable pub snapshot_at : InMemoryStorage → Bytes → ℕ → Result MerkleSnapshot
snapshot_at s chat_id index =
    let snaps = slice_at chat_id s.snapshots in
    if leb (length snaps) index then err not_found else or_not_found (get_elem? snaps index)

abbrev pub in_memory_storage : StorageOps InMemoryStorage
in_memory_storage = record {
  append_entry = append_entry;
  last_entry = last_entry;
  entry = entry;
  entries_since = entries_since;
  save_snapshot = save_snapshot;
  latest_snapshot = latest_snapshot;
  snapshot_at = snapshot_at;
}

last?-get_elem? :
    {A : Type 0} (l : List A)
    → (if length l == 0 then err not_found else or_not_found (get_elem? l (length l - 1)))
      ≡ or_not_found (last? l)
last?-get_elem? [] = refl
last?-get_elem? (x ∷ []) = refl
last?-get_elem? (x ∷ y ∷ l) =
    let e : suc (suc (length l)) - 1 ≡ suc (length l) = omega arith in
    rw (e, get_elem?-last y l) (ground arith)

get_elem?-guard :
    {A : Type 0} (l : List A) (i : ℕ)
    → (if leb (length l) i then err not_found else or_not_found (get_elem? l i))
      ≡ or_not_found (get_elem? l i)
get_elem?-guard l i = ground (arith, get_elem?-none l i)

slice_at-insert :
    {A : Type 0} (k j : Bytes) (l : List A) (m : Dict Bytes (List A))
    → slice_at j (insert k l m) ≡ (if bytes_eq k j then l else slice_at j m)
slice_at-insert k j l m = ground (arith, lookup-insert k j l m)

-- The in-memory store's view and its laws.
pub memory_laws : IsStorage in_memory_storage
unfolding append_entry last_entry entry entries_since save_snapshot latest_snapshot snapshot_at
memory_laws = record {
  entries = λ s c. slice_at c s.entries;
  snapshots = λ s c. slice_at c s.snapshots;
  append_entry-result = λ s c e. ground arith;
  entries-append_entry =
      λ s c e d. ground (arith, slice_at-insert c d (slice_at c s.entries ++ e ∷ []) s.entries);
  snapshots-append_entry = λ s c e d. ground arith;
  last_entry_lem = λ s c. last?-get_elem? (slice_at c s.entries);
  entry_lem = λ s c i. get_elem?-guard (slice_at c s.entries) i;
  entries_since_lem = λ s c i. ground (arith, drop_all i (slice_at c s.entries));
  save_snapshot-result = λ s p. refl;
  entries-save_snapshot = λ s p d. refl;
  snapshots-save_snapshot = λ s p d. ground (
    arith,
    slice_at-insert p.chat_id d (slice_at p.chat_id s.snapshots ++ p ∷ []) s.snapshots,
    bytes_eq_iff p.chat_id d,
  );
  latest_snapshot_lem = λ s c. last?-get_elem? (slice_at c s.snapshots);
  snapshot_at_lem = λ s c i. get_elem?-guard (slice_at c s.snapshots) i;
}

-- The in-memory store keeps the contract of the Storage port, over the view that takes for each
-- chat the slices of its two maps.
pub in_memory_storage-IsStorage :
    (laws : IsStorage in_memory_storage) × ((s : InMemoryStorage) (c : Bytes)
      → laws.entries s c ≡ slice_at c s.entries)
    × ((s : InMemoryStorage) (c : Bytes) → laws.snapshots s c ≡ slice_at c s.snapshots)
unfolding memory_laws
in_memory_storage-IsStorage = (memory_laws, λ s c. refl, λ s c. refl)

-- What the view takes from the two maps.
pub memory_laws_view :
    (s : InMemoryStorage) (c : Bytes)
    → (memory_laws.entries s c ≡ slice_at c s.entries)
      × (memory_laws.snapshots s c ≡ slice_at c s.snapshots)
unfolding memory_laws
memory_laws_view s c = (refl, refl)

-- A new store holds nothing.
pub new_in_memory_storage_empty :
    (c : Bytes)
    → (memory_laws.entries new_in_memory_storage c ≡ [])
      × (memory_laws.snapshots new_in_memory_storage c ≡ [])
unfolding memory_laws new_in_memory_storage lookup
new_in_memory_storage_empty c = (refl, refl)
