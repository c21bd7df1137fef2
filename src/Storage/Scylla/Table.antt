-- ===== src/Storage/Scylla/Table.antt =====
-- What the adapter of internal/storage/scylla.go relies on in ScyllaDB: the rows of a chat are kept in
-- the order of the clustering column, `IF NOT EXISTS` keeps the row that is there, and a `timestamp`
-- column has millisecond precision.
use decentralized_messenger.Common.{
  ◌≡◌, Bool, true, false, List, [], ◌∷◌, Option, none, some, leb, ◌==◌, if◌then◌else◌, Bytes,
  bytes_eq, last?,
}
use decentralized_messenger.Codec.Decimal.{ℤ, pos, negsuc}
use decentralized_messenger.Result.{ok}
use decentralized_messenger.Models.{truncate_to_millisecond}
use decentralized_messenger.Storage.Scylla.{
  EntryRow, SnapshotRow, Iter, Scanned, row, no_row, Session,
}

-- The order and the equality of signed numbers.
abbrev pub leb_int : ℤ → ℤ → Bool
leb_int (pos a) (pos b) = leb a b
leb_int (pos a) (negsuc b) = false
leb_int (negsuc a) (pos b) = true
leb_int (negsuc a) (negsuc b) = leb b a

abbrev pub eq_int : ℤ → ℤ → Bool
eq_int (pos a) (pos b) = a == b
eq_int (pos a) (negsuc b) = false
eq_int (negsuc a) (pos b) = false
eq_int (negsuc a) (negsuc b) = a == b

-- Rows under a clustering key.
module _ {R : Type 0} (key : R → ℤ) where
  -- `WHERE key = k`
  abbrev pub rows_at : ℤ → List R → List R
  rows_at k [] = []
  rows_at k (r ∷ rs) = let rest = rows_at k rs in if eq_int (key r) k then r ∷ rest else rest

  -- `WHERE key >= k`
  abbrev pub rows_from : ℤ → List R → List R
  rows_from k [] = []
  rows_from k (r ∷ rs) = let rest = rows_from k rs in if leb_int k (key r) then r ∷ rest else rest

  -- A row is written at its key's place; a row with that key is replaced.
  abbrev pub write_row : R → List R → List R
  write_row new [] = new ∷ []
  write_row new (r ∷ rs) =
      let rest = write_row new rs in
      if eq_int (key r) (key new)
      then new ∷ rs
      else if leb_int (key new) (key r)
      then new ∷ r ∷ rs
      else r ∷ rest

-- The answer to a query of one row, from the rows that there are.
abbrev pub one_row : Option SnapshotRow → Scanned
one_row none = no_row
one_row (some r) = row r

-- `LIMIT 1`
abbrev pub first? {ℓ} : {A : Type ℓ} → List A → Option A
first? [] = none
first? (x ∷ xs) = some x

abbrev pub listed {ℓ} : {A : Type ℓ} → Option A → List A
listed none = []
listed (some x) = x ∷ []

-- Rows as their columns keep them.
abbrev pub stored_entry : EntryRow → EntryRow
stored_entry r = record r { ts = truncate_to_millisecond r.ts }

abbrev pub stored_snapshot : SnapshotRow → SnapshotRow
stored_snapshot r = record r { created_at = truncate_to_millisecond r.created_at }

abbrev pub answer : List EntryRow → Iter
answer rs = record { rows = rs; closing = none }

-- A database that answers. `entries d c` and `snapshots d c` are the rows of a chat; a row is
-- `Accepted` that the columns' types can hold, such as a `text` that is UTF-8.
pub record IsTable {D : Type 0} (session : Session D) : Type 1 where
  pub entries : D → Bytes → List EntryRow
  pub snapshots : D → Bytes → List SnapshotRow
  pub Accepted : EntryRow → Type 0
  pub AcceptedSnapshot : SnapshotRow → Type 0
  pub insert_entry-result :
      (d : D) (r : EntryRow)
      → Accepted r
      → (session.insert_entry d r).0
        ≡ ok
            (elim (first?
              (rows_at (λ (x : EntryRow). x.sequence) r.sequence (entries d r.chat_id))) [
                | none ↦ true
                | some _ ↦ false
              ])
  pub entries-insert_entry :
      (d : D) (r : EntryRow) (c : Bytes)
      → Accepted r
      → entries (session.insert_entry d r).1 c ≡ (
          if bytes_eq r.chat_id c
          then elim (first?
              (rows_at (λ (x : EntryRow). x.sequence) r.sequence (entries d r.chat_id))) [
                | none ↦
                    write_row (λ (x : EntryRow). x.sequence) (stored_entry r) (entries d r.chat_id)
                | some _ ↦ entries d c
              ]
          else entries d c)
  pub snapshots-insert_entry :
      (d : D) (r : EntryRow) (c : Bytes) → snapshots (session.insert_entry d r).1 c ≡ snapshots d c
  pub select_last_lem :
      (d : D) (c : Bytes) → session.select_last d c ≡ answer (listed (last? (entries d c)))
  pub select_entry_lem :
      (d : D) (c : Bytes) (k : ℤ)
      → session.select_entry d c k ≡ answer (rows_at (λ (x : EntryRow). x.sequence) k (entries d c))
  pub select_since_lem :
      (d : D) (c : Bytes) (k : ℤ)
      → session.select_since d c k
        ≡ answer (rows_from (λ (x : EntryRow). x.sequence) k (entries d c))
  pub insert_snapshot-result :
      (d : D) (r : SnapshotRow) → AcceptedSnapshot r → (session.insert_snapshot d r).0 ≡ ok tt
  pub entries-insert_snapshot :
      (d : D) (r : SnapshotRow) (c : Bytes)
      → entries (session.insert_snapshot d r).1 c ≡ entries d c
  pub snapshots-insert_snapshot :
      (d : D) (r : SnapshotRow) (c : Bytes)
      → AcceptedSnapshot r
      → snapshots (session.insert_snapshot d r).1 c ≡ (
          if bytes_eq r.chat_id c
          then write_row
              (λ (x : SnapshotRow). x.snapshot_index)
              (stored_snapshot r)
              (snapshots d r.chat_id)
          else snapshots d c)
  pub select_snapshot_lem :
      (d : D) (c : Bytes) (k : ℤ)
      → session.select_snapshot d c k
        ≡ one_row (first? (rows_at (λ (x : SnapshotRow). x.snapshot_index) k (snapshots d c)))
  pub select_latest_lem :
      (d : D) (c : Bytes) → session.select_latest d c ≡ one_row (last? (snapshots d c))
