-- ===== src/Storage/Scylla/Ops.antt =====
-- The operations of internal/storage/scylla.go on tables that hold what a store holds.
use mathlib.Core.Option
use decentralized_messenger.Common.{
  ℕ, zero, suc, ◌+◌, ◌-◌, ◌^◌, ◌≤◌, ◌<◌, ◌≡◌, refl, sym, ap, ◌∙◌, List, [], ◌∷◌, map, Option, none,
  some, arith, Bytes, length, get_elem?, get_elem?-map, get_elem?-last, get_elem?-lt, last?,
  last?-map, drop, drop-map,
}
use decentralized_messenger.Codec.Decimal.{pos, negsuc, u64}
use decentralized_messenger.Result.{Result, ok, err}
use decentralized_messenger.Models.{LogEntry, MerkleSnapshot}
use decentralized_messenger.Storage.{StorageOps, IsStorage, or_not_found}
use decentralized_messenger.Storage.Scylla.{
  int64, EntryRow, SnapshotRow, Session, entry_row, scan_entry, snapshot_row, first_entry,
  all_entries, scanned_at, scanned_latest, last_entry, entry, entries_since, latest_snapshot,
  snapshot_at,
}
use decentralized_messenger.Storage.Scylla.Table.{IsTable, answer, listed, one_row, first?}
use decentralized_messenger.Storage.Scylla.Dense.{
  IsDense, rows_at_zero, rows_from_zero, rows_from-negsuc,
}
use decentralized_messenger.Storage.Scylla.Holds.{
  Holds, AreKept, AreNumbered, at_millisecond, kept_row, scan_entry-entry_row,
  scan_snapshot-kept_row, scan_all, entries-IsDense, snapshots-IsDense, int64-small, uint64-int64,
}

last?-get_elem? :
    {A : Type 0} (xs : List A) (x : A) → last? xs ≡ some x → (j : ℕ) × (get_elem? xs j ≡ some x)
last?-get_elem? [] x h = absurd (cc)
last?-get_elem? (y ∷ xs) x h = (length xs, get_elem?-last y xs ∙ h)

AreKept-get_elem? :
    (c : Bytes) (i : ℕ) (es : List LogEntry) (j : ℕ) (e : LogEntry)
    → AreKept c i es
    → get_elem? es j ≡ some e
    → (e.sequence ≡ i + j) × (e.message.chat_id ≡ c)
AreKept-get_elem? c i [] j e kept h = absurd (cc)
AreKept-get_elem? c i (f ∷ es) zero e (at, own, _, _) h =
    let same : f ≡ e = cc in (rw (← same) (omega (arith, at)), rw (← same) own)
AreKept-get_elem? c i (f ∷ es) (suc j) e (_, _, _, kept) h =
    let (at, own) = AreKept-get_elem? c (suc i) es j e kept h in (omega (arith, at), own)

AreNumbered-get_elem? :
    (c : Bytes) (i : ℕ) (ps : List MerkleSnapshot) (j : ℕ) (p : MerkleSnapshot)
    → AreNumbered c i ps
    → get_elem? ps j ≡ some p
    → (p.snapshot_index ≡ i + j) × (p.chat_id ≡ c) × (p.from_sequence < u64) × (p.to_sequence < u64)
AreNumbered-get_elem? c i [] j p numbered h = absurd (cc)
AreNumbered-get_elem? c i (q ∷ ps) zero p (at, own, from, to, _) h =
    let same : q ≡ p = cc in rw (← same) ((omega (arith, at)), own, from, to)
AreNumbered-get_elem? c i (q ∷ ps) (suc j) p (_, _, _, _, numbered) h =
    let (at, own, from, to) = AreNumbered-get_elem? c (suc i) ps j p numbered h in
    ((omega (arith, at)), own, from, to)

first_entry-listed :
    (c : Bytes) (o : Option LogEntry)
    → ((e : LogEntry) → o ≡ some e → scan_entry c (entry_row c e) ≡ e)
    → first_entry c (answer (listed (Option.map (entry_row c) o))) ≡ or_not_found o
unfolding first_entry
first_entry-listed c none h = refl
first_entry-listed c (some e) h = ap ok (h e refl)

-- A snapshot as the tables return it.
abbrev pub read_back : Result MerkleSnapshot → Result MerkleSnapshot
read_back (ok p) = ok (at_millisecond p)
read_back (err e) = err e

scanned_at-one_row :
    (c : Bytes) (k : ℕ) (o : Option MerkleSnapshot)
    → ((p : MerkleSnapshot)
        → o ≡ some p
        → (p.snapshot_index ≡ k)
          × (p.chat_id ≡ c)
          × (p.from_sequence < u64)
          × (p.to_sequence < u64))
    → scanned_at c k (one_row (Option.map kept_row o)) ≡ read_back (or_not_found o)
unfolding scanned_at
scanned_at-one_row c k none h = refl
scanned_at-one_row c k (some p) h =
    let (at, own, from, to) = h p refl in rw (← at) (ap ok (scan_snapshot-kept_row c p own from to))

scanned_latest-one_row :
    (c : Bytes) (o : Option MerkleSnapshot)
    → ((p : MerkleSnapshot)
        → o ≡ some p
        → (p.snapshot_index < u64)
          × (p.chat_id ≡ c)
          × (p.from_sequence < u64)
          × (p.to_sequence < u64))
    → scanned_latest c (one_row (Option.map kept_row o)) ≡ read_back (or_not_found o)
unfolding scanned_latest snapshot_row
scanned_latest-one_row c none h = refl
scanned_latest-one_row c (some p) h =
    let (small, own, from, to) = h p refl in
    rw (uint64-int64 p.snapshot_index small) (ap ok (scan_snapshot-kept_row c p own from to))

first?-listed : {A : Type 0} (o : Option A) → first? (listed o) ≡ o
first?-listed none = refl
first?-listed (some a) = refl

module _ {D S : Type 0} {session : Session D} {ops : StorageOps S} (table : IsTable session)
    (laws : IsStorage ops) (d : D) (s : S) (holds : Holds table laws d s) where
  pub written-IsDense : (c : Bytes) → IsDense (λ (r : EntryRow). r.sequence) 0 (table.entries d c)
  written-IsDense c =
      let room = holds.room c in
      rw (holds.entries c) (entries-IsDense c 0 (laws.entries s c) (holds.kept c) (omega arith))

  pub sealed-IsDense :
      (c : Bytes) → IsDense (λ (r : SnapshotRow). r.snapshot_index) 0 (table.snapshots d c)
  sealed-IsDense c =
      let room = holds.snapshot_room c in
      rw (holds.snapshots c)
        (snapshots-IsDense c 0 (laws.snapshots s c) (holds.numbered c) (omega arith))

  pub last_entry-Holds : (c : Bytes) → last_entry session d c ≡ ops.last_entry s c
  unfolding last_entry
  last_entry-Holds c =
      rw
        (
          table.select_last_lem d c,
          holds.entries c,
          last?-map (entry_row c) (laws.entries s c),
          laws.last_entry_lem s c,
        )
        (first_entry-listed c (last? (laws.entries s c)) (λ e found.
          let (j, at) = last?-get_elem? (laws.entries s c) e found in
          let (number, own) = AreKept-get_elem? c 0 (laws.entries s c) j e (holds.kept c) at in
          let inside = get_elem?-lt (laws.entries s c) j e at in
          let room = holds.room c in
          scan_entry-entry_row c e (omega (arith, number, inside, room)) own))

  pub entry-Holds : (c : Bytes) (i : ℕ) → i < 2 ^ 63 → entry session d c i ≡ ops.entry s c i
  unfolding entry
  entry-Holds c i h =
      rw
        (
          int64-small i h,
          table.select_entry_lem d c (pos i),
          rows_at_zero (λ (r : EntryRow). r.sequence) i (table.entries d c) (written-IsDense c),
          holds.entries c,
          get_elem?-map (entry_row c) (laws.entries s c) i,
          laws.entry_lem s c i,
        )
        (first_entry-listed c (get_elem? (laws.entries s c) i) (λ e at.
          let (number, own) = AreKept-get_elem? c 0 (laws.entries s c) i e (holds.kept c) at in
          scan_entry-entry_row c e (omega (arith, number)) own))

  -- The rows of a chat, scanned from a position on.
  scan_from :
      (c : Bytes) (i : ℕ)
      → map (scan_entry c) (drop i (map (entry_row c) (laws.entries s c)))
        ≡ drop i (laws.entries s c)
  scan_from c i =
      let room = holds.room c in
      sym (drop-map (scan_entry c) i (map (entry_row c) (laws.entries s c)))
      ∙ ap (drop i) (scan_all c 0 (laws.entries s c) (holds.kept c) (omega arith))

  pub entries_since-Holds :
      (c : Bytes) (i : ℕ) → i < 2 ^ 63 → entries_since session d c i ≡ ops.entries_since s c i
  unfolding entries_since all_entries
  entries_since-Holds c i h =
      rw
        (
          int64-small i h,
          table.select_since_lem d c (pos i),
          rows_from_zero (λ (r : EntryRow). r.sequence) i (table.entries d c) (written-IsDense c),
          holds.entries c,
          laws.entries_since_lem s c i,
        )
        (ap ok (scan_from c i))

  int64-large : (i : ℕ) → 2 ^ 63 ≤ i → int64 i ≡ negsuc (u64 - 1 - i)
  unfolding int64
  int64-large i h = ground arith

  pub entries_since-large :
      (c : Bytes) (i : ℕ) → 2 ^ 63 ≤ i → entries_since session d c i ≡ ok (laws.entries s c)
  unfolding entries_since all_entries
  entries_since-large c i h =
      rw
        (
          int64-large i h,
          table.select_since_lem d c (negsuc (u64 - 1 - i)),
          rows_from-negsuc (λ (r : EntryRow). r.sequence) 0 (u64 - 1 - i) (table.entries d c)
              (written-IsDense c),
          holds.entries c,
        )
        (ap ok (scan_from c 0))

  pub latest_snapshot-Holds :
      (c : Bytes) → latest_snapshot session d c ≡ read_back (ops.latest_snapshot s c)
  unfolding latest_snapshot
  latest_snapshot-Holds c =
      rw
        (
          table.select_latest_lem d c,
          holds.snapshots c,
          last?-map kept_row (laws.snapshots s c),
          laws.latest_snapshot_lem s c,
        )
        (scanned_latest-one_row c (last? (laws.snapshots s c)) (λ p found.
          let (j, at) = last?-get_elem? (laws.snapshots s c) p found in
          let (number, own, from, to) =
            AreNumbered-get_elem? c 0 (laws.snapshots s c) j p (holds.numbered c) at in
          let inside = get_elem?-lt (laws.snapshots s c) j p at in
          let room = holds.snapshot_room c in
          ((omega (arith, number, inside, room)), own, from, to)))

  pub snapshot_at-Holds :
      (c : Bytes) (k : ℕ)
      → k < 2 ^ 63
      → snapshot_at session d c k ≡ read_back (ops.snapshot_at s c k)
  unfolding snapshot_at
  snapshot_at-Holds c k h =
      rw
        (
          int64-small k h,
          table.select_snapshot_lem d c (pos k),
          rows_at_zero (λ (r : SnapshotRow). r.snapshot_index) k (table.snapshots d c)
              (sealed-IsDense c),
          first?-listed (get_elem? (table.snapshots d c) k),
          holds.snapshots c,
          get_elem?-map kept_row (laws.snapshots s c) k,
          laws.snapshot_at_lem s c k,
        )
        (scanned_at-one_row c k (get_elem? (laws.snapshots s c) k) (λ p at.
          let (number, own, from, to) =
            AreNumbered-get_elem? c 0 (laws.snapshots s c) k p (holds.numbered c) at in
          ((omega (arith, number)), own, from, to)))
