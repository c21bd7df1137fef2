-- ===== src/Storage/Scylla/Seals.antt =====
-- `SaveSnapshot` of internal/storage/scylla.go on tables that hold what a store holds.
use decentralized_messenger.Common.{
  ℕ, suc, ◌+◌, ◌^◌, ◌<◌, ◌≡◌, refl, sym, ap, ◌∙◌, ◌⊎◌, List, [], ◌∷◌, ◌++◌, map, map-append, inl,
  inr, arith, Bool-cases, Bytes, bytes_eq, bytes_eq_iff, length, length-append, length-map,
}
use decentralized_messenger.Codec.Decimal.{pos, u64}
use decentralized_messenger.Result.{ok}
use decentralized_messenger.Models.{MerkleSnapshot}
use decentralized_messenger.Storage.{StorageOps, IsStorage}
use decentralized_messenger.Storage.Scylla.{
  int64, SnapshotRow, Session, entry_row, snapshot_row, save_snapshot,
}
use decentralized_messenger.Storage.Scylla.Table.{IsTable, write_row}
use decentralized_messenger.Storage.Scylla.Dense.{write_row_zero}
use decentralized_messenger.Storage.Scylla.Holds.{Holds, AreNumbered, kept_row, int64-small}
use decentralized_messenger.Storage.Scylla.Ops.{sealed-IsDense}

AreNumbered-concat :
    (c : Bytes) (k : ℕ) (ps : List MerkleSnapshot) (p : MerkleSnapshot)
    → AreNumbered c k ps
    → p.snapshot_index ≡ k + length ps
    → p.chat_id ≡ c
    → p.from_sequence < u64
    → p.to_sequence < u64
    → AreNumbered c k (ps ++ p ∷ [])
AreNumbered-concat c k [] p numbered at own from to = ((omega (arith, at)), own, from, to, tt)
AreNumbered-concat c k (q ∷ ps) p (here, of, low, high, numbered) at own from to = (
  here,
  of,
  low,
  high,
  AreNumbered-concat c (suc k) ps p numbered (omega (arith, at)) own from to,
)

module _ {D S : Type 0} {session : Session D} {ops : StorageOps S} (table : IsTable session)
    (laws : IsStorage ops) (d : D) (s : S) (holds : Holds table laws d s) where
  module _ (p : MerkleSnapshot) (next : p.snapshot_index ≡ length (laws.snapshots s p.chat_id))
      (from : p.from_sequence < u64) (to : p.to_sequence < u64)
      (accepted : table.AcceptedSnapshot (snapshot_row p))
      (room : suc (length (laws.snapshots s p.chat_id)) < 2 ^ 63) where
    abbrev of : Bytes
    of = p.chat_id

    pub save_snapshot-ok : (save_snapshot session d p).0 ≡ ok tt
    unfolding save_snapshot
    save_snapshot-ok = table.insert_snapshot-result d (snapshot_row p) accepted

    length-snapshots : length (table.snapshots d of) ≡ length (laws.snapshots s of)
    length-snapshots = ap length (holds.snapshots of) ∙ length-map (laws.snapshots s of) kept_row

    saved :
        write_row (λ (r : SnapshotRow). r.snapshot_index) (kept_row p) (table.snapshots d of)
        ≡ map kept_row (laws.snapshots s of ++ p ∷ [])
    unfolding snapshot_row
    saved =
        write_row_zero (λ (r : SnapshotRow). r.snapshot_index) (kept_row p) (table.snapshots d of)
          (sealed-IsDense table laws d s holds of)
          (ap int64 next
            ∙ int64-small (length (laws.snapshots s of)) (omega arith)
            ∙ ap pos (sym length-snapshots))
        ∙ rw (holds.snapshots of, map-append) refl

    -- The snapshots of a chat behind the write.
    sealed :
        (c' : Bytes)
        → ((of ≡ c')
            × (laws.snapshots (ops.save_snapshot s p).1 c' ≡ laws.snapshots s of ++ p ∷ [])
            × (table.snapshots (save_snapshot session d p).1 c'
                ≡ map kept_row (laws.snapshots s of ++ p ∷ [])))
          ⊎ ((laws.snapshots (ops.save_snapshot s p).1 c' ≡ laws.snapshots s c')
              × (table.snapshots (save_snapshot session d p).1 c' ≡ table.snapshots d c'))
    unfolding save_snapshot snapshot_row
    sealed c' = elim (Bool-cases (bytes_eq of c')) [
      | inl same ↦
          let own = (bytes_eq_iff of c').0 same in
          inl (
            own,
            laws.snapshots-save_snapshot s p c'
                ∙ rw same (ap (λ k. laws.snapshots s k ++ p ∷ []) (sym own)),
            table.snapshots-insert_snapshot d (snapshot_row p) c' accepted ∙ rw same saved,
          )
      | inr other ↦ inr (
        laws.snapshots-save_snapshot s p c' ∙ rw other refl,
        table.snapshots-insert_snapshot d (snapshot_row p) c' accepted ∙ rw other refl,
      )
    ]

    pub save_snapshot-Holds :
        Holds table laws (save_snapshot session d p).1 (ops.save_snapshot s p).1
    unfolding save_snapshot
    save_snapshot-Holds = record {
      entries = λ c'.
          table.entries-insert_snapshot d (snapshot_row p) c'
          ∙ holds.entries c'
          ∙ ap (map (entry_row c')) (sym (laws.entries-save_snapshot s p c'));
      snapshots = λ c'. elim (sealed c') [
        | inl (own, store, rows) ↦ rows ∙ rw store refl
        | inr (store, rows) ↦ rows ∙ holds.snapshots c' ∙ rw store refl
      ];
      kept = λ c'. rw (laws.entries-save_snapshot s p c') (holds.kept c');
      numbered = λ c'. elim (sealed c') [
        | inl (own, store, rows) ↦
            rw (store, ← own)
              (AreNumbered-concat of 0 (laws.snapshots s of) p (holds.numbered of)
                (next ∙ omega arith) refl from to)
        | inr (store, rows) ↦ rw store (holds.numbered c')
      ];
      room = λ c'. rw (laws.entries-save_snapshot s p c') (holds.room c');
      snapshot_room = λ c'. elim (sealed c') [
        | inl (own, store, rows) ↦
            rw store (omega (arith, length-append (laws.snapshots s of) (p ∷ [])))
        | inr (store, rows) ↦ rw store (holds.snapshot_room c')
      ];
    }
