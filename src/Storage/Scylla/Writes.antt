-- ===== src/Storage/Scylla/Writes.antt =====
-- `AppendEntry` of internal/storage/scylla.go on tables that hold what a store holds.
use decentralized_messenger.Common.{
  ℕ, suc, ◌+◌, ◌^◌, ◌<◌, ◌≡◌, refl, sym, ap, ◌∙◌, ◌⊎◌, true, List, [], ◌∷◌, ◌++◌, map, map-append,
  none, inl, inr, arith, Bool-cases, ◌==◌, ==_iff, Bytes, bytes_eq, bytes_eq_iff, bytes_eq_refl,
  length, length-append, length-map, get_elem?-none,
}
use decentralized_messenger.Codec.Decimal.{pos}
use decentralized_messenger.Result.{ok}
use decentralized_messenger.Models.{LogEntry}
use decentralized_messenger.Storage.{StorageOps, IsStorage}
use decentralized_messenger.Storage.Scylla.{
  int64, EntryRow, Session, entry_row, applied, append_entry,
}
use decentralized_messenger.Storage.Scylla.Table.{IsTable, first?, rows_at, stored_entry}
use decentralized_messenger.Storage.Scylla.Dense.{
  IsDense, IsDense-concat, rows_at_zero, write_row_zero,
}
use decentralized_messenger.Storage.Scylla.Holds.{
  Holds, IsPrecise, AreKept, kept_row, stored_entry-entry_row, int64-small,
}
use decentralized_messenger.Storage.Scylla.Ops.{written-IsDense}

AreKept-concat :
    (c : Bytes) (i : ℕ) (es : List LogEntry) (e : LogEntry)
    → AreKept c i es
    → e.sequence ≡ i + length es
    → e.message.chat_id ≡ c
    → IsPrecise e.message
    → AreKept c i (es ++ e ∷ [])
AreKept-concat c i [] e kept at own precise = ((omega (arith, at)), own, precise, tt)
AreKept-concat c i (f ∷ es) e (here, of, exact, kept) at own precise =
    (here, of, exact, AreKept-concat c (suc i) es e kept (omega (arith, at)) own precise)

module _ {D S : Type 0} {session : Session D} {ops : StorageOps S} (table : IsTable session)
    (laws : IsStorage ops) (d : D) (s : S) (holds : Holds table laws d s) where
  module _ (e : LogEntry) (next : e.sequence ≡ length (laws.entries s e.message.chat_id))
      (accepted : table.Accepted (entry_row e.message.chat_id e))
      (room : suc (length (laws.entries s e.message.chat_id)) < 2 ^ 63) where
    abbrev c : Bytes
    c = e.message.chat_id

    number : int64 e.sequence ≡ pos (length (laws.entries s c))
    number = ap int64 next ∙ int64-small (length (laws.entries s c)) (omega arith)

    length-entries : length (table.entries d c) ≡ length (laws.entries s c)
    length-entries = ap length (holds.entries c) ∙ length-map (laws.entries s c) (entry_row c)

    absent :
        first? (rows_at (λ (r : EntryRow). r.sequence) (entry_row c e).sequence (table.entries d c))
        ≡ none
    unfolding entry_row
    absent =
        rw
          (
            number,
            rows_at_zero (λ (r : EntryRow). r.sequence) (length (laws.entries s c))
                (table.entries d c) (written-IsDense table laws d s holds c),
            get_elem?-none (table.entries d c) (length (laws.entries s c))
                (omega (arith, length-entries)),
          )
          refl

    pub append_entry-ok : (append_entry session d c e).0 ≡ ok tt
    unfolding append_entry applied entry_row
    append_entry-ok = rw (table.insert_entry-result d (entry_row c e) accepted, absent) refl

    -- The row goes to the end of its chat.
    pub written_end :
        table.entries (append_entry session d c e).1 c
        ≡ table.entries d c ++ stored_entry (entry_row c e) ∷ []
    unfolding append_entry entry_row
    written_end =
        table.entries-insert_entry d (entry_row c e) c accepted
        ∙ rw (bytes_eq_refl c, absent)
            (write_row_zero (λ (r : EntryRow). r.sequence) (stored_entry (entry_row c e))
              (table.entries d c) (written-IsDense table laws d s holds c)
              (number ∙ ap pos (sym length-entries)))

    pub end-IsDense :
        IsDense
          (λ (r : EntryRow). r.sequence)
          0
          (table.entries d c ++ stored_entry (entry_row c e) ∷ [])
    unfolding entry_row
    end-IsDense =
        IsDense-concat (λ (r : EntryRow). r.sequence) 0 (table.entries d c)
          (stored_entry (entry_row c e)) (written-IsDense table laws d s holds c)
          (number ∙ ap pos (omega (arith, length-entries)))

    module _ (precise : IsPrecise e.message) where
      -- The entries of a chat behind the write, in the store and in the table.
      changed :
          (c' : Bytes)
          → ((c ≡ c')
              × (laws.entries (ops.append_entry s c e).1 c' ≡ laws.entries s c ++ e ∷ [])
              × (table.entries (append_entry session d c e).1 c'
                  ≡ map (entry_row c) (laws.entries s c ++ e ∷ [])))
            ⊎ ((laws.entries (ops.append_entry s c e).1 c' ≡ laws.entries s c')
                × (table.entries (append_entry session d c e).1 c' ≡ table.entries d c'))
      unfolding append_entry entry_row
      changed c' =
          let here : (length (laws.entries s c) == e.sequence) ≡ true = (==_iff _ _).1 (sym next) in
          elim (Bool-cases (bytes_eq c c')) [
            | inl same ↦ inl (
              (bytes_eq_iff c c').0 same,
              laws.entries-append_entry s c e c' ∙ rw (here, same) refl,
              ap (table.entries (append_entry session d c e).1) (sym ((bytes_eq_iff c c').0 same))
                  ∙ written_end
                  ∙ rw (holds.entries c, stored_entry-entry_row c e precise, map-append) refl,
            )
            | inr other ↦ inr (
              laws.entries-append_entry s c e c' ∙ rw (here, other) refl,
              table.entries-insert_entry d (entry_row c e) c' accepted ∙ rw other refl,
            )
          ]

      pub append_entry-Holds :
          Holds table laws (append_entry session d c e).1 (ops.append_entry s c e).1
      unfolding append_entry
      append_entry-Holds = record {
        entries = λ c'. elim (changed c') [
          | inl (own, store, rows) ↦ rows ∙ rw (store, own) refl
          | inr (store, rows) ↦ rows ∙ holds.entries c' ∙ rw store refl
        ];
        snapshots = λ c'.
            table.snapshots-insert_entry d (entry_row c e) c'
            ∙ holds.snapshots c'
            ∙ ap (map kept_row) (sym (laws.snapshots-append_entry s c e c'));
        kept = λ c'. elim (changed c') [
          | inl (own, store, rows) ↦
              rw (store, ← own)
                (AreKept-concat c 0 (laws.entries s c) e (holds.kept c) (next ∙ omega arith) refl
                  precise)
          | inr (store, rows) ↦ rw store (holds.kept c')
        ];
        numbered = λ c'. rw (laws.snapshots-append_entry s c e c') (holds.numbered c');
        room = λ c'. elim (changed c') [
          | inl (own, store, rows) ↦
              rw store (omega (arith, length-append (laws.entries s c) (e ∷ [])))
          | inr (store, rows) ↦ rw store (holds.room c')
        ];
        snapshot_room = λ c'. rw (laws.snapshots-append_entry s c e c') (holds.snapshot_room c');
      }
