-- ===== src/Chatlog/Durable/Step.antt =====
-- One call of `Append` of internal/chatlog/log.go, on the ScyllaDB adapter and on a store that keeps the
-- contract of the storage port.
use decentralized_messenger.Common.{
  ℕ, suc, ◌*◌, ◌^◌, ◌<◌, ◌≡◌, refl, sym, ap, true, inl, inr, arith, Bool-cases, length, last?, drop,
  All, bytes_eq_refl,
}
use decentralized_messenger.Codec.Decimal.{u64}
use decentralized_messenger.Codec.Time.{Time}
use decentralized_messenger.Result.{Result, ok, err}
use decentralized_messenger.Models.{SignedMessage, LogEntry, genesis_hash}
use decentralized_messenger.Crypto.Keys.{verify_message}
use decentralized_messenger.Storage.{IsStorage, or_not_found}
use decentralized_messenger.Storage.Scylla.{Session, entry_row, snapshot_row, append_entry}
use decentralized_messenger.Storage.Scylla.Table.{IsTable}
use decentralized_messenger.Storage.Scylla.Holds.{IsPrecise}
use decentralized_messenger.Storage.Scylla.Ops.{last_entry-Holds}
use decentralized_messenger.Storage.Scylla.Writes.{append_entry-ok, append_entry-Holds}
use decentralized_messenger.Chatlog.{
  Ports, Log, supported_version, fills_window, next_window, make_entry, make_snapshot, hashes,
  publish, take_snapshot, after_snapshot, announce_entry, store_entry, append_at, entry_event,
  append_message,
}
use decentralized_messenger.Chatlog.Chain.{tip_hash, next_position_lem}
use decentralized_messenger.Chatlog.Append.{
  entries_of, snapshots_of, appended, next_entry, entries_of-appended, append_message-store,
}
use decentralized_messenger.Hash.{IsSized}
use decentralized_messenger.Merkle.Ascii.{IsAsciiText, root-ascii}
use decentralized_messenger.Chatlog.Durable.Texts.{
  genesis_hash-ascii, compute_hash-ascii, hashes-append_ascii, hashes-drop_ascii, tip_hash-ascii,
  hashes-ascii,
}
use decentralized_messenger.Chatlog.Invariant.{IsWellFormed}
use decentralized_messenger.Chatlog.Invariant.Windows.{next_window_lem}
use decentralized_messenger.Chatlog.Durable.{
  durable, IsSame, IsStorable, publish-IsSame, take_snapshot-IsSame,
}

after_snapshot-ok :
    {S C B : Type 0} (ports : Ports S C B) (e : LogEntry) (r : Result (Unit {0}) × Log S C B)
    → r.0 ≡ ok tt
    → after_snapshot ports e r ≡ (ok e, r.1)
unfolding after_snapshot
after_snapshot-ok ports e (ok tt, l) h = refl
after_snapshot-ok ports e (err f, l) h = cc

module _ {D S C B : Type 0} {session : Session D} (ports : Ports S C B) (table : IsTable session)
    (laws : IsStorage ports.storage) (sized : IsSized ports.sha256) where
  module _ (ld : Log D C B) (l : Log S C B) (same : IsSame ports table laws ld l) (e : LogEntry)
      (now : Time) (from index : ℕ)
      (at : next_window (or_not_found (last? (snapshots_of ports laws l e.message.chat_id)))
        ≡ ok (from, index))
      (low : from < 2 ^ 63) (count : index ≡ length (snapshots_of ports laws l e.message.chat_id))
      (room : suc (length (snapshots_of ports laws l e.message.chat_id)) < 2 ^ 63)
      (high : e.sequence < u64)
      (accepted : table.AcceptedSnapshot (
        snapshot_row (
          make_snapshot ports e.message.chat_id e now from index
            (drop from (entries_of ports laws l e.message.chat_id))))) where
    announce_entry-IsSame :
        ((announce_entry (durable session ports) ld e now (ok tt)).0
          ≡ (announce_entry ports l e now (ok tt)).0)
        × IsSame ports table laws
            (announce_entry (durable session ports) ld e now (ok tt)).1
            (announce_entry ports l e now (ok tt)).1
    unfolding announce_entry publish
    announce_entry-IsSame =
        let published = publish-IsSame ports table laws ld l (entry_event e) same in
        elim (Bool-cases (fills_window e.sequence)) [
          | inr plain ↦ rw plain (refl, published)
          | inl full ↦
              let ld' = publish (durable session ports) ld (entry_event e) in
              let l' = publish ports l (entry_event e) in
              let (left, right, done) =
                take_snapshot-IsSame ports table laws ld' l' published e.message.chat_id e now from
                  index at low count room high accepted in
              rw
                (
                  full,
                  after_snapshot-ok (durable session ports) e
                      (take_snapshot (durable session ports) ld' e.message.chat_id e now) left,
                  after_snapshot-ok ports e (take_snapshot ports l' e.message.chat_id e now) right,
                )
                (refl, done)
        ]

  module _ (ld : Log D C B) (l : Log S C B) (msg : SignedMessage) (now : Time)
      (same : IsSame ports table laws ld l) (wf : IsWellFormed ports laws l)
      (storable : IsStorable ports table laws msg)
      (room : suc (length (laws.entries l.store msg.chat_id)) < 2 ^ 63)
      (supported : supported_version msg.schema_version ≡ true)
      (signed : verify_message ports.ed25519 msg ≡ true) where
    abbrev pub new : LogEntry
    new = next_entry ports laws l msg

    -- The log behind `AppendEntry`.
    abbrev pub middle : Log D C B
    middle = record ld { store = (append_entry session ld.store msg.chat_id new).1 }

    ascii : All IsAsciiText (hashes (laws.entries l.store msg.chat_id))
    ascii = hashes-ascii ports sized 0 genesis_hash _ (wf.chain msg.chat_id)

    new-ascii : IsAsciiText new.entry_hash
    unfolding make_entry
    new-ascii = compute_hash-ascii ports.sha256 sized _

    pub accepted_row : table.Accepted (entry_row msg.chat_id new)
    accepted_row =
        storable.row (tip_hash genesis_hash (laws.entries l.store msg.chat_id))
          (length (laws.entries l.store msg.chat_id))
          (tip_hash-ascii genesis_hash _ genesis_hash-ascii ascii) new-ascii

    appended-ascii :
        All IsAsciiText (hashes (entries_of ports laws (appended ports laws l new) msg.chat_id))
    unfolding make_entry
    appended-ascii =
        rw (entries_of-appended ports laws l new msg.chat_id refl, bytes_eq_refl msg.chat_id)
          (hashes-append_ascii (laws.entries l.store msg.chat_id) new ascii new-ascii)

    accepted_snapshot :
        (from index : ℕ)
        → table.AcceptedSnapshot (
            snapshot_row (
              make_snapshot ports msg.chat_id new now from index
                (drop from (entries_of ports laws (appended ports laws l new) msg.chat_id))))
    unfolding make_snapshot make_entry
    accepted_snapshot from index =
        storable.snapshot
          (make_snapshot ports msg.chat_id new now from index
            (drop from (entries_of ports laws (appended ports laws l new) msg.chat_id)))
          refl (root-ascii ports.sha256 sized _ (hashes-drop_ascii from _ appended-ascii)) new-ascii

    pub append_message-durable :
        append_message (durable session ports) ld msg now
        ≡ announce_entry (durable session ports) middle new now (ok tt)
    unfolding append_message append_at store_entry make_entry
    append_message-durable =
        rw
          (
            supported,
            signed,
            last_entry-Holds table laws ld.store l.store same.holds msg.chat_id,
            laws.last_entry_lem l.store msg.chat_id,
            next_position_lem ports (entries_of ports laws l msg.chat_id) (wf.chain msg.chat_id)
                (omega arith),
          )
          (rw
            (
              append_at,
              append_entry-ok table laws ld.store l.store same.holds new refl accepted_row room,
            )
            refl)

    snapshots_of-appended :
        snapshots_of ports laws (appended ports laws l new) msg.chat_id
        ≡ laws.snapshots l.store msg.chat_id
    snapshots_of-appended = laws.snapshots-append_entry l.store new.message.chat_id new msg.chat_id

    accepted-IsSame :
        IsPrecise msg
        → ((append_message (durable session ports) ld msg now).0
            ≡ (append_message ports l msg now).0)
          × IsSame ports table laws
              (append_message (durable session ports) ld msg now).1
              (append_message ports l msg now).1
    unfolding make_entry
    accepted-IsSame precise =
        let es = laws.entries l.store msg.chat_id in
        let snaps = laws.snapshots l.store msg.chat_id in
        let sealed = (wf.sealed msg.chat_id).count in
        let left = append_message-durable in
        let right =
          append_message-store ports laws l msg now supported signed (wf.chain msg.chat_id)
            (omega arith) in
        let here : next_window (or_not_found (last? snaps))
            ≡ ok (100 * length snaps, length snaps) =
          next_window_lem ports msg.chat_id es snaps (omega arith) (wf.sealed msg.chat_id) in
        rw (left, right)
          (announce_entry-IsSame middle (appended ports laws l new)
            (record {
              holds =
                  append_entry-Holds table laws ld.store l.store same.holds new refl accepted_row
                    room precise;
              cache = same.cache;
              broker = same.broker;
            })
            new now (100 * length snaps) (length snaps) (rw snapshots_of-appended here)
            (omega (arith, sealed)) (sym (ap length snapshots_of-appended))
            (omega (arith, sealed, ap length snapshots_of-appended)) (omega arith)
            (accepted_snapshot (100 * length snaps) (length snaps)))

  -- For a log on the ScyllaDB adapter and one on a store that keeps the contract of the Storage
  -- port, which hold the same, and a message that the tables accept with any hashes of ASCII and
  -- whose time has millisecond precision, Append answers alike on both, and they hold the same
  -- again. The log keeps the invariant; the chat has fewer than 2^63 - 1 entries. The tables keep
  -- the contract of their statements. Digests are of 32 bytes.
  pub append_message-IsSame :
      (ld : Log D C B) (l : Log S C B) (msg : SignedMessage) (now : Time)
      → IsSame ports table laws ld l
      → IsWellFormed ports laws l
      → IsStorable ports table laws msg
      → IsPrecise msg
      → suc (length (laws.entries l.store msg.chat_id)) < 2 ^ 63
      → ((append_message (durable session ports) ld msg now).0 ≡ (append_message ports l msg now).0)
        × IsSame ports table laws
            (append_message (durable session ports) ld msg now).1
            (append_message ports l msg now).1
  unfolding append_message
  append_message-IsSame ld l msg now same wf storable precise room =
      elim (Bool-cases (supported_version msg.schema_version)) [
        | inr old ↦ rw old (refl, same)
        | inl new ↦ elim (Bool-cases (verify_message ports.ed25519 msg)) [
          | inr forged ↦ rw (new, forged) (refl, same)
          | inl signed ↦ accepted-IsSame ld l msg now same wf storable room new signed precise
        ]
      ]
