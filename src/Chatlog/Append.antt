-- ===== src/Chatlog/Append.antt =====
-- What `Append` of internal/chatlog/log.go does to a store that keeps the contract of its port.
use decentralized_messenger.Common.{
  ℕ, ◌<◌, ◌≡◌, refl, ap, ◌∙◌, true, false, List, [], ◌∷◌, ◌++◌, ◌&&◌, ◌==◌, ==_iff, if◌then◌else◌,
  Bytes, bytes_eq, length, last?, drop,
}
use decentralized_messenger.Codec.Decimal.{u64}
use decentralized_messenger.Codec.Time.{Time}
use decentralized_messenger.Result.{ok, err, unsupported_version, invalid_signature}
use decentralized_messenger.Models.{LogEntry, MerkleSnapshot, SignedMessage, genesis_hash}
use decentralized_messenger.Crypto.Keys.{verify_message}
use decentralized_messenger.Storage.{IsStorage, or_not_found}
use decentralized_messenger.Chatlog.{
  Ports, Log, supported_version, fills_window, next_window, make_entry, make_snapshot, publish,
  announce_snapshot, save_snapshot, snapshot_window, take_snapshot, after_snapshot, announce_entry,
  store_entry, append_at, entry_event, append_message,
}
use decentralized_messenger.Chatlog.Chain.{IsChain, tip_hash, next_position_lem}

module _ {S C B : Type 0} (ports : Ports S C B) (laws : IsStorage ports.storage) where
  abbrev pub entries_of : Log S C B → Bytes → List LogEntry
  entries_of l c = laws.entries l.store c

  abbrev pub snapshots_of : Log S C B → Bytes → List MerkleSnapshot
  snapshots_of l c = laws.snapshots l.store c

  -- A message that is refused leaves the log as it is, and the first check that fails names the error.
  pub append_message-refused :
      (l : Log S C B) (msg : SignedMessage) (now : Time)
      → (supported_version msg.schema_version ≡ false
          → append_message ports l msg now ≡ (err unsupported_version, l))
        × (supported_version msg.schema_version ≡ true
            → verify_message ports.ed25519 msg ≡ false
            → append_message ports l msg now ≡ (err invalid_signature, l))
  unfolding append_message
  append_message-refused l msg now = (λ u. rw u refl, λ s v. rw (s, v) refl)

  -- The log behind `SaveSnapshot` of a snapshot.
  abbrev pub saved : Log S C B → MerkleSnapshot → Log S C B
  saved l snap = record l { store = (ports.storage.save_snapshot l.store snap).1 }

  -- On such a store a snapshot is saved without an error.
  pub take_snapshot-ok :
      (l : Log S C B) (c : Bytes) (tip : LogEntry) (now : Time) (from index : ℕ)
      → next_window (or_not_found (last? (snapshots_of l c))) ≡ ok (from, index)
      → take_snapshot ports l c tip now ≡ (
          let snap = make_snapshot ports c tip now from index (drop from (entries_of l c)) in
          announce_snapshot ports (saved l snap) c tip snap.merkle_root (ok tt))
  unfolding take_snapshot snapshot_window save_snapshot
  take_snapshot-ok l c tip now from index w =
      let snap = make_snapshot ports c tip now from index (drop from (entries_of l c)) in
      rw (laws.latest_snapshot_lem l.store c, w)
        (rw (laws.entries_since_lem l.store c from, snapshot_window)
          (rw (laws.save_snapshot-result l.store snap) refl))

  abbrev pub appended : Log S C B → LogEntry → Log S C B
  appended l e = record l { store = (ports.storage.append_entry l.store e.message.chat_id e).1 }

  store_entry-ok :
      (l : Log S C B) (e : LogEntry) (now : Time)
      → length (entries_of l e.message.chat_id) ≡ e.sequence
      → store_entry ports l e now ≡ announce_entry ports (appended l e) e now (ok tt)
  unfolding store_entry
  store_entry-ok l e now h =
      let here : (length (entries_of l e.message.chat_id) == e.sequence) ≡ true =
        (==_iff _ _).1 h in
      rw (laws.append_entry-result l.store e.message.chat_id e, here) refl

  -- The entry that `Append` makes for a message.
  abbrev pub next_entry : Log S C B → SignedMessage → LogEntry
  next_entry l msg =
      let es = entries_of l msg.chat_id in
      make_entry ports msg (tip_hash genesis_hash es) (length es)

  pub append_message-store :
      (l : Log S C B) (msg : SignedMessage) (now : Time)
      → supported_version msg.schema_version ≡ true
      → verify_message ports.ed25519 msg ≡ true
      → IsChain ports 0 genesis_hash (entries_of l msg.chat_id)
      → length (entries_of l msg.chat_id) < u64
      → append_message ports l msg now
        ≡ announce_entry ports (appended l (next_entry l msg)) (next_entry l msg) now (ok tt)
  unfolding append_message append_at make_entry
  append_message-store l msg now s v chain fits =
      rw
        (
          s,
          v,
          laws.last_entry_lem l.store msg.chat_id,
          next_position_lem ports (entries_of l msg.chat_id) chain fits,
        )
        (store_entry-ok l (next_entry l msg) now refl)

  -- The snapshot that `Append` makes behind an entry, from the position of its window.
  abbrev pub next_snapshot : Log S C B → SignedMessage → Time → ℕ → ℕ → MerkleSnapshot
  next_snapshot l msg now from index =
      let es = entries_of l msg.chat_id ++ next_entry l msg ∷ [] in
      make_snapshot ports msg.chat_id (next_entry l msg) now from index (drop from es)

  pub entries_of-appended :
      (l : Log S C B) (e : LogEntry) (d : Bytes)
      → length (entries_of l e.message.chat_id) ≡ e.sequence
      → entries_of (appended l e) d ≡ (
          if bytes_eq e.message.chat_id d
          then entries_of l e.message.chat_id ++ e ∷ []
          else entries_of l d)
  entries_of-appended l e d h =
      let here : (length (entries_of l e.message.chat_id) == e.sequence) ≡ true =
        (==_iff _ _).1 h in
      laws.entries-append_entry l.store e.message.chat_id e d
      ∙ ap
          (λ b.
            if b && bytes_eq e.message.chat_id d
            then entries_of l e.message.chat_id ++ e ∷ []
            else entries_of l d)
          here

  -- Short of a full window, `Append` returns the entry and its store holds one entry more.
  pub announce_entry-plain :
      (l : Log S C B) (e : LogEntry) (now : Time)
      → fills_window e.sequence ≡ false
      → ((announce_entry ports l e now (ok tt)).0 ≡ ok e)
        × ((announce_entry ports l e now (ok tt)).1.store ≡ l.store)
  unfolding announce_entry publish
  announce_entry-plain l e now h = (rw h refl, rw h refl)

  -- With a full window it also saves a snapshot.
  pub announce_entry-full :
      (l : Log S C B) (e : LogEntry) (now : Time) (from index : ℕ)
      → fills_window e.sequence ≡ true
      → next_window (or_not_found (last? (snapshots_of l e.message.chat_id))) ≡ ok (from, index)
      → ((announce_entry ports l e now (ok tt)).0 ≡ ok e)
        × ((announce_entry ports l e now (ok tt)).1.store
            ≡ (saved l (
                make_snapshot ports e.message.chat_id e now from index
                  (drop from (entries_of l e.message.chat_id)))).store)
  unfolding announce_entry publish announce_snapshot after_snapshot
  announce_entry-full l e now from index h w =
      let done =
        take_snapshot-ok (publish ports l (entry_event e)) e.message.chat_id e now from index w in
      (rw (h, done) refl, rw (h, done) refl)
