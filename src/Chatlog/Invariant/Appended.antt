-- ===== src/Chatlog/Invariant/Appended.antt =====
-- What `Append` of internal/chatlog/log.go does for a message that passes the checks, told without
-- the functions that it builds the entry and the snapshot with.
use decentralized_messenger.Common.{
  ℕ, ◌+◌, ◌*◌, ◌%◌, ◌≡◌, refl, ap, ◌&&◌, ◌==◌, List, [], ◌∷◌, ◌++◌, arith, if◌then◌else◌, Bytes,
  bytes_eq, length, drop,
}
use decentralized_messenger.Codec.Decimal.{u64}
use decentralized_messenger.Codec.Time.{Time}
use decentralized_messenger.Result.{ok}
use decentralized_messenger.Models.{LogEntry, MerkleSnapshot, SignedMessage, genesis_hash}
use decentralized_messenger.Merkle
use decentralized_messenger.Storage.{IsStorage}
use decentralized_messenger.Chatlog.{
  Ports, Log, hashes, next_u64, fills_window, make_entry, make_snapshot, append_message,
}
use decentralized_messenger.Chatlog.Chain.{IsLink, tip_hash, make_entry-IsLink}
use decentralized_messenger.Chatlog.Append.{next_entry}
use decentralized_messenger.Chatlog.Invariant.{IsWellFormed}
use decentralized_messenger.Chatlog.Invariant.Effect.{IsAccepted, append_message-Effect}

-- The snapshot at an index that the last of some entries seals, at a time.
abbrev pub sealed_by : (Bytes → Bytes) → LogEntry → Time → List LogEntry → ℕ → MerkleSnapshot
sealed_by sha256 e now es k = record {
  chat_id = e.message.chat_id;
  snapshot_index = k;
  from_sequence = 100 * k;
  to_sequence = e.sequence;
  merkle_root = Merkle.root sha256 (hashes (drop (100 * k) es));
  last_entry_hash = e.entry_hash;
  created_at = now;
}

module _ {S C B : Type 0} (ports : Ports S C B) (laws : IsStorage ports.storage) where
  -- An entry for a message at the end of its chat, the snapshot of the entries behind the last one
  -- where the chat then has a multiple of 100 entries, and no other change.
  pub record IsAppended (l : Log S C B) (msg : SignedMessage) (now : Time) (e : LogEntry)
      (l' : Log S C B) : Type 0 where
    pub message : e.message ≡ msg
    pub link :
        (let es = laws.entries l.store msg.chat_id in
          IsLink ports (length es) (tip_hash genesis_hash es) e)
    pub entries :
        (d : Bytes)
        → laws.entries l'.store d ≡ (
            if bytes_eq msg.chat_id d
            then laws.entries l.store msg.chat_id ++ e ∷ []
            else laws.entries l.store d)
    pub snapshots :
        (d : Bytes)
        → laws.snapshots l'.store d ≡ (
            let es = laws.entries l.store msg.chat_id in
            let k = length (laws.snapshots l.store msg.chat_id) in
            if bytes_eq msg.chat_id d && (length es + 1) % 100 == 0
            then laws.snapshots l.store msg.chat_id
              ++ sealed_by ports.sha256 e now (es ++ e ∷ []) k ∷ []
            else laws.snapshots l.store d)

  -- On a log that keeps the invariant, Append of a message with a supported version and a valid
  -- signature returns an entry with that message, the next sequence number, the hash of the tip as
  -- its previous hash, and its own hash. The chat has that entry at its end; exactly where the
  -- chat then has a multiple of 100 entries it has one more snapshot, from the entry behind the
  -- last window to the new one, with the Merkle root of these entries; and the store has no other
  -- change. The chat has fewer than 2^63 entries. The store keeps the contract of its port.
  pub append_message_lem :
      (l : Log S C B) (msg : SignedMessage) (now : Time)
      → IsWellFormed ports laws l
      → IsAccepted ports laws l msg
      → (e : LogEntry) × ((append_message ports l msg now).0 ≡ ok e)
        × IsAppended l msg now e (append_message ports l msg now).1
  unfolding make_entry make_snapshot next_u64
  append_message_lem l msg now wf acc =
      let (result, effect) = append_message-Effect ports laws l msg now wf acc in
      let es = laws.entries l.store msg.chat_id in
      let full : fills_window (length es) ≡ ((length es + 1) % 100 == 0) =
        let low : (length es + 1) % u64 ≡ length es + 1 = let room = acc.room in omega arith in
        ap (λ n. n % 100 == 0) low in
      (
        next_entry ports laws l msg,
        result,
        record {
          message = refl;
          link =
              make_entry-IsLink ports msg (tip_hash genesis_hash es) (length es) acc.supported
                acc.signed;
          entries = effect.entries;
          snapshots = λ d. rw full at (effect.snapshots d);
        },
      )
