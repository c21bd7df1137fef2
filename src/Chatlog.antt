-- ===== src/Chatlog.antt =====
-- internal/chatlog/log.go: the append-only log. The storage, the cache and the broker are the ports
-- that the log is given; SHA-256 and Ed25519 are libraries. Here every method runs as one step:
-- `Append` holds its chat's lock, and the other methods change nothing; Locks has the steps of
-- concurrent calls. The time that `snapshot` reads is an argument of `append_message`.
pub mod Queries
pub mod Chain
pub mod Append
pub mod Invariant
pub mod Inclusion
pub mod Reach
pub mod Tamper
pub mod Replay
pub mod Durable
pub mod Failures
pub mod Events
pub mod Locks
use decentralized_messenger.Common.{
  ℕ, zero, suc, ◌+◌, ◌-◌, ◌/◌, ◌%◌, ◌^◌, ◌≡◌, Bool, true, false, not, List, [], ◌∷◌, ◌++◌, map,
  Option, none, some, ltb, leb, ◌==◌, if◌then◌else◌, Bytes, codes, bytes_eq, length, take,
  get_elem?,
}
use decentralized_messenger.Codec.Decimal.{ℤ, pos, negsuc, u64, format_uint}
use decentralized_messenger.Codec.Time.{Time}
use decentralized_messenger.Result.{
  Error, Result, ok, err, invalid_signature, unsupported_version, not_snapshotted, root_mismatch,
  window_incomplete, read_tip, append, snapshot, panic, is_not_found, ◌>>=◌,
}
use decentralized_messenger.Models.{
  SignedMessage, LogEntry, MerkleSnapshot, genesis_hash, snapshot_interval, compute_hash,
}
use decentralized_messenger.Crypto.Keys.{Ed25519, verify_message}
use decentralized_messenger.Merkle
use decentralized_messenger.Merkle.{ProofNode}
use decentralized_messenger.Storage.{StorageOps}
use decentralized_messenger.Cache.{CacheOps}
use decentralized_messenger.Broker.{BrokerOps, Event, entry_appended, snapshot_created}

-- What a log is built from: the implementations of its ports and the cryptographic functions.
pub record Ports (S C B : Type 0) : Type 0 where
  pub storage : StorageOps S
  pub cache : CacheOps C
  pub broker : BrokerOps B
  pub sha256 : Bytes → Bytes
  pub ed25519 : Ed25519

pub record Log (S C B : Type 0) : Type 0 where
  pub store : S
  pub cache : C
  pub broker : B

pub record InclusionProof : Type 0 where
  pub chat_id : Bytes
  pub sequence : ℕ
  pub entry_hash : Bytes
  pub snapshot_index : ℕ
  pub merkle_root : Bytes
  pub nodes : List ProofNode

pub record MessageVerification : Type 0 where
  pub sequence : ℕ
  pub valid : Bool
  pub reason : Bytes

pub record VerifyResult : Type 0 where
  pub valid : Bool
  pub entries : ℕ
  pub reason : Bytes

pub record SyncBundle : Type 0 where
  pub snapshot : Option MerkleSnapshot
  pub new_entries : List LogEntry
  pub current_hash : Bytes

-- `v == models.CurrentSchemaVersion`, which is 1.
unfoldable pub supported_version : ℤ → Bool
supported_version (pos v) = v == 1
supported_version (negsuc v) = false

-- `v + 1` of `uint64`.
unfoldable pub next_u64 : ℕ → ℕ
next_u64 v = (v + 1) % u64

-- Whether the entry at a sequence number fills a window.
abbrev pub fills_window : ℕ → Bool
fills_window sequence = next_u64 sequence % snapshot_interval == 0

-- The hash and the sequence number that the next entry takes, from the tip of the log.
unfoldable pub next_position : Result LogEntry → Result (Bytes × ℕ)
next_position (ok last) = ok (last.entry_hash, next_u64 last.sequence)
next_position (err e) = if is_not_found e then ok (genesis_hash, 0) else err (read_tip e)

-- The window that the next snapshot begins at and its index, from the latest snapshot.
unfoldable pub next_window : Result MerkleSnapshot → Result (ℕ × ℕ)
next_window (ok prev) = ok (next_u64 prev.to_sequence, next_u64 prev.snapshot_index)
next_window (err e) = if is_not_found e then ok (0, 0) else err e

-- The events that are published for an entry and for a snapshot.
abbrev pub entry_event : LogEntry → Event
entry_event entry = record {
  kind = entry_appended;
  chat_id = entry.message.chat_id;
  sequence = entry.sequence;
  entry_hash = entry.entry_hash;
}

abbrev pub snapshot_event : Bytes → LogEntry → Event
snapshot_event chat_id tip = record {
  kind = snapshot_created;
  chat_id = chat_id;
  sequence = tip.sequence;
  entry_hash = tip.entry_hash;
}

abbrev pub hashes : List LogEntry → List Bytes
hashes = map (λ e. e.entry_hash)

module _ {S C B : Type 0} (ports : Ports S C B) where
  open ports use {sha256, ed25519}

  -- The entry for a message at a position.
  unfoldable pub make_entry : SignedMessage → Bytes → ℕ → LogEntry
  make_entry msg prev_hash sequence =
      let unhashed : LogEntry = record {
        sequence = sequence;
        message = msg;
        prev_hash = prev_hash;
        entry_hash = [];
      } in
      record unhashed { entry_hash = compute_hash sha256 unhashed }

  unfoldable pub publish : Log S C B → Event → Log S C B
  publish l event = record l { broker = (ports.broker.publish l.broker event).1 }

  -- The end of `snapshot`, behind `SaveSnapshot`.
  unfoldable pub announce_snapshot :
      Log S C B → Bytes → LogEntry → Bytes → Result (Unit {0}) → Result (Unit {0}) × Log S C B
  announce_snapshot l chat_id tip root (err e) = (err e, l)
  announce_snapshot l chat_id tip root (ok _) = (
    ok tt,
    publish (record l { cache = ports.cache.set_merkle_root l.cache chat_id root })
        (snapshot_event chat_id tip),
  )

  unfoldable pub make_snapshot : Bytes → LogEntry → Time → ℕ → ℕ → List LogEntry → MerkleSnapshot
  make_snapshot chat_id tip now from index window = record {
    chat_id = chat_id;
    snapshot_index = index;
    from_sequence = from;
    to_sequence = tip.sequence;
    merkle_root = Merkle.root sha256 (hashes window);
    last_entry_hash = tip.entry_hash;
    created_at = now;
  }

  -- `SaveSnapshot` and what follows it.
  unfoldable pub save_snapshot :
      Log S C B → Bytes → LogEntry → MerkleSnapshot → Result (Unit {0}) × Log S C B
  save_snapshot l chat_id tip snap =
      let (r, store) = ports.storage.save_snapshot l.store snap in
      announce_snapshot (record l { store = store }) chat_id tip snap.merkle_root r

  -- `snapshot`, from the window's position and its entries.
  unfoldable pub snapshot_window :
      Log S C B → Bytes → LogEntry → Time → Result (ℕ × ℕ) → Result (Unit {0}) × Log S C B
  snapshot_window l chat_id tip now (err e) = (err e, l)
  snapshot_window l chat_id tip now (ok (from, index)) =
      elim (ports.storage.entries_since l.store chat_id from) [
        | err e ↦ (err e, l)
        | ok window ↦ save_snapshot l chat_id tip (make_snapshot chat_id tip now from index window)
      ]

  unfoldable pub take_snapshot : Log S C B → Bytes → LogEntry → Time → Result (Unit {0}) × Log S C B
  take_snapshot l chat_id tip now =
      snapshot_window l chat_id tip now
        (next_window (ports.storage.latest_snapshot l.store chat_id))

  -- The result of `Append` behind a snapshot, which wraps its error.
  unfoldable pub after_snapshot :
      LogEntry → Result (Unit {0}) × Log S C B → Result LogEntry × Log S C B
  after_snapshot entry (ok _, l) = (ok entry, l)
  after_snapshot entry (err e, l) = (err (snapshot e), l)

  -- `Append` behind `AppendEntry`.
  unfoldable pub announce_entry :
      Log S C B → LogEntry → Time → Result (Unit {0}) → Result LogEntry × Log S C B
  announce_entry l entry now (err e) = (err (append e), l)
  announce_entry l entry now (ok _) =
      let l' = publish l (entry_event entry) in
      if fills_window entry.sequence
      then after_snapshot entry (take_snapshot l' entry.message.chat_id entry now)
      else (ok entry, l')

  unfoldable pub store_entry : Log S C B → LogEntry → Time → Result LogEntry × Log S C B
  store_entry l entry now =
      let (r, store) = ports.storage.append_entry l.store entry.message.chat_id entry in
      announce_entry (record l { store = store }) entry now r

  -- `Append` behind the checks of the message.
  unfoldable pub append_at :
      Log S C B → SignedMessage → Time → Result (Bytes × ℕ) → Result LogEntry × Log S C B
  append_at l msg now (err e) = (err e, l)
  append_at l msg now (ok (prev_hash, sequence)) =
      store_entry l (make_entry msg prev_hash sequence) now

  -- `Append`.
  unfoldable pub append_message : Log S C B → SignedMessage → Time → Result LogEntry × Log S C B
  append_message l msg now =
      if not (supported_version msg.schema_version)
      then (err unsupported_version, l)
      else if not (verify_message ed25519 msg)
      then (err invalid_signature, l)
      else append_at l msg now (next_position (ports.storage.last_entry l.store msg.chat_id))
