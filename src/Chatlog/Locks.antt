-- ===== src/Chatlog/Locks.antt =====
-- Concurrent calls of `Append` of internal/chatlog/log.go. A call holds the lock of its chat, and the
-- calls for different chats interleave: a step is one call of a port. What a call has done so far is the
-- stage of its chat.
pub mod Whole
pub mod Stages
pub mod Advance
pub mod Schedule
use decentralized_messenger.Common.{
  ℕ, zero, suc, Bool, true, false, ◌&&◌, List, [], ◌∷◌, if◌then◌else◌, Bytes, bytes_eq,
}
use decentralized_messenger.Codec.Time.{Time}
use decentralized_messenger.Result.{Result, ok, err}
use decentralized_messenger.Models.{LogEntry, MerkleSnapshot, SignedMessage}
use decentralized_messenger.Crypto.Keys.{verify_message}
use decentralized_messenger.Chatlog.{
  Ports, Log, supported_version, fills_window, next_position, next_window, make_entry,
  make_snapshot, publish, entry_event, snapshot_event,
}

-- Where the call is that holds the lock of a chat; nobody holds the lock of an idle chat.
pub data Stage : Type 0 where
  idle : Stage
  -- behind the checks and `Lock`
  checked : SignedMessage → Time → Stage
  -- behind `LastEntry`, with the previous hash and the sequence number
  positioned : SignedMessage → Time → Bytes → ℕ → Stage
  -- behind `AppendEntry`
  written : LogEntry → Time → Stage
  -- behind the event of an entry that fills a window
  notified : LogEntry → Time → Stage
  -- behind `LatestSnapshot`, with the position of the window and the index
  windowed : LogEntry → Time → ℕ → ℕ → Stage
  -- behind `EntriesSince`
  gathered : LogEntry → MerkleSnapshot → Stage
  -- behind `SaveSnapshot`
  snapped : LogEntry → MerkleSnapshot → Stage
  -- behind `SetMerkleRoot`
  cached : LogEntry → Stage

abbrev pub is_free : Stage → Bool
is_free idle = true
is_free _ = false

-- A node with its calls under way.
pub record Node (S C B : Type 0) : Type 0 where
  pub log : Log S C B
  pub stage : Bytes → Stage

-- A message comes in and takes the lock of its chat, or the call that holds the lock of a chat takes its
-- next step.
pub data Action : Type 0 where
  enter : SignedMessage → Time → Action
  proceed : Bytes → Action

abbrev pub set_stage : Bytes → Stage → (Bytes → Stage) → Bytes → Stage
set_stage c s stage d = if bytes_eq c d then s else stage d

-- The stage behind a result; an error ends the call.
abbrev pub positioned_at : SignedMessage → Time → Result (Bytes × ℕ) → Stage
positioned_at msg now (err e) = idle
positioned_at msg now (ok (prev_hash, sequence)) = positioned msg now prev_hash sequence

abbrev pub written_if : LogEntry → Time → Result (Unit {0}) → Stage
written_if entry now (err e) = idle
written_if entry now (ok _) = written entry now

abbrev pub windowed_at : LogEntry → Time → Result (ℕ × ℕ) → Stage
windowed_at tip now (err e) = idle
windowed_at tip now (ok (from, index)) = windowed tip now from index

abbrev pub snapped_if : LogEntry → MerkleSnapshot → Result (Unit {0}) → Stage
snapped_if tip snap (err e) = idle
snapped_if tip snap (ok _) = snapped tip snap

module _ {S C B : Type 0} (ports : Ports S C B) where
  abbrev pub gathered_from : Bytes → LogEntry → Time → ℕ → ℕ → Result (List LogEntry) → Stage
  gathered_from chat_id tip now from index (err e) = idle
  gathered_from chat_id tip now from index (ok window) =
      gathered tip (make_snapshot ports chat_id tip now from index window)

  -- The next step of the call that holds the lock of a chat.
  unfoldable pub advance : Bytes → Log S C B → Stage → Log S C B × Stage
  advance chat_id l idle = (l, idle)
  advance chat_id l (checked msg now) =
      (l, positioned_at msg now (next_position (ports.storage.last_entry l.store chat_id)))
  advance chat_id l (positioned msg now prev_hash sequence) =
      let entry = make_entry ports msg prev_hash sequence in
      let (r, store) = ports.storage.append_entry l.store chat_id entry in
      (record l { store = store }, written_if entry now r)
  advance chat_id l (written entry now) = (
    publish ports l (entry_event entry),
    if fills_window entry.sequence then notified entry now else idle,
  )
  advance chat_id l (notified tip now) =
      (l, windowed_at tip now (next_window (ports.storage.latest_snapshot l.store chat_id)))
  advance chat_id l (windowed tip now from index) = (
    l,
    gathered_from chat_id tip now from index (ports.storage.entries_since l.store chat_id from),
  )
  advance chat_id l (gathered tip snap) =
      let (r, store) = ports.storage.save_snapshot l.store snap in
      (record l { store = store }, snapped_if tip snap r)
  advance chat_id l (snapped tip snap) = (
    record l { cache = ports.cache.set_merkle_root l.cache chat_id snap.merkle_root },
    cached tip,
  )
  advance chat_id l (cached tip) = (publish ports l (snapshot_event chat_id tip), idle)

  -- Some steps of the call of one chat, with no other call between them.
  unfoldable pub finish : Bytes → ℕ → Log S C B × Stage → Log S C B × Stage
  finish chat_id zero s = s
  finish chat_id (suc n) s = finish chat_id n (advance chat_id s.0 s.1)

  -- A message that fails a check is refused, and one whose chat is locked waits: nothing happens.
  abbrev pub may_enter : Node S C B → SignedMessage → Bool
  may_enter n msg =
      supported_version msg.schema_version
      && (verify_message ports.ed25519 msg && is_free (n.stage msg.chat_id))

  unfoldable pub act : Node S C B → Action → Node S C B
  act n (enter msg now) =
      if may_enter n msg
      then record n { stage = set_stage msg.chat_id (checked msg now) n.stage }
      else n
  act n (proceed chat_id) =
      let (l, s) = advance chat_id n.log (n.stage chat_id) in
      record { log = l; stage = set_stage chat_id s n.stage }

  unfoldable pub act_all : Node S C B → List Action → Node S C B
  act_all n [] = n
  act_all n (action ∷ actions) = act_all (act n action) actions
