-- ===== src/Chatlog/Queries.antt =====
-- The methods of internal/chatlog/log.go that change nothing: proofs, history, verification, sync.
use decentralized_messenger.Common.{
  ℕ, ◌+◌, ◌-◌, ◌/◌, ◌%◌, ◌^◌, true, false, not, List, [], ◌∷◌, ◌++◌, ◌&&◌, Option, none, some, ltb,
  leb, ◌==◌, if◌then◌else◌, Bytes, codes, bytes_eq, length, take, get_elem?,
}
use decentralized_messenger.Codec.Decimal.{u64, format_uint}
use decentralized_messenger.Result.{
  Result, ok, err, not_snapshotted, root_mismatch, window_incomplete, panic, is_not_found, ◌>>=◌,
}
use decentralized_messenger.Models.{
  LogEntry, MerkleSnapshot, genesis_hash, snapshot_interval, compute_hash,
}
use decentralized_messenger.Crypto.Keys.{verify_message}
use decentralized_messenger.Merkle
use decentralized_messenger.Merkle.{ProofNode}
use decentralized_messenger.Chatlog.{
  Ports, Log, InclusionProof, MessageVerification, VerifyResult, SyncBundle, supported_version,
  next_u64, hashes,
}

-- `a - b` of `uint64`.
unfoldable pub sub_u64 : ℕ → ℕ → ℕ
sub_u64 a b = (a + u64 - b) % u64

module _ {S C B : Type 0} (ports : Ports S C B) where
  open ports use {sha256, ed25519}

  -- `ProveInclusion` behind the computation of the proof: the roots are compared, and the leaf is
  -- read, which panics out of range.
  unfoldable pub finish_proof :
      Bytes
      → ℕ
      → MerkleSnapshot
      → ℕ
      → List Bytes
      → ℕ
      → List ProofNode × Bytes
      → Result InclusionProof
  finish_proof chat_id sequence snap snap_index leaves local_idx (nodes, root) =
      if not (bytes_eq root snap.merkle_root)
      then err root_mismatch
      else elim (get_elem? leaves local_idx) [
        | none ↦ err panic
        | some leaf ↦ ok (record {
          chat_id = chat_id;
          sequence = sequence;
          entry_hash = leaf;
          snapshot_index = snap_index;
          merkle_root = snap.merkle_root;
          nodes = nodes;
        })
      ]

  -- `ProveInclusion`, from the snapshot and the entries from its window on. A size that is negative
  -- as an `int` makes `make` panic.
  unfoldable pub prove_in_window :
      Bytes → ℕ → MerkleSnapshot → ℕ → List LogEntry → Result InclusionProof
  prove_in_window chat_id sequence snap snap_index window =
      let size = next_u64 (sub_u64 snap.to_sequence snap.from_sequence) in
      if leb (2 ^ 63) size
      then err panic
      else if ltb (length window) size
      then err (window_incomplete (length window) size)
      else (let leaves = take size (hashes window) in
          let local_idx = sub_u64 sequence snap.from_sequence in
          finish_proof chat_id sequence snap snap_index leaves local_idx
            (Merkle.proof sha256 leaves local_idx))

  unfoldable pub prove_against :
      Log S C B → Bytes → ℕ → ℕ → Result MerkleSnapshot → Result InclusionProof
  prove_against l chat_id sequence snap_index (err e) =
      if is_not_found e then err not_snapshotted else err e
  prove_against l chat_id sequence snap_index (ok snap) = do
    window ← ports.storage.entries_since l.store chat_id snap.from_sequence
    prove_in_window chat_id sequence snap snap_index window

  -- `ProveInclusion`.
  unfoldable pub prove_inclusion : Log S C B → Bytes → ℕ → Result InclusionProof
  prove_inclusion l chat_id sequence =
      let snap_index = sequence / snapshot_interval in
      prove_against l chat_id sequence snap_index
        (ports.storage.snapshot_at l.store chat_id snap_index)

  -- `History`. A limit of 0 stands for each limit that is not positive.
  unfoldable pub history : Log S C B → Bytes → ℕ → ℕ → Result (List LogEntry)
  history l chat_id from limit = do
    entries ← ports.storage.entries_since l.store chat_id from
    ok (if ltb 0 limit && ltb limit (length entries) then take limit entries else entries)

  -- `Entry`.
  unfoldable pub entry : Log S C B → Bytes → ℕ → Result LogEntry
  entry l chat_id sequence = ports.storage.entry l.store chat_id sequence

  -- The default case of the switch of `VerifyEntry`, from the previous hash that is expected.
  unfoldable pub check_link : ℕ → LogEntry → Bytes → MessageVerification
  check_link sequence e expected_prev =
      if not (bytes_eq e.prev_hash expected_prev)
      then record {
        sequence = sequence;
        valid = false;
        reason = codes "broken chain link to previous entry";
      }
      else record { sequence = sequence; valid = true; reason = [] }

  unfoldable pub expected_prev : Log S C B → Bytes → ℕ → Result Bytes
  expected_prev l chat_id sequence =
      if ltb 0 sequence
      then (do prev ← ports.storage.entry l.store chat_id (sequence - 1); ok prev.entry_hash)
      else ok genesis_hash

  unfoldable pub check_entry : Log S C B → Bytes → ℕ → LogEntry → Result MessageVerification
  check_entry l chat_id sequence e =
      let invalid = λ (reason : Bytes).
        let res : MessageVerification = record {
          sequence = sequence;
          valid = false;
          reason = reason;
        } in
        ok res in
      if not (supported_version e.message.schema_version)
      then invalid (codes "unsupported schema version")
      else if not (bytes_eq (compute_hash sha256 e) e.entry_hash)
      then invalid (codes "tampered entry")
      else if not (verify_message ed25519 e.message)
      then invalid (codes "bad signature")
      else (do prev ← expected_prev l chat_id sequence; ok (check_link sequence e prev))

  -- `VerifyEntry`.
  unfoldable pub verify_entry : Log S C B → Bytes → ℕ → Result MessageVerification
  verify_entry l chat_id sequence = do
    e ← ports.storage.entry l.store chat_id sequence
    check_entry l chat_id sequence e

  abbrev fails : Bytes → ℕ → VerifyResult
  fails reason at = record { valid = false; entries = 0; reason = reason ++ format_uint at }

  -- The loop of `Verify` from position `i` on, with the count of entries that it returns at its end.
  unfoldable pub verify_loop : ℕ → ℕ → Bytes → List LogEntry → VerifyResult
  verify_loop total i prev_hash [] = record { valid = true; entries = total; reason = [] }
  verify_loop total i prev_hash (e ∷ entries) =
      let rest = verify_loop total (i + 1) e.entry_hash entries in
      if not (e.sequence == i)
      then fails (codes "sequence gap at ") i
      else if not (bytes_eq e.prev_hash prev_hash)
      then fails (codes "broken chain at seq ") e.sequence
      else if not (supported_version e.message.schema_version)
      then fails (codes "unsupported schema version at seq ") e.sequence
      else if not (bytes_eq (compute_hash sha256 e) e.entry_hash)
      then fails (codes "tampered entry at seq ") e.sequence
      else if not (verify_message ed25519 e.message)
      then fails (codes "bad signature at seq ") e.sequence
      else rest

  -- `Verify`.
  unfoldable pub verify : Log S C B → Bytes → Result VerifyResult
  verify l chat_id = do
    entries ← ports.storage.entries_since l.store chat_id 0
    ok (verify_loop (length entries) 0 genesis_hash entries)

  -- The start of `Sync`: the latest snapshot, if there is one, and where the entries after it begin.
  unfoldable pub sync_start : Result MerkleSnapshot → Result (Option MerkleSnapshot × ℕ)
  sync_start (ok snap) = ok (some snap, next_u64 snap.to_sequence)
  sync_start (err e) = if is_not_found e then ok (none, 0) else err e

  unfoldable pub current_hash : Result LogEntry → Result Bytes
  current_hash (ok last) = ok last.entry_hash
  current_hash (err e) = if is_not_found e then ok genesis_hash else err e

  -- `Sync`.
  unfoldable pub sync : Log S C B → Bytes → Result SyncBundle
  sync l chat_id = do
    start ← sync_start (ports.storage.latest_snapshot l.store chat_id)
    entries ← ports.storage.entries_since l.store chat_id start.1
    tip ← current_hash (ports.storage.last_entry l.store chat_id)
    ok (record { snapshot = start.0; new_entries = entries; current_hash = tip })
