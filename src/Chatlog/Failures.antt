-- ===== src/Chatlog/Failures.antt =====
-- `Append` of internal/chatlog/log.go on a store whose operations may fail: a read with an error of
-- its own, a write with an error although it may have taken effect, such as a time-out.
pub mod Outcomes
pub mod Run
use decentralized_messenger.Common.{
  ℕ, ◌≡◌, ◌⊎◌, true, false, List, [], ◌∷◌, ◌++◌, ◌==◌, ◌&&◌, if◌then◌else◌, Bytes, bytes_eq, length,
  last?, drop,
}
use decentralized_messenger.Result.{Error, Result, ok, err, sequence_gap, snapshot, is_not_found}
use decentralized_messenger.Codec.Time.{Time}
use decentralized_messenger.Models.{LogEntry, MerkleSnapshot, SignedMessage, genesis_hash}
use decentralized_messenger.Crypto.Keys.{verify_message}
use decentralized_messenger.Storage.{StorageOps, or_not_found}
use decentralized_messenger.Chatlog.{
  Ports, Log, supported_version, fills_window, make_entry, append_message,
}
use decentralized_messenger.Chatlog.Chain.{tip_hash}

-- An error that is not `ErrNotFound`.
abbrev pub Fails : {A : Type 0} → Result A → Type 0
Fails r = (e : Error) × (r ≡ err e) × (is_not_found e ≡ false)

-- An operation answers as it should, or it fails.
abbrev pub Answers : {A : Type 0} → Result A → Result A → Type 0
Answers right r = (r ≡ right) ⊎ Fails r

-- The contract of such a store, over the entries that it holds. Of its snapshots it promises nothing.
pub record KeepsEntries {S : Type 0} (ops : StorageOps S) : Type 0 where
  pub entries : S → Bytes → List LogEntry
  pub append_entry-cases :
      (s : S) (c : Bytes) (e : LogEntry)
      → (((ops.append_entry s c e).0
            ≡ (if length (entries s c) == e.sequence then ok tt else err sequence_gap))
          × ((d : Bytes)
              → entries (ops.append_entry s c e).1 d ≡ (
                  if length (entries s c) == e.sequence && bytes_eq c d
                  then entries s c ++ e ∷ []
                  else entries s d)))
        ⊎ (Fails (ops.append_entry s c e).0
            × (((d : Bytes) → entries (ops.append_entry s c e).1 d ≡ entries s d)
                ⊎ ((d : Bytes)
                    → entries (ops.append_entry s c e).1 d ≡ (
                        if length (entries s c) == e.sequence && bytes_eq c d
                        then entries s c ++ e ∷ []
                        else entries s d))))
  pub last_entry_lem :
      (s : S) (c : Bytes) → Answers (or_not_found (last? (entries s c))) (ops.last_entry s c)
  pub entries_since_lem :
      (s : S) (c : Bytes) (i : ℕ) → Answers (ok (drop i (entries s c))) (ops.entries_since s c i)
  pub entries-save_snapshot :
      (s : S) (p : MerkleSnapshot) (d : Bytes) → entries (ops.save_snapshot s p).1 d ≡ entries s d

-- A message that the checks of `Append` let through.
abbrev pub Passes : {S C B : Type 0} → Ports S C B → SignedMessage → Type 0
Passes ports msg =
    (supported_version msg.schema_version ≡ true) × (verify_message ports.ed25519 msg ≡ true)

module _ {S C B : Type 0} (ports : Ports S C B) (keeps : KeepsEntries ports.storage) where
  -- The entry that `Append` makes for a message.
  abbrev pub entry_for : Log S C B → SignedMessage → LogEntry
  entry_for l msg =
      let es = keeps.entries l.store msg.chat_id in
      make_entry ports msg (tip_hash genesis_hash es) (length es)

  -- The chat of a message has one entry more, and no other chat changes.
  abbrev pub Written : Log S C B → SignedMessage → Log S C B → Type 0
  Written l msg l' =
      (d : Bytes)
      → keeps.entries l'.store d ≡ (
          if bytes_eq msg.chat_id d
          then keeps.entries l.store msg.chat_id ++ entry_for l msg ∷ []
          else keeps.entries l.store d)

  abbrev pub Stored : Log S C B → SignedMessage → Log S C B → Type 0
  Stored l msg l' = Passes ports msg × Written l msg l'

  abbrev pub Unchanged : Log S C B → Log S C B → Type 0
  Unchanged l l' = (d : Bytes) → keeps.entries l'.store d ≡ keeps.entries l.store d

  -- What a call of `Append` comes to: the entry is stored and returned; it is stored, but the
  -- snapshot of the window that it fills failed, so an error is returned; an error is returned and
  -- nothing is stored; or the store reported an error for a write that took effect.
  pub data Outcome (l : Log S C B) (msg : SignedMessage) (r : Result LogEntry) (l' : Log S C B)
      : Type 0 where
    returned : r ≡ ok (entry_for l msg) → Stored l msg l' → Outcome l msg r l'
    unsealed :
        (e : Error)
        → r ≡ err (snapshot e)
        → fills_window (entry_for l msg).sequence ≡ true
        → Stored l msg l'
        → Outcome l msg r l'
    refused : (e : Error) → r ≡ err e → Unchanged l l' → Outcome l msg r l'
    unsure :
        (e : Error)
        → r ≡ err e
        → Fails (ports.storage.append_entry l.store msg.chat_id (entry_for l msg)).0
        → Stored l msg l'
        → Outcome l msg r l'
