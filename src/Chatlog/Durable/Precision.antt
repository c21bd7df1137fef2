-- ===== src/Chatlog/Durable/Precision.antt =====
-- What `Append` of internal/chatlog/log.go on the ScyllaDB adapter does to a message whose time has more
-- than millisecond precision.
use decentralized_messenger.Common.{
  ℕ, suc, ◌+◌, ◌^◌, ◌<◌, ◌≡◌, ◌≢◌, refl, ap, ◌∙◌, ◌⊎◌, inl, inr, true, false, List, [], ◌∷◌, ◌++◌,
  map, map-append, arith, Bool-cases, Bytes, length,
}
use decentralized_messenger.Codec.Decimal.{u64, pos}
use decentralized_messenger.Codec.Time.{Time}
use decentralized_messenger.Result.{ok}
use decentralized_messenger.Hash.{IsSized, Collision}
use decentralized_messenger.Models.{
  SignedMessage, LogEntry, signing_payload, truncate_to_millisecond, compute_hash, genesis_hash,
}
use decentralized_messenger.Models.Chaining.{entry_texts, compute_hash_inj, append_inj_end}
use decentralized_messenger.Crypto.Keys.{verify_message}
use decentralized_messenger.Storage.{IsStorage}
use decentralized_messenger.Storage.Scylla.{
  Session, EntryRow, entry_row, scan_entry, entries_since, all_entries, append_entry,
}
use decentralized_messenger.Storage.Scylla.Table.{IsTable, stored_entry}
use decentralized_messenger.Storage.Scylla.Holds.{scan_all, uint64-int64, int64-small}
use decentralized_messenger.Storage.Scylla.Writes.{written_end, end-IsDense}
use decentralized_messenger.Storage.Scylla.Dense.{rows_from_zero}
use decentralized_messenger.Chatlog.{
  Ports, Log, VerifyResult, supported_version, fills_window, make_entry, publish, announce_entry,
  append_message,
}
use decentralized_messenger.Chatlog.Queries.{verify, verify_loop}
use decentralized_messenger.Chatlog.Chain.{IsChain, verify_loop_sound}
use decentralized_messenger.Chatlog.Append.{next_entry}
use decentralized_messenger.Chatlog.Invariant.{IsWellFormed}
use decentralized_messenger.Chatlog.Durable.{durable, IsSame, IsStorable}
use decentralized_messenger.Chatlog.Durable.Step
use decentralized_messenger.Chatlog.Durable.Step.{middle, append_message-durable}

-- A message as it is read back.
abbrev pub read_message : SignedMessage → SignedMessage
read_message msg = record msg { timestamp = truncate_to_millisecond msg.timestamp }

abbrev pub read_entry : LogEntry → LogEntry
read_entry e = record e { message = read_message e.message }

scan_stored :
    (e : LogEntry)
    → e.sequence < u64
    → scan_entry e.message.chat_id (stored_entry (entry_row e.message.chat_id e)) ≡ read_entry e
unfolding scan_entry entry_row
scan_stored e h = rw (uint64-int64 e.sequence h) refl

-- The last link of a chain.
IsChain-last :
    {S C B : Type 0} (ports : Ports S C B) (i : ℕ) (prev : Bytes) (es : List LogEntry)
    (e : LogEntry)
    → IsChain ports i prev (es ++ e ∷ [])
    → compute_hash ports.sha256 e ≡ e.entry_hash
IsChain-last ports i prev [] e (link, _) = link.hashed
IsChain-last ports i prev (f ∷ es) e (_, chain) = IsChain-last ports (i + 1) f.entry_hash es e chain

module _ {D S C B : Type 0} {session : Session D} (ports : Ports S C B) (table : IsTable session)
    (laws : IsStorage ports.storage) (sized : IsSized ports.sha256) (ld : Log D C B) (l : Log S C B)
    (msg : SignedMessage) (now : Time) (same : IsSame ports table laws ld l)
    (wf : IsWellFormed ports laws l) (storable : IsStorable ports table laws msg)
    (room : suc (length (laws.entries l.store msg.chat_id)) < 2 ^ 63)
    (supported : supported_version msg.schema_version ≡ true)
    (signed : verify_message ports.ed25519 msg ≡ true)
    (plain : fills_window (length (laws.entries l.store msg.chat_id)) ≡ false) where
  abbrev es : List LogEntry
  es = laws.entries l.store msg.chat_id

  abbrev added : LogEntry
  added = next_entry ports laws l msg

  accepted_row : table.Accepted (entry_row msg.chat_id added)
  accepted_row =
      Step.accepted_row ports table laws sized ld l msg now same wf storable room supported signed

  announced :
      append_message (durable session ports) ld msg now
      ≡ announce_entry
          (durable session ports)
          (middle ports table laws sized ld l msg now same wf storable room supported signed)
          added
          now
          (ok tt)
  announced =
      append_message-durable ports table laws sized ld l msg now same wf storable room supported
        signed

  after_append :
      ((append_message (durable session ports) ld msg now).0 ≡ ok added)
      × ((append_message (durable session ports) ld msg now).1.store
          ≡ (append_entry session ld.store msg.chat_id added).1)
  unfolding announce_entry publish make_entry
  after_append =
      (ap (λ r. r.0) announced ∙ rw plain refl, ap (λ r. r.1.store) announced ∙ rw plain refl)

  read_all :
      entries_since session (append_entry session ld.store msg.chat_id added).1 msg.chat_id 0
      ≡ ok (es ++ read_entry added ∷ [])
  unfolding entries_since all_entries make_entry
  read_all =
      let holds = same.holds in
      let scanned : map (scan_entry msg.chat_id) (map (entry_row msg.chat_id) es) ≡ es =
        scan_all msg.chat_id 0 es (holds.kept msg.chat_id) (omega arith) in
      rw
        (
          int64-small 0 (omega arith),
          table.select_since_lem _ msg.chat_id (pos 0),
          written_end table laws ld.store l.store holds added refl accepted_row room,
          rows_from_zero (λ (r : EntryRow). r.sequence) 0 _
              (end-IsDense table laws ld.store l.store holds added refl accepted_row room),
          holds.entries msg.chat_id,
          map-append,
          scanned,
          scan_stored added (omega arith),
        )
        refl

  hashed : added.entry_hash ≡ compute_hash ports.sha256 added
  unfolding make_entry compute_hash
  hashed = refl

  -- The text of an entry that is valid as it is read back is the one that was signed.
  same_payload :
      compute_hash ports.sha256 (read_entry added) ≡ added.entry_hash
      → (signing_payload (read_message msg) ≡ signing_payload msg)
        ⊎ Collision ports.sha256
            (entry_texts ports.sha256 (read_entry added))
            (entry_texts ports.sha256 added)
  unfolding make_entry
  same_payload h =
      elim (compute_hash_inj ports.sha256 sized (read_entry added) added (omega arith) (omega arith)
        (h ∙ hashed)) [
          | inr found ↦ inr found
          | inl (_, _, text) ↦
              inl
                (append_inj_end (signing_payload (read_message msg)) (signing_payload msg)
                  msg.signature msg.signature refl text).0
        ]

  -- For a signed message of a supported version whose time has more than millisecond precision, so
  -- that a column of the tables changes the signed text, and whose entry fills no window, Append
  -- on the ScyllaDB adapter succeeds, and Verify then calls the log of the chat not valid, or one
  -- of the texts hashed for the entry as it is read back and a different one hashed for the entry
  -- as it was appended have one SHA-256 digest. The log keeps the invariant and the tables accept
  -- the message with any hashes of ASCII; the chat has fewer than 2^63 - 1 entries. The tables
  -- keep the contract of their statements. Digests are of 32 bytes. The store keeps the contract
  -- of its port.
  pub verify-imprecise :
      signing_payload (read_message msg) ≢ signing_payload msg
      → ((append_message (durable session ports) ld msg now).0 ≡ ok added)
        × (r : VerifyResult) × (verify
              (durable session ports)
              (append_message (durable session ports) ld msg now).1
              msg.chat_id
            ≡ ok r)
        × ((r.valid ≡ false)
            ⊎ Collision ports.sha256
                (entry_texts ports.sha256 (read_entry added))
                (entry_texts ports.sha256 added))
  unfolding verify
  verify-imprecise differs =
      let all = es ++ read_entry added ∷ [] in
      let r = verify_loop (durable session ports) (length all) 0 genesis_hash all in
      (
        after_append.0,
        r,
        rw (after_append.1, read_all) refl,
        elim (Bool-cases r.valid) [
          | inr invalid ↦ inl invalid
          | inl valid ↦
              elim (same_payload (
                IsChain-last (durable session ports) 0 genesis_hash es (read_entry added) (
                  verify_loop_sound (durable session ports) (length all) 0 genesis_hash all
                    valid))) [ inl payload ↦ absurd (differs payload) | inr found ↦ inr found ]
        ],
      )
